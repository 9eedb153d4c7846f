-- ===== src/Rx/Exhausted.antt =====
-- A class whose pool of states has run out: the next marked packet of a new sender.
use eyeq.Kernel.{Kernel}
use eyeq.Params.{Params}
