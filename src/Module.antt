-- ===== src/Module.antt =====
-- main.c, with stats.c, params.c and qdisc.c as far as they register with the kernel: how the module
-- is loaded and unloaded (in the build that has the queueing discipline).
pub mod Loading
use eyeq.Common.{
  ℕ, suc, zero, Bool, true, false, List, [], ◌∷◌, Option, none, some, ◌==◌, if◌then◌else◌,
}

-- Which of the kernel's registrations succeed.
pub record Accepts : Type 0 where
  pub sysctl : Bool
  pub stats_proc : Bool
  pub csvstats_proc : Bool
  pub qdisc : Bool

-- What is registered; `iso_exiting`; and the parameter `iso_param_dev`, a string.
pub record Module : Type 0 where
  pub sysctl : Bool
  pub stats_proc : Bool
  pub csvstats_proc : Bool
  pub qdisc : Bool
  pub iso_exiting : Bool
  pub iso_param_dev : Option (List ℕ)

-- `iso_params_init` and `iso_params_exit`: whether it succeeds, and the module.
unfoldable pub params_init : Accepts → Module → Bool × Module
params_init a m = if a.sysctl then (true, record m { sysctl = true }) else (false, m)

abbrev pub params_exit : Module → Module
params_exit m = record m { sysctl = false }

-- `iso_stats_init` and `iso_stats_exit`
unfoldable pub stats_init : Accepts → Module → Bool × Module
stats_init a m =
    if a.stats_proc
    then (if a.csvstats_proc
        then (true, record m { stats_proc = true; csvstats_proc = true })
        else (false, record m { stats_proc = false }))
    else (false, m)

abbrev pub stats_exit : Module → Module
stats_exit m = record m { stats_proc = false; csvstats_proc = false }

-- `eyeq_qdisc_register` and `eyeq_qdisc_unregister`
unfoldable pub qdisc_register : Accepts → Module → Bool × Module
qdisc_register a m = if a.qdisc then (true, record m { qdisc = true }) else (false, m)

abbrev pub qdisc_unregister : Module → Module
qdisc_unregister m = record m { qdisc = false }

abbrev pub newline : ℕ
newline = 10

-- The loop that trims the parameter, for the characters that are left of 32.
unfoldable pub trim : ℕ → List ℕ → List ℕ
trim zero text = text
trim (suc left) [] = []
trim (suc left) (c ∷ text) = if c == newline then [] else c ∷ trim left text

-- "peth2"
abbrev pub default_dev : List ℕ
default_dev = 112 ∷ 101 ∷ 116 ∷ 104 ∷ 50 ∷ []

unfoldable pub device_name : Option (List ℕ) → List ℕ
unfolding trim
device_name none = trim 32 default_dev
device_name (some text) = trim 32 text

-- `iso_init` from its call of `iso_stats_init` on.
unfoldable pub init_stats : Accepts → Module → Bool × Module
unfolding stats_init qdisc_register
init_stats a m =
    let (counting, m') = stats_init a m in
    if counting
    then (let (queueing, m'') = qdisc_register a m' in
        if queueing then (true, m'') else (false, params_exit (stats_exit m'')))
    else (false, params_exit m')

-- `iso_init`: whether it returns 0, and the module.
unfoldable pub iso_init : Accepts → Module → Bool × Module
unfolding device_name params_init init_stats
iso_init a m =
    let named : Module = record m {
      iso_exiting = false;
      iso_param_dev = some (device_name m.iso_param_dev);
    } in
    let (tunable, m') = params_init a named in if tunable then init_stats a m' else (false, m')

-- `iso_exit`
unfoldable pub iso_exit : Module → Module
iso_exit m = qdisc_unregister (params_exit (stats_exit (record m { iso_exiting = true })))
