-- ===== src/Lib.antt =====
-- EyeQ, a Linux kernel module that divides a server's network bandwidth between its tenants: models
-- of its C files and theorems about them.
--
-- The sender. qdisc.c hands each outgoing packet to tx.c, which finds the tenant's transmit class by
-- source address and the limiter of the destination. rl.c queues the packet in that limiter's queue
-- of the cpu (`iso_rl_enqueue`) and serves the queue (`iso_rl_dequeue`): packets that the limiter's
-- tokens pay for go on to the limiter of the class, and from there to the device. tx.c divides the
-- device's rate between the classes by weight.
-- The receiver. rx.c counts what the device receives and advertises one rate to its virtual queues
-- (vq.c), one for each tenant. Each measures what its tenant receives, computes a feedback rate, and
-- sends it to the senders in feedback packets, where it becomes the rate of the destination's limiter.
-- The configuration. params.c takes requests that create, weigh, cap and delete classes and queues, and
-- that associate a class with a queue; they run one at a time under a semaphore.
--
-- Files (paths of the sources from the repository's root):
--   Kernel      packets, and the parameters that stand for the kernel: the clock, the online cpus, DS
--               field and DSCP helpers, GSO segmentation, `skb_trim`, `jhash_1word`. Nothing is assumed
--               of them but what a theorem's hypotheses say.
--   Params      params.c, params.h: the tunable variables as a record, and their initial values.
--   Packet      rl.h, rx.h, tx.h: feedback packets and ECN bits (skb_has_feedback,
--               iso_generate_feedback, iso_clear_ecn and others).
--   Class       class.h: the class of a packet by IP address (iso_txc_classify, iso_rx_classify), and
--               its text form (iso_class_show, iso_class_parse) with a proof in Class.Text.
--     Builds    class.h: the operations on classes of every build, as a record of operations.
--   Rc          rc.h, rc.c: the rate controller of a destination (iso_rc_rx).
--   Rl          rl.h, rl.c: the state of a limiter, its bucket (iso_rl_clock, iso_rl_borrow_tokens).
--     Enqueue   iso_rl_enqueue, iso_rl_has_space_for.
--     Dequeue   iso_rl_dequeue where rl->txc is NULL, the limiter of a class.
--     Relay     iso_rl_dequeue where it is set, the limiter of a destination.
--     Tasklet   iso_rl_xmit_tasklet and iso_rl_timeout; its child Schedule has the step relation of
--               one cpu: a packet is sent, the timer fires, the tasklet runs.
--   Vq          vq.h, vq.c: a virtual queue; Vq.Drain has iso_vq_enqueue and iso_vq_drain, Vq.Rates
--               has iso_vq_calculate_rates for a list of queues.
--     Table     vq.h, vq.c, rx.c, params.c: the queues of a device, iso_vq_find, iso_vq_alloc,
--               iso_vq_free, iso_vq_calculate_rates, iso_vq_install, and set_vq_weight, set_vq_rate
--               and delete_vq after their line is parsed.
--   Tx          tx.h, tx.c: the classes of a device, iso_txc_recompute_rates and iso_txc_tick.
--     Classes   class.h, tx.h, tx.c, params.c: iso_txc_find, iso_txc_alloc, iso_txc_install, and
--               set_txc_weight, set_txc_rate and delete_txc after their line is parsed.
--     States    tx.c: the destinations of a class, iso_state_get, iso_pick_rl, iso_txc_prealloc,
--               iso_txc_allocator.
--     Path      tx.c: the handler iso_tx; Tx.Sound proves what it keeps.
--     Free      tx.c, rl.c: iso_txc_free with what it releases, iso_rl_free, iso_state_free.
--     Exit      tx.c: how iso_tx_exit releases the classes of a device.
--   Rx          rx.h, rx.c: iso_rx_stats_update and iso_rx_rcp_update.
--     Feedback  rx.c: how iso_rx applies the feedback of a packet, and generates feedback.
--     Handler   rx.c: the handler iso_rx; Rx.Sound proves what it keeps.
--   Config      params.c: the requests on their device, with the reference counts of the queues
--               (iso_sys_create_txc to iso_sys_recompute_dev), the search for the device, and the
--               semaphore; the children prove, and Config.Histories is about sequences of requests.
--   Qdisc       qdisc.c: iso_enqueue, iso_dequeue, skb_xmit and iso_rx_handler.
--     Mq        qdisc.c, tx.c, rx.c: mq_init, mq_destroy and mq_attach, with what iso_tx_init,
--               iso_rx_init, iso_tx_exit and iso_rx_exit allocate and release, counted by kind.
--   Direct      direct.c: the build without a queueing discipline, iso_ndo_start_xmit, skb_xmit with the
--               locks of the transmit queues, iso_rx_handler, and the hooks' init and exit.
--   Module      main.c, stats.c, params.c, qdisc.c: iso_init and iso_exit, and what they register.
--   Traffic     a device over time: packets are sent and received, and the allocator fills the pools, in
--               any order.
--   Examples    a small kernel, tests, and the theorems at concrete inputs.
-- The other modules below Class, Rc, Rl, Vq, Tx, Rx, Qdisc, Direct, Traffic and Module prove; Common
-- has what they share.
--
-- Conventions. A struct is a record with the source's fields, less locks and list heads; a function
-- takes the states that it changes and returns them. Words of 32 and 64 bits are numbers, with the
-- wrap of each operation written out. What the kernel decides is an argument: the outcome of a
-- trylock, the result of an allocation, the readings of the clock (`ktime` of the number of the
-- reading) and `iso_exiting`. Per-cpu data is a function of the cpu. Where an object is freed, the
-- objects stand in a store, and an access to one that is not there is a fault, as a division by zero
-- is. A loop over a list is recursion on it. Only the loop of the tasklet has fuel, 251 rounds: its
-- budget ends it after 250, as Rl.Tasklet.Runs shows.
-- A double test of the same time around a trylock is one test, since nothing runs in between here.
--
-- Not modelled: interleavings of cpus, except that trylocks fail at will; the printing functions and
-- /proc files; mq_dump to mq_walk of qdisc.c, which are copies of the kernel's sch_mq.c; bridge.c,
-- which calls iso_tx and iso_rx with other arguments than they have; and of class.h the text form of
-- the builds by device and by Ethernet address. The text of a request is parsed by the kernel, so a
-- request's numbers are arguments.
pub mod Class
pub mod Common
pub mod Config
pub mod Examples
pub mod Kernel
pub mod Params
pub mod Module
pub mod Packet
pub mod Qdisc
pub mod Direct
pub mod Rc
pub mod Rl
pub mod Rx
pub mod Traffic
pub mod Tx
pub mod Vq
