-- ===== src/Module/Loading.antt =====
-- Loading the module registers all or nothing, and unloading it takes everything back.
use eyeq.Common.{◌≡◌, refl, ◌⊎◌, Bool, true, false, Bool-cases, inl, inr, some}
use eyeq.Module.{
  Accepts, Module, iso_init, iso_exit, init_stats, stats_init, params_init, qdisc_register,
  device_name,
}

-- Nothing of the module is registered.
pub unregistered : Module → Module
unregistered m = record m {
  sysctl = false;
  stats_proc = false;
  csvstats_proc = false;
  qdisc = false;
}

pub registered : Module → Module
registered m = record m { sysctl = true; stats_proc = true; csvstats_proc = true; qdisc = true }

pub named : Module → Module
named m = record m { iso_exiting = false; iso_param_dev = some (device_name m.iso_param_dev) }

-- The ends of loading: everything is registered, and `iso_exit` takes it all back; or one
-- registration fails, and nothing is registered.
pub IsLoaded : Accepts → Module → Bool × Module → Type 0
IsLoaded a m r =
    ((r ≡ (true, registered (named m)))
      × (iso_exit r.1 ≡ record (unregistered (named m)) { iso_exiting = true })
      × (a.sysctl ≡ true)
      × (a.stats_proc ≡ true)
      × (a.csvstats_proc ≡ true)
      × (a.qdisc ≡ true))
    ⊎ ((r ≡ (false, unregistered (named m)))
        × ((a.sysctl ≡ false)
            ⊎ (a.stats_proc ≡ false)
            ⊎ (a.csvstats_proc ≡ false)
            ⊎ (a.qdisc ≡ false)))

-- Loading a module of which nothing is registered either succeeds with everything registered, and
-- unloading it takes everything back and says so in `iso_exiting`; or one of the four registrations
-- fails, and nothing is registered. In both cases the module's device is the parameter, or the
-- default, cut off at a line end in its first 32 characters.
pub iso_init-IsLoaded : (a : Accepts) (m : Module) → IsLoaded a m (iso_init a (unregistered m))
unfolding iso_init init_stats stats_init params_init qdisc_register unregistered registered named
    IsLoaded iso_exit
iso_init-IsLoaded a m = elim (Bool-cases a.sysctl) [
  | inr bad ↦ rw bad (inr (refl, inl refl))
  | inl tunable ↦ elim (Bool-cases a.stats_proc) [
    | inr bad ↦ rw (tunable, bad) (inr (refl, inr (inl refl)))
    | inl stats ↦ elim (Bool-cases a.csvstats_proc) [
      | inr bad ↦ rw (tunable, stats, bad) (inr (refl, inr (inr (inl refl))))
      | inl csv ↦ elim (Bool-cases a.qdisc) [
        | inr bad ↦ rw (tunable, stats, csv, bad) (inr (refl, inr (inr (inr refl))))
        | inl all ↦ rw (tunable, stats, csv, all) (inl (refl, refl, refl, refl, refl, refl))
      ]
    ]
  ]
]
