-- ===== src/Plugins/Lifecycle/Runs.antt =====
-- The manager with the code of the plugins at work between its operations.
use cyu_core.Base.{ℕ, ◌≡◌, ◌⊎◌, ap, sym, ◌∙◌, Bool, false, ◌==◌, ==_iff, inl, inr, Bool-cases}
use cyu_core.Plugins.Lifecycle.{Services, Manager, new_manager, set_shared, is_enabled_state}
use cyu_core.Plugins.Lifecycle.Reachable.{
  register_plugin_lem, IsSound, start, Step, plugin_registered, enabled_all, disabled_all,
  IsReachable-IsSound, IsSound-Step,
}
use cyu_core.Plugins.Lifecycle.Tidy.{
  Cleans, not_enabled, IsTidy, IsTidy-enable_all, IsTidy-disable_all, IsTidy-add_plugin,
}
use mathlib.Core.Path.{subst}

-- A sequence of operations on the manager, with work of the plugins' code between them: `IsWork o b s s'`
-- says that the code of the plugin `o` makes `s'` of `s`, where `b` is what acceptSubscriptions holds.
pub data IsRun {S : Type 0} (services : Services S) (initial : S)
    (IsWork : ℕ → Bool → S → S → Type 0) : Manager S → Type 0 where
  began : IsRun services initial IsWork (new_manager initial)
  operated :
      (m m' : Manager S)
      → IsRun services initial IsWork m
      → Step services m m'
      → IsRun services initial IsWork m'
  worked :
      (m : Manager S) (o : ℕ) (s' : S)
      → IsRun services initial IsWork m
      → IsWork o (m.entry_of o).accepts_subscriptions m.shared s'
      → IsRun services initial IsWork (set_shared s' m)

module _ {S : Type 0} (services : Services S) (cleans : Cleans services) where
  abbrev IsTidyHere : Manager S → Type 0
  IsTidyHere = IsTidy services cleans

  abbrev IsCleanRun : Manager S → Type 0
  IsCleanRun = IsRun services cleans.initial cleans.IsWork

  IsSound-set_shared : (s' : S) (m : Manager S) → IsSound m → IsSound (set_shared s' m)
  unfolding set_shared
  IsSound-set_shared s' m sound = record {
    settled = sound.settled;
    unregistered = sound.unregistered;
    idle = sound.idle;
  }

  IsRun-IsSound : (m : Manager S) → IsCleanRun m → IsSound m
  IsRun-IsSound _ began = IsReachable-IsSound services _ (start cleans.initial)
  IsRun-IsSound _ (operated m m' before s) = IsSound-Step services m m' (IsRun-IsSound m before) s
  IsRun-IsSound _ (worked m o s' before w) = IsSound-set_shared s' m (IsRun-IsSound m before)

  -- A plugin that is not enabled may register nothing.
  refused_or_other :
      (o p : ℕ) (m : Manager S)
      → IsSound m
      → is_enabled_state (m.entry_of p).state ≡ false
      → ((m.entry_of o).accepts_subscriptions ≡ false) ⊎ ((p == o) ≡ false)
  unfolding is_enabled_state
  refused_or_other o p m sound h = elim (Bool-cases (p == o)) [
    | inr d ↦ inr d
    | inl d ↦ elim (sound.settled p) [
      | inl off ↦
          inl
            (sym (ap (λ q. (m.entry_of q).accepts_subscriptions) ((==_iff p o).0 d)) ∙ off.refuses)
      | inr on ↦ absurd (let is_on = ap is_enabled_state on.state_enabled in cc)
    ]
  ]

  IsTidy-set_shared :
      (m : Manager S) (o : ℕ) (s' : S)
      → IsSound m
      → cleans.IsWork o (m.entry_of o).accepts_subscriptions m.shared s'
      → IsTidyHere m
      → IsTidyHere (set_shared s' m)
  unfolding set_shared
  IsTidy-set_shared m o s' sound w (good, clean) =
      let b = (m.entry_of o).accepts_subscriptions in
      (
        cleans.good_work o b m.shared s' w good,
        λ p h. cleans.work_spares o p b m.shared s' w (refused_or_other o p m sound h) (clean p h),
      )

  IsTidy-Step : (m m' : Manager S) → IsSound m → Step services m m' → IsTidyHere m → IsTidyHere m'
  IsTidy-Step m _ sound enabled_all tidy = IsTidy-enable_all services cleans m tidy
  IsTidy-Step m _ sound disabled_all tidy = IsTidy-disable_all services cleans m tidy
  IsTidy-Step m _ sound (plugin_registered m' described e) tidy =
      let (o, added, new) = register_plugin_lem described m m' e in
      let off = sound.unregistered o new in
      subst IsTidyHere (sym added)
        (IsTidy-add_plugin services cleans o m (tidy.1 o (not_enabled _ off.rests)) tidy)

  -- Whatever the operations on the manager and the code of the plugins did, a plugin that is not
  -- enabled has left nothing.
  pub IsRun-IsTidy : (m : Manager S) → IsCleanRun m → IsTidyHere m
  IsRun-IsTidy _ began = (cleans.good_initial, λ p h. cleans.clean_initial p)
  IsRun-IsTidy _ (operated m m' before s) =
      IsTidy-Step m m' (IsRun-IsSound m before) s (IsRun-IsTidy m before)
  IsRun-IsTidy _ (worked m o s' before w) =
      IsTidy-set_shared m o s' (IsRun-IsSound m before) w (IsRun-IsTidy m before)
