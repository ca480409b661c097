-- ===== src/Plugins/Lifecycle/Tidy.antt =====
-- What the services promise for one plugin, and what that makes of each operation of the manager.
use cyu_core.Base.{
  ℕ, ◌≡◌, ◌⊎◌, refl, ap, sym, ◌∙◌, Bool, true, false, Option, List, [], ◌∷◌, ◌==◌, ==_iff, inl, inr,
  Bool-cases, Outcome, ok, err,
}
use cyu_core.Plugins.Entry.{
  State, registered, enabling, enabled, disabling, disabled, failed, Failure, recover,
  on_success-elim, enable_phase, disable_phase,
}
use cyu_core.Plugins.Lifecycle.{
  Entry, Services, Manager, LifecycleError, manager_active, set_entry, set_active, set_shared,
  set_last_error, add_plugin, disable_entry, rollback, enable_failed, enable_loop, enable_planned,
  enable_all, disable_loop, disable_all, enable_plan, is_enabled_state, reverse_order,
}
use cyu_core.Plugins.Lifecycle.Settled.{is_resting}
use cyu_core.Plugins.Lifecycle.EnableAll.{Result, starting, started_manager}
use cyu_core.Plugins.Lifecycle.Reachable.{if_active}
use mathlib.Core.Path.{subst}

-- What enabling and disabling one plugin make of the services.
module _ {S : Type 0} (services : Services S) where
  abbrev pub enabled_shared : ℕ → S → S
  enabled_shared o s = (services.enable o (services.open_owner o s)).2

  abbrev pub disabled_shared : ℕ → S → S
  disabled_shared o s =
      services.remove_commands o
        (services.remove_events o (services.disable o (services.close_owner o s)).2)

-- What the services promise: enabling or disabling a plugin, and what its code does at another time,
-- leave nothing of a plugin that had nothing, other than of the one that is enabled or does it while it
-- may register; and disabling a plugin leaves nothing of it.
pub record Cleans {S : Type 0} (services : Services S) : Type 1 where
  pub IsClean : ℕ → S → Type 0
  pub IsGood : S → Type 0
  pub IsWork : ℕ → Bool → S → S → Type 0
  pub initial : S
  pub good_initial : IsGood initial
  pub clean_initial : (p : ℕ) → IsClean p initial
  pub good_enable : (o : ℕ) (s : S) → IsGood s → IsGood (enabled_shared services o s)
  pub good_disable : (o : ℕ) (s : S) → IsGood s → IsGood (disabled_shared services o s)
  pub good_work : (o : ℕ) (b : Bool) (s s' : S) → IsWork o b s s' → IsGood s → IsGood s'
  pub enable_spares :
      (o p : ℕ) (s : S) → (p == o) ≡ false → IsClean p s → IsClean p (enabled_shared services o s)
  pub disable_spares :
      (o p : ℕ) (s : S) → IsGood s → IsClean p s → IsClean p (disabled_shared services o s)
  pub disable_cleans : (o : ℕ) (s : S) → IsGood s → IsClean o (disabled_shared services o s)
  pub work_spares :
      (o p : ℕ) (b : Bool) (s s' : S)
      → IsWork o b s s'
      → (b ≡ false) ⊎ ((p == o) ≡ false)
      → IsClean p s
      → IsClean p s'

pub not_enabled : (st : State) → is_resting st ≡ true → is_enabled_state st ≡ false
unfolding is_resting is_enabled_state
not_enabled registered h = refl
not_enabled enabling h = refl
not_enabled enabled h = absurd cc
not_enabled disabling h = refl
not_enabled disabled h = refl
not_enabled failed h = refl

module _ {S : Type 0} (services : Services S) (cleans : Cleans services) where
  open cleans use {IsClean, IsGood}

  abbrev LeavesNothing : ℕ → Manager S → Type 0
  LeavesNothing p m = is_enabled_state (m.entry_of p).state ≡ false → IsClean p m.shared

  abbrev pub IsTidy : Manager S → Type 0
  IsTidy m = IsGood m.shared × ((p : ℕ) → LeavesNothing p m)

  abbrev IsTidyBut : ℕ → Manager S → Type 0
  IsTidyBut o m = IsGood m.shared × ((p : ℕ) → (p == o) ≡ false → LeavesNothing p m)

  disable_entry-shared :
      (o : ℕ) (success : State) (m : Manager S)
      → (disable_entry services o success m).1.shared ≡ disabled_shared services o m.shared
  unfolding disable_entry set_entry set_shared
  disable_entry-shared o success m =
      let ran = services.disable o (services.close_owner o m.shared) in
      on_success-elim
        (λ (t : Option Failure × Manager S). t.1.shared ≡ disabled_shared services o m.shared)
        (recover o disable_phase ran.0) _ _ (λ e. refl) (λ f e. refl)

  disable_entry-others :
      (o p : ℕ) (success : State) (m : Manager S)
      → (p == o) ≡ false
      → (disable_entry services o success m).1.entry_of p ≡ m.entry_of p
  unfolding disable_entry set_entry set_shared
  disable_entry-others o p success m d =
      let ran = services.disable o (services.close_owner o m.shared) in
      on_success-elim (λ (t : Option Failure × Manager S). t.1.entry_of p ≡ m.entry_of p)
        (recover o disable_phase ran.0) _ _ (λ e. rw d refl) (λ f e. rw d refl)

  IsTidy-disable_entry :
      (o : ℕ) (success : State) (m : Manager S)
      → IsTidyBut o m
      → IsTidy (disable_entry services o success m).1
  IsTidy-disable_entry o success m (good, clean) =
      let shared = sym (disable_entry-shared o success m) in
      (
        subst IsGood shared (cleans.good_disable o m.shared good),
        λ p h. subst (IsClean p) shared (elim (Bool-cases (p == o)) [
          | inl d ↦
              subst (λ q. IsClean q (disabled_shared services o m.shared)) (sym ((==_iff p o).0 d))
                (cleans.disable_cleans o m.shared good)
          | inr d ↦ cleans.disable_spares o p m.shared good (
              clean p d (
                sym (
                  ap (λ (e : Entry). is_enabled_state e.state)
                    (disable_entry-others o p success m d))
                ∙ h))
        ]),
      )

  but_one : (o : ℕ) (m : Manager S) → IsTidy m → IsTidyBut o m
  but_one o m tidy = (tidy.0, λ p d. tidy.1 p)

  IsTidy-set_last_error :
      (o : ℕ) (errors : List Failure) (m : Manager S)
      → IsTidy m
      → IsTidy (set_last_error o errors m)
  unfolding set_last_error set_entry
  IsTidy-set_last_error o errors m (good, clean) = (
    good,
    λ p. elim (Bool-cases (p == o)) [
      | inl d ↦
          rw d
            (λ h. clean p (ap (λ q. is_enabled_state (m.entry_of q).state) ((==_iff p o).0 d) ∙ h))
      | inr d ↦ rw d (clean p)
    ],
  )

  IsTidy-rollback : (os : List ℕ) (m : Manager S) → IsTidy m → IsTidy (rollback services os m).1
  unfolding rollback
  IsTidy-rollback [] m tidy = tidy
  IsTidy-rollback (o ∷ os) m tidy =
      IsTidy-rollback os _ (IsTidy-disable_entry o disabled m (but_one o m tidy))

  IsTidy-enable_failed :
      (o : ℕ) (f : Failure) (started : List ℕ) (m : Manager S)
      → IsTidyBut o m
      → IsTidy (enable_failed services o f started m).1
  unfolding enable_failed set_active
  IsTidy-enable_failed o f started m tidy = IsTidy-rollback started _ (
      IsTidy-set_last_error o _ (disable_entry services o failed m).1
        (IsTidy-disable_entry o failed m tidy))

  IsTidyBut-ran :
      (o : ℕ) (m : Manager S)
      → IsTidy m
      → IsTidyBut o (set_shared (enabled_shared services o m.shared) (starting services o m))
  unfolding set_entry set_shared
  IsTidyBut-ran o m (good, clean) = (
    cleans.good_enable o m.shared good,
    λ p d. rw d (λ h. cleans.enable_spares o p m.shared d (clean p h)),
  )

  IsTidy-started_manager :
      (o : ℕ) (m : Manager S) → IsTidy m → IsTidy (started_manager services o m)
  unfolding set_entry set_shared is_enabled_state
  IsTidy-started_manager o m (good, clean) = (
    cleans.good_enable o m.shared good,
    λ p. elim (Bool-cases (p == o)) [
      | inl d ↦ rw d (λ h. absurd cc)
      | inr d ↦ rw d (λ h. cleans.enable_spares o p m.shared d (clean p h))
    ],
  )

  IsTidy-enable_loop :
      (todo started : List ℕ) (m : Manager S)
      → IsTidy m
      → IsTidy (enable_loop services todo started m).1
  unfolding enable_loop set_active
  IsTidy-enable_loop [] started m tidy = tidy
  IsTidy-enable_loop (o ∷ os) started m tidy =
      let ran = services.enable o (services.open_owner o m.shared) in
      on_success-elim (λ (r : Result services). IsTidy r.1) (recover o enable_phase ran.0) _ _
        (λ e.
          IsTidy-enable_loop os (o ∷ started) (started_manager services o m)
            (IsTidy-started_manager o m tidy))
        (λ f e.
          IsTidy-enable_failed o f started (set_shared ran.2 (starting services o m))
            (IsTidyBut-ran o m tidy))

  IsTidy-enable_planned :
      (plan : Outcome LifecycleError (List ℕ)) (m : Manager S)
      → IsTidy m
      → IsTidy (enable_planned services plan m).1
  unfolding enable_planned
  IsTidy-enable_planned (err e) m tidy = tidy
  IsTidy-enable_planned (ok plan) m tidy = IsTidy-enable_loop plan [] m tidy

  pub IsTidy-enable_all : (m : Manager S) → IsTidy m → IsTidy (enable_all services m).1
  unfolding enable_all
  IsTidy-enable_all m tidy =
      if_active services (λ r. IsTidy r.1) m.active (err manager_active, m)
        (enable_planned services (enable_plan m.order m) m) (λ e. tidy)
        (λ e. IsTidy-enable_planned (enable_plan m.order m) m tidy)

  IsTidy-disable_loop :
      (todo : List ℕ) (m : Manager S) → IsTidy m → IsTidy (disable_loop services todo m).1
  unfolding disable_loop
  IsTidy-disable_loop [] m tidy = tidy
  IsTidy-disable_loop (o ∷ os) m tidy = elim (Bool-cases (is_enabled_state (m.entry_of o).state)) [
    | inl e ↦ rw e (IsTidy-disable_loop os _ (IsTidy-disable_entry o disabled m (but_one o m tidy)))
    | inr e ↦ rw e (IsTidy-disable_loop os m tidy)
  ]

  pub IsTidy-disable_all : (m : Manager S) → IsTidy m → IsTidy (disable_all services m).1
  unfolding disable_all set_active
  IsTidy-disable_all m tidy = IsTidy-disable_loop (reverse_order m.order []) m tidy

  pub IsTidy-add_plugin :
      (o : ℕ) (m : Manager S) → IsClean o m.shared → IsTidy m → IsTidy (add_plugin o m)
  unfolding add_plugin
  IsTidy-add_plugin o m here (good, clean) = (
    good,
    λ p. elim (Bool-cases (p == o)) [
      | inl d ↦ λ h. subst (λ q. IsClean q m.shared) (sym ((==_iff p o).0 d)) here
      | inr d ↦ rw d (clean p)
    ],
  )
