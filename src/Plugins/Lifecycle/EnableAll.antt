-- ===== src/Plugins/Lifecycle/EnableAll.antt =====
-- What EnableAll, its rollback and DisableAll make of the entries.
use cyu_core.Base.{
  ℕ, ◌≡◌, ◌⊎◌, refl, ap, sym, ◌∙◌, true, false, List, [], ◌∷◌, ◌==◌, ◌||◌, ==_iff, arith,
  if◌then◌else◌, inl, inr, Bool-cases, Outcome, ok, err,
}
use cyu_core.Plugins.Entry.{
  State, registered, enabling, enabled, disabling, disabled, failed, Failure, recover,
  on_success-elim, enable_phase,
}
use cyu_core.Plugins.Lifecycle.{
  Entry, Services, Manager, LifecycleError, manager_active, is_registered, set_entry, set_active,
  set_shared, disable_entry, enable_failed, enable_loop, enable_planned, enable_all, disable_loop,
  disable_all, enabling_entry, enabled_entry, enable_plan, plan_step, is_enabled_state,
  reverse_order,
}
use cyu_core.Plugins.Lifecycle.Settled.{
  IsOff, IsOn, IsSettled, is_resting, disable_entry_elim, rollback_off, set_last_error_off,
}
use mathlib.Core.Path.{subst}

abbrev pub AllOff : {S : Type 0} → Manager S → Type 0
AllOff m = (p : ℕ) → IsOff (m.entry_of p)

module _ {S : Type 0} (services : Services S) where
  abbrev pub Result : Type 0
  Result = Outcome LifecycleError (Unit {0}) × Manager S

  -- Every plugin of the two lists is on, every other is off, and the manager is active.
  abbrev pub Enabled : (todo started : List ℕ) → Result → Type 0
  Enabled todo started r =
      (r.0 ≡ ok tt)
      × (r.1.active ≡ true)
      × ((p : ℕ) → (is_registered p todo || is_registered p started) ≡ true → IsOn (r.1.entry_of p))
      × ((p : ℕ)
          → (is_registered p todo || is_registered p started) ≡ false
          → IsOff (r.1.entry_of p))

  -- The call failed, every plugin is off, and the manager is not active.
  abbrev pub RolledBack : Result → Type 0
  RolledBack r = ((e : LifecycleError) × (r.0 ≡ err e)) × (r.1.active ≡ false) × AllOff r.1

  enable_failed_off :
      (o : ℕ) (f : Failure) (started : List ℕ) (m : Manager S)
      → ((p : ℕ) → (p == o) ≡ false → is_registered p started ≡ false → IsOff (m.entry_of p))
      → RolledBack (enable_failed services o f started m)
  unfolding enable_failed set_active is_resting
  enable_failed_off o f started m off = (
    (_, refl),
    refl,
    λ p. rollback_off services started _ p (λ apart.
        set_last_error_off o p _ (disable_entry services o failed m).1
          (disable_entry_elim services IsOff o failed m o refl (λ e h. h)
            (λ other. absurd (ground arith)))
          (disable_entry_elim services IsOff o failed m p refl (λ e h. h)
            (λ other. off p other apart))),
  )

  -- The manager as a plugin starts, and once it has.
  abbrev pub starting : ℕ → Manager S → Manager S
  starting o m =
      set_entry o (enabling_entry (m.entry_of o)) (set_shared (services.open_owner o m.shared) m)

  abbrev pub started_manager : ℕ → Manager S → Manager S
  started_manager o m =
      let ran = services.enable o (services.open_owner o m.shared) in
      set_entry o (enabled_entry ((starting o m).entry_of o) ran.1)
        (set_shared ran.2 (starting o m))

  starting_others :
      (P : Entry → Type 0) (o p : ℕ) (m : Manager S)
      → (p == o) ≡ false
      → P (m.entry_of p)
      → P ((starting o m).entry_of p)
  unfolding set_entry set_shared
  starting_others P o p m e h = rw e h

  started_others :
      (P : Entry → Type 0) (o p : ℕ) (m : Manager S)
      → (p == o) ≡ false
      → P (m.entry_of p)
      → P ((started_manager o m).entry_of p)
  unfolding set_entry set_shared
  started_others P o p m e h = rw e h

  ran_others :
      (o p : ℕ) (m : Manager S) (after : S)
      → (p == o) ≡ false
      → IsOff (m.entry_of p)
      → IsOff ((set_shared after (starting o m)).entry_of p)
  unfolding set_entry set_shared
  ran_others o p m after e h = rw e h

  started-IsOn :
      (o p : ℕ) (m : Manager S) → (p == o) ≡ true → IsOn ((started_manager o m).entry_of p)
  unfolding set_entry
  started-IsOn o p m e = rw e (record { now_enabled = refl; accepts = refl; state_enabled = refl })

  enable_loop_cases :
      (todo started : List ℕ) (m : Manager S)
      → ((p : ℕ) → is_registered p started ≡ false → IsOff (m.entry_of p))
      → ((p : ℕ) → is_registered p started ≡ true → IsOn (m.entry_of p))
      → Enabled todo started (enable_loop services todo started m)
        ⊎ RolledBack (enable_loop services todo started m)
  unfolding enable_loop set_active is_registered
  enable_loop_cases [] started m off on = inl (refl, refl, on, off)
  enable_loop_cases (o ∷ os) started m off on =
      let ran = services.enable o (services.open_owner o m.shared) in
      on_success-elim (λ (r : Result). Enabled (o ∷ os) started r ⊎ RolledBack r)
        (recover o enable_phase ran.0) _ _
        (λ e.
          elim (enable_loop_cases os (o ∷ started) (started_manager o m)
            (λ p h. started_others IsOff o p m (ground arith) (off p (ground arith)))
            (λ p h. elim (Bool-cases (p == o)) [
              | inl f ↦ started-IsOn o p m f
              | inr f ↦ started_others IsOn o p m f (on p (ground arith))
            ])) [
              | inl (done, active, all_on, rest_off) ↦
                  inl
                    (done, active, λ p h. all_on p (ground arith), λ p h. rest_off p (ground arith))
              | inr back ↦ inr back
            ])
        (λ f e. inr (
          enable_failed_off o f started (set_shared ran.2 (starting o m))
            (λ p other apart. ran_others o p m ran.2 other (off p apart))))

plan_step-ok :
    (st : State) (o : ℕ) (rest : Outcome LifecycleError (List ℕ)) (plan : List ℕ)
    → plan_step st o rest ≡ ok plan
    → (others : List ℕ) × (rest ≡ ok others) × (plan ≡ (o ∷ others))
unfolding plan_step
plan_step-ok registered o (ok others) plan e = (others, refl, ground arith)
plan_step-ok registered o (err x) plan e = absurd (ground arith)
plan_step-ok disabled o (ok others) plan e = (others, refl, ground arith)
plan_step-ok disabled o (err x) plan e = absurd (ground arith)
plan_step-ok failed o rest plan e = absurd (ground arith)
plan_step-ok enabling o rest plan e = absurd (ground arith)
plan_step-ok enabled o rest plan e = absurd (ground arith)
plan_step-ok disabling o rest plan e = absurd (ground arith)

plan_is_order :
    {S : Type 0} (os plan : List ℕ) (m : Manager S) → enable_plan os m ≡ ok plan → plan ≡ os
unfolding enable_plan
plan_is_order [] plan m e = ground arith
plan_is_order (o ∷ os) plan m e =
    let (others, later, is_plan) = plan_step-ok (m.entry_of o).state o (enable_plan os m) plan e in
    is_plan ∙ ap (◌∷◌ o) (plan_is_order os others m later)

module _ {S : Type 0} (services : Services S) where
  enable_planned_cases :
      (plan : Outcome LifecycleError (List ℕ)) (m : Manager S)
      → enable_plan m.order m ≡ plan
      → m.active ≡ false
      → AllOff m
      → Enabled services m.order [] (enable_planned services plan m)
        ⊎ RolledBack services (enable_planned services plan m)
  unfolding enable_planned is_registered
  enable_planned_cases (err e) m f inactive off = inr ((e, refl), inactive, off)
  enable_planned_cases (ok plan) m f inactive off =
      rw (plan_is_order m.order plan m f)
        (enable_loop_cases services m.order [] m (λ p h. off p) (λ p h. absurd (ground arith)))

  pub enable_all_cases :
      (m : Manager S)
      → m.active ≡ false
      → AllOff m
      → Enabled services m.order [] (enable_all services m)
        ⊎ RolledBack services (enable_all services m)
  unfolding enable_all
  enable_all_cases m inactive off =
      let planned = enable_planned services (enable_plan m.order m) m in
      subst (λ (r : Result services). Enabled services m.order [] r ⊎ RolledBack services r)
        (sym (ap (λ b. if b then (err manager_active, m) else planned) inactive))
        (enable_planned_cases (enable_plan m.order m) m refl inactive off)

  disable_loop_off :
      (todo : List ℕ) (m : Manager S)
      → ((p : ℕ) → IsSettled (m.entry_of p))
      → ((p : ℕ) → is_registered p todo ≡ false → IsOff (m.entry_of p))
      → AllOff (disable_loop services todo m).1
  unfolding disable_loop is_registered is_enabled_state is_resting
  disable_loop_off [] m settled off = λ p. off p refl
  disable_loop_off (o ∷ os) m settled off =
      elim (Bool-cases (is_enabled_state (m.entry_of o).state)) [
        | inl e ↦ rw e (
            disable_loop_off os (disable_entry services o disabled m).1
              (λ p.
                disable_entry_elim services IsSettled o disabled m p refl (λ x h. inl h)
                  (λ other. settled p))
              (λ p apart.
                disable_entry_elim services IsOff o disabled m p refl (λ x h. h)
                  (λ other. off p (ground arith))))
        | inr e ↦ rw e (
            disable_loop_off os m settled (λ p apart. elim (Bool-cases (p == o)) [
              | inr other ↦ off p (ground arith)
              | inl at_o ↦ elim (settled p) [
                | inl is_off ↦ is_off
                | inr on ↦
                    let here =
                      ap (λ q. is_enabled_state (m.entry_of q).state) ((==_iff p o).0 at_o) in
                    let st = ap is_enabled_state on.state_enabled in absurd (cc)
              ]
            ]))
      ]

  pub is_registered-reverse_order :
      (p : ℕ) (os acc : List ℕ)
      → is_registered p (reverse_order os acc) ≡ (is_registered p os || is_registered p acc)
  unfolding is_registered reverse_order
  is_registered-reverse_order p [] acc = refl
  is_registered-reverse_order p (o ∷ os) acc =
      is_registered-reverse_order p os (o ∷ acc) ∙ ground arith

  pub disable_all_off :
      (m : Manager S)
      → ((p : ℕ) → IsSettled (m.entry_of p))
      → ((p : ℕ) → is_registered p m.order ≡ false → IsOff (m.entry_of p))
      → ((disable_all services m).1.active ≡ false) × AllOff (disable_all services m).1
  unfolding disable_all set_active is_registered
  disable_all_off m settled off = (
    refl,
    disable_loop_off (reverse_order m.order []) m settled
        (λ p h. let e = is_registered-reverse_order p m.order [] in off p (ground arith)),
  )
