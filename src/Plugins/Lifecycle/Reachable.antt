-- ===== src/Plugins/Lifecycle/Reachable.antt =====
-- The manager through every sequence of Register, EnableAll and DisableAll.
use cyu_core.Base.{
  ℕ, ◌≡◌, ◌⊎◌, refl, sym, ◌∙◌, Bool, true, false, none, some, List, [], ◌∷◌, ◌++◌, ◌==◌, ◌||◌,
  arith, if◌then◌else◌, inl, inr, Bool-cases, Outcome, ok, err,
}
use cyu_core.Plugins.Entry.{Failure, disabled, failed, recover, on_success-elim, enable_phase}
use cyu_core.Plugins.Lifecycle.{
  Services, Manager, LifecycleError, manager_active, new_manager, new_entry, is_registered,
  set_entry, set_active, set_shared, set_last_error, register_plugin, add_plugin, disable_entry,
  rollback, enable_failed, enable_loop, enable_planned, enable_all, disable_loop, disable_all,
  enable_plan, is_enabled_state,
}
use cyu_core.Plugins.Lifecycle.Settled.{IsOff, IsSettled, is_off, is_resting, disable_entry-order}
use cyu_core.Plugins.Lifecycle.EnableAll.{
  AllOff, Result, starting, started_manager, Enabled, RolledBack, enable_all_cases, disable_all_off,
}
use mathlib.Core.Path.{subst}

-- Every plugin is on or off, only a registered one is on, and none is on while the manager is not
-- active.
pub record IsSound {S : Type 0} (m : Manager S) : Type 0 where
  pub settled : (p : ℕ) → IsSettled (m.entry_of p)
  pub unregistered : (p : ℕ) → is_registered p m.order ≡ false → IsOff (m.entry_of p)
  pub idle : m.active ≡ false → AllOff m

new_entry_off : IsOff new_entry
unfolding is_resting
new_entry_off = is_off new_entry refl refl refl

is_registered-append :
    (p o : ℕ) (os : List ℕ) → is_registered p (os ++ (o ∷ [])) ≡ (is_registered p os || (o == p))
unfolding is_registered
is_registered-append p o [] = ground arith
is_registered-append p o (q ∷ os) = let rest = is_registered-append p o os in ground arith

module _ {S : Type 0} where
  pub register_plugin_lem :
      (described : Outcome Failure ℕ) (m m' : Manager S)
      → register_plugin described m ≡ ok m'
      → (o : ℕ) × (m' ≡ add_plugin o m) × (is_registered o m.order ≡ false)
  unfolding register_plugin
  register_plugin_lem (err f) m m' e = absurd (ground arith)
  register_plugin_lem (ok o) m m' e = elim (Bool-cases m.active) [
    | inl a ↦ absurd (ground arith)
    | inr a ↦ elim (Bool-cases (is_registered o m.order)) [
      | inl b ↦ absurd (ground arith)
      | inr b ↦ (o, ground arith, b)
    ]
  ]

  IsSound-add_plugin : (o : ℕ) (m : Manager S) → IsSound m → IsSound (add_plugin o m)
  unfolding add_plugin
  IsSound-add_plugin o m sound = record {
    settled = λ p. elim (Bool-cases (p == o)) [
      | inl e ↦ rw e (inl new_entry_off)
      | inr e ↦ rw e (sound.settled p)
    ];
    unregistered = λ p h.
        let e = is_registered-append p o m.order in
        elim (Bool-cases (p == o)) [
          | inl here ↦ rw here new_entry_off
          | inr other ↦ rw other (sound.unregistered p (ground arith))
        ];
    idle = λ inactive p. elim (Bool-cases (p == o)) [
      | inl e ↦ rw e new_entry_off
      | inr e ↦ rw e (sound.idle inactive p)
    ];
  }

module _ {S : Type 0} (services : Services S) where
  rollback-order : (os : List ℕ) (m : Manager S) → (rollback services os m).1.order ≡ m.order
  unfolding rollback
  rollback-order [] m = refl
  rollback-order (o ∷ os) m =
      rollback-order os (disable_entry services o disabled m).1
      ∙ disable_entry-order services o disabled m

  enable_failed-order :
      (o : ℕ) (f : Failure) (started : List ℕ) (m : Manager S)
      → (enable_failed services o f started m).1.order ≡ m.order
  unfolding enable_failed set_active set_last_error set_entry
  enable_failed-order o f started m =
      let cleaned = disable_entry services o failed m in
      let errors : List Failure = elim cleaned.0 [ some g ↦ f ∷ g ∷ [] | none ↦ f ∷ [] ] in
      rollback-order started (set_last_error o errors cleaned.1)
      ∙ disable_entry-order services o failed m

  enable_loop-order :
      (todo started : List ℕ) (m : Manager S)
      → (enable_loop services todo started m).1.order ≡ m.order
  unfolding enable_loop set_active set_entry set_shared
  enable_loop-order [] started m = refl
  enable_loop-order (o ∷ os) started m =
      let ran = services.enable o (services.open_owner o m.shared) in
      on_success-elim (λ (r : Result services). r.1.order ≡ m.order) (recover o enable_phase ran.0)
        _ _ (λ e. enable_loop-order os (o ∷ started) (started_manager services o m))
        (λ f e. enable_failed-order o f started (set_shared ran.2 (starting services o m)))

  enable_planned-order :
      (plan : Outcome LifecycleError (List ℕ)) (m : Manager S)
      → (enable_planned services plan m).1.order ≡ m.order
  unfolding enable_planned
  enable_planned-order (err e) m = refl
  enable_planned-order (ok plan) m = enable_loop-order plan [] m

  pub if_active :
      (P : Result services → Type 0) (b : Bool) (x y : Result services)
      → (b ≡ true → P x)
      → (b ≡ false → P y)
      → P (if b then x else y)
  if_active P true x y h k = h refl
  if_active P false x y h k = k refl

  enable_all-order : (m : Manager S) → (enable_all services m).1.order ≡ m.order
  unfolding enable_all
  enable_all-order m =
      if_active (λ r. r.1.order ≡ m.order) m.active (err manager_active, m)
        (enable_planned services (enable_plan m.order m) m) (λ e. refl)
        (λ e. enable_planned-order (enable_plan m.order m) m)

  disable_loop-order :
      (todo : List ℕ) (m : Manager S) → (disable_loop services todo m).1.order ≡ m.order
  unfolding disable_loop
  disable_loop-order [] m = refl
  disable_loop-order (o ∷ os) m = elim (Bool-cases (is_enabled_state (m.entry_of o).state)) [
    | inl e ↦ rw e (
        disable_loop-order os (disable_entry services o disabled m).1
        ∙ disable_entry-order services o disabled m)
    | inr e ↦ rw e (disable_loop-order os m)
  ]

  -- One operation on the manager; a Register that returns an error changes nothing.
  pub data Step (m : Manager S) : Manager S → Type 0 where
    plugin_registered :
        (m' : Manager S) (described : Outcome Failure ℕ)
        → register_plugin described m ≡ ok m'
        → Step m m'
    enabled_all : Step m (enable_all services m).1
    disabled_all : Step m (disable_all services m).1

  pub data IsReachable : Manager S → Type 0 where
    start : (s : S) → IsReachable (new_manager s)
    step : (m m' : Manager S) → IsReachable m → Step m m' → IsReachable m'

  IsSound-AllOff : (m : Manager S) → AllOff m → IsSound m
  IsSound-AllOff m off = record {
    settled = λ p. inl (off p);
    unregistered = λ p h. off p;
    idle = λ e. off;
  }

  IsSound-Enabled :
      (m : Manager S) (r : Result services)
      → r.1.order ≡ m.order
      → Enabled services m.order [] r
      → IsSound r.1
  unfolding is_registered
  IsSound-Enabled m r same_order (done, active, on, off) = record {
    settled = λ p. elim (Bool-cases (is_registered p m.order)) [
      | inl h ↦ inr (on p (rw h refl))
      | inr h ↦ inl (off p (rw h refl))
    ];
    unregistered = λ p h. off p (rw (sym same_order) (rw h refl));
    idle = λ e. absurd (cc);
  }

  -- An active manager is left as it is.
  IsSound-running :
      (m : Manager S) (planned : Result services)
      → IsSound m
      → m.active ≡ true
      → IsSound (if m.active then (err manager_active, m) else planned).1
  IsSound-running m planned sound e =
      if_active (λ r. IsSound r.1) m.active (err manager_active, m) planned (λ h. sound)
        (λ h. absurd (cc))

  IsSound-enable_all : (m : Manager S) → IsSound m → IsSound (enable_all services m).1
  unfolding enable_all
  IsSound-enable_all m sound = elim (Bool-cases m.active) [
    | inr e ↦ elim (enable_all_cases services m e (sound.idle e)) [
      | inl enabled ↦ IsSound-Enabled m (enable_all services m) (enable_all-order m) enabled
      | inr back ↦ IsSound-AllOff (enable_all services m).1 back.2
    ]
    | inl e ↦ IsSound-running m (enable_planned services (enable_plan m.order m) m) sound e
  ]

  pub IsSound-Step : (m m' : Manager S) → IsSound m → Step m m' → IsSound m'
  IsSound-Step m _ sound (plugin_registered m' described e) =
      let (o, is_added, new) = register_plugin_lem described m m' e in
      subst IsSound (sym is_added) (IsSound-add_plugin o m sound)
  IsSound-Step m _ sound enabled_all = IsSound-enable_all m sound
  IsSound-Step m _ sound disabled_all =
      IsSound-AllOff (disable_all services m).1
        (disable_all_off services m sound.settled sound.unregistered).1

  pub IsReachable-IsSound : (m : Manager S) → IsReachable m → IsSound m
  IsReachable-IsSound _ (start s) = IsSound-AllOff (new_manager s) (λ p. new_entry_off)
  IsReachable-IsSound _ (step m m' before s) = IsSound-Step m m' (IsReachable-IsSound m before) s

  -- Whatever Register, EnableAll and DisableAll did before and whatever the plugins' code does:
  -- EnableAll on a manager that is not active returns nil with the manager active and every
  -- registered plugin on, or an error with the manager not active and every plugin off.
  pub enable_all_or_none :
      (m : Manager S)
      → IsReachable m
      → m.active ≡ false
      → Enabled services m.order [] (enable_all services m)
        ⊎ RolledBack services (enable_all services m)
  enable_all_or_none m reached inactive =
      enable_all_cases services m inactive ((IsReachable-IsSound m reached).idle inactive)

  -- Whatever Register, EnableAll and DisableAll did before and whatever the plugins' code does: after
  -- DisableAll every plugin is off and the manager is not active.
  pub disable_all_none :
      (m : Manager S)
      → IsReachable m
      → ((disable_all services m).1.active ≡ false) × AllOff (disable_all services m).1
  disable_all_none m reached =
      let sound = IsReachable-IsSound m reached in
      disable_all_off services m sound.settled sound.unregistered
