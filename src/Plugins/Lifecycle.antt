-- ===== src/Plugins/Lifecycle.antt =====
-- internal/pluginruntime/manager.go: registration, EnableAll with its rollback, and DisableAll.
-- lifecycleMu serialises them, so each is one step. A plugin is the number of its id.
pub mod Settled
pub mod EnableAll
pub mod Reachable
pub mod Tidy
pub mod Runs
mod Tests
use cyu_core.Base.{
  ℕ, Bool, true, false, not, Option, none, some, List, [], ◌∷◌, ◌++◌, ◌==◌, ◌||◌, if◌then◌else◌,
  Outcome, ok, err, ◌>>=◌,
}
use cyu_core.Plugins.Entry.{
  State, registered, enabling, enabled, disabling, disabled, failed, Returned, Failure, recover,
  on_success, enable_phase, disable_phase,
}

-- The part of an `entry` that the lifecycle changes.
pub record Entry : Type 0 where
  pub is_enabled : Bool
  pub accepts_subscriptions : Bool
  pub state : State
  pub enable_nanos : ℕ
  pub disable_nanos : ℕ
  pub last_error : List Failure

-- The bus, the registry and the scheduler, and the plugins' code, which works on them through the
-- context that it is given. It cannot reach the entries.
pub record Services (S : Type 0) : Type 0 where
  pub open_owner : ℕ → S → S
  pub close_owner : ℕ → S → S
  pub remove_events : ℕ → S → S
  pub remove_commands : ℕ → S → S
  pub enable : ℕ → S → Returned × ℕ × S
  pub disable : ℕ → S → Returned × ℕ × S

pub record Manager (S : Type 0) : Type 0 where
  pub order : List ℕ
  pub entry_of : ℕ → Entry
  pub active : Bool
  pub shared : S

abbrev pub new_entry : Entry
new_entry = record {
  is_enabled = false;
  accepts_subscriptions = false;
  state = registered;
  enable_nanos = 0;
  disable_nanos = 0;
  last_error = [];
}

abbrev pub new_manager : {S : Type 0} → S → Manager S
new_manager s = record { order = []; entry_of = λ o. new_entry; active = false; shared = s }

pub data LifecycleError : Type 0 where
  manager_active : LifecycleError
  duplicate_plugin : ℕ → LifecycleError
  -- The descriptor, its validation or the logger factory failed.
  not_described : Failure → LifecycleError
  plugin_failed : ℕ → LifecycleError
  wrong_state : ℕ → State → LifecycleError
  failures : List Failure → LifecycleError

unfoldable pub is_registered : ℕ → List ℕ → Bool
is_registered o [] = false
is_registered o (p ∷ ps) = (p == o) || is_registered o ps

-- The round of enablePlan for one plugin, with what the rounds after it give.
unfoldable pub plan_step :
    State → ℕ → Outcome LifecycleError (List ℕ) → Outcome LifecycleError (List ℕ)
plan_step registered o rest = do plan ← rest; ok (o ∷ plan)
plan_step disabled o rest = do plan ← rest; ok (o ∷ plan)
plan_step failed o rest = err (plugin_failed o)
plan_step enabling o rest = err (wrong_state o enabling)
plan_step enabled o rest = err (wrong_state o enabled)
plan_step disabling o rest = err (wrong_state o disabling)

unfoldable pub is_enabled_state : State → Bool
is_enabled_state enabled = true
is_enabled_state _ = false

-- entriesInReverseOrder
unfoldable pub reverse_order : List ℕ → List ℕ → List ℕ
reverse_order [] acc = acc
reverse_order (o ∷ os) acc = reverse_order os (o ∷ acc)

-- The entries that the steps of the lifecycle write.
abbrev pub disabling_entry : Entry → Entry
disabling_entry e = record {
  is_enabled = false;
  accepts_subscriptions = false;
  state = disabling;
  enable_nanos = e.enable_nanos;
  disable_nanos = e.disable_nanos;
  last_error = e.last_error;
}

abbrev pub disabled_entry : Entry → State → (nanos : ℕ) → List Failure → Entry
disabled_entry e state nanos errors = record {
  is_enabled = false;
  accepts_subscriptions = false;
  state = state;
  enable_nanos = e.enable_nanos;
  disable_nanos = nanos;
  last_error = errors;
}

abbrev pub enabling_entry : Entry → Entry
enabling_entry e = record {
  is_enabled = false;
  accepts_subscriptions = true;
  state = enabling;
  enable_nanos = 0;
  disable_nanos = e.disable_nanos;
  last_error = [];
}

abbrev pub enabled_entry : Entry → (nanos : ℕ) → Entry
enabled_entry e nanos = record {
  is_enabled = true;
  accepts_subscriptions = true;
  state = enabled;
  enable_nanos = nanos;
  disable_nanos = e.disable_nanos;
  last_error = [];
}

abbrev pub with_error : Entry → List Failure → Entry
with_error e errors = record {
  is_enabled = e.is_enabled;
  accepts_subscriptions = e.accepts_subscriptions;
  state = e.state;
  enable_nanos = e.enable_nanos;
  disable_nanos = e.disable_nanos;
  last_error = errors;
}

module _ {S : Type 0} where
  unfoldable pub set_entry : ℕ → Entry → Manager S → Manager S
  set_entry o e m = record {
    order = m.order;
    entry_of = λ p. if p == o then e else m.entry_of p;
    active = m.active;
    shared = m.shared;
  }

  -- setLastError
  unfoldable pub set_last_error : ℕ → List Failure → Manager S → Manager S
  unfolding set_entry
  set_last_error o errors m = set_entry o (with_error (m.entry_of o) errors) m

  unfoldable pub set_active : Bool → Manager S → Manager S
  set_active b m = record { order = m.order; entry_of = m.entry_of; active = b; shared = m.shared }

  unfoldable pub set_shared : S → Manager S → Manager S
  set_shared s m = record { order = m.order; entry_of = m.entry_of; active = m.active; shared = s }

  unfoldable pub add_plugin : ℕ → Manager S → Manager S
  add_plugin o m = record {
    order = m.order ++ (o ∷ []);
    entry_of = λ p. if p == o then new_entry else m.entry_of p;
    active = m.active;
    shared = m.shared;
  }

  -- Manager.Register, of a plugin whose descriptor is read and valid, or is not.
  unfoldable pub register_plugin :
      Outcome Failure ℕ → Manager S → Outcome LifecycleError (Manager S)
  unfolding is_registered add_plugin
  register_plugin described m = if m.active then err manager_active else elim described [
    | err f ↦ err (not_described f)
    | ok o ↦ if is_registered o m.order then err (duplicate_plugin o) else ok (add_plugin o m)
  ]

  -- enablePlan, over the rest of the order.
  unfoldable pub enable_plan : List ℕ → Manager S → Outcome LifecycleError (List ℕ)
  unfolding plan_step
  enable_plan [] m = ok []
  enable_plan (o ∷ os) m = plan_step (m.entry_of o).state o (enable_plan os m)

module _ {S : Type 0} (services : Services S) where
  open services use {open_owner, close_owner, remove_events, remove_commands, enable, disable}

  -- disableEntry. The entry's state while the plugin's code runs is one that the code cannot see.
  unfoldable pub disable_entry : ℕ → State → Manager S → Option Failure × Manager S
  unfolding recover set_entry set_shared on_success
  disable_entry o success m =
      let closed = close_owner o m.shared in
      let m' = set_entry o (disabling_entry (m.entry_of o)) (set_shared closed m) in
      let (result, nanos, after) = disable o closed in
      let cleaned = set_shared (remove_commands o (remove_events o after)) m' in
      on_success (recover o disable_phase result)
        (none, set_entry o (disabled_entry (m'.entry_of o) success nanos []) cleaned)
        (λ f. (some f, set_entry o (disabled_entry (m'.entry_of o) failed nanos (f ∷ [])) cleaned))

  -- The entries that were enabled are disabled, the last one first.
  unfoldable pub rollback : List ℕ → Manager S → List Failure × Manager S
  unfolding disable_entry
  rollback [] m = ([], m)
  rollback (o ∷ os) m =
      let (failure, m') = disable_entry o disabled m in
      let (rest, m'') = rollback os m' in (elim failure [ some f ↦ f ∷ rest | none ↦ rest ], m'')

  -- What EnableAll does once the plugin `o` has failed, with `started` enabled before it.
  unfoldable pub enable_failed :
      ℕ → Failure → (started : List ℕ) → Manager S → Outcome LifecycleError (Unit {0}) × Manager S
  unfolding disable_entry rollback set_last_error set_active
  enable_failed o failure started m =
      let (cleanup, m') = disable_entry o failed m in
      let errors : List Failure = elim cleanup [
        | some f ↦ failure ∷ f ∷ []
        | none ↦ failure ∷ []
      ] in
      let (rest, m'') = rollback started (set_last_error o errors m') in
      (err (failures (errors ++ rest)), set_active false m'')

  -- The loop of EnableAll, with the plugins that are enabled, the last one first.
  unfoldable pub enable_loop :
      (todo started : List ℕ) → Manager S → Outcome LifecycleError (Unit {0}) × Manager S
  unfolding recover on_success enable_failed set_entry set_shared set_active
  enable_loop [] started m = (ok tt, set_active true m)
  enable_loop (o ∷ os) started m =
      let opened = open_owner o m.shared in
      let m' = set_entry o (enabling_entry (m.entry_of o)) (set_shared opened m) in
      let (result, nanos, after) = enable o opened in
      let ran = set_shared after m' in
      let others =
        enable_loop os (o ∷ started) (set_entry o (enabled_entry (m'.entry_of o) nanos) ran) in
      on_success (recover o enable_phase result) others (λ f. enable_failed o f started ran)

  unfoldable pub enable_planned :
      Outcome LifecycleError (List ℕ) → Manager S → Outcome LifecycleError (Unit {0}) × Manager S
  unfolding enable_loop
  enable_planned (err e) m = (err e, m)
  enable_planned (ok plan) m = enable_loop plan [] m

  unfoldable pub enable_all : Manager S → Outcome LifecycleError (Unit {0}) × Manager S
  unfolding enable_plan enable_planned
  enable_all m =
      if m.active then (err manager_active, m) else enable_planned (enable_plan m.order m) m

  -- The loop of DisableAll over the entries in reverse order.
  unfoldable pub disable_loop : List ℕ → Manager S → List Failure × Manager S
  unfolding disable_entry is_enabled_state
  disable_loop [] m = ([], m)
  disable_loop (o ∷ os) m =
      let skipped = disable_loop os m in
      let (failure, m') = disable_entry o disabled m in
      let (rest, m'') = disable_loop os m' in
      let done : List Failure × Manager S =
        (elim failure [ some f ↦ f ∷ rest | none ↦ rest ], m'') in
      if is_enabled_state (m.entry_of o).state then done else skipped

  unfoldable pub disable_all : Manager S → List Failure × Manager S
  unfolding disable_loop set_active reverse_order
  disable_all m =
      let (errors, m') = disable_loop (reverse_order m.order []) m in (errors, set_active false m')
