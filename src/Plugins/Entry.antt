-- ===== src/Plugins/Entry.antt =====
-- The entries of internal/pluginruntime/manager.go: lifecycle states, counters, and calls of plugin
-- code, which end with an error or a panic and take a time that the clock measures.
use cyu_core.Base.{
  ℕ, ◌+◌, ◌%◌, ◌^◌, ◌≡◌, refl, Bool, true, false, Option, none, some, leb, if◌then◌else◌,
}

pub data State : Type 0 where
  registered enabling enabled disabling disabled failed : State

-- The counters of recordEventCall, recordCommandCall and schedulerOwnerState.record.
pub record Calls : Type 0 where
  pub calls : ℕ
  pub errors : ℕ
  pub nanos : ℕ
  pub max_nanos : ℕ

abbrev pub no_calls : Calls
no_calls = record { calls = 0; errors = 0; nanos = 0; max_nanos = 0 }

-- `nanos` is the duration, already not below 0. The compare-and-swap loop ends with the larger
-- number in place; the counters wrap as a uint64 does.
unfoldable pub record_call : (nanos : ℕ) → (did_fail : Bool) → Calls → Calls
record_call nanos did_fail c = record {
  calls = (c.calls + 1) % 2 ^ 64;
  errors = if did_fail then (c.errors + 1) % 2 ^ 64 else c.errors;
  nanos = (c.nanos + nanos) % 2 ^ 64;
  max_nanos = if leb nanos c.max_nanos then c.max_nanos else nanos;
}

-- What plugin code does with a call: it returns an error or nil, or it panics with a value.
pub data Returned : Type 0 where
  returned : (error : Option ℕ) → Returned
  panicked : (value : ℕ) → Returned

pub data Phase : Type 0 where
  enable_phase disable_phase event_type_phase event_phase command_phase scheduler_phase : Phase

-- `plugin_error` is the error of a call, wrapped with the plugin's name; `panic_error` a PanicError.
pub data Failure : Type 0 where
  plugin_error : (owner error : ℕ) → Failure
  panic_error : (owner : ℕ) → Phase → (value : ℕ) → Failure

-- The deferred recover of invokeLifecycle, invokeEventHandler, invokeCommandHandler and
-- invokeScheduledTask.
unfoldable pub recover : (owner : ℕ) → Phase → Returned → Option Failure
recover owner phase (returned none) = none
recover owner phase (returned (some e)) = some (plugin_error owner e)
recover owner phase (panicked v) = some (panic_error owner phase v)

abbrev pub has_failed : Option Failure → Bool
has_failed none = false
has_failed (some f) = true

-- `if err == nil`
unfoldable pub on_success {ℓ} : {A : Type ℓ} → Option Failure → A → (Failure → A) → A
on_success none a f = a
on_success (some failure) a f = f failure

pub on_success-elim {ℓ κ} :
    {A : Type ℓ} (P : A → Type κ) (o : Option Failure) (a : A) (f : Failure → A)
    → (o ≡ none → P a)
    → ((x : Failure) → o ≡ some x → P (f x))
    → P (on_success o a f)
unfolding on_success
on_success-elim P none a f h k = h refl
on_success-elim P (some x) a f h k = k x refl

-- What the host should make of a call, without the code's words for it.
unfoldable pub reported : (owner : ℕ) → Phase → Returned → Option Failure
reported owner phase (panicked v) = some (panic_error owner phase v)
reported owner phase (returned (some e)) = some (plugin_error owner e)
reported owner phase (returned none) = none

unfoldable pub fails : Returned → Bool
fails (panicked v) = true
fails (returned (some e)) = true
fails (returned none) = false

pub recover-reported :
    (owner : ℕ) (phase : Phase) (r : Returned) → recover owner phase r ≡ reported owner phase r
unfolding recover reported
recover-reported owner phase (panicked v) = refl
recover-reported owner phase (returned (some e)) = refl
recover-reported owner phase (returned none) = refl

pub has_failed-reported :
    (owner : ℕ) (phase : Phase) (r : Returned) → has_failed (reported owner phase r) ≡ fails r
unfolding reported fails
has_failed-reported owner phase (panicked v) = refl
has_failed-reported owner phase (returned (some e)) = refl
has_failed-reported owner phase (returned none) = refl
