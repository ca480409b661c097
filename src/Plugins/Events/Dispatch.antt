-- ===== src/Plugins/Events/Dispatch.antt =====
-- The dispatch of an event, internal/pluginruntime/event_bus.go. The state of the runtime is a
-- parameter, since a handler, which is a plugin's, may do with it what its capabilities allow.
use cyu_core.Base.{
  ℕ, ◌≡◌, refl, ap, sym, ◌∙◌, Bool, not, Option, none, some, List, [], ◌∷◌, if◌then◌else◌, inl, inr,
  Bool-cases, Outcome, ok, err,
}
use cyu_core.Plugins.Entry.{
  Returned, Failure, recover, event_phase, has_failed, reported, fails, recover-reported,
  has_failed-reported,
}
use cyu_core.Plugins.Names.{NameError, parse_type}
use cyu_core.Plugins.Events.{Subscriber, EventBus, handlers_of}
use cyu_core.Plugins.Events.Removal.{select}
use cyu_core.Plugins.Events.History.{Live, of_type, IsHistory, IsHistory-Holds}

-- `Type` of an event may panic: the value is then an `err`.
pub record Event : Type 0 where
  pub event_type : Outcome ℕ (List ℕ)
  pub payload : ℕ

pub data DispatchFailure : Type 0 where
  type_panicked : (value : ℕ) → DispatchFailure
  invalid_type : NameError → DispatchFailure
  handler_failed : Failure → DispatchFailure

pub record Host (S : Type 0) : Type 0 where
  pub events : S → EventBus
  pub is_enabled : S → ℕ → Bool
  pub record_event_call : (owner nanos : ℕ) → (did_fail : Bool) → S → S
  -- The handler with the time that it takes.
  pub invoke : (handler : ℕ) → Event → S → Returned × ℕ × S

abbrev add_failure : Option Failure → List DispatchFailure → List DispatchFailure
add_failure none fs = fs
add_failure (some f) fs = handler_failed f ∷ fs

module _ {S : Type 0} (host : Host S) where
  open host use {events, is_enabled, record_event_call, invoke}

  -- One call, with the state that the counters are in after it.
  unfoldable pub call_handler : Subscriber → Event → S → Option Failure × S
  unfolding recover
  call_handler h e s =
      let (result, nanos, s') = invoke h.handler e s in
      let failure = recover h.owner event_phase result in
      (failure, record_event_call h.owner nanos (has_failed failure) s')

  -- The loop over the slice that the table held at the start.
  unfoldable pub dispatch_loop : List Subscriber → Event → S → List DispatchFailure × S
  dispatch_loop [] e s = ([], s)
  dispatch_loop (h ∷ hs) e s =
      let skipped = dispatch_loop hs e s in
      let (failure, s') = call_handler h e s in
      let (failures, s'') = dispatch_loop hs e s' in
      if not (is_enabled s h.owner) then skipped else (add_failure failure failures, s'')

  -- The dispatch behind readEventType.
  unfoldable pub dispatch_as : Outcome ℕ (List ℕ) → Event → S → List DispatchFailure × S
  unfolding dispatch_loop
  dispatch_as (err v) e s = (type_panicked v ∷ [], s)
  dispatch_as (ok t) e s = elim (parse_type t) [
    | err x ↦ (invalid_type x ∷ [], s)
    | ok _ ↦ dispatch_loop (handlers_of t (events s).by_type) e s
  ]

  -- `none` is the nil event.
  unfoldable pub dispatch : Option Event → S → List DispatchFailure × S
  unfolding dispatch_as
  dispatch none s = ([], s)
  dispatch (some e) s = dispatch_as e.event_type e s

  -- The handlers of a list one after the other, whatever each returns: the call, its report with
  -- those of the calls after it, and its record.
  unfoldable pub call_each : List Subscriber → Event → S → List DispatchFailure × S
  unfolding reported fails
  call_each [] e s = ([], s)
  call_each (h ∷ hs) e s =
      let (result, nanos, s') = invoke h.handler e s in
      let (failures, s'') = call_each hs e (record_event_call h.owner nanos (fails result) s') in
      (add_failure (reported h.owner event_phase result) failures, s'')

  abbrev pub of_enabled : S → List Subscriber → List Subscriber
  of_enabled s = select (λ h. is_enabled s h.owner)

  -- Neither a handler nor the counters turn a plugin on or off; the lifecycle does.
  abbrev pub KeepsEnabled : Type 0
  KeepsEnabled =
      (h : Subscriber) (e : Event) (s : S) (o : ℕ)
      → is_enabled (call_handler h e s).1 o ≡ is_enabled s o

  call_handler_lem :
      (h : Subscriber) (e : Event) (s : S)
      → call_handler h e s ≡ (
          let (result, nanos, s') = invoke h.handler e s in
          (reported h.owner event_phase result, record_event_call h.owner nanos (fails result) s'))
  unfolding call_handler
  call_handler_lem h e s =
      let (result, nanos, s') = invoke h.handler e s in
      rw (recover-reported h.owner event_phase result)
        (rw (has_failed-reported h.owner event_phase result) refl)

  call_each_lem :
      (h : Subscriber) (hs : List Subscriber) (e : Event) (s : S)
      → call_each (h ∷ hs) e s ≡ (
          let (failure, s') = call_handler h e s in
          let (failures, s'') = call_each hs e s' in (add_failure failure failures, s''))
  unfolding call_each
  call_each_lem h hs e s =
      ap
        (λ (r : Option Failure × S).
          let (failures, s'') = call_each hs e r.1 in (add_failure r.0 failures, s''))
        (sym (call_handler_lem h e s))

  module _ (keeps : KeepsEnabled) where
    enabled_later :
        (h : Subscriber) (e : Event) (s : S) (hs : List Subscriber)
        → of_enabled (call_handler h e s).1 hs ≡ of_enabled s hs
    unfolding select
    enabled_later h e s [] = refl
    enabled_later h e s (x ∷ hs) = rw (keeps h e s x.owner) (rw (enabled_later h e s hs) refl)

    dispatch_loop-call_each :
        (hs : List Subscriber) (e : Event) (s : S)
        → dispatch_loop hs e s ≡ call_each (of_enabled s hs) e s
    unfolding dispatch_loop select call_each
    dispatch_loop-call_each [] e s = refl
    dispatch_loop-call_each (h ∷ hs) e s = elim (Bool-cases (is_enabled s h.owner)) [
      | inr off ↦ rw off (dispatch_loop-call_each hs e s)
      | inl on ↦
          let s' = (call_handler h e s).1 in
          let rest =
            dispatch_loop-call_each hs e s' ∙ ap (λ l. call_each l e s') (enabled_later h e s hs) in
          rw on (
            ap (λ (r : List DispatchFailure × S). (add_failure (call_handler h e s).0 r.0, r.1))
              rest
            ∙ sym (call_each_lem h (of_enabled s hs) e s))
    ]

  -- When no handler turns a plugin on or off, the dispatch of an event with a valid type invokes the
  -- handlers of the live subscriptions to that type whose plugin is enabled when it begins, in the order
  -- in which they were subscribed, each once and whatever the others return or panic with. It reports
  -- their errors and panics in that order, and records each call with its time and whether it failed.
  pub dispatch-call_each :
      (e : Event) (s : S) (t : List ℕ) (live : Live)
      → KeepsEnabled
      → IsHistory live (events s)
      → e.event_type ≡ ok t
      → parse_type t ≡ ok t
      → dispatch (some e) s ≡ call_each (of_enabled s (of_type t live)) e s
  unfolding dispatch dispatch_as
  dispatch-call_each e s t live keeps history typed valid =
      let hs = handlers_of t (events s).by_type in
      let held = (IsHistory-Holds live (events s) history).held t in
      ap (λ x. dispatch_as x e s) typed
      ∙ rw (valid, dispatch_as) (dispatch_loop-call_each keeps hs e s)
      ∙ ap (λ l. call_each (of_enabled s l) e s) held
