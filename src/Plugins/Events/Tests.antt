-- ===== src/Plugins/Events/Tests.antt =====
-- Runs of the event bus on small inputs, and the theorems at inputs that meet their conditions.
use cyu_core.Base.{ℕ, ◌≡◌, refl, true, some, List, [], ◌∷◌, arith, ok, err, ◌==◌, if◌then◌else◌}
use cyu_core.Plugins.Entry.{returned, panicked, recover, plugin_error, panic_error, event_phase}
use cyu_core.Plugins.Names.{same, find_colon, parse_type, not_namespaced, several_separators}
use cyu_core.Plugins.Events.{
  Subscriber, EventBus, new_event_bus, handlers_of, has_type, replace_handlers, set_handlers,
  delete_type, add_subscriber, subscribe, without_id, remove, of_others, count_own,
  remove_owner_loop, remove_owner,
}
use cyu_core.Plugins.Events.Removal.{count_all, select, is_other}
use cyu_core.Plugins.Events.Reachable.{IsReachable, start, step, remove_owner_all, cancel-subscribe}
use cyu_core.Plugins.Events.History.{Live, of_type, IsHistory, began, subscribed}
use cyu_core.Plugins.Events.Dispatch.{
  Event, Host, handler_failed, call_handler, dispatch_loop, dispatch_as, dispatch, call_each,
  of_enabled, dispatch-call_each,
}

program : Unit {0}
unfolding same find_colon parse_type handlers_of has_type replace_handlers set_handlers delete_type
    add_subscriber subscribe without_id remove of_others count_own remove_owner_loop remove_owner
    recover call_handler dispatch_loop dispatch_as dispatch
program = tt

-- "a:b"
abbrev ab : List ℕ
ab = 0x61 ∷ 0x3a ∷ 0x62 ∷ []

abbrev first : Subscriber
first = record { id = 1; owner = 7; handler = 5 }

abbrev second : Subscriber
second = record { id = 2; owner = 8; handler = 6 }

abbrev one : EventBus
one = record { next_id = 1; by_type = (ab, first ∷ []) ∷ [] }

abbrev two : EventBus
two = record { next_id = 2; by_type = (ab, first ∷ second ∷ []) ∷ [] }

no_namespace : parse_type (0x61 ∷ []) ≡ err not_namespaced
unfolding program
no_namespace = refl

two_colons : parse_type (0x61 ∷ 0x3a ∷ 0x62 ∷ 0x3a ∷ 0x63 ∷ []) ≡ err several_separators
unfolding program
two_colons = refl

subscribe_first : subscribe (some 7) true true ab (some 5) new_event_bus ≡ ok (1, one)
unfolding program
subscribe_first = refl

subscribe_second : subscribe (some 8) true true ab (some 6) one ≡ ok (2, two)
unfolding program
subscribe_second = refl

one_reached : IsReachable one
one_reached = step new_event_bus one start (
    cyu_core.Plugins.Events.Reachable.subscribed one (some 7) true true ab (some 5) 1 (omega arith)
      subscribe_first)

two_reached : IsReachable two
two_reached = step one two one_reached (
    cyu_core.Plugins.Events.Reachable.subscribed two (some 8) true true ab (some 6) 2 (omega arith)
      subscribe_second)

remove_owner_all_example :
    let (removed, bus') = remove_owner (some 7) two in
    (removed ≡ count_all 7 two.by_type)
    × ((k : List ℕ) → handlers_of k bus'.by_type ≡ select (is_other 7) (handlers_of k two.by_type))
remove_owner_all_example = remove_owner_all two 7 two_reached

cancel-subscribe_example :
    let (removed, bus'') = remove ab 2 two in
    (removed ≡ true) × ((j : List ℕ) → handlers_of j bus''.by_type ≡ handlers_of j one.by_type)
cancel-subscribe_example =
    cancel-subscribe one two (some 8) true true ab (some 6) 2 one_reached (omega arith)
      subscribe_second

-- The first handler panics and the second one returns an error.
abbrev failing : Host EventBus
failing = record {
  events = λ s. s;
  is_enabled = λ s o. true;
  record_event_call = λ o nanos did_fail s. s;
  invoke = λ h e s. if h == 5 then (panicked 9, 100, s) else (returned (some 3), 50, s);
}

abbrev an_event : Event
an_event = record { event_type = ok ab; payload = 0 }

both_called :
    dispatch failing (some an_event) two
    ≡ (handler_failed (panic_error 7 event_phase 9) ∷ handler_failed (plugin_error 8 3) ∷ [], two)
unfolding program
both_called = refl

ab_valid : parse_type ab ≡ ok ab
unfolding program
ab_valid = refl

abbrev two_live : Live
two_live = (ab, first) ∷ (ab, second) ∷ []

two-IsHistory : IsHistory two_live two
two-IsHistory =
    subscribed ((ab, first) ∷ []) one two 8 true true ab 6 2
      (subscribed [] new_event_bus one 7 true true ab 5 1 began subscribe_first) subscribe_second

dispatch-call_each_example :
    dispatch failing (some an_event) two
    ≡ call_each failing (of_enabled failing two (of_type ab two_live)) an_event two
dispatch-call_each_example =
    dispatch-call_each failing an_event two ab two_live (λ h e s o. refl) two-IsHistory refl
      ab_valid
