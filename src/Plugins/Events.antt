-- ===== src/Plugins/Events.antt =====
-- internal/pluginruntime/event_bus.go: the subscriptions. The table is the immutable one that the
-- atomic pointer holds; a bus is never the nil pointer.
pub mod Tables
pub mod Distinct
pub mod Agree
pub mod Removal
pub mod Subscriptions
pub mod Reachable
pub mod Cleared
pub mod History
pub mod Dispatch
mod Tests
use cyu_core.Base.{
  ℕ, zero, suc, ◌+◌, ◌%◌, ◌^◌, Bool, true, false, not, ◌||◌, Option, none, some, List, [], ◌∷◌,
  ◌++◌, ltb, ◌==◌, if◌then◌else◌, length, Outcome, ok, err,
}
use cyu_core.Plugins.Names.{same, NameError, parse_type}

pub record Subscriber : Type 0 where
  pub id : ℕ
  pub owner : ℕ
  pub handler : ℕ

-- The map from event types to slices, as its entries: the code ranges over it. No type has two.
abbrev pub Table : Type 0
Table = List (List ℕ × List Subscriber)

pub record EventBus : Type 0 where
  pub next_id : ℕ
  pub by_type : Table

abbrev pub new_event_bus : EventBus
new_event_bus = record { next_id = 0; by_type = [] }

pub data EventError : Type 0 where
  subscriptions_closed : EventError
  invalid_type : NameError → EventError
  nil_handler : EventError

-- `table.byType[eventType]`, where a missing key gives the empty slice.
unfoldable pub handlers_of : List ℕ → Table → List Subscriber
handlers_of k [] = []
handlers_of k ((t, hs) ∷ es) = let rest = handlers_of k es in if same t k then hs else rest

unfoldable pub has_type : List ℕ → Table → Bool
has_type k [] = false
has_type k ((t, hs) ∷ es) = same t k || has_type k es

unfoldable pub replace_handlers : List ℕ → List Subscriber → Table → Table
replace_handlers k hs [] = []
replace_handlers k hs ((t, old) ∷ es) =
    let rest = replace_handlers k hs es in if same t k then (t, hs) ∷ es else (t, old) ∷ rest

-- `next.byType[eventType] = handlers`
unfoldable pub set_handlers : List ℕ → List Subscriber → Table → Table
unfolding has_type replace_handlers
set_handlers k hs table = if has_type k table then replace_handlers k hs table else (k, hs) ∷ table

-- `delete(next.byType, eventType)`
unfoldable pub delete_type : List ℕ → Table → Table
delete_type k [] = []
delete_type k ((t, hs) ∷ es) =
    let rest = delete_type k es in if same t k then rest else (t, hs) ∷ rest

-- The state after the checks of `subscribe`.
unfoldable pub add_subscriber : List ℕ → Subscriber → EventBus → EventBus
unfolding handlers_of set_handlers
add_subscriber k h bus = record {
  next_id = h.id;
  by_type = set_handlers k (handlers_of k bus.by_type ++ (h ∷ [])) bus.by_type;
}

-- `accepting` and `accepting_locked` are what acceptSubscriptions holds at the start and under the
-- lock; `none` as the owner or as the handler is the nil pointer.
unfoldable pub subscribe :
    (owner : Option ℕ)
    → (accepting accepting_locked : Bool) → (event_type : List ℕ) → (handler : Option ℕ) → EventBus
    → Outcome EventError (ℕ × EventBus)
subscribe none accepting accepting_locked k handler bus = err subscriptions_closed
subscribe (some owner) accepting accepting_locked k handler bus =
    if not accepting then err subscriptions_closed else elim (parse_type k) [
      | err e ↦ err (invalid_type e)
      | ok _ ↦ elim handler [
        | none ↦ err nil_handler
        | some h ↦
            let id = (bus.next_id + 1) % 2 ^ 64 in
            if not accepting_locked
            then err subscriptions_closed
            else ok (id, add_subscriber k (record { id = id; owner = owner; handler = h }) bus)
      ]
    ]

-- The slice without the first subscriber of the id; `none` if there is none.
unfoldable pub without_id : ℕ → List Subscriber → Option (List Subscriber)
without_id i [] = none
without_id i (h ∷ hs) =
    let rest = without_id i hs in
    if h.id == i then some hs else elim rest [ none ↦ none | some left ↦ some (h ∷ left) ]

unfoldable pub remove : (event_type : List ℕ) → (id : ℕ) → EventBus → Bool × EventBus
unfolding handlers_of without_id
remove k zero bus = (false, bus)
remove k (suc i) bus = elim (without_id (suc i) (handlers_of k bus.by_type)) [
  | none ↦ (false, bus)
  | some left ↦ (
    true,
    record {
      next_id = bus.next_id;
      by_type =
          if length (handlers_of k bus.by_type) == 1
          then delete_type k bus.by_type
          else set_handlers k left bus.by_type;
    },
  )
]

-- The inner loop of `removeOwner`: `kept`, and how many records it leaves out.
unfoldable pub of_others : (owner : ℕ) → List Subscriber → List Subscriber
of_others owner [] = []
of_others owner (h ∷ hs) =
    let rest = of_others owner hs in if h.owner == owner then rest else h ∷ rest

unfoldable pub count_own : (owner : ℕ) → List Subscriber → ℕ
count_own owner [] = 0
count_own owner (h ∷ hs) =
    let rest = count_own owner hs in if h.owner == owner then rest + 1 else rest

-- The range over the entries of the current table, which changes those of the next one.
unfoldable pub remove_owner_loop : (owner : ℕ) → (current next : Table) → ℕ × Table
unfolding of_others count_own
remove_owner_loop owner [] next = (0, next)
remove_owner_loop owner ((t, hs) ∷ es) next =
    let kept = of_others owner hs in
    let deleted = remove_owner_loop owner es (delete_type t next) in
    let changed = remove_owner_loop owner es (set_handlers t kept next) in
    let others = remove_owner_loop owner es next in
    if length kept == 0
    then (count_own owner hs + deleted.0, deleted.1)
    else if not (length kept == length hs)
    then (count_own owner hs + changed.0, changed.1)
    else (count_own owner hs + others.0, others.1)

unfoldable pub remove_owner : (owner : Option ℕ) → EventBus → ℕ × EventBus
remove_owner none bus = (0, bus)
remove_owner (some owner) bus =
    let (removed, next) = remove_owner_loop owner bus.by_type bus.by_type in
    (removed, if ltb 0 removed then record { next_id = bus.next_id; by_type = next } else bus)

-- eventSubscription
pub record Subscription : Type 0 where
  pub event_type : List ℕ
  pub id : ℕ
  pub canceled : Bool

unfoldable pub cancel : Subscription → EventBus → Bool × Subscription × EventBus
unfolding remove
cancel s bus =
    let (removed, bus') = remove s.event_type s.id bus in
    if s.canceled
    then (false, s, bus)
    else (removed, record { event_type = s.event_type; id = s.id; canceled = true }, bus')
