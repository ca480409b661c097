-- ===== src/Plugins/Events/Reachable.antt =====
-- The bus through every sequence of its operations, and what cancelling a subscription undoes.
use cyu_core.Base.{
  ℕ, zero, suc, ◌+◌, ◌^◌, ◌<◌, ◌≡◌, refl, ap, sym, ◌∙◌, Bool, true, Option, none, some, List, arith,
  inl, inr, Bool-cases, Option-cases, ok,
}
use cyu_core.Plugins.Names.{same, same_of_eq, eq_of_same}
use cyu_core.Plugins.Events.{
  EventBus, new_event_bus, handlers_of, add_subscriber, subscribe, without_id, remove, remove_owner,
}
use cyu_core.Plugins.Events.Removal.{
  remove_owner_handlers, remove_owner_count, IsDistinct-remove_owner, count_all, select, is_other,
  of_others-select,
}
use cyu_core.Plugins.Events.Subscriptions.{
  IsWellFormed, AreIdsBelow, subscribe_lem, IsWellFormed-add_subscriber, ids_of_others,
  ids_without_id, remove_found, handlers_left, IsDistinct-table_after, subscriber, after_subscribe,
  handlers_after, without_last,
}
use mathlib.Core.Path.{subst}
use native.Mathlib.Nat.{mod-eq_of_lt}

IsWellFormed-subscribe :
    (bus bus' : EventBus) (owner : Option ℕ) (a b : Bool) (k : List ℕ) (handler : Option ℕ) (id : ℕ)
    → IsWellFormed bus
    → bus.next_id + 1 < 2 ^ 64
    → subscribe owner a b k handler bus ≡ ok (id, bus')
    → IsWellFormed bus'
IsWellFormed-subscribe bus bus' owner a b k handler id good small e =
    let (o, h, owned, called, is_id, is_bus) = subscribe_lem bus bus' owner a b k handler id e in
    let next : id ≡ bus.next_id + 1 =
      is_id ∙ mod-eq_of_lt {n = bus.next_id + 1} {m = 2 ^ 64} small in
    subst IsWellFormed
      (sym
        (is_bus ∙ ap (λ t. add_subscriber k (record { id = t; owner = o; handler = h }) bus) next))
      (IsWellFormed-add_subscriber bus good k o h)

IsWellFormed-remove :
    (bus : EventBus) (k : List ℕ) (i : ℕ) → IsWellFormed bus → IsWellFormed (remove k i bus).1
unfolding remove
IsWellFormed-remove bus k zero good = good
IsWellFormed-remove bus k (suc i) good =
    elim (Option-cases (without_id (suc i) (handlers_of k bus.by_type))) [
      | inl e ↦ rw (e, remove) good
      | inr (left, e) ↦ rw (remove_found bus k (suc i) left (omega arith) e) (record {
        distinct = IsDistinct-table_after bus k (suc i) left e good.distinct;
        ids = λ j.
            subst (AreIdsBelow bus.next_id) (sym (handlers_left bus k (suc i) left e j))
              (elim (Bool-cases (same k j)) [
                | inl f ↦ rw f (
                    ids_without_id bus.next_id (suc i) (handlers_of k bus.by_type) left e
                      (good.ids k))
                | inr f ↦ rw f (good.ids j)
              ]);
      })
    ]

remove_owner-next_id :
    (o : ℕ) (bus : EventBus) → (remove_owner (some o) bus).1.next_id ≡ bus.next_id
unfolding remove_owner
remove_owner-next_id o bus = ground arith

IsWellFormed-remove_owner :
    (bus : EventBus) (owner : Option ℕ) → IsWellFormed bus → IsWellFormed (remove_owner owner bus).1
unfolding remove_owner
IsWellFormed-remove_owner bus none good = good
IsWellFormed-remove_owner bus (some o) good = record {
  distinct = IsDistinct-remove_owner o bus good.distinct;
  ids = λ k.
      subst (λ n. AreIdsBelow n (handlers_of k (remove_owner (some o) bus).1.by_type))
        (sym (remove_owner-next_id o bus))
        (subst (AreIdsBelow bus.next_id) (sym (remove_owner_handlers o bus good.distinct k))
          (ids_of_others bus.next_id o (handlers_of k bus.by_type) (good.ids k)));
}

-- One operation on the bus; a call that returns an error changes nothing.
pub data Step (bus : EventBus) : EventBus → Type 0 where
  subscribed :
      (bus' : EventBus) (owner : Option ℕ) (a b : Bool) (k : List ℕ) (handler : Option ℕ) (id : ℕ)
      → bus.next_id + 1 < 2 ^ 64
      → subscribe owner a b k handler bus ≡ ok (id, bus')
      → Step bus bus'
  cancelled : (k : List ℕ) (id : ℕ) → Step bus (remove k id bus).1
  owner_removed : (owner : Option ℕ) → Step bus (remove_owner owner bus).1

pub data IsReachable : EventBus → Type 0 where
  start : IsReachable new_event_bus
  step : (bus bus' : EventBus) → IsReachable bus → Step bus bus' → IsReachable bus'

IsWellFormed-Step : (bus bus' : EventBus) → IsWellFormed bus → Step bus bus' → IsWellFormed bus'
IsWellFormed-Step bus _ good (subscribed bus' owner a b k handler id small e) =
    IsWellFormed-subscribe bus bus' owner a b k handler id good small e
IsWellFormed-Step bus _ good (cancelled k id) = IsWellFormed-remove bus k id good
IsWellFormed-Step bus _ good (owner_removed owner) = IsWellFormed-remove_owner bus owner good

IsWellFormed-new : IsWellFormed new_event_bus
unfolding handlers_of
IsWellFormed-new = record { distinct = tt; ids = λ k. tt }

IsReachable-IsWellFormed : (bus : EventBus) → IsReachable bus → IsWellFormed bus
IsReachable-IsWellFormed _ start = IsWellFormed-new
IsReachable-IsWellFormed _ (step bus bus' before s) =
    IsWellFormed-Step bus bus' (IsReachable-IsWellFormed bus before) s

-- On every bus that the operations reach while fewer than 2 ^ 64 subscriptions were made: removing
-- an owner leaves, for every event type, the subscriptions that are not the owner's, all of them and in
-- their order, and returns how many of the owner's there were over all types.
pub remove_owner_all :
    (bus : EventBus) (o : ℕ)
    → IsReachable bus
    → let (removed, bus') = remove_owner (some o) bus in
      (removed ≡ count_all o bus.by_type)
      × ((k : List ℕ)
          → handlers_of k bus'.by_type ≡ select (is_other o) (handlers_of k bus.by_type))
remove_owner_all bus o reached =
    let good = IsReachable-IsWellFormed bus reached in
    (
      remove_owner_count o bus good.distinct,
      λ k.
          remove_owner_handlers o bus good.distinct k
          ∙ of_others-select o (handlers_of k bus.by_type),
    )

module _ (bus : EventBus) (good : IsWellFormed bus) (k : List ℕ) (o h : ℕ) where
  abbrev subscribed_bus : EventBus
  subscribed_bus = after_subscribe bus good k o h

  added_found :
      without_id (bus.next_id + 1) (handlers_of k subscribed_bus.by_type)
      ≡ some (handlers_of k bus.by_type)
  added_found =
      ap (without_id (bus.next_id + 1)) (handlers_after bus good k o h k ∙ rw (same_of_eq k) refl)
      ∙ without_last bus.next_id (handlers_of k bus.by_type) (subscriber bus good k o h)
          (good.ids k) (omega arith)

  cancel_added :
      let (removed, bus'') = remove k (bus.next_id + 1) subscribed_bus in
      (removed ≡ true) × ((j : List ℕ) → handlers_of j bus''.by_type ≡ handlers_of j bus.by_type)
  cancel_added =
      let i = bus.next_id + 1 in
      let left = handlers_of k bus.by_type in
      rw (remove_found subscribed_bus k i left (omega arith) added_found) (
        refl,
        λ j. handlers_left subscribed_bus k i left added_found j ∙ elim (Bool-cases (same k j)) [
          | inl e ↦ rw e (ap (λ t. handlers_of t bus.by_type) (eq_of_same k j e))
          | inr e ↦ rw e (handlers_after bus good k o h j ∙ rw e refl)
        ],
      )

-- On every bus that the operations reach while fewer than 2 ^ 64 - 1 subscriptions were made,
-- cancelling the subscription that was just made succeeds and gives the handlers of every event
-- type back.
pub cancel-subscribe :
    (bus bus' : EventBus) (owner : Option ℕ) (a b : Bool) (k : List ℕ) (handler : Option ℕ) (id : ℕ)
    → IsReachable bus
    → bus.next_id + 1 < 2 ^ 64
    → subscribe owner a b k handler bus ≡ ok (id, bus')
    → let (removed, bus'') = remove k id bus' in
      (removed ≡ true) × ((j : List ℕ) → handlers_of j bus''.by_type ≡ handlers_of j bus.by_type)
cancel-subscribe bus bus' owner a b k handler id reached small e =
    let good = IsReachable-IsWellFormed bus reached in
    let (o, h, owned, called, is_id, is_bus) = subscribe_lem bus bus' owner a b k handler id e in
    let next : id ≡ bus.next_id + 1 =
      is_id ∙ mod-eq_of_lt {n = bus.next_id + 1} {m = 2 ^ 64} small in
    let is_after =
      is_bus ∙ ap (λ t. add_subscriber k (record { id = t; owner = o; handler = h }) bus) next in
    rw (is_after, next) (cancel_added bus good k o h)
