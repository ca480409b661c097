-- ===== src/Plugins/Events/Subscriptions.antt =====
-- What subscribing and cancelling do to the slices and to their ids.
use cyu_core.Base.{
  ℕ, zero, suc, ◌+◌, ◌%◌, ◌^◌, ◌≤◌, ◌<◌, ◌≡◌, refl, ap, sym, ◌∙◌, Bool, true, false, Option, none,
  some, List, [], ◌∷◌, ◌++◌, ◌==◌, arith, if◌then◌else◌, length, inl, inr, Bool-cases, Option-cases,
  ok, Outcome-cases, All, All-append,
}
use cyu_core.Plugins.Names.{same, parse_type}
use cyu_core.Plugins.Events.{
  Subscriber, Table, EventBus, handlers_of, set_handlers, delete_type, add_subscriber, subscribe,
  without_id, remove, of_others,
}
use cyu_core.Plugins.Events.Tables.{handlers_of-set_handlers, handlers_of-delete_type}
use cyu_core.Plugins.Events.Distinct.{IsDistinct, IsDistinct-set_handlers, IsDistinct-delete_type}
use mathlib.Core.Path.{subst}

abbrev pub AreIdsBelow : ℕ → List Subscriber → Type 0
AreIdsBelow n = All (λ h. h.id ≤ n)

-- One entry for each type, and no id above the last one given out.
pub record IsWellFormed (bus : EventBus) : Type 0 where
  pub distinct : IsDistinct bus.by_type
  pub ids : (k : List ℕ) → AreIdsBelow bus.next_id (handlers_of k bus.by_type)

ids_weaken : (n : ℕ) (hs : List Subscriber) → AreIdsBelow n hs → AreIdsBelow (n + 1) hs
ids_weaken n [] h = tt
ids_weaken n (x ∷ hs) h = (omega arith, ids_weaken n hs h.1)

pub ids_of_others :
    (n o : ℕ) (hs : List Subscriber) → AreIdsBelow n hs → AreIdsBelow n (of_others o hs)
unfolding of_others
ids_of_others n o [] h = tt
ids_of_others n o (x ∷ hs) h = elim (Bool-cases (x.owner == o)) [
  | inl e ↦ rw e (ids_of_others n o hs h.1)
  | inr e ↦ rw e (h.0, ids_of_others n o hs h.1)
]

pub ids_without_id :
    (n i : ℕ) (hs left : List Subscriber)
    → without_id i hs ≡ some left
    → AreIdsBelow n hs
    → AreIdsBelow n left
unfolding without_id
ids_without_id n i [] left e h = absurd (ground arith)
ids_without_id n i (x ∷ hs) left e h = elim (Bool-cases (x.id == i)) [
  | inl f ↦
      let e' : some hs ≡ some left = ground arith in
      let same_list : hs ≡ left = cc in subst (AreIdsBelow n) same_list h.1
  | inr f ↦ elim (Option-cases (without_id i hs)) [
    | inl g ↦ absurd (ground arith)
    | inr (rest, g) ↦
        let e' : some (x ∷ rest) ≡ some left = ground arith in
        let same_list : (x ∷ rest) ≡ left = cc in
        subst (AreIdsBelow n) same_list (h.0, ids_without_id n i hs rest g h.1)
  ]
]

pub subscribe_lem :
    (bus bus' : EventBus) (owner : Option ℕ) (a b : Bool) (k : List ℕ) (handler : Option ℕ) (id : ℕ)
    → subscribe owner a b k handler bus ≡ ok (id, bus')
    → (o : ℕ) × (h : ℕ) × (owner ≡ some o)
      × (handler ≡ some h)
      × (id ≡ (bus.next_id + 1) % 2 ^ 64)
      × (bus' ≡ add_subscriber k (record { id = id; owner = o; handler = h }) bus)
unfolding subscribe
subscribe_lem bus bus' (some o) true true k (some h) id e = elim (Outcome-cases (parse_type k)) [
  | inr (x, f) ↦ absurd (ground arith)
  | inl (t, f) ↦ (o, h, refl, refl, ground arith, ground arith)
]
subscribe_lem bus bus' none a b k handler id e = absurd (ground arith)
subscribe_lem bus bus' (some o) false b k handler id e = absurd (ground arith)
subscribe_lem bus bus' (some o) true b k none id e = absurd (ground arith)
subscribe_lem bus bus' (some o) true false k (some h) id e = absurd (ground arith)

module _ (bus : EventBus) (good : IsWellFormed bus) (k : List ℕ) (o h : ℕ) where
  abbrev pub subscriber : Subscriber
  subscriber = record { id = bus.next_id + 1; owner = o; handler = h }

  abbrev pub after_subscribe : EventBus
  after_subscribe = add_subscriber k subscriber bus

  pub handlers_after :
      (j : List ℕ)
      → handlers_of j after_subscribe.by_type ≡ (
          if same k j
          then handlers_of k bus.by_type ++ (subscriber ∷ [])
          else handlers_of j bus.by_type)
  unfolding add_subscriber
  handlers_after j =
      handlers_of-set_handlers k j (handlers_of k bus.by_type ++ (subscriber ∷ [])) bus.by_type

  pub IsWellFormed-add_subscriber : IsWellFormed after_subscribe
  unfolding add_subscriber
  IsWellFormed-add_subscriber = record {
    distinct =
        IsDistinct-set_handlers k (handlers_of k bus.by_type ++ (subscriber ∷ [])) bus.by_type
          good.distinct;
    ids = λ j.
        subst (AreIdsBelow (bus.next_id + 1)) (sym (handlers_after j))
          (elim (Bool-cases (same k j)) [
            | inl e ↦ rw e (
                All-append (λ x. x.id ≤ bus.next_id + 1) (handlers_of k bus.by_type)
                  (subscriber ∷ [])
                  (ids_weaken bus.next_id (handlers_of k bus.by_type) (good.ids k))
                  (omega arith, tt))
            | inr e ↦ rw e (ids_weaken bus.next_id (handlers_of j bus.by_type) (good.ids j))
          ]);
  }

-- The slice ends with the id that no other has.
pub without_last :
    (n : ℕ) (hs : List Subscriber) (h : Subscriber)
    → AreIdsBelow n hs
    → n < h.id
    → without_id h.id (hs ++ (h ∷ [])) ≡ some hs
unfolding without_id
without_last n [] h below lt = ground arith
without_last n (x ∷ hs) h below lt = let rest = without_last n hs h below.1 lt in ground arith

length-without_id :
    (i : ℕ) (hs left : List Subscriber) → without_id i hs ≡ some left → length hs ≡ length left + 1
unfolding without_id
length-without_id i [] left e = absurd (ground arith)
length-without_id i (x ∷ hs) left e = elim (Bool-cases (x.id == i)) [
  | inl f ↦
      let e' : some hs ≡ some left = ground arith in
      let same_list : hs ≡ left = cc in omega (arith, ap length same_list)
  | inr f ↦ elim (Option-cases (without_id i hs)) [
    | inl g ↦ absurd (ground arith)
    | inr (rest, g) ↦
        let e' : some (x ∷ rest) ≡ some left = ground arith in
        let same_list : (x ∷ rest) ≡ left = cc in
        omega (arith, ap length same_list, length-without_id i hs rest g)
  ]
]

no_element : (hs : List Subscriber) → length hs ≡ 0 → hs ≡ []
no_element [] e = refl
no_element (x ∷ hs) e = absurd (omega arith)

-- The table after a removal that finds the id.
abbrev pub table_after : EventBus → List ℕ → List Subscriber → Table
table_after bus k left =
    if length (handlers_of k bus.by_type) == 1
    then delete_type k bus.by_type
    else set_handlers k left bus.by_type

pub remove_found :
    (bus : EventBus) (k : List ℕ) (i : ℕ) (left : List Subscriber)
    → 0 < i
    → without_id i (handlers_of k bus.by_type) ≡ some left
    → remove k i bus ≡ (true, record { next_id = bus.next_id; by_type = table_after bus k left })
unfolding remove
remove_found bus k zero left above e = absurd (omega arith)
remove_found bus k (suc i) left above e = rw (e, remove) refl

module _ (bus : EventBus) (k : List ℕ) (i : ℕ) (left : List Subscriber)
    (found : without_id i (handlers_of k bus.by_type) ≡ some left) where
  pub handlers_left :
      (j : List ℕ)
      → handlers_of j (table_after bus k left)
        ≡ (if same k j then left else handlers_of j bus.by_type)
  handlers_left j = elim (Bool-cases (length (handlers_of k bus.by_type) == 1)) [
    | inr e ↦ rw e (handlers_of-set_handlers k j left bus.by_type)
    | inl e ↦
        let size = length-without_id i (handlers_of k bus.by_type) left found in
        let empty = no_element left (ground arith) in
        rw e (
          handlers_of-delete_type k j bus.by_type
          ∙ ap (λ t. if same k j then t else handlers_of j bus.by_type) (sym empty))
  ]

  pub IsDistinct-table_after : IsDistinct bus.by_type → IsDistinct (table_after bus k left)
  IsDistinct-table_after d = elim (Bool-cases (length (handlers_of k bus.by_type) == 1)) [
    | inl e ↦ rw e (IsDistinct-delete_type k bus.by_type d)
    | inr e ↦ rw e (IsDistinct-set_handlers k left bus.by_type d)
  ]
