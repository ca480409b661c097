-- ===== src/Plugins/Events/History.antt =====
-- The bus as the list of its live subscriptions, in the order in which they were made: a subscription
-- joins at the end, and a removal takes out what it names.
use cyu_core.Base.{
  ℕ, suc, ◌≡◌, refl, ap, sym, ◌∙◌, Bool, true, false, ◌&&◌, none, some, List, [], ◌∷◌, ◌++◌, ◌==◌,
  arith, if◌then◌else◌, inl, inr, Bool-cases, Option-cases, ok,
}
use cyu_core.Plugins.Names.{same, eq_of_same}
use cyu_core.Plugins.Events.{
  Subscriber, EventBus, new_event_bus, handlers_of, add_subscriber, subscribe, without_id, remove,
  remove_owner,
}
use cyu_core.Plugins.Events.Tables.{handlers_of-set_handlers}
use cyu_core.Plugins.Events.Distinct.{IsDistinct}
use cyu_core.Plugins.Events.Removal.{
  remove_owner_handlers, IsDistinct-remove_owner, select, is_other, of_others-select,
}
use cyu_core.Plugins.Events.Subscriptions.{subscribe_lem, remove_found, handlers_left}
use cyu_core.Plugins.Events.Cleared.{IsDistinct-subscribe, IsDistinct-remove}
use mathlib.Core.Path.{subst}

abbrev pub Live : Type 0
Live = List (List ℕ × Subscriber)

-- The subscriptions to a type.
unfoldable pub of_type : List ℕ → Live → List Subscriber
of_type k [] = []
of_type k ((t, h) ∷ es) = let rest = of_type k es in if same t k then h ∷ rest else rest

-- Without the first subscription to the type under the id.
unfoldable pub forget : List ℕ → (id : ℕ) → Live → Live
forget k i [] = []
forget k i ((t, h) ∷ es) =
    let rest = forget k i es in if same t k && h.id == i then es else (t, h) ∷ rest

unfoldable pub forget_owner : (owner : ℕ) → Live → Live
unfolding select
forget_owner o live = select (λ e. is_other o e.1) live

-- What was done to a bus, from a new one on; an operation that returns an error changes nothing.
pub data IsHistory : Live → EventBus → Type 0 where
  began : IsHistory [] new_event_bus
  subscribed :
      (live : Live) (bus bus' : EventBus) (o : ℕ) (a b : Bool) (k : List ℕ) (h id : ℕ)
      → IsHistory live bus
      → subscribe (some o) a b k (some h) bus ≡ ok (id, bus')
      → IsHistory (live ++ ((k, record { id = id; owner = o; handler = h }) ∷ [])) bus'
  cancelled :
      (live : Live) (bus : EventBus) (k : List ℕ) (i : ℕ)
      → IsHistory live bus
      → IsHistory (forget k (suc i) live) (remove k (suc i) bus).1
  owner_removed :
      (live : Live) (bus : EventBus) (o : ℕ)
      → IsHistory live bus
      → IsHistory (forget_owner o live) (remove_owner (some o) bus).1

of_type-append :
    (j k : List ℕ) (x : Subscriber) (live : Live)
    → of_type j (live ++ ((k, x) ∷ []))
      ≡ (if same k j then of_type j live ++ (x ∷ []) else of_type j live)
unfolding of_type
of_type-append j k x [] = ground arith
of_type-append j k x ((t, h) ∷ es) =
    let rest = of_type-append j k x es in
    elim (Bool-cases (same t j)) [ inl e ↦ rw e (rw rest (ground arith)) | inr e ↦ rw e rest ]

forget-none :
    (k : List ℕ) (i : ℕ) (live : Live)
    → without_id i (of_type k live) ≡ none
    → forget k i live ≡ live
unfolding of_type forget without_id
forget-none k i [] e = refl
forget-none k i ((t, h) ∷ es) e = elim (Bool-cases (same t k)) [
  | inr f ↦ rw f (ap (◌∷◌ (t, h)) (forget-none k i es (rw f at e)))
  | inl f ↦ elim (Bool-cases (h.id == i)) [
    | inl g ↦ absurd (ground arith)
    | inr g ↦ elim (Option-cases (without_id i (of_type k es))) [
      | inl n ↦ rw (f, g) (ap (◌∷◌ (t, h)) (forget-none k i es n))
      | inr (left, n) ↦ absurd (ground arith)
    ]
  ]
]

of_type-forget :
    (k : List ℕ) (i : ℕ) (live : Live) (left : List Subscriber)
    → without_id i (of_type k live) ≡ some left
    → of_type k (forget k i live) ≡ left
unfolding of_type forget without_id
of_type-forget k i [] left e = absurd (ground arith)
of_type-forget k i ((t, h) ∷ es) left e = elim (Bool-cases (same t k)) [
  | inr f ↦ rw f (rw f (of_type-forget k i es left (rw f at e)))
  | inl f ↦ elim (Bool-cases (h.id == i)) [
    | inl g ↦ rw (f, g) (let is : some (of_type k es) ≡ some left = ground arith in cc)
    | inr g ↦ elim (Option-cases (without_id i (of_type k es))) [
      | inl n ↦ absurd (ground arith)
      | inr (rest, n) ↦
          let is : some (h ∷ rest) ≡ some left = ground arith in
          let same_list : (h ∷ rest) ≡ left = cc in
          rw (f, g) (rw f (ap (◌∷◌ h) (of_type-forget k i es rest n) ∙ same_list))
    ]
  ]
]

of_type-forget_other :
    (j k : List ℕ) (i : ℕ) (live : Live)
    → same k j ≡ false
    → of_type j (forget k i live) ≡ of_type j live
unfolding of_type forget
of_type-forget_other j k i [] d = refl
of_type-forget_other j k i ((t, h) ∷ es) d = elim (Bool-cases (same t k && h.id == i)) [
  | inl e ↦
      let is : same t k ≡ true = ground arith in
      let apart : same t j ≡ false = ap (λ x. same x j) (eq_of_same t k is) ∙ d in
      rw e (rw apart refl)
  | inr e ↦ rw e (
      let rest = of_type-forget_other j k i es d in
      elim (Bool-cases (same t j)) [ inl f ↦ rw f (ap (◌∷◌ h) rest) | inr f ↦ rw f rest ])
]

of_type-forget_owner :
    (k : List ℕ) (o : ℕ) (live : Live)
    → of_type k (forget_owner o live) ≡ select (is_other o) (of_type k live)
unfolding of_type forget_owner select
of_type-forget_owner k o [] = refl
of_type-forget_owner k o ((t, h) ∷ es) =
    let rest = of_type-forget_owner k o es in
    elim (Bool-cases (h.owner == o)) [
      | inr e ↦ elim (Bool-cases (same t k)) [
        | inl f ↦ rw (e, f) (rw e (ap (◌∷◌ h) rest))
        | inr f ↦ rw (e, f) rest
      ]
      | inl e ↦ elim (Bool-cases (same t k)) [
        | inl f ↦ rw (e, f) (rw e rest)
        | inr f ↦ rw (e, f) rest
      ]
    ]

-- The table holds, under each type, the live subscriptions to it.
pub record Holds (live : Live) (bus : EventBus) : Type 0 where
  pub distinct : IsDistinct bus.by_type
  pub held : (k : List ℕ) → handlers_of k bus.by_type ≡ of_type k live

module _ (live : Live) (bus : EventBus) (h : Holds live bus) where
  Holds-subscribed :
      (bus' : EventBus) (o : ℕ) (a b : Bool) (k : List ℕ) (handler id : ℕ)
      → subscribe (some o) a b k (some handler) bus ≡ ok (id, bus')
      → Holds (live ++ ((k, record { id = id; owner = o; handler = handler }) ∷ [])) bus'
  unfolding add_subscriber
  Holds-subscribed bus' o a b k handler id e =
      let (q, hd, owned, called, is_id, is_bus) =
        subscribe_lem bus bus' (some o) a b k (some handler) id e in
      let x : Subscriber = record { id = id; owner = o; handler = handler } in
      let same_owner : q ≡ o = cc in
      let same_handler : hd ≡ handler = cc in
      let added : bus' ≡ add_subscriber k x bus =
        is_bus
        ∙ ap (λ n. add_subscriber k (record { id = id; owner = n; handler = hd }) bus) same_owner
        ∙ ap (λ n. add_subscriber k (record { id = id; owner = o; handler = n }) bus)
            same_handler in
      record {
        distinct = IsDistinct-subscribe bus bus' o a b k (some handler) id e h.distinct;
        held = λ j.
            ap (λ (t : EventBus). handlers_of j t.by_type) added
            ∙ handlers_of-set_handlers k j (handlers_of k bus.by_type ++ (x ∷ [])) bus.by_type
            ∙ elim (Bool-cases (same k j)) [
              | inl f ↦ rw f (
                  ap (λ t. t ++ (x ∷ []))
                    (ap (λ t. handlers_of t bus.by_type) (eq_of_same k j f) ∙ h.held j)
                  ∙ sym (of_type-append j k x live ∙ rw f refl))
              | inr f ↦ rw f (h.held j ∙ sym (of_type-append j k x live ∙ rw f refl))
            ];
      }

  Holds-cancelled : (k : List ℕ) (i : ℕ) → Holds (forget k (suc i) live) (remove k (suc i) bus).1
  unfolding remove
  Holds-cancelled k i = elim (Option-cases (without_id (suc i) (handlers_of k bus.by_type))) [
    | inl e ↦
        let same_live = forget-none k (suc i) live (ap (without_id (suc i)) (sym (h.held k)) ∙ e) in
        rw (e, remove) (subst (λ l. Holds l bus) (sym same_live) h)
    | inr (left, e) ↦
        let found = ap (without_id (suc i)) (sym (h.held k)) ∙ e in
        record {
          distinct = IsDistinct-remove bus k (suc i) h.distinct;
          held = λ j.
              ap (λ (r : Bool × EventBus). handlers_of j r.1.by_type)
                (remove_found bus k (suc i) left (omega arith) e)
              ∙ handlers_left bus k (suc i) left e j
              ∙ elim (Bool-cases (same k j)) [
                | inl f ↦ rw f (
                    sym (of_type-forget k (suc i) live left found)
                    ∙ ap (λ t. of_type t (forget k (suc i) live)) (eq_of_same k j f))
                | inr f ↦ rw f (h.held j ∙ sym (of_type-forget_other j k (suc i) live f))
              ];
        }
  ]

  Holds-owner_removed : (o : ℕ) → Holds (forget_owner o live) (remove_owner (some o) bus).1
  Holds-owner_removed o = record {
    distinct = IsDistinct-remove_owner o bus h.distinct;
    held = λ k.
        remove_owner_handlers o bus h.distinct k
        ∙ of_others-select o (handlers_of k bus.by_type)
        ∙ ap (select (is_other o)) (h.held k)
        ∙ sym (of_type-forget_owner k o live);
  }

Holds-new : Holds [] new_event_bus
unfolding handlers_of of_type
Holds-new = record { distinct = tt; held = λ k. refl }

pub IsHistory-Holds : (live : Live) (bus : EventBus) → IsHistory live bus → Holds live bus
IsHistory-Holds _ _ began = Holds-new
IsHistory-Holds _ _ (subscribed live bus bus' o a b k handler id before e) =
    Holds-subscribed live bus (IsHistory-Holds live bus before) bus' o a b k handler id e
IsHistory-Holds _ _ (cancelled live bus k i before) =
    Holds-cancelled live bus (IsHistory-Holds live bus before) k i
IsHistory-Holds _ _ (owner_removed live bus o before) =
    Holds-owner_removed live bus (IsHistory-Holds live bus before) o
