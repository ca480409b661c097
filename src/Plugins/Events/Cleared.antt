-- ===== src/Plugins/Events/Cleared.antt =====
-- The owners without a subscription: which operations leave one so, and which makes it so.
use cyu_core.Base.{
  ℕ, zero, suc, ◌≡◌, refl, sym, ◌∙◌, Bool, false, Option, some, List, [], ◌∷◌, ◌++◌, ◌==◌, arith,
  inl, inr, Bool-cases, Option-cases, ok,
}
use cyu_core.Plugins.Names.{same}
use cyu_core.Plugins.Events.{
  Subscriber, EventBus, handlers_of, add_subscriber, subscribe, without_id, remove, of_others,
  count_own, remove_owner, Subscription, cancel,
}
use cyu_core.Plugins.Events.Tables.{handlers_of-set_handlers}
use cyu_core.Plugins.Events.Distinct.{IsDistinct, IsDistinct-set_handlers}
use cyu_core.Plugins.Events.Removal.{remove_owner_handlers}
use cyu_core.Plugins.Events.Subscriptions.{
  subscribe_lem, remove_found, handlers_left, IsDistinct-table_after,
}
use mathlib.Core.Path.{subst}

abbrev pub HasNoHandler : ℕ → EventBus → Type 0
HasNoHandler p bus = (k : List ℕ) → count_own p (handlers_of k bus.by_type) ≡ 0

count_own-append :
    (p : ℕ) (hs : List Subscriber) (x : Subscriber)
    → (x.owner == p) ≡ false
    → count_own p (hs ++ (x ∷ [])) ≡ count_own p hs
unfolding count_own
count_own-append p [] x d = ground arith
count_own-append p (h ∷ hs) x d = ground (arith, count_own-append p hs x d)

count_own-without_id :
    (p i : ℕ) (hs left : List Subscriber)
    → without_id i hs ≡ some left
    → count_own p hs ≡ 0
    → count_own p left ≡ 0
unfolding without_id count_own
count_own-without_id p i [] left e h = absurd (ground arith)
count_own-without_id p i (x ∷ hs) left e h = elim (Bool-cases (x.id == i)) [
  | inl f ↦
      let e' : some hs ≡ some left = ground arith in
      let same_list : hs ≡ left = cc in
      let rest : count_own p hs ≡ 0 = ground arith in subst (λ l. count_own p l ≡ 0) same_list rest
  | inr f ↦ elim (Option-cases (without_id i hs)) [
    | inl g ↦ absurd (ground arith)
    | inr (rest, g) ↦
        let e' : some (x ∷ rest) ≡ some left = ground arith in
        let same_list : (x ∷ rest) ≡ left = cc in
        let none_later = count_own-without_id p i hs rest g (ground arith) in
        let whole : count_own p (x ∷ rest) ≡ 0 = ground arith in
        subst (λ l. count_own p l ≡ 0) same_list whole
  ]
]

none_of_others : (o : ℕ) (hs : List Subscriber) → count_own o (of_others o hs) ≡ 0
unfolding of_others count_own
none_of_others o [] = refl
none_of_others o (h ∷ hs) = ground (arith, none_of_others o hs)

count_own-of_others :
    (p o : ℕ) (hs : List Subscriber) → count_own p hs ≡ 0 → count_own p (of_others o hs) ≡ 0
unfolding of_others count_own
count_own-of_others p o [] e = refl
count_own-of_others p o (h ∷ hs) e = ground (arith, count_own-of_others p o hs)

HasNoHandler-add_subscriber :
    (p : ℕ) (k : List ℕ) (x : Subscriber) (bus : EventBus)
    → (x.owner == p) ≡ false
    → HasNoHandler p bus
    → HasNoHandler p (add_subscriber k x bus)
unfolding add_subscriber
HasNoHandler-add_subscriber p k x bus d clean j =
    let grown = handlers_of k bus.by_type ++ (x ∷ []) in
    rw (handlers_of-set_handlers k j grown bus.by_type) (elim (Bool-cases (same k j)) [
      | inl e ↦ rw e (count_own-append p (handlers_of k bus.by_type) x d ∙ clean k)
      | inr e ↦ rw e (clean j)
    ])

IsDistinct-add_subscriber :
    (k : List ℕ) (x : Subscriber) (bus : EventBus)
    → IsDistinct bus.by_type
    → IsDistinct (add_subscriber k x bus).by_type
unfolding add_subscriber
IsDistinct-add_subscriber k x bus d =
    IsDistinct-set_handlers k (handlers_of k bus.by_type ++ (x ∷ [])) bus.by_type d

module _ (bus bus' : EventBus) (o : ℕ) (a b : Bool) (k : List ℕ) (handler : Option ℕ) (id : ℕ)
    (subscribed : subscribe (some o) a b k handler bus ≡ ok (id, bus')) where
  pub IsDistinct-subscribe : IsDistinct bus.by_type → IsDistinct bus'.by_type
  IsDistinct-subscribe d =
      let (q, h, owned, called, is_id, is_bus) =
        subscribe_lem bus bus' (some o) a b k handler id subscribed in
      let x : Subscriber = record { id = id; owner = q; handler = h } in
      subst (λ (t : EventBus). IsDistinct t.by_type) (sym is_bus)
        (IsDistinct-add_subscriber k x bus d)

  pub HasNoHandler-subscribe : (p : ℕ) → (p == o) ≡ false → HasNoHandler p bus → HasNoHandler p bus'
  HasNoHandler-subscribe p d clean =
      let (q, h, owned, called, is_id, is_bus) =
        subscribe_lem bus bus' (some o) a b k handler id subscribed in
      let x : Subscriber = record { id = id; owner = q; handler = h } in
      let same_owner : o ≡ q = cc in
      let apart : (q == p) ≡ false = ground arith in
      subst (HasNoHandler p) (sym is_bus) (HasNoHandler-add_subscriber p k x bus apart clean)

pub IsDistinct-remove :
    (bus : EventBus) (k : List ℕ) (i : ℕ)
    → IsDistinct bus.by_type
    → IsDistinct (remove k i bus).1.by_type
unfolding remove
IsDistinct-remove bus k zero d = d
IsDistinct-remove bus k (suc i) d =
    elim (Option-cases (without_id (suc i) (handlers_of k bus.by_type))) [
      | inl e ↦ rw (e, remove) d
      | inr (left, e) ↦
          rw (remove_found bus k (suc i) left (omega arith) e)
            (IsDistinct-table_after bus k (suc i) left e d)
    ]

pub HasNoHandler-remove :
    (bus : EventBus) (k : List ℕ) (i p : ℕ) → HasNoHandler p bus → HasNoHandler p (remove k i bus).1
unfolding remove
HasNoHandler-remove bus k zero p clean = clean
HasNoHandler-remove bus k (suc i) p clean =
    elim (Option-cases (without_id (suc i) (handlers_of k bus.by_type))) [
      | inl e ↦ rw (e, remove) clean
      | inr (left, e) ↦ rw (remove_found bus k (suc i) left (omega arith) e) (λ j.
          rw (handlers_left bus k (suc i) left e j) (elim (Bool-cases (same k j)) [
            | inl f ↦
                rw f (count_own-without_id p (suc i) (handlers_of k bus.by_type) left e (clean k))
            | inr f ↦ rw f (clean j)
          ]))
    ]

module _ (o : ℕ) (bus : EventBus) (d : IsDistinct bus.by_type) where
  pub HasNoHandler-removed : HasNoHandler o (remove_owner (some o) bus).1
  HasNoHandler-removed k =
      rw (remove_owner_handlers o bus d k) (none_of_others o (handlers_of k bus.by_type))

  pub HasNoHandler-remove_owner :
      (p : ℕ) → HasNoHandler p bus → HasNoHandler p (remove_owner (some o) bus).1
  HasNoHandler-remove_owner p clean k =
      rw (remove_owner_handlers o bus d k)
        (count_own-of_others p o (handlers_of k bus.by_type) (clean k))

-- A subscription that was cancelled changes nothing; another one is removed.
pub cancel-elim :
    (P : EventBus → Type 0) (s : Subscription) (bus : EventBus)
    → P bus
    → P (remove s.event_type s.id bus).1
    → P (cancel s bus).2
unfolding cancel
cancel-elim P s bus same less = elim (Bool-cases s.canceled) [
  | inl e ↦ rw e same
  | inr e ↦ rw e less
]
