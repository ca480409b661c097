-- ===== src/Plugins/Events/Removal.antt =====
-- removeOwner, the slices it leaves and its count.
use cyu_core.Base.{
  ℕ, ◌+◌, ◌≡◌, refl, ap, sym, ◌∙◌, Bool, false, not, some, List, [], ◌∷◌, ltb, ◌==◌, ==_iff, arith,
  if◌then◌else◌, length, inl, inr, Bool-cases,
}
use cyu_core.Plugins.Names.{same, same_of_eq, eq_of_same}
use cyu_core.Plugins.Events.{
  Subscriber, Table, EventBus, handlers_of, has_type, set_handlers, delete_type, of_others,
  count_own, remove_owner_loop, remove_owner,
}
use cyu_core.Plugins.Events.Tables.{handlers_of-set_handlers, handlers_of-delete_type}
use cyu_core.Plugins.Events.Distinct.{IsDistinct, IsDistinct-set_handlers, IsDistinct-delete_type}
use cyu_core.Plugins.Events.Agree.{
  Agree, different_key, different, Agree-set_handlers, Agree-delete_type,
}

length-of_others :
    (o : ℕ) (hs : List Subscriber) → count_own o hs + length (of_others o hs) ≡ length hs
unfolding of_others count_own
length-of_others o [] = omega arith
length-of_others o (h ∷ hs) = ground (arith, length-of_others o hs)

-- An owner without a record loses none.
none_own : (o : ℕ) (hs : List Subscriber) → count_own o hs ≡ 0 → of_others o hs ≡ hs
unfolding of_others count_own
none_own o [] e = refl
none_own o (h ∷ hs) e = elim (Bool-cases (h.owner == o)) [
  | inl f ↦ absurd (ground arith)
  | inr f ↦ rw f (ap (◌∷◌ h) (none_own o hs (ground arith)))
]

none_left : (hs : List Subscriber) → length hs ≡ 0 → hs ≡ []
none_left [] e = refl
none_left (h ∷ hs) e = absurd (omega arith)

module _ (o : ℕ) (k : List ℕ) where
  -- The slice of `k` after the loop over `current`.
  abbrev expected : Table → Table → List Subscriber
  expected current next =
      if has_type k current then of_others o (handlers_of k current) else handlers_of k next

  -- The visit of an entry leaves the slice of its type without the owner's records.
  visited :
      (t : List ℕ) (hs : List Subscriber) (es next next' : Table)
      → has_type t es ≡ false
      → handlers_of k next' ≡ (if same t k then of_others o hs else handlers_of k next)
      → expected es next' ≡ expected ((t, hs) ∷ es) next
  unfolding has_type handlers_of
  visited t hs es next next' fresh e = elim (Bool-cases (same t k)) [
    | inl f ↦
        let none_later = ap (λ x. has_type x es) (sym (eq_of_same t k f)) ∙ fresh in ground arith
    | inr f ↦ ground arith
  ]

  unchanged :
      (t : List ℕ) (hs : List Subscriber) (next : Table)
      → handlers_of t next ≡ hs
      → length (of_others o hs) ≡ length hs
      → handlers_of k next ≡ (if same t k then of_others o hs else handlers_of k next)
  unchanged t hs next h e = elim (Bool-cases (same t k)) [
    | inl f ↦ rw f (
        ap (λ x. handlers_of x next) (sym (eq_of_same t k f))
        ∙ h
        ∙ sym (none_own o hs (omega (arith, length-of_others o hs))))
    | inr f ↦ rw f refl
  ]

  remove_owner_loop_lem :
      (current next : Table)
      → IsDistinct current
      → Agree current next
      → handlers_of k (remove_owner_loop o current next).1 ≡ expected current next
  unfolding remove_owner_loop has_type
  remove_owner_loop_lem [] next d h = refl
  remove_owner_loop_lem ((t, hs) ∷ es) next d h =
      let kept = of_others o hs in
      elim (Bool-cases (length kept == 0)) [
        | inl e ↦
            let empty = none_left kept ((==_iff (length kept) 0).0 e) in
            let after =
              handlers_of-delete_type t k next
              ∙ ap (λ x. if same t k then x else handlers_of k next) (sym empty) in
            rw e (
              remove_owner_loop_lem es (delete_type t next) d.1
                (Agree-delete_type t es next d.0 h.1)
              ∙ visited t hs es next (delete_type t next) d.0 after)
        | inr e ↦ elim (Bool-cases (length kept == length hs)) [
          | inl f ↦
              rw (e, f)
                (remove_owner_loop_lem es next d.1 h.1
                  ∙ visited t hs es next next d.0
                      (unchanged t hs next h.0 ((==_iff (length kept) (length hs)).0 f)))
          | inr f ↦
              rw (e, f)
                (remove_owner_loop_lem es (set_handlers t kept next) d.1
                    (Agree-set_handlers t kept es next d.0 h.1)
                  ∙ visited t hs es next (set_handlers t kept next) d.0
                      (handlers_of-set_handlers t k kept next))
        ]
      ]

IsDistinct-remove_owner_loop :
    (o : ℕ) (current next : Table)
    → IsDistinct next
    → IsDistinct (remove_owner_loop o current next).1
unfolding remove_owner_loop
IsDistinct-remove_owner_loop o [] next d = d
IsDistinct-remove_owner_loop o ((t, hs) ∷ es) next d =
    let kept = of_others o hs in
    elim (Bool-cases (length kept == 0)) [
      | inl e ↦
          rw e (
            IsDistinct-remove_owner_loop o es (delete_type t next)
              (IsDistinct-delete_type t next d))
      | inr e ↦ elim (Bool-cases (length kept == length hs)) [
        | inl f ↦ rw (e, f) (IsDistinct-remove_owner_loop o es next d)
        | inr f ↦
            rw (e, f)
              (IsDistinct-remove_owner_loop o es (set_handlers t kept next)
                (IsDistinct-set_handlers t kept next d))
      ]
    ]

-- The elements that pass a test.
unfoldable pub select {ℓ} : {A : Type ℓ} → (A → Bool) → List A → List A
select test [] = []
select test (a ∷ xs) = let rest = select test xs in if test a then a ∷ rest else rest

abbrev pub is_own : (owner : ℕ) → Subscriber → Bool
is_own o h = h.owner == o

abbrev pub is_other : (owner : ℕ) → Subscriber → Bool
is_other o h = not (h.owner == o)

pub of_others-select : (o : ℕ) (hs : List Subscriber) → of_others o hs ≡ select (is_other o) hs
unfolding of_others select
of_others-select o [] = refl
of_others-select o (h ∷ hs) = let rest = of_others-select o hs in ground arith

count_own-select : (o : ℕ) (hs : List Subscriber) → count_own o hs ≡ length (select (is_own o) hs)
unfolding count_own select
count_own-select o [] = refl
count_own-select o (h ∷ hs) = let rest = count_own-select o hs in ground arith

-- How many records the owner has in the table.
unfoldable pub count_all : ℕ → Table → ℕ
unfolding select
count_all o [] = 0
count_all o ((t, hs) ∷ es) = length (select (is_own o) hs) + count_all o es

remove_owner_loop-count :
    (o : ℕ) (current next : Table) → (remove_owner_loop o current next).0 ≡ count_all o current
unfolding remove_owner_loop count_all
remove_owner_loop-count o [] next = refl
remove_owner_loop-count o ((t, hs) ∷ es) next = ground (
  arith,
  count_own-select o hs,
  remove_owner_loop-count o es (delete_type t next),
  remove_owner_loop-count o es (set_handlers t (of_others o hs) next),
  remove_owner_loop-count o es next,
)

Agree-later :
    (t : List ℕ) (hs : List Subscriber) (es next : Table)
    → has_type t es ≡ false
    → Agree es next
    → Agree es ((t, hs) ∷ next)
unfolding handlers_of has_type
Agree-later t hs [] next f h = tt
Agree-later t hs ((u, old) ∷ es) next f h =
    (rw (different t u old es f) h.0, Agree-later t hs es next (ground arith) h.1)

Agree-self : (table : Table) → IsDistinct table → Agree table table
unfolding handlers_of
Agree-self [] d = tt
Agree-self ((t, hs) ∷ es) d =
    (rw (same_of_eq t) refl, Agree-later t hs es es d.0 (Agree-self es d.1))

nothing_removed :
    (o : ℕ) (k : List ℕ) (table : Table)
    → count_all o table ≡ 0
    → handlers_of k table ≡ of_others o (handlers_of k table)
unfolding count_all handlers_of of_others
nothing_removed o k [] h = refl
nothing_removed o k ((t, hs) ∷ es) h = elim (Bool-cases (same t k)) [
  | inl e ↦ rw e (sym (none_own o hs (omega (arith, count_own-select o hs))))
  | inr e ↦ rw e (nothing_removed o k es (omega arith))
]

missing_type :
    (o : ℕ) (k : List ℕ) (table : Table)
    → has_type k table ≡ false
    → handlers_of k table ≡ of_others o (handlers_of k table)
unfolding has_type handlers_of of_others
missing_type o k [] h = refl
missing_type o k ((t, hs) ∷ es) h =
    rw (different_key t k hs es h) (missing_type o k es (ground arith))

module _ (o : ℕ) (bus : EventBus) (d : IsDistinct bus.by_type) where
  removed_table :
      (k : List ℕ)
      → handlers_of k (remove_owner_loop o bus.by_type bus.by_type).1
        ≡ of_others o (handlers_of k bus.by_type)
  removed_table k =
      remove_owner_loop_lem o k bus.by_type bus.by_type d (Agree-self bus.by_type d)
      ∙ elim (Bool-cases (has_type k bus.by_type)) [
        | inl h ↦ rw h refl
        | inr h ↦ rw h (missing_type o k bus.by_type h)
      ]

  pub remove_owner_handlers :
      (k : List ℕ)
      → handlers_of k (remove_owner (some o) bus).1.by_type
        ≡ of_others o (handlers_of k bus.by_type)
  unfolding remove_owner
  remove_owner_handlers k =
      let (removed, next) = remove_owner_loop o bus.by_type bus.by_type in
      elim (Bool-cases (ltb 0 removed)) [
        | inl h ↦ rw h (removed_table k)
        | inr h ↦ rw h (
            nothing_removed o k bus.by_type
              (sym (remove_owner_loop-count o bus.by_type bus.by_type) ∙ ground arith))
      ]

  pub remove_owner_count : (remove_owner (some o) bus).0 ≡ count_all o bus.by_type
  unfolding remove_owner
  remove_owner_count = remove_owner_loop-count o bus.by_type bus.by_type

  pub IsDistinct-remove_owner : IsDistinct (remove_owner (some o) bus).1.by_type
  unfolding remove_owner
  IsDistinct-remove_owner =
      elim (Bool-cases (ltb 0 (remove_owner_loop o bus.by_type bus.by_type).0)) [
        | inl h ↦ rw h (IsDistinct-remove_owner_loop o bus.by_type bus.by_type d)
        | inr h ↦ rw h d
      ]
