-- ===== src/Registry/Tags.antt =====
-- What NewSet makes: every registry under its own key, every tag group under a registry that has all
-- the entries of its tags.
use cyu_core.Base.{
  ℕ, ◌+◌, ◌≡◌, refl, sym, true, Option, none, some, List, [], ◌∷◌, ◌++◌, arith, inl, inr,
  Bool-cases, Option-cases, Outcome-cases, All, All-append, ok, same, eq_of_same, same_of_eq,
  contains,
}
use cyu_core.Registry.{
  Map, find_key, is_some, Registry, TagGroup, Tag, Set, empty_set, add_registries,
  check_tag_entries, check_tags, add_tag_group, add_tag_groups, new_set,
}
use cyu_core.Registry.Identifiers.{Identifier, validate_identifier}
use mathlib.Core.Path.{subst}

abbrev pub IsEntryOf : Registry → Identifier → Type 0
IsEntryOf r e = is_some (find_key e r.ids) ≡ true

abbrev pub IsResolved : Registry → Tag → Type 0
IsResolved r t = All (IsEntryOf r) t.entries

abbrev pub IsGroupOf : Map Registry → Identifier × TagGroup → Type 0
IsGroupOf rs p =
    (r : Registry) × (find_key p.0 rs ≡ some r) × (p.1.registry ≡ p.0) × All (IsResolved r) p.1.tags

pub record IsGraph (s : Set) : Type 0 where
  pub keyed : All (λ (p : Identifier × Registry). p.1.key ≡ p.0) s.registries
  pub ordered : All (λ (k : Identifier). is_some (find_key k s.registries) ≡ true) s.registry_order
  pub grouped : All (IsGroupOf s.registries) s.tag_groups

pub find_key-All {κ} :
    {A : Type 0} (P : Identifier × A → Type κ) (k : Identifier) (a : A) (m : Map A)
    → All P m
    → find_key k m ≡ some a
    → P (k, a)
unfolding find_key
find_key-All P k a [] h e = absurd cc
find_key-All P k a ((i, b) ∷ m) h e = elim (Bool-cases (same i k)) [
  | inl d ↦
      let is = eq_of_same i k d in
      let got : b ≡ a = ground (arith, d) in
      subst (λ j. P (j, a)) is (subst (λ c. P (i, c)) got h.0)
  | inr d ↦ find_key-All P k a m h.1 (ground (arith, d))
]

check_tag_entries-IsResolved :
    (r : Registry) (seen es : List Identifier) (u : Unit {0})
    → check_tag_entries r seen es ≡ ok u
    → All (IsEntryOf r) es
unfolding check_tag_entries
check_tag_entries-IsResolved r seen [] u h = tt
check_tag_entries-IsResolved r seen (e ∷ es) u h = elim (Bool-cases (contains e seen)) [
  | inl c ↦ absurd (ground (arith, c))
  | inr c ↦ elim (Bool-cases (is_some (find_key e r.ids))) [
    | inr d ↦ absurd (ground (arith, c, d))
    | inl d ↦ (d, check_tag_entries-IsResolved r (e ∷ seen) es u (ground (arith, c, d)))
  ]
]

check_tags-IsResolved :
    (r : Registry) (seen : List Identifier) (ts : List Tag) (u : Unit {0})
    → check_tags r seen ts ≡ ok u
    → All (IsResolved r) ts
unfolding check_tags
check_tags-IsResolved r seen [] u h = tt
check_tags-IsResolved r seen (t ∷ ts) u h = elim (Outcome-cases (validate_identifier t.key)) [
  | inr (x, v) ↦ absurd (ground (arith, v))
  | inl (w, v) ↦ elim (Bool-cases (contains t.key seen)) [
    | inl c ↦ absurd (ground (arith, v, c))
    | inr c ↦ elim (Outcome-cases (check_tag_entries r [] t.entries)) [
      | inr (x, d) ↦ absurd (ground (arith, v, c, d))
      | inl (y, d) ↦ (
        check_tag_entries-IsResolved r [] t.entries y d,
        check_tags-IsResolved r (t.key ∷ seen) ts u (ground (arith, v, c, d)),
      )
    ]
  ]
]

IsGraph-add_tag_group :
    (g : TagGroup) (s s' : Set) → IsGraph s → add_tag_group g s ≡ ok s' → IsGraph s'
unfolding add_tag_group
IsGraph-add_tag_group g s s' good h = elim (Outcome-cases (validate_identifier g.registry)) [
  | inr (x, v) ↦ absurd (ground (arith, v))
  | inl (w, v) ↦ elim (Option-cases (find_key g.registry s.registries)) [
    | inl f ↦ absurd (ground (arith, v, f))
    | inr (r, f) ↦ elim (Bool-cases (is_some (find_key g.registry s.tag_groups))) [
      | inl c ↦ absurd (ground (arith, v, f, c))
      | inr c ↦ elim (Outcome-cases (check_tags r [] g.tags)) [
        | inr (x, d) ↦ absurd (ground (arith, v, f, c, d))
        | inl (y, d) ↦
            let is : record s { tag_groups = (g.registry, g) ∷ s.tag_groups } ≡ s' =
              ground (arith, v, f, c, d) in
            subst IsGraph is (record {
              keyed = good.keyed;
              ordered = good.ordered;
              grouped = ((r, f, refl, check_tags-IsResolved r [] g.tags y d), good.grouped);
            })
      ]
    ]
  ]
]

IsGraph-add_tag_groups :
    (gs : List TagGroup) (s s' : Set) → IsGraph s → add_tag_groups gs s ≡ ok s' → IsGraph s'
unfolding add_tag_groups
IsGraph-add_tag_groups [] s s' good h = let is : s ≡ s' = cc in subst IsGraph is good
IsGraph-add_tag_groups (g ∷ gs) s s' good h = elim (Outcome-cases (add_tag_group g s)) [
  | inr (x, d) ↦ absurd (ground (arith, d))
  | inl (t, d) ↦
      IsGraph-add_tag_groups gs t s' (IsGraph-add_tag_group g s t good d) (ground (arith, d))
]

known_later :
    (r : Registry) (rs : Map Registry) (ks : List Identifier)
    → All (λ (k : Identifier). is_some (find_key k rs) ≡ true) ks
    → All (λ (k : Identifier). is_some (find_key k ((r.key, r) ∷ rs)) ≡ true) ks
unfolding find_key
known_later r rs [] h = tt
known_later r rs (k ∷ ks) h = elim (Bool-cases (same r.key k)) [
  | inl d ↦ (rw d refl, known_later r rs ks h.1)
  | inr d ↦ (rw d (h.0), known_later r rs ks h.1)
]

IsGraph-add_registries :
    (index : ℕ) (rs : List (Option Registry)) (s s' : Set)
    → IsGraph s
    → s.tag_groups ≡ []
    → add_registries index rs s ≡ ok s'
    → IsGraph s'
unfolding add_registries find_key
IsGraph-add_registries index [] s s' good bare h = let is : s ≡ s' = cc in subst IsGraph is good
IsGraph-add_registries index (none ∷ rs) s s' good bare h = absurd cc
IsGraph-add_registries index (some r ∷ rs) s s' good bare h =
    elim (Bool-cases (is_some (find_key r.key s.registries))) [
      | inl c ↦ absurd (ground (arith, c))
      | inr c ↦
          let t : Set = record s {
            registries = (r.key, r) ∷ s.registries;
            registry_order = s.registry_order ++ (r.key ∷ []);
          } in
          IsGraph-add_registries (index + 1) rs t s'
            (record {
              keyed = (refl, good.keyed);
              ordered =
                  All-append _ s.registry_order (r.key ∷ [])
                    (known_later r s.registries s.registry_order good.ordered)
                    (rw (same_of_eq r.key) refl, tt);
              grouped = subst (All (IsGroupOf ((r.key, r) ∷ s.registries))) (sym bare) tt;
            })
            bare (ground (arith, c))
    ]

pub new_set-IsGraph :
    (rs : List (Option Registry)) (gs : List TagGroup) (s : Set) → new_set rs gs ≡ ok s → IsGraph s
unfolding new_set
new_set-IsGraph rs gs s h = elim (Outcome-cases (add_registries 0 rs empty_set)) [
  | inr (x, d) ↦ absurd (ground (arith, d))
  | inl (t, d) ↦
      IsGraph-add_tag_groups gs t s
        (IsGraph-add_registries 0 rs empty_set t (record { keyed = tt; ordered = tt; grouped = tt })
          refl d)
        (ground (arith, d))
]
