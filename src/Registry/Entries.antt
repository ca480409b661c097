-- ===== src/Registry/Entries.antt =====
-- What NewRegistry makes: the entries in their order, each looked up under its position.
use cyu_core.Base.{
  ℕ, zero, suc, ◌+◌, ◌%◌, ◌^◌, ◌<◌, ◌≤◌, ◌≡◌, refl, ap, sym, ◌∙◌, true, false, Option, none, some,
  List, [], ◌∷◌, ◌++◌, arith, inl, inr, Bool-cases, Outcome-cases, All, length, get_elem?, ok, same,
  same_of_eq, eq_of_same,
}
use cyu_core.Registry.{
  Entry, find_key, is_some, Registry, add_entries, new_registry, entry_at, lookup,
}
use cyu_core.Registry.Identifiers.{Identifier, validate_identifier}
use mathlib.Core.Path.{subst}

pub some_found : {A : Type 0} (o : Option A) → is_some o ≡ true → (a : A) × (o ≡ some a)
some_found none h = absurd (ground arith)
some_found (some a) h = (a, refl)

pub none_found : {A : Type 0} (o : Option A) → is_some o ≡ false → o ≡ none
none_found none h = refl
none_found (some a) h = absurd (ground arith)

record Added (index : ℕ) (es : List Entry) (r r' : Registry) : Type 0 where
  pub same_key : r'.key ≡ r.key
  pub all_entries : r'.entries ≡ r.entries ++ es
  pub kept : (k : Identifier) (id : ℕ) → find_key k r.ids ≡ some id → find_key k r'.ids ≡ some id
  pub absent :
      (k : Identifier)
      → All (λ (e : Entry). same e.key k ≡ false) es
      → find_key k r.ids ≡ none
      → find_key k r'.ids ≡ none
  pub found :
      (i : ℕ) (e : Entry)
      → get_elem? es i ≡ some e
      → find_key e.key r'.ids ≡ some ((index + i) % 2 ^ 32)

-- The registry with one more entry.
abbrev with_entry : ℕ → Entry → Registry → Registry
with_entry index e r = record r {
  entries = r.entries ++ (e ∷ []);
  ids = (e.key, index % 2 ^ 32) ∷ r.ids;
}

-- The tests that an entry has passed when the loop goes on.
add_entries-ok :
    (index : ℕ) (e : Entry) (es : List Entry) (r r' : Registry)
    → add_entries index (e ∷ es) r ≡ ok r'
    → (find_key e.key r.ids ≡ none) × (add_entries (index + 1) es (with_entry index e r) ≡ ok r')
unfolding add_entries
add_entries-ok index e es r r' h = elim (Outcome-cases (validate_identifier e.key)) [
  | inr (x, v) ↦ absurd (ground (arith, v))
  | inl (u, v) ↦ elim (Bool-cases (is_some (find_key e.key r.ids))) [
    | inl d ↦ absurd (ground (arith, v, d))
    | inr d ↦ (none_found (find_key e.key r.ids) d, ground (arith, v, d))
  ]
]

append_one :
    (xs : List Entry) (e : Entry) (es : List Entry) → (xs ++ (e ∷ [])) ++ es ≡ xs ++ (e ∷ es)
append_one [] e es = refl
append_one (x ∷ xs) e es = ap (◌∷◌ x) (append_one xs e es)

append_none : (xs : List Entry) → xs ++ [] ≡ xs
append_none [] = refl
append_none (x ∷ xs) = ap (◌∷◌ x) (append_none xs)

found_step :
    (index : ℕ) (e : Entry) (es : List Entry) (r r' : Registry)
    → Added (index + 1) es (with_entry index e r) r'
    → (i : ℕ) (x : Entry) → get_elem? (e ∷ es) i ≡ some x
    → find_key x.key r'.ids ≡ some ((index + i) % 2 ^ 32)
unfolding find_key
found_step index e es r r' rest zero x g =
    let is : e ≡ x = cc in
    let here : find_key e.key r'.ids ≡ some (index % 2 ^ 32) =
      rest.kept e.key (index % 2 ^ 32) (rw (same_of_eq e.key) refl) in
    subst (λ (y : Entry). find_key y.key r'.ids ≡ some ((index + 0) % 2 ^ 32)) is
      (here ∙ ap (λ n. some (n % 2 ^ 32)) (omega arith))
found_step index e es r r' rest (suc i) x g =
    rest.found i x g ∙ ap (λ n. some (n % 2 ^ 32)) (omega arith)

add_entries-Added :
    (index : ℕ) (es : List Entry) (r r' : Registry)
    → add_entries index es r ≡ ok r'
    → Added index es r r'
unfolding add_entries find_key
add_entries-Added index [] r r' h =
    let is : r ≡ r' = cc in
    subst (Added index [] r) is (record {
      same_key = refl;
      all_entries = sym (append_none r.entries);
      kept = λ k id f. f;
      absent = λ k a f. f;
      found = λ i e g. absurd (ground arith);
    })
add_entries-Added index (e ∷ es) r r' h =
    let (fresh, h') = add_entries-ok index e es r r' h in
    let rest = add_entries-Added (index + 1) es (with_entry index e r) r' h' in
    record {
      same_key = rest.same_key;
      all_entries = rest.all_entries ∙ append_one r.entries e es;
      kept = λ k id f. rest.kept k id (elim (Bool-cases (same e.key k)) [
        | inl d ↦
            let is = eq_of_same e.key k d in let g = ap (λ j. find_key j r.ids) is in absurd cc
        | inr d ↦ rw d f
      ]);
      absent = λ k a f. rest.absent k a.1 (rw (a.0) f);
      found = found_step index e es r r' rest;
    }

entry_at-small : (id : ℕ) (es : List Entry) → id < 2 ^ 31 → entry_at id es ≡ get_elem? es id
unfolding entry_at
entry_at-small id es h = ground arith

get_elem-below : (es : List Entry) (i : ℕ) (e : Entry) → get_elem? es i ≡ some e → i < length es
get_elem-below [] i e h = absurd cc
get_elem-below (x ∷ es) zero e h = omega arith
get_elem-below (x ∷ es) (suc i) e h = omega (arith, get_elem-below es i e h)

module _ (key : Identifier) (es : List Entry) (r : Registry)
    (made : new_registry key es ≡ ok r) where
  new_registry-Added : Added 0 es (record { key = key; entries = []; ids = [] }) r
  unfolding new_registry
  new_registry-Added = elim (Outcome-cases (validate_identifier key)) [
    | inr (x, v) ↦ absurd (ground (arith, v))
    | inl (u, v) ↦ add_entries-Added 0 es _ r (ground (arith, v))
  ]

lookup-found :
    (k : Identifier) (r : Registry) (id : ℕ)
    → find_key k r.ids ≡ some id
    → lookup k r ≡ some (entry_at id r.entries, id)
unfolding lookup
lookup-found k r id e = rw (e, lookup) refl

lookup-missing : (k : Identifier) (r : Registry) → find_key k r.ids ≡ none → lookup k r ≡ none
unfolding lookup
lookup-missing k r e = rw (e, lookup) refl

-- In a registry that NewRegistry made of at most 2 ^ 31 entries, which it keeps in their order,
-- Lookup gives for the key of each entry that entry with its position, and reports any other key as
-- missing.
pub lookup-new_registry :
    (key : Identifier) (es : List Entry) (r : Registry)
    → new_registry key es ≡ ok r
    → length es ≤ 2 ^ 31
    → (r.entries ≡ es)
      × ((i : ℕ) (e : Entry) → get_elem? es i ≡ some e → lookup e.key r ≡ some (some e, i))
      × ((k : Identifier) → All (λ (e : Entry). same e.key k ≡ false) es → lookup k r ≡ none)
unfolding find_key
lookup-new_registry key es r made small =
    let added = new_registry-Added key es r made in
    let listed : r.entries ≡ es = added.all_entries in
    (
      listed,
      (λ i e g.
          let below = get_elem-below es i e g in
          let id : find_key e.key r.ids ≡ some i = added.found i e g ∙ ap some (omega arith) in
          lookup-found e.key r i id
          ∙ ap (λ (o : Option Entry). some (o, i))
              (entry_at-small i r.entries (omega arith) ∙ ap (λ l. get_elem? l i) listed ∙ g)),
      λ k a. lookup-missing k r (added.absent k a refl),
    )
