-- ===== src/Plugins/Commands/Added.antt =====
-- A new record joins both maps.
use cyu_core.Base.{
  ℕ, ◌+◌, ◌≤◌, ◌<◌, ◌≡◌, ◌⊎◌, refl, ap, sym, ◌∙◌, Bool, true, false, Option, none, some, List, [],
  ◌∷◌, ◌==◌, ==_iff, arith, if◌then◌else◌, inl, inr, Bool-cases, All, ok,
}
use cyu_core.Plugins.Names.{same, eq_of_same, contains, Definition}
use cyu_core.Plugins.Commands.{Command, Registry, find_id, all_free, add_command, none_registered}
use cyu_core.Plugins.Commands.Tables.{link_lem}
use cyu_core.Plugins.Commands.Consistent.{IsConsistent}

-- The literals that `register` let through.
pub all_free_lem :
    (r : Registry) (ns : List (List ℕ)) (k : List ℕ)
    → all_free r ns ≡ ok tt
    → contains k ns ≡ true
    → (r.by_name k ≡ none) × (r.reserved k ≡ false)
unfolding all_free contains
all_free_lem r [] k h m = cc
all_free_lem r (n ∷ ns) k h m = elim (Bool-cases (same n k)) [
  | inl e ↦ rw (sym (eq_of_same n k e)) (ground arith)
  | inr e ↦ all_free_lem r ns k (ground arith) (ground arith)
]

pub none_registered_lem :
    (r : Registry) (ns : List (List ℕ)) (k : List ℕ)
    → none_registered r ns ≡ ok tt
    → contains k ns ≡ true
    → r.by_name k ≡ none
unfolding none_registered contains
none_registered_lem r [] k h m = cc
none_registered_lem r (n ∷ ns) k h m = elim (Bool-cases (same n k)) [
  | inl e ↦ rw (sym (eq_of_same n k e)) (ground arith)
  | inr e ↦ none_registered_lem r ns k (ground arith) (ground arith)
]

-- An id above all those in use is free.
fresh_id : (n i : ℕ) (cs : List Command) → All (λ c. c.id ≤ n) cs → n < i → find_id i cs ≡ none
unfolding find_id
fresh_id n i [] h lt = refl
fresh_id n i (c ∷ cs) h lt = ground (arith, fresh_id n i cs h.1 lt)

All-map :
    (P Q : Command → Type 0) (cs : List Command) → ((c : Command) → P c → Q c) → All P cs → All Q cs
All-map P Q [] f h = tt
All-map P Q (c ∷ cs) f h = (f c h.0, All-map P Q cs f h.1)

module _ (r : Registry) (owner : ℕ) (d : Definition) (handler : ℕ) (good : IsConsistent r)
    (lets : all_free r (d.name ∷ d.aliases) ≡ ok tt) where
  abbrev pub added : Command
  added = record {
    id = r.next_id + 1;
    owner = owner;
    definition = d;
    handler = handler;
    literals = d.name ∷ d.aliases;
  }

  abbrev pub after_add : Registry
  after_add = add_command r (r.next_id + 1) owner d handler

  pub added_name :
      (k : List ℕ)
      → after_add.by_name k ≡ (if contains k added.literals then some added else r.by_name k)
  unfolding add_command
  added_name k = link_lem added added.literals r.by_name k

  pub new_id : find_id (r.next_id + 1) r.by_id ≡ none
  new_id = fresh_id r.next_id (r.next_id + 1) r.by_id good.ids (omega arith)

  added_found : find_id (r.next_id + 1) after_add.by_id ≡ some added
  unfolding add_command find_id
  added_found = ground arith

  older_found :
      (i : ℕ) (c : Command) → find_id i r.by_id ≡ some c → find_id i after_add.by_id ≡ some c
  unfolding add_command find_id
  older_found i c h = elim (Bool-cases ((r.next_id + 1) == i)) [
    | inl e ↦ let at = (==_iff (r.next_id + 1) i).0 e in let none_there = new_id in absurd (cc)
    | inr e ↦ rw e h
  ]

  -- A name of the new registry is the added record's or stood for the same record.
  name_cases :
      (k : List ℕ) (c : Command)
      → after_add.by_name k ≡ some c
      → ((contains k added.literals ≡ true) × (c ≡ added))
        ⊎ ((contains k added.literals ≡ false) × (r.by_name k ≡ some c))
  name_cases k c h =
      let e = added_name k in
      elim (Bool-cases (contains k added.literals)) [
        | inl m ↦ let e' : after_add.by_name k ≡ some added = e ∙ rw m refl in inl (m, cc)
        | inr m ↦ let e' : after_add.by_name k ≡ r.by_name k = e ∙ rw m refl in inr (m, cc)
      ]

  id_cases :
      (i : ℕ) (c : Command)
      → find_id i after_add.by_id ≡ some c
      → (c ≡ added) ⊎ (find_id i r.by_id ≡ some c)
  unfolding add_command find_id
  id_cases i c h =
      let choose : Bool → Option Command = λ b. if b then some added else find_id i r.by_id in
      elim (Bool-cases ((r.next_id + 1) == i)) [
        | inl e ↦ let e' : some added ≡ some c = sym (ap choose e) ∙ h in inl (cc)
        | inr e ↦ inr (sym (ap choose e) ∙ h)
      ]

  -- The older records keep their names, since `all_free` let no name of theirs through.
  older_named :
      (i : ℕ) (c : Command) (k : List ℕ)
      → find_id i r.by_id ≡ some c
      → contains k c.literals ≡ true
      → after_add.by_name k ≡ some c
  older_named i c k h m =
      let before = good.linked i c k h m in
      elim (Bool-cases (contains k added.literals)) [
        | inl taken ↦ let untaken = (all_free_lem r added.literals k lets taken).0 in absurd (cc)
        | inr other ↦ added_name k ∙ rw other before
      ]

  added_is_named :
      (k : List ℕ) → contains k added.literals ≡ true → after_add.by_name k ≡ some added
  added_is_named k m = added_name k ∙ rw m refl

  pub IsConsistent-add_command : IsConsistent after_add
  unfolding add_command
  IsConsistent-add_command = record {
    named = λ k c h. elim (name_cases k c h) [
      | inl (m, e) ↦ rw e added_found
      | inr (m, before) ↦ older_found c.id c (good.named k c before)
    ];
    named_so = λ k c h. elim (name_cases k c h) [
      | inl (m, e) ↦ rw e m
      | inr (m, before) ↦ good.named_so k c before
    ];
    linked = λ i c k h m. elim (id_cases i c h) [
      | inl e ↦
          let m' = ap (λ x. contains k x.literals) (sym e) ∙ m in
          added_is_named k m' ∙ ap some (sym e)
      | inr before ↦ older_named i c k before m
    ];
    found = (
      added_found,
      All-map (λ c. find_id c.id r.by_id ≡ some c) (λ c. find_id c.id after_add.by_id ≡ some c)
          r.by_id (λ c h. older_found c.id c h) good.found,
    );
    ids = (
      omega arith,
      All-map (λ c. c.id ≤ r.next_id) (λ c. c.id ≤ r.next_id + 1) r.by_id (λ c h. omega arith)
          good.ids,
    );
    free = λ k c h. elim (name_cases k c h) [
      | inl (m, e) ↦ (all_free_lem r added.literals k lets m).1
      | inr (m, before) ↦ good.free k c before
    ];
  }
