-- ===== src/Plugins/Commands/Consistent.antt =====
-- The two maps of the registry agree, and every operation keeps them so.
use cyu_core.Base.{
  ℕ, ◌≤◌, ◌≡◌, sym, ◌∙◌, true, false, ◌&&◌, none, some, List, [], ◌∷◌, ◌==◌, ==_iff, arith,
  if◌then◌else◌, inl, inr, Bool-cases, All,
}
use cyu_core.Plugins.Names.{contains}
use cyu_core.Plugins.Commands.{
  Command, Registry, new_command_registry, find_id, delete_id, points_to, drop_command,
}
use cyu_core.Plugins.Commands.Tables.{unlink_lem, find_id-delete_id, find_id_finds}

pub record IsConsistent (r : Registry) : Type 0 where
  pub named : (k : List ℕ) (c : Command) → r.by_name k ≡ some c → find_id c.id r.by_id ≡ some c
  pub named_so : (k : List ℕ) (c : Command) → r.by_name k ≡ some c → contains k c.literals ≡ true
  pub linked :
      (i : ℕ) (c : Command) (k : List ℕ)
      → find_id i r.by_id ≡ some c
      → contains k c.literals ≡ true
      → r.by_name k ≡ some c
  pub found : All (λ c. find_id c.id r.by_id ≡ some c) r.by_id
  pub ids : All (λ c. c.id ≤ r.next_id) r.by_id
  pub free : (k : List ℕ) (c : Command) → r.by_name k ≡ some c → r.reserved k ≡ false

pub IsConsistent-new : IsConsistent new_command_registry
unfolding find_id
IsConsistent-new = record {
  named = λ k c h. cc;
  named_so = λ k c h. cc;
  linked = λ i c k h m. cc;
  found = tt;
  ids = tt;
  free = λ k c h. cc;
}

-- A record that the registry holds, or no other record under its id.
abbrev pub Current : Registry → Command → Type 0
Current r c = (d : Command) → find_id c.id r.by_id ≡ some d → d ≡ c

delete_id-All :
    (P : Command → Type 0) (i : ℕ) (cs : List Command) → All P cs → All P (delete_id i cs)
unfolding delete_id
delete_id-All P i [] h = tt
delete_id-All P i (c ∷ cs) h = elim (Bool-cases (c.id == i)) [
  | inl e ↦ rw e (delete_id-All P i cs h.1)
  | inr e ↦ rw e (h.0, delete_id-All P i cs h.1)
]

-- What is left after a deletion is still found.
delete_id-found :
    (i : ℕ) (all cs : List Command)
    → All (λ c. find_id c.id all ≡ some c) cs
    → All (λ c. find_id c.id (delete_id i all) ≡ some c) (delete_id i cs)
unfolding delete_id
delete_id-found i all [] h = tt
delete_id-found i all (c ∷ cs) h = elim (Bool-cases (c.id == i)) [
  | inl e ↦ rw e (delete_id-found i all cs h.1)
  | inr e ↦ rw e (rw (find_id-delete_id c.id i all, e) h.0, delete_id-found i all cs h.1)
]

module _ (r : Registry) (c : Command) (good : IsConsistent r) (current : Current r c) where
  -- The lookup of a name after the record left.
  drop_command_name :
      (k : List ℕ)
      → (drop_command c r).by_name k
        ≡ (if contains k c.literals && points_to (r.by_name k) c then none else r.by_name k)
  unfolding drop_command
  drop_command_name k = unlink_lem c c.literals r.by_name k

  pub drop_command_id :
      (i : ℕ) → find_id i (drop_command c r).by_id ≡ (if i == c.id then none else find_id i r.by_id)
  unfolding drop_command
  drop_command_id i = find_id-delete_id i c.id r.by_id

  was_named :
      (k : List ℕ) (d : Command)
      → (drop_command c r).by_name k ≡ some d
      → (r.by_name k ≡ some d) × ((contains k c.literals && points_to (r.by_name k) c) ≡ false)
  was_named k d h = elim (Bool-cases (contains k c.literals && points_to (r.by_name k) c)) [
    | inl gone ↦ let e = drop_command_name k in absurd (cc)
    | inr kept ↦ let e = drop_command_name k in (cc, kept)
  ]

  same_record : (k : List ℕ) (d : Command) → r.by_name k ≡ some d → (d.id == c.id) ≡ true → d ≡ c
  same_record k d h e = current d (rw (sym ((==_iff d.id c.id).0 e)) (good.named k d h))

  -- A name that still stands for a record stood for it before, and not for the one that left.
  still_named :
      (k : List ℕ) (d : Command)
      → (drop_command c r).by_name k ≡ some d
      → (r.by_name k ≡ some d) × ((d.id == c.id) ≡ false)
  unfolding points_to
  still_named k d h =
      let (before, kept) = was_named k d h in
      elim (Bool-cases (d.id == c.id)) [
        | inr e ↦ (before, e)
        | inl e ↦
            let listed = good.named_so k d before in
            let is_c = same_record k d before e in
            let in_c : contains k c.literals ≡ true = cc in
            let points : points_to (r.by_name k) c ≡ true = rw before e in absurd (cc)
      ]

  still_found :
      (i : ℕ) (d : Command)
      → find_id i (drop_command c r).by_id ≡ some d
      → (find_id i r.by_id ≡ some d) × ((i == c.id) ≡ false)
  still_found i d h =
      let e = drop_command_id i in
      elim (Bool-cases (i == c.id)) [ inl gone ↦ absurd (cc) | inr kept ↦ (cc, kept) ]

  stays_found :
      (i : ℕ) (d : Command)
      → find_id i r.by_id ≡ some d
      → (i == c.id) ≡ false
      → find_id i (drop_command c r).by_id ≡ some d
  stays_found i d h e = drop_command_id i ∙ rw e h

  -- Another record keeps its names.
  stays_named :
      (i : ℕ) (d : Command) (k : List ℕ)
      → find_id i r.by_id ≡ some d
      → (i == c.id) ≡ false
      → contains k d.literals ≡ true
      → (drop_command c r).by_name k ≡ some d
  unfolding points_to
  stays_named i d k h e m =
      let before = good.linked i d k h m in
      let apart : points_to (r.by_name k) c ≡ false =
        rw before (rw (find_id_finds i r.by_id d h) e) in
      drop_command_name k ∙ ground arith

  pub IsConsistent-drop_command : IsConsistent (drop_command c r)
  unfolding drop_command
  IsConsistent-drop_command = record {
    named = λ k d h.
        let (before, other) = still_named k d h in stays_found d.id d (good.named k d before) other;
    named_so = λ k d h. good.named_so k d (still_named k d h).0;
    linked =
        λ i d k h m. let (before, other) = still_found i d h in stays_named i d k before other m;
    found = delete_id-found c.id r.by_id r.by_id good.found;
    ids = delete_id-All (λ d. d.id ≤ r.next_id) c.id r.by_id good.ids;
    free = λ k d h. good.free k d (still_named k d h).0;
  }
