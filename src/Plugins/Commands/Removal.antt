-- ===== src/Plugins/Commands/Removal.antt =====
-- What the removals take away, and what they leave.
use cyu_core.Base.{
  ℕ, zero, suc, ◌+◌, ◌^◌, ◌<◌, ◌≡◌, refl, ap, sym, ◌∙◌, Bool, true, false, ◌&&◌, ◌||◌, Option, none,
  some, List, [], ◌∷◌, ◌==◌, ==_iff, arith, if◌then◌else◌, inl, inr, Bool-cases, Option-cases, All,
  ok,
}
use cyu_core.Plugins.Names.{contains, Definition}
use cyu_core.Plugins.Commands.{
  Command, Registry, find_id, drop_command, add_command, register, remove, remove_owner,
  remove_owner_loop, points_to, all_free,
}
use cyu_core.Plugins.Commands.Tables.{find_id-delete_id, unlink_lem}
use cyu_core.Plugins.Commands.Consistent.{IsConsistent}
use cyu_core.Plugins.Commands.Added.{added, after_add, added_name, new_id, all_free_lem}
use cyu_core.Plugins.Commands.Reachable.{IsConsistent-remove_owner, register_lem}
use native.Mathlib.Nat.{mod-eq_of_lt}

-- The lookup without the records of an owner.
abbrev pub of_others : ℕ → Option Command → Option Command
of_others owner none = none
of_others owner (some c) = if c.owner == owner then none else some c

-- Whether the owner has a record with the id among those listed.
owns : (owner i : ℕ) → List Command → Bool
owns owner i [] = false
owns owner i (c ∷ cs) = ((c.owner == owner) && (c.id == i)) || owns owner i cs

remove_owner_loop_id :
    (owner i : ℕ) (cs : List Command) (r : Registry)
    → find_id i (remove_owner_loop owner cs r).1.by_id
      ≡ (if owns owner i cs then none else find_id i r.by_id)
unfolding remove_owner_loop owns drop_command
remove_owner_loop_id owner i [] r = refl
remove_owner_loop_id owner i (c ∷ cs) r = elim (Bool-cases (c.owner == owner)) [
  | inl e ↦ rw e (
      remove_owner_loop_id owner i cs (drop_command c r)
      ∙ let d = find_id-delete_id i c.id r.by_id in ground arith)
  | inr e ↦ rw e (remove_owner_loop_id owner i cs r)
]

owns_found :
    (owner i : ℕ) (all cs : List Command)
    → All (λ c. find_id c.id all ≡ some c) cs
    → owns owner i cs ≡ true
    → (c : Command) × (find_id i all ≡ some c) × ((c.owner == owner) ≡ true)
unfolding owns
owns_found owner i all [] h m = absurd (ground arith)
owns_found owner i all (c ∷ cs) h m = elim (Bool-cases ((c.owner == owner) && (c.id == i))) [
  | inl e ↦
      (c, ap (λ t. find_id t all) (sym ((==_iff c.id i).0 (ground arith))) ∙ h.0, ground arith)
  | inr e ↦ owns_found owner i all cs h.1 (ground arith)
]

found_owns :
    (owner i : ℕ) (cs : List Command) (c : Command)
    → find_id i cs ≡ some c
    → (c.owner == owner) ≡ true
    → owns owner i cs ≡ true
unfolding owns find_id
found_owns owner i [] c h e = absurd (ground arith)
found_owns owner i (d ∷ cs) c h e = elim (Bool-cases (d.id == i)) [
  | inl f ↦ ground arith
  | inr f ↦ let rest = found_owns owner i cs c (ground arith) e in ground arith
]

module _ (owner : ℕ) (r : Registry) (good : IsConsistent r) where
  abbrev after : Registry
  after = (remove_owner (some owner) r).1

  kept_apart :
      (i : ℕ) (o : Option Command)
      → find_id i r.by_id ≡ o
      → owns owner i r.by_id ≡ false
      → o ≡ of_others owner o
  kept_apart i none h m = refl
  kept_apart i (some c) h m = elim (Bool-cases (c.owner == owner)) [
    | inl e ↦ let owned = found_owns owner i r.by_id c h e in absurd (cc)
    | inr e ↦ rw e refl
  ]

  remove_owner_id : (i : ℕ) → find_id i after.by_id ≡ of_others owner (find_id i r.by_id)
  unfolding remove_owner
  remove_owner_id i =
      remove_owner_loop_id owner i r.by_id r ∙ elim (Bool-cases (owns owner i r.by_id)) [
        | inl m ↦
            let (c, h, e) = owns_found owner i r.by_id r.by_id good.found m in
            rw m (rw h (rw e refl))
        | inr m ↦ rw m (kept_apart i (find_id i r.by_id) refl m)
      ]

  pub others_some :
      (o : Option Command) (c : Command)
      → of_others owner o ≡ some c
      → (o ≡ some c) × ((c.owner == owner) ≡ false)
  others_some none c h = absurd (ground arith)
  others_some (some d) c h = ground arith

  -- A name still stands for the record that it stood for, of another owner.
  name_left :
      (k : List ℕ) (c : Command)
      → after.by_name k ≡ some c
      → (r.by_name k ≡ some c) × ((c.owner == owner) ≡ false)
  name_left k c h =
      let good' = IsConsistent-remove_owner (some owner) r good in
      let (found, other) =
        others_some (find_id c.id r.by_id) c (sym (remove_owner_id c.id) ∙ good'.named k c h) in
      (good.linked c.id c k found (good'.named_so k c h), other)

  name_stays :
      (k : List ℕ) (c : Command)
      → r.by_name k ≡ some c
      → (c.owner == owner) ≡ false
      → after.by_name k ≡ some c
  name_stays k c h other =
      let good' = IsConsistent-remove_owner (some owner) r good in
      good'.linked c.id c k (remove_owner_id c.id ∙ rw (good.named k c h) (rw other refl))
        (good.named_so k c h)

  remove_owner_name : (k : List ℕ) → after.by_name k ≡ of_others owner (r.by_name k)
  remove_owner_name k = elim (Option-cases (after.by_name k)) [
    | inr (c, e) ↦ let (before, other) = name_left k c e in rw e (rw before (rw other refl))
    | inl e ↦ rw e (elim (Option-cases (r.by_name k)) [
      | inl f ↦ rw f refl
      | inr (c, f) ↦ elim (Bool-cases (c.owner == owner)) [
        | inl own ↦ rw f (rw own refl)
        | inr other ↦ let stays = name_stays k c f other in absurd (cc)
      ]
    ])
  ]

-- Removing an owner from a consistent registry takes exactly the owner's records out of the lookups
-- by id and by name, and leaves the registry consistent.
pub remove_owner_exact :
    (owner : ℕ) (r : Registry)
    → IsConsistent r
    → let r' = (remove_owner (some owner) r).1 in
      ((i : ℕ) → find_id i r'.by_id ≡ of_others owner (find_id i r.by_id))
      × ((k : List ℕ) → r'.by_name k ≡ of_others owner (r.by_name k))
      × IsConsistent r'
remove_owner_exact owner r good = (
  remove_owner_id owner r good,
  remove_owner_name owner r good,
  IsConsistent-remove_owner (some owner) r good,
)

remove_found :
    (i : ℕ) (r : Registry) (c : Command)
    → 0 < i
    → find_id i r.by_id ≡ some c
    → remove i r ≡ (true, drop_command c r)
unfolding remove
remove_found zero r c above h = absurd (omega arith)
remove_found (suc i) r c above h = rw (h, remove) refl

module _ (r : Registry) (o : ℕ) (d : Definition) (h : ℕ) (good : IsConsistent r)
    (lets : all_free r (d.name ∷ d.aliases) ≡ ok tt) where
  abbrev with_it : Registry
  with_it = after_add r o d h good lets

  abbrev it : Command
  it = added r o d h good lets

  it_found : find_id (r.next_id + 1) with_it.by_id ≡ some it
  unfolding find_id add_command
  it_found = ground arith

  drop_added_name : (k : List ℕ) → (drop_command it with_it).by_name k ≡ r.by_name k
  unfolding drop_command points_to
  drop_added_name k =
      let e = added_name r o d h good lets k in
      unlink_lem it it.literals with_it.by_name k ∙ elim (Bool-cases (contains k it.literals)) [
        | inl m ↦
            let named : with_it.by_name k ≡ some it = e ∙ rw m refl in
            let free = (all_free_lem r it.literals k lets m).0 in
            rw m (rw named (rw free (ground arith)))
        | inr m ↦ rw m (e ∙ rw m refl)
      ]

  drop_added_id : (i : ℕ) → find_id i (drop_command it with_it).by_id ≡ find_id i r.by_id
  unfolding drop_command find_id add_command
  drop_added_id i =
      find_id-delete_id i it.id with_it.by_id ∙ elim (Bool-cases (i == (r.next_id + 1))) [
        | inl e ↦
            let free = new_id r o d h good lets in
            rw e (sym (ap (λ t. find_id t r.by_id) ((==_iff i (r.next_id + 1)).0 e) ∙ free))
        | inr e ↦ ground arith
      ]

-- In a consistent registry that has had fewer than 2 ^ 64 - 1 registrations, unregistering the
-- command that was just registered succeeds and gives every lookup by id and by name back.
pub remove-register :
    (r r' : Registry) (owner : Option ℕ) (a b : Bool) (d : Definition) (handler : Option ℕ) (id : ℕ)
    → IsConsistent r
    → r.next_id + 1 < 2 ^ 64
    → register r owner a b d handler ≡ ok (id, r')
    → let (removed, r'') = remove id r' in
      (removed ≡ true)
      × ((i : ℕ) → find_id i r''.by_id ≡ find_id i r.by_id)
      × ((k : List ℕ) → r''.by_name k ≡ r.by_name k)
remove-register r r' owner a b d handler id good small e =
    let (o, h, owned, lets, is_id, is_r') = register_lem r r' owner a b d handler id e in
    let next : id ≡ r.next_id + 1 = is_id ∙ mod-eq_of_lt {n = r.next_id + 1} {m = 2 ^ 64} small in
    let c = it r o d h good lets in
    let after_it : r' ≡ with_it r o d h good lets = is_r' ∙ ap (λ t. add_command r t o d h) next in
    let gone : remove id r' ≡ (true, drop_command c (with_it r o d h good lets)) =
      rw (after_it, next)
        (remove_found (r.next_id + 1) (with_it r o d h good lets) c (omega arith)
          (it_found r o d h good lets)) in
    rw gone (refl, drop_added_id r o d h good lets, drop_added_name r o d h good lets)
