-- ===== src/Plugins/Commands/Reachable.antt =====
-- The registry through every sequence of its operations.
use cyu_core.Base.{
  ℕ, zero, suc, ◌+◌, ◌%◌, ◌^◌, ◌<◌, ◌≡◌, refl, ap, sym, ◌∙◌, Bool, true, false, Option, none, some,
  List, [], ◌∷◌, ◌==◌, arith, inl, inr, Bool-cases, Option-cases, All, ok, Outcome-cases,
}
use cyu_core.Plugins.Names.{contains, Definition, validate}
use cyu_core.Plugins.Commands.{
  Command, Registry, new_command_registry, find_id, mark_reserved, all_free, add_command,
  drop_command, reserve, register, remove, remove_owner, remove_owner_loop, validate_names,
  none_registered,
}
use cyu_core.Plugins.Commands.Tables.{mark_reserved_lem, find_id-delete_id, find_id_finds}
use cyu_core.Plugins.Commands.Consistent.{
  IsConsistent, IsConsistent-new, IsConsistent-drop_command, Current,
}
use cyu_core.Plugins.Commands.Added.{IsConsistent-add_command, none_registered_lem}
use mathlib.Core.Path.{subst}
use native.Mathlib.Nat.{mod-eq_of_lt}

-- What a call of `reserve` that succeeds has done.
reserve_lem :
    (r r' : Registry) (names : List (List ℕ))
    → reserve r names ≡ ok r'
    → (validated : List (List ℕ)) × (none_registered r validated ≡ ok tt)
      × (r' ≡ record {
        next_id = r.next_id;
        by_name = r.by_name;
        by_id = r.by_id;
        reserved = mark_reserved validated r.reserved;
      })
unfolding reserve
reserve_lem r r' names h = elim (Outcome-cases (validate_names names)) [
  | inr (e, f) ↦ absurd (ground arith)
  | inl (validated, f) ↦ elim (Outcome-cases (none_registered r validated)) [
    | inr (e, g) ↦ absurd (ground arith)
    | inl (tt, g) ↦ (validated, g, ground arith)
  ]
]

-- The literals are free when a record is added.
pub register_lem :
    (r r' : Registry) (owner : Option ℕ) (a b : Bool) (d : Definition) (handler : Option ℕ) (id : ℕ)
    → register r owner a b d handler ≡ ok (id, r')
    → (o : ℕ) × (h : ℕ) × (owner ≡ some o)
      × (all_free r (d.name ∷ d.aliases) ≡ ok tt)
      × (id ≡ (r.next_id + 1) % 2 ^ 64)
      × (r' ≡ add_command r id o d h)
unfolding register
register_lem r r' (some o) true true d (some h) id e = elim (Outcome-cases (validate d)) [
  | inr (x, f) ↦ absurd (ground arith)
  | inl (tt, f) ↦ elim (Outcome-cases (all_free r (d.name ∷ d.aliases))) [
    | inr (x, g) ↦ absurd (ground arith)
    | inl (tt, g) ↦ (o, h, refl, g, ground arith, ground arith)
  ]
]
register_lem r r' none a b d handler id e = absurd (ground arith)
register_lem r r' (some o) false b d handler id e = absurd (ground arith)
register_lem r r' (some o) true b d none id e = absurd (ground arith)
register_lem r r' (some o) true false d (some h) id e = absurd (ground arith)

pub IsConsistent-register :
    (r r' : Registry) (owner : Option ℕ) (a b : Bool) (d : Definition) (handler : Option ℕ) (id : ℕ)
    → IsConsistent r
    → r.next_id + 1 < 2 ^ 64
    → register r owner a b d handler ≡ ok (id, r')
    → IsConsistent r'
IsConsistent-register r r' owner a b d handler id good small h =
    let (o, hd, owned, lets, is_id, is_r') = register_lem r r' owner a b d handler id h in
    let next : id ≡ r.next_id + 1 = is_id ∙ mod-eq_of_lt {n = r.next_id + 1} {m = 2 ^ 64} small in
    subst IsConsistent (sym (is_r' ∙ ap (λ t. add_command r t o d hd) next))
      (IsConsistent-add_command r o d hd good lets)

free_after_reserve :
    (r : Registry) (names : List (List ℕ)) (k : List ℕ) (c : Command)
    → IsConsistent r
    → none_registered r names ≡ ok tt
    → r.by_name k ≡ some c
    → mark_reserved names r.reserved k ≡ false
free_after_reserve r names k c good h named = elim (Bool-cases (contains k names)) [
  | inl m ↦ let e = none_registered_lem r names k h m in absurd (cc)
  | inr m ↦ mark_reserved_lem names r.reserved k ∙ rw m (good.free k c named)
]

IsConsistent-reserve :
    (r r' : Registry) (names : List (List ℕ))
    → IsConsistent r
    → reserve r names ≡ ok r'
    → IsConsistent r'
IsConsistent-reserve r r' names good h =
    let (validated, lets, is_r') = reserve_lem r r' names h in
    subst IsConsistent (sym is_r') (record {
      named = good.named;
      named_so = good.named_so;
      linked = good.linked;
      found = good.found;
      ids = good.ids;
      free = λ k c named. free_after_reserve r validated k c good lets named;
    })

-- A record that was found is the current one of its id.
Current-find_id : (r : Registry) (i : ℕ) (c : Command) → find_id i r.by_id ≡ some c → Current r c
Current-find_id r i c h d e =
    let at_i = find_id_finds i r.by_id c h in let h' = ap (λ t. find_id t r.by_id) at_i ∙ h in cc

pub IsConsistent-remove : (i : ℕ) (r : Registry) → IsConsistent r → IsConsistent (remove i r).1
unfolding remove
IsConsistent-remove zero r good = good
IsConsistent-remove (suc i) r good = elim (Option-cases (find_id (suc i) r.by_id)) [
  | inl e ↦ rw (e, remove) good
  | inr (c, e) ↦ rw (e, remove) (IsConsistent-drop_command r c good (Current-find_id r (suc i) c e))
]

-- The records still to be visited are current: the earlier deletions only took records away.
All-Current :
    (r : Registry) (c : Command) (cs : List Command)
    → All (Current r) cs
    → All (Current (drop_command c r)) cs
unfolding drop_command
All-Current r c [] h = tt
All-Current r c (d ∷ cs) h = (
  λ e f. elim (Bool-cases (d.id == c.id)) [
    | inl gone ↦ let g = find_id-delete_id d.id c.id r.by_id in absurd (ground arith)
    | inr kept ↦ let g = find_id-delete_id d.id c.id r.by_id in h.0 e (ground arith)
  ],
  All-Current r c cs h.1,
)

IsConsistent-remove_owner_loop :
    (owner : ℕ) (cs : List Command) (r : Registry)
    → IsConsistent r
    → All (Current r) cs
    → IsConsistent (remove_owner_loop owner cs r).1
unfolding remove_owner_loop
IsConsistent-remove_owner_loop owner [] r good h = good
IsConsistent-remove_owner_loop owner (c ∷ cs) r good h = elim (Bool-cases (c.owner == owner)) [
  | inl e ↦ rw e (
      IsConsistent-remove_owner_loop owner cs (drop_command c r)
        (IsConsistent-drop_command r c good h.0) (All-Current r c cs h.1))
  | inr e ↦ rw e (IsConsistent-remove_owner_loop owner cs r good h.1)
]

found-Current :
    (r : Registry) (cs : List Command)
    → All (λ c. find_id c.id r.by_id ≡ some c) cs
    → All (Current r) cs
found-Current r [] h = tt
found-Current r (c ∷ cs) h = (Current-find_id r c.id c h.0, found-Current r cs h.1)

pub IsConsistent-remove_owner :
    (owner : Option ℕ) (r : Registry) → IsConsistent r → IsConsistent (remove_owner owner r).1
unfolding remove_owner
IsConsistent-remove_owner none r good = good
IsConsistent-remove_owner (some o) r good =
    IsConsistent-remove_owner_loop o r.by_id r good (found-Current r r.by_id good.found)

-- One operation on the registry; an operation that returns an error changes nothing.
pub data Step (r : Registry) : Registry → Type 0 where
  reserved : (r' : Registry) (names : List (List ℕ)) → reserve r names ≡ ok r' → Step r r'
  registered :
      (r' : Registry) (owner : Option ℕ) (a b : Bool) (d : Definition) (handler : Option ℕ) (id : ℕ)
      → r.next_id + 1 < 2 ^ 64
      → register r owner a b d handler ≡ ok (id, r')
      → Step r r'
  removed : (i : ℕ) → Step r (remove i r).1
  owner_removed : (owner : Option ℕ) → Step r (remove_owner owner r).1

pub data IsReachable : Registry → Type 0 where
  start : IsReachable new_command_registry
  step : (r r' : Registry) → IsReachable r → Step r r' → IsReachable r'

IsConsistent-Step : (r r' : Registry) → IsConsistent r → Step r r' → IsConsistent r'
IsConsistent-Step r _ good (reserved r' names e) = IsConsistent-reserve r r' names good e
IsConsistent-Step r _ good (registered r' owner a b d handler id small e) =
    IsConsistent-register r r' owner a b d handler id good small e
IsConsistent-Step r _ good (removed i) = IsConsistent-remove i r good
IsConsistent-Step r _ good (owner_removed owner) = IsConsistent-remove_owner owner r good

-- Every registry that the operations reach, while fewer than 2 ^ 64 commands were registered, is
-- consistent: a name stands for a record exactly if the record is there under its id and has the
-- name among its literals, the ids are told apart, and no reserved name stands for a record.
pub IsReachable-IsConsistent : (r : Registry) → IsReachable r → IsConsistent r
IsReachable-IsConsistent _ start = IsConsistent-new
IsReachable-IsConsistent _ (step r r' before s) =
    IsConsistent-Step r r' (IsReachable-IsConsistent r before) s
