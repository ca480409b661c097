-- ===== src/Plugins/Commands/Cleared.antt =====
-- The owners without a command: which operations leave one so, and which makes it so.
use cyu_core.Base.{
  ℕ, zero, suc, ◌≡◌, refl, sym, ◌∙◌, Bool, false, ◌&&◌, Option, some, List, [], ◌∷◌, ◌==◌, arith,
  inl, inr, Bool-cases, Option-cases, ok,
}
use cyu_core.Plugins.Names.{contains, Definition}
use cyu_core.Plugins.Commands.{
  Command, Registry, find_id, add_command, points_to, register, drop_command, remove, remove_owner,
  remove_owner_loop, Registration, unregister,
}
use cyu_core.Plugins.Commands.Tables.{link_lem, unlink_lem}
use cyu_core.Plugins.Commands.Consistent.{IsConsistent}
use cyu_core.Plugins.Commands.Reachable.{register_lem}
use cyu_core.Plugins.Commands.Removal.{others_some, remove_owner_exact}
use mathlib.Core.Path.{subst}

-- No name stands for a command of the owner.
abbrev pub HasNoCommand : ℕ → Registry → Type 0
HasNoCommand p r = (k : List ℕ) (c : Command) → r.by_name k ≡ some c → (c.owner == p) ≡ false

HasNoCommand-add_command :
    (p : ℕ) (r : Registry) (id o : ℕ) (d : Definition) (h : ℕ)
    → (p == o) ≡ false
    → HasNoCommand p r
    → HasNoCommand p (add_command r id o d h)
unfolding add_command
HasNoCommand-add_command p r id o d h apart clean k c named =
    let literals = d.name ∷ d.aliases in
    let it : Command = record {
      id = id;
      owner = o;
      definition = d;
      handler = h;
      literals = literals;
    } in
    let looked = sym (link_lem it literals r.by_name k) ∙ named in
    elim (Bool-cases (contains k literals)) [
      | inl e ↦
          let is : some it ≡ some c = ground arith in
          let same_command : it ≡ c = cc in
          let here : (it.owner == p) ≡ false = ground arith in
          subst (λ (t : Command). (t.owner == p) ≡ false) same_command here
      | inr e ↦ clean k c (ground arith)
    ]

pub HasNoCommand-register :
    (p o : ℕ) (r r' : Registry) (a b : Bool) (d : Definition) (handler : Option ℕ) (id : ℕ)
    → register r (some o) a b d handler ≡ ok (id, r')
    → (p == o) ≡ false
    → HasNoCommand p r
    → HasNoCommand p r'
HasNoCommand-register p o r r' a b d handler id done apart clean =
    let (q, h, owned, lets, is_id, is_r') = register_lem r r' (some o) a b d handler id done in
    let same_owner : o ≡ q = cc in
    let apart' : (p == q) ≡ false = subst (λ t. (p == t) ≡ false) same_owner apart in
    subst (HasNoCommand p) (sym is_r') (HasNoCommand-add_command p r id q d h apart' clean)

HasNoCommand-drop_command :
    (p : ℕ) (c : Command) (r : Registry) → HasNoCommand p r → HasNoCommand p (drop_command c r)
unfolding drop_command
HasNoCommand-drop_command p c r clean k e named =
    let looked = sym (unlink_lem c c.literals r.by_name k) ∙ named in
    elim (Bool-cases (contains k c.literals && points_to (r.by_name k) c)) [
      | inl f ↦ absurd (ground arith)
      | inr f ↦ clean k e (ground arith)
    ]

pub HasNoCommand-remove :
    (p i : ℕ) (r : Registry) → HasNoCommand p r → HasNoCommand p (remove i r).1
unfolding remove
HasNoCommand-remove p zero r clean = clean
HasNoCommand-remove p (suc i) r clean = elim (Option-cases (find_id (suc i) r.by_id)) [
  | inl e ↦ rw (e, remove) clean
  | inr (c, e) ↦ rw (e, remove) (HasNoCommand-drop_command p c r clean)
]

module _ (o : ℕ) (r : Registry) (good : IsConsistent r) where
  abbrev removed : Registry
  removed = (remove_owner (some o) r).1

  left_of :
      (k : List ℕ) (c : Command)
      → removed.by_name k ≡ some c
      → (r.by_name k ≡ some c) × ((c.owner == o) ≡ false)
  left_of k c named =
      others_some o r good (r.by_name k) c (sym ((remove_owner_exact o r good).1 k) ∙ named)

  pub HasNoCommand-removed : HasNoCommand o removed
  HasNoCommand-removed k c named = (left_of k c named).1

  pub HasNoCommand-remove_owner : (p : ℕ) → HasNoCommand p r → HasNoCommand p removed
  HasNoCommand-remove_owner p clean k c named = clean k c (left_of k c named).0

pub next_id-remove : (i : ℕ) (r : Registry) → (remove i r).1.next_id ≡ r.next_id
unfolding remove drop_command
next_id-remove zero r = refl
next_id-remove (suc i) r = elim (Option-cases (find_id (suc i) r.by_id)) [
  | inl e ↦ rw (e, remove) refl
  | inr (c, e) ↦ rw (e, remove) refl
]

next_id-remove_owner_loop :
    (o : ℕ) (cs : List Command) (r : Registry) → (remove_owner_loop o cs r).1.next_id ≡ r.next_id
unfolding remove_owner_loop drop_command
next_id-remove_owner_loop o [] r = refl
next_id-remove_owner_loop o (c ∷ cs) r = elim (Bool-cases (c.owner == o)) [
  | inl e ↦ rw e (next_id-remove_owner_loop o cs (drop_command c r))
  | inr e ↦ rw e (next_id-remove_owner_loop o cs r)
]

pub next_id-remove_owner : (o : ℕ) (r : Registry) → (remove_owner (some o) r).1.next_id ≡ r.next_id
unfolding remove_owner
next_id-remove_owner o r = next_id-remove_owner_loop o r.by_id r

-- A registration that was given up changes nothing; another one is removed.
pub unregister-elim :
    (P : Registry → Type 0) (s : Registration) (r : Registry)
    → P r
    → P (remove s.id r).1
    → P (unregister s r).2
unfolding unregister
unregister-elim P s r same less = elim (Bool-cases s.unregistered) [
  | inl e ↦ rw e same
  | inr e ↦ rw e less
]
