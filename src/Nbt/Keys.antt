-- ===== src/Nbt/Keys.antt =====
-- The entries of a Compound in the order of their keys.
use cyu_core.Base.{ℕ, ◌≡◌, refl, ap, ◌∙◌, false, List}
use cyu_core.Nbt.{Value, Fields, empty, field, after, compare_keys, has_key, set_key}

pub append_fields : Fields → Fields → Fields
append_fields empty gs = gs
append_fields (field k v fs) gs = field k v (append_fields fs gs)

abbrev pub one_field : List ℕ → Value → Fields
one_field k v = field k v empty

-- The key comes after every key of the entries.
abbrev pub AllBefore : Fields → List ℕ → Type 0
AllBefore empty k = Unit {0}
AllBefore (field j v fs) k = (compare_keys k j ≡ after) × AllBefore fs k

-- Every key of the entries comes after it.
abbrev pub AllAfter : List ℕ → Fields → Type 0
AllAfter k empty = Unit {0}
AllAfter k (field j v fs) = (compare_keys j k ≡ after) × AllAfter k fs

-- The keys rise, so that the entries stand for a Go map in just one way.
abbrev pub IsSorted : Fields → Type 0
IsSorted empty = Unit {0}
IsSorted (field k v fs) = AllAfter k fs × IsSorted fs

abbrev Follows : Fields → Fields → Type 0
Follows acc empty = Unit {0}
Follows acc (field k v fs) = AllBefore acc k × Follows acc fs

has_key_new : (k : List ℕ) (fs : Fields) → AllBefore fs k → has_key k fs ≡ false
unfolding has_key
has_key_new k empty h = refl
has_key_new k (field j v fs) h = rw (h.0, has_key) (has_key_new k fs h.1)

set_key_new :
    (k : List ℕ) (v : Value) (fs : Fields)
    → AllBefore fs k
    → set_key k v fs ≡ append_fields fs (one_field k v)
unfolding set_key append_fields
set_key_new k v empty h = refl
set_key_new k v (field j w fs) h = rw (h.0, set_key) (ap (field j w) (set_key_new k v fs h.1))

append_fields_assoc :
    (fs gs hs : Fields)
    → append_fields (append_fields fs gs) hs ≡ append_fields fs (append_fields gs hs)
unfolding append_fields
append_fields_assoc empty gs hs = refl
append_fields_assoc (field k v fs) gs hs = ap (field k v) (append_fields_assoc fs gs hs)

AllBefore-append :
    (fs : Fields) (k j : List ℕ) (v : Value)
    → AllBefore fs k
    → compare_keys k j ≡ after
    → AllBefore (append_fields fs (one_field j v)) k
unfolding append_fields
AllBefore-append empty k j v h e = (e, tt)
AllBefore-append (field i w fs) k j v h e = (h.0, AllBefore-append fs k j v h.1 e)

Follows-append :
    (acc fs : Fields) (k : List ℕ) (v : Value)
    → Follows acc fs
    → AllAfter k fs
    → Follows (append_fields acc (one_field k v)) fs
Follows-append acc empty k v h a = tt
Follows-append acc (field j w fs) k v h a =
    (AllBefore-append acc j k v h.0 a.0, Follows-append acc fs k v h.1 a.1)

-- Storing entries one by one, each under a new key.
abbrev pub add_fields : Fields → Fields → Fields
add_fields acc empty = acc
add_fields acc (field k v fs) = add_fields (set_key k v acc) fs

abbrev pub Fresh : Fields → Fields → Type 0
Fresh acc empty = Unit {0}
Fresh acc (field k v fs) = (has_key k acc ≡ false) × Fresh (set_key k v acc) fs

append_fields-empty : (fs : Fields) → append_fields fs empty ≡ fs
unfolding append_fields
append_fields-empty empty = refl
append_fields-empty (field k v fs) = ap (field k v) (append_fields-empty fs)

add_sorted :
    (fs acc : Fields)
    → IsSorted fs
    → Follows acc fs
    → Fresh acc fs × (add_fields acc fs ≡ append_fields acc fs)
add_sorted empty acc s f = rw append_fields-empty (tt, refl)
add_sorted (field k v fs) acc s f =
    let (fresh, e) =
      add_sorted fs (append_fields acc (one_field k v)) s.1 (Follows-append acc fs k v f.1 s.0) in
    rw (set_key_new k v acc f.0)
      ((has_key_new k acc f.0, fresh), e ∙ append_fields_assoc acc (one_field k v) fs ∙ step)
  where
    step : append_fields acc (append_fields (one_field k v) fs) ≡ append_fields acc (field k v fs)
    step = unfold append_fields in refl

Follows-empty : (fs : Fields) → Follows empty fs
Follows-empty empty = tt
Follows-empty (field k v fs) = (tt, Follows-empty fs)

-- Sorted entries stored in their order into an empty map: each key is new, and they come back.
pub add_fields_sorted : (fs : Fields) → IsSorted fs → Fresh empty fs × (add_fields empty fs ≡ fs)
unfolding append_fields
add_fields_sorted fs s = add_sorted fs empty s (Follows-empty fs)
