-- ===== src/Plugins/Events/Distinct.antt =====
-- No event type has two entries in the table.
use cyu_core.Base.{ℕ, ◌≡◌, refl, ◌∙◌, false, List, [], ◌∷◌, arith, inl, inr, Bool-cases}
use cyu_core.Plugins.Names.{same}
use cyu_core.Plugins.Events.{
  Subscriber, Table, has_type, replace_handlers, set_handlers, delete_type,
}

abbrev pub IsDistinct : Table → Type 0
IsDistinct [] = Unit {0}
IsDistinct ((t, hs) ∷ es) = (has_type t es ≡ false) × IsDistinct es

has_type-replace_handlers :
    (k j : List ℕ) (hs : List Subscriber) (table : Table)
    → has_type j (replace_handlers k hs table) ≡ has_type j table
unfolding has_type replace_handlers
has_type-replace_handlers k j hs [] = refl
has_type-replace_handlers k j hs ((t, old) ∷ es) =
    let rest = has_type-replace_handlers k j hs es in ground arith

IsDistinct-replace_handlers :
    (k : List ℕ) (hs : List Subscriber) (table : Table)
    → IsDistinct table
    → IsDistinct (replace_handlers k hs table)
unfolding replace_handlers
IsDistinct-replace_handlers k hs [] h = tt
IsDistinct-replace_handlers k hs ((t, old) ∷ es) h = elim (Bool-cases (same t k)) [
  | inl e ↦ rw e h
  | inr e ↦
      rw e (has_type-replace_handlers k t hs es ∙ h.0, IsDistinct-replace_handlers k hs es h.1)
]

pub IsDistinct-set_handlers :
    (k : List ℕ) (hs : List Subscriber) (table : Table)
    → IsDistinct table
    → IsDistinct (set_handlers k hs table)
unfolding set_handlers
IsDistinct-set_handlers k hs table h = elim (Bool-cases (has_type k table)) [
  | inl e ↦ rw e (IsDistinct-replace_handlers k hs table h)
  | inr e ↦ rw e (e, h)
]

has_type-delete_type :
    (k j : List ℕ) (table : Table)
    → has_type j table ≡ false
    → has_type j (delete_type k table) ≡ false
unfolding has_type delete_type
has_type-delete_type k j [] h = h
has_type-delete_type k j ((t, hs) ∷ es) h =
    let rest = has_type-delete_type k j es (ground arith) in ground arith

pub IsDistinct-delete_type :
    (k : List ℕ) (table : Table) → IsDistinct table → IsDistinct (delete_type k table)
unfolding delete_type
IsDistinct-delete_type k [] h = tt
IsDistinct-delete_type k ((t, hs) ∷ es) h = elim (Bool-cases (same t k)) [
  | inl e ↦ rw e (IsDistinct-delete_type k es h.1)
  | inr e ↦ rw e (has_type-delete_type k t es h.0, IsDistinct-delete_type k es h.1)
]
