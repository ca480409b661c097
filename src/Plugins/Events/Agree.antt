-- ===== src/Plugins/Events/Agree.antt =====
-- Two tables with the same slices, as the loop of removeOwner needs them.
use cyu_core.Base.{ℕ, ◌≡◌, ap, ◌∙◌, false, List, [], ◌∷◌, arith, inl, inr, Bool-cases}
use cyu_core.Plugins.Names.{same, same_of_eq, eq_of_same}
use cyu_core.Plugins.Events.{Subscriber, Table, handlers_of, has_type, set_handlers, delete_type}
use cyu_core.Plugins.Events.Tables.{handlers_of-set_handlers, handlers_of-delete_type}

-- The slices of the entries are those that the lookups give.
abbrev pub Agree : Table → Table → Type 0
Agree [] next = Unit {0}
Agree ((t, hs) ∷ es) next = (handlers_of t next ≡ hs) × Agree es next

pub different_key :
    (t k : List ℕ) (old : List Subscriber) (es : Table)
    → has_type k ((t, old) ∷ es) ≡ false
    → same t k ≡ false
unfolding has_type
different_key t k old es f = ground arith

pub different :
    (k t : List ℕ) (old : List Subscriber) (es : Table)
    → has_type k ((t, old) ∷ es) ≡ false
    → same k t ≡ false
unfolding has_type
different k t old es f = elim (Bool-cases (same k t)) [
  | inr e ↦ e
  | inl e ↦ let back = ap (λ x. same t x) (eq_of_same k t e) ∙ same_of_eq t in absurd (ground arith)
]

-- Another type's slice may change.
pub Agree-set_handlers :
    (k : List ℕ) (hs : List Subscriber) (current next : Table)
    → has_type k current ≡ false
    → Agree current next
    → Agree current (set_handlers k hs next)
unfolding has_type
Agree-set_handlers k hs [] next f h = tt
Agree-set_handlers k hs ((t, old) ∷ es) next f h = (
  handlers_of-set_handlers k t hs next ∙ rw (different k t old es f) h.0,
  Agree-set_handlers k hs es next (ground arith) h.1,
)

pub Agree-delete_type :
    (k : List ℕ) (current next : Table)
    → has_type k current ≡ false
    → Agree current next
    → Agree current (delete_type k next)
unfolding has_type
Agree-delete_type k [] next f h = tt
Agree-delete_type k ((t, old) ∷ es) next f h = (
  handlers_of-delete_type k t next ∙ rw (different k t old es f) h.0,
  Agree-delete_type k es next (ground arith) h.1,
)
