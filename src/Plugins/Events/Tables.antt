-- ===== src/Plugins/Events/Tables.antt =====
-- The table of subscriptions as a map: its lookups after an assignment and after a deletion.
use cyu_core.Base.{
  ℕ, ◌≡◌, refl, ap, sym, ◌∙◌, true, false, List, [], ◌∷◌, arith, if◌then◌else◌, inl, inr,
  Bool-cases,
}
use cyu_core.Plugins.Names.{same, same_of_eq, eq_of_same}
use cyu_core.Plugins.Events.{
  Subscriber, Table, handlers_of, has_type, replace_handlers, set_handlers, delete_type,
}

same_sym : (s t : List ℕ) → same s t ≡ true → same t s ≡ true
same_sym s t h = ap (λ x. same x s) (sym (eq_of_same s t h)) ∙ same_of_eq s

same_trans : (s t u : List ℕ) → same s t ≡ true → same s u ≡ same t u
same_trans s t u h = ap (λ x. same x u) (eq_of_same s t h)

same_right : (s t u : List ℕ) → same s t ≡ true → same u s ≡ same u t
same_right s t u h = ap (same u) (eq_of_same s t h)

no_handlers : (k : List ℕ) (table : Table) → has_type k table ≡ false → handlers_of k table ≡ []
unfolding has_type handlers_of
no_handlers k [] h = refl
no_handlers k ((t, hs) ∷ es) h = ground (arith, no_handlers k es)

handlers_of-replace_handlers :
    (k j : List ℕ) (hs : List Subscriber) (table : Table)
    → has_type k table ≡ true
    → handlers_of j (replace_handlers k hs table) ≡ (if same k j then hs else handlers_of j table)
unfolding has_type handlers_of replace_handlers
handlers_of-replace_handlers k j hs [] h = absurd (ground arith)
handlers_of-replace_handlers k j hs ((t, old) ∷ es) h = elim (Bool-cases (same t k)) [
  | inl e ↦ rw e (rw (same_trans t k j e) (ground arith))
  | inr e ↦ rw e (
      let rest = handlers_of-replace_handlers k j hs es (ground arith) in
      elim (Bool-cases (same k j)) [
        | inl f ↦ let apart = same_right k j t f in ground arith
        | inr f ↦ ground arith
      ])
]

pub handlers_of-set_handlers :
    (k j : List ℕ) (hs : List Subscriber) (table : Table)
    → handlers_of j (set_handlers k hs table) ≡ (if same k j then hs else handlers_of j table)
unfolding set_handlers handlers_of
handlers_of-set_handlers k j hs table = elim (Bool-cases (has_type k table)) [
  | inl h ↦ rw h (handlers_of-replace_handlers k j hs table h)
  | inr h ↦ rw h refl
]

pub handlers_of-delete_type :
    (k j : List ℕ) (table : Table)
    → handlers_of j (delete_type k table) ≡ (if same k j then [] else handlers_of j table)
unfolding delete_type handlers_of
handlers_of-delete_type k j [] = ground arith
handlers_of-delete_type k j ((t, hs) ∷ es) = elim (Bool-cases (same t k)) [
  | inl e ↦
      let alike = same_trans t k j e in
      let rest = handlers_of-delete_type k j es in rw e (ground arith)
  | inr e ↦
      let rest = handlers_of-delete_type k j es in
      rw e (elim (Bool-cases (same k j)) [
        | inl f ↦ let apart = same_right k j t f in ground arith
        | inr f ↦ ground arith
      ])
]
