-- ===== src/Nbt/RoundTrip/Steps.antt =====
-- What a step of the loops that write lists and compounds has done, and what the reader does with it.
use cyu_core.Base.{
  ℕ, zero, suc, ◌+◌, ◌≤◌, ◌≡◌, refl, ap, ◌∙◌, true, false, List, ◌∷◌, ◌++◌, arith, inl, inr, ◌==◌,
  length, length-append, Outcome, ok, Outcome-cases,
}
use cyu_core.Nbt.Text.{write_modified_utf8, read_modified_utf8}
use cyu_core.Nbt.{
  end, valid_value_type, Error, from_text, Value, list, compound, Items, nil, cons, Fields, empty,
  field, value_type, count_items, has_key, set_key,
}
use cyu_core.Nbt.Keys.{add_fields}
use cyu_core.Nbt.Write.{write_length, write_value, check_depth, write_items, write_fields}
use cyu_core.Nbt.Read.{
  Reader, read_value, read_payload, read_items, read_fields, read_list, read_compound,
}
use cyu_core.Nbt.RoundTrip.Parts.{read_length_written}
use mathlib.Core.List.{append_assoc}

pub count-pos : (v : Value) (vs : Items) → (count_items (cons v vs) == 0) ≡ false
count-pos v vs = ground arith

-- What a step of writeList's loop has done if it succeeded.
pub write_items_parts :
    (v : Value) (vs : Items) (t depth : ℕ) (out : List ℕ)
    → write_items (cons v vs) t depth ≡ ok out
    → (entry : List ℕ) × (entries : List ℕ) × (value_type v ≡ t)
      × (check_depth (depth + 1) (write_value v (depth + 1)) ≡ ok entry)
      × (write_items vs t depth ≡ ok entries)
      × (out ≡ entry ++ entries)
unfolding write_items
write_items_parts v vs t depth out e =
    elim (Outcome-cases (check_depth (depth + 1) (write_value v (depth + 1)))) [
      | inr (x, r) ↦ ground (arith, r)
      | inl (entry, r) ↦ elim (Outcome-cases (write_items vs t depth)) [
        | inr (x, q) ↦ ground (arith, r, q)
        | inl (entries, q) ↦ (entry, entries, ground (arith, r, q), r, q, ground (arith, r, q))
      ]
    ]

pub write_fields_parts :
    (k : List ℕ) (v : Value) (fs : Fields) (depth : ℕ) (out : List ℕ)
    → write_fields (field k v fs) depth ≡ ok out
    → (name : List ℕ) × (entry : List ℕ) × (entries : List ℕ) × (valid_value_type (value_type v)
        ≡ true)
      × (from_text (write_modified_utf8 k) ≡ ok name)
      × (check_depth (depth + 1) (write_value v (depth + 1)) ≡ ok entry)
      × (write_fields fs depth ≡ ok entries)
      × (out ≡ value_type v ∷ (name ++ (entry ++ entries)))
unfolding write_fields
write_fields_parts k v fs depth out e = elim (Outcome-cases (from_text (write_modified_utf8 k))) [
  | inr (x, r₀) ↦ ground (arith, r₀)
  | inl (name, r₀) ↦ elim (Outcome-cases (check_depth (depth + 1) (write_value v (depth + 1)))) [
    | inr (x, r) ↦ ground (arith, r₀, r)
    | inl (entry, r) ↦ elim (Outcome-cases (write_fields fs depth)) [
      | inr (x, q) ↦ ground (arith, r₀, r, q)
      | inl (entries, q) ↦
          (name, entry, entries, ground (arith, r₀, r, q), r₀, r, q, ground (arith, r₀, r, q))
    ]
  ]
]

module _ (read : ℕ → Reader Value) where
  pub read_empty_list :
      (t depth : ℕ) (out rest : List ℕ)
      → write_value (list t nil) depth ≡ ok out
      → read_list read (out ++ rest) ≡ ok (list t nil, rest)
  unfolding read_list write_value
  read_empty_list t depth out rest e = elim (Outcome-cases (write_length 0)) [
    | inr (x, r) ↦ ground (arith, r)
    | inl (len, r) ↦ ground (arith, r, read_length_written 0 len rest r)
  ]

  -- The loop is given by what it does on any entries that were written.
  pub read_full_list :
      (t depth : ℕ) (v : Value) (vs : Items) (out rest : List ℕ)
      → write_value (list t (cons v vs)) depth ≡ ok out
      → ((entries : List ℕ)
          → write_items (cons v vs) t depth ≡ ok entries
          → read_items (read t) (count_items (cons v vs)) (entries ++ rest) ≡ ok (cons v vs, rest))
      → read_list read (out ++ rest) ≡ ok (list t (cons v vs), rest)
  unfolding read_list write_value
  read_full_list t depth v vs out rest e loop =
      elim (Outcome-cases (write_length (count_items (cons v vs)))) [
        | inr (x, r) ↦ ground (arith, r)
        | inl (len, r) ↦ elim (Outcome-cases (write_items (cons v vs) t depth)) [
          | inr (x, q) ↦ ground (arith, r, q)
          | inl (entries, q) ↦ ground (
            arith,
            r,
            q,
            append_assoc len entries rest,
            read_length_written (count_items (cons v vs)) len (entries ++ rest) r,
            loop entries q,
          )
        ]
      ]

  pub read_fields-end :
      (fuel : ℕ) (fs : Fields) (rest : List ℕ)
      → read_fields read (suc fuel) fs (end ∷ rest) ≡ ok (compound fs, rest)
  unfolding read_fields
  read_fields-end fuel fs rest = refl

  pub read_fields_step :
      (fuel t : ℕ) (fs : Fields) (k bs mid last : List ℕ) (v : Value)
      → valid_value_type t ≡ true
      → from_text (read_modified_utf8 bs) ≡ ok (k, mid)
      → has_key k fs ≡ false
      → read t mid ≡ ok (v, last)
      → read_fields read (suc fuel) fs (t ∷ bs) ≡ read_fields read fuel (set_key k v fs) last
  unfolding read_fields
  read_fields_step fuel t fs k bs mid last v valid name new entry = ground arith

  pub read_no_fields :
      (fuel : ℕ) (fs : Fields) (out rest : List ℕ)
      → length out ≤ fuel
      → write_fields empty 0 ≡ ok out
      → read_fields read fuel fs (out ++ rest) ≡ ok (compound fs, rest)
  unfolding write_value
  read_no_fields zero fs out rest hf e = absurd (ground arith)
  read_no_fields (suc fuel) fs out rest hf e = ground (arith, read_fields-end fuel fs rest)

  pub read_compound_written :
      (fs : Fields) (out rest : List ℕ)
      → add_fields empty fs ≡ fs
      → read_fields read (suc (length (out ++ rest))) empty (out ++ rest)
        ≡ ok (compound (add_fields empty fs), rest)
      → read_compound read (out ++ rest) ≡ ok (compound fs, rest)
  unfolding read_compound
  read_compound_written fs out rest same e = e ∙ ap (λ gs. ok (compound gs, rest)) same

pub read_items_end :
    (read : Reader Value) (out rest : List ℕ)
    → write_items nil 0 0 ≡ ok out
    → read_items read 0 (out ++ rest) ≡ ok (nil, rest)
unfolding read_items write_value
read_items_end read out rest e = ground arith

pub written_pos :
    (k : List ℕ) (v : Value) (fs : Fields) (depth : ℕ) (out : List ℕ)
    → length out ≤ 0
    → write_fields (field k v fs) depth ≡ ok out
    → ⊥
written_pos k v fs depth out hf e =
    let (name, entry, entries, valid, named, first, more, shape) =
      write_fields_parts k v fs depth out e in
    ground arith

pub shorter :
    (t : ℕ) (name entry entries out : List ℕ) (fuel : ℕ)
    → out ≡ t ∷ (name ++ (entry ++ entries))
    → length out ≤ suc fuel
    → length entries ≤ fuel
shorter t name entry entries out fuel e h =
    ground (arith, length-append name (entry ++ entries), length-append entry entries)

pub read_items_step :
    (read : Reader Value) (n : ℕ) (v : Value) (vs : Items) (bs mid rest : List ℕ)
    → read bs ≡ ok (v, mid)
    → read_items read n mid ≡ ok (vs, rest)
    → read_items read (suc n) bs ≡ ok (cons v vs, rest)
unfolding read_items
read_items_step read n v vs bs mid rest first more = rw (first, more)

-- One level down: the depth guard has passed, so a level is left.
pub level_down :
    (depth levels : ℕ) (w : Outcome Error (List ℕ)) (out : List ℕ)
    → depth + levels ≡ 512
    → check_depth (depth + 1) w ≡ ok out
    → (l : ℕ) × (levels ≡ suc l) × (depth + 1 + l ≡ 512) × (w ≡ ok out)
level_down depth zero w out d e = absurd (ground arith)
level_down depth (suc l) w out d e = (l, refl, omega arith, ground arith)

pub read_payload_down :
    (levels l t t' : ℕ) (bs : List ℕ) (r : Outcome Error (Value × List ℕ))
    → levels ≡ suc l
    → t' ≡ t
    → read_value (read_payload l) t' bs ≡ r
    → read_payload levels t bs ≡ r
unfolding read_payload
read_payload_down levels l t t' bs r e q h = rw (e, ← q) h

-- The entry's bytes, and what the step leaves for the next one.
pub reassociate :
    (name entry entries rest : List ℕ)
    → (name ++ (entry ++ entries)) ++ rest ≡ name ++ (entry ++ (entries ++ rest))
reassociate name entry entries rest =
    append_assoc name (entry ++ entries) rest ∙ ap (◌++◌ name) (append_assoc entry entries rest)
