-- ===== src/Nbt/RoundTrip.antt =====
-- Network NBT: what the reader makes of what the writer wrote.
pub mod Steps
pub mod Parts
use cyu_core.Base.{
  ℕ, zero, suc, ◌+◌, ◌^◌, ◌≤◌, ◌<◌, ◌≡◌, refl, ap, sym, ◌∙◌, Bool, true, false, ◌&&◌, not, List, [],
  ◌∷◌, ◌++◌, arith, All, inl, inr, Bool-cases, leb, ◌==◌, if◌then◌else◌, length, length-append,
  Outcome, ok, err, ◌>>=◌, Outcome-cases,
}
use cyu_core.Base.Words.{IsByte, IsU16, IsU32, IsU64}
use cyu_core.Nbt.Text.{write_modified_utf8, read_modified_utf8}
use cyu_core.Nbt.Text.RoundTrip.{read-write_modified_utf8}
use cyu_core.Nbt.{
  end, valid_value_type, Error, from_text, max_int32, Value, null, byte, short, int, long, float,
  double, byte_array, string, int_array, long_array, list, compound, Items, nil, cons, Fields,
  empty, field, value_type, is_nil, count_items, has_key, set_key,
}
use cyu_core.Nbt.Keys.{IsSorted, Fresh, add_fields, add_fields_sorted}
use cyu_core.Nbt.Write.{
  write_length, write_value, write_network, check_depth, write_items, write_fields,
}
use cyu_core.Nbt.Read.{
  Reader, read_value, read_payload, read_network, read_items, read_fields, read_list, read_compound,
}
use cyu_core.Nbt.RoundTrip.Parts.{
  read_byte_written, read_scalar_written, read_text_written, read_length_written, two_bytes,
  four_bytes, eight_bytes, read_array_written, read_byte_array_written, read_string_written,
}
use mathlib.Core.List.{append_assoc}
use cyu_core.Nbt.RoundTrip.Steps.{
  read_empty_list, read_full_list, read_fields-end, read_fields_step, read_no_fields,
  read_compound_written, count-pos, write_items_parts, write_fields_parts, read_items_end,
  written_pos, shorter, read_items_step, level_down, read_payload_down, reassociate,
}

-- A value that Go can hold: every number is in its width, and the entries of a map stand in the
-- order of their keys.
unfoldable mutual
  pub IsValue : Value → Type 0
  IsValue null = Unit {0}
  IsValue (byte v) = IsByte v
  IsValue (short v) = IsU16 v
  IsValue (int v) = IsU32 v
  IsValue (long v) = IsU64 v
  IsValue (float v) = IsU32 v
  IsValue (double v) = IsU64 v
  IsValue (byte_array bs) = All IsByte bs
  IsValue (string s) = Unit {0}
  IsValue (int_array ws) = All IsU32 ws
  IsValue (long_array ws) = All IsU64 ws
  IsValue (list t vs) = IsByte t × AreValues vs
  IsValue (compound fs) = IsSorted fs × AreFields fs

  pub AreValues : Items → Type 0
  AreValues nil = Unit {0}
  AreValues (cons v vs) = IsValue v × AreValues vs

  pub AreFields : Fields → Type 0
  AreFields empty = Unit {0}
  AreFields (field k v fs) = IsValue v × AreFields fs

mutual
  unfolding IsValue write_value read_value

  read_value_written :
      (v : Value) (depth levels : ℕ) (out rest : List ℕ)
      → IsValue v
      → depth + levels ≡ 512
      → write_value v depth ≡ ok out
      → read_value (read_payload levels) (value_type v) (out ++ rest) ≡ ok (v, rest)
  read_value_written null depth levels out rest h d e = cc
  read_value_written (byte v) depth levels out rest h d e = ground (arith, read_byte_written v rest)
  read_value_written (short v) depth levels out rest h d e =
      ground (arith, read_scalar_written two_bytes short v rest h)
  read_value_written (int v) depth levels out rest h d e =
      ground (arith, read_scalar_written four_bytes int v rest h)
  read_value_written (long v) depth levels out rest h d e =
      ground (arith, read_scalar_written eight_bytes long v rest h)
  read_value_written (float v) depth levels out rest h d e =
      ground (arith, read_scalar_written four_bytes float v rest h)
  read_value_written (double v) depth levels out rest h d e =
      ground (arith, read_scalar_written eight_bytes double v rest h)
  read_value_written (byte_array bs) depth levels out rest h d e =
      read_byte_array_written bs out rest e
  read_value_written (string s) depth levels out rest h d e = read_string_written s out rest e
  read_value_written (int_array ws) depth levels out rest h d e =
      read_array_written four_bytes int_array ws out rest h e
  read_value_written (long_array ws) depth levels out rest h d e =
      read_array_written eight_bytes long_array ws out rest h e
  read_value_written (list t nil) depth levels out rest h d e =
      read_empty_list (read_payload levels) t depth out rest e
  read_value_written (list t (cons v vs)) depth levels out rest h d e =
      read_full_list (read_payload levels) t depth v vs out rest e
        (λ entries q. read_items_written (cons v vs) t depth levels entries rest h.1 d q)
  read_value_written (compound fs) depth levels out rest h d e =
      read_compound_written (read_payload levels) fs out rest (add_fields_sorted fs h.0).1 (
        read_fields_written fs empty depth levels (suc (length (out ++ rest))) out rest h.1
          (add_fields_sorted fs h.0).0 d (omega (arith, length-append out rest)) e)

  read_items_written :
      (vs : Items) (t depth levels : ℕ) (out rest : List ℕ)
      → AreValues vs
      → depth + levels ≡ 512
      → write_items vs t depth ≡ ok out
      → read_items (read_payload levels t) (count_items vs) (out ++ rest) ≡ ok (vs, rest)
  read_items_written nil t depth levels out rest h d e =
      read_items_end (read_payload levels t) out rest e
  read_items_written (cons v vs) t depth levels out rest h d e =
      let (entry, entries, ty, first, more, shape) = write_items_parts v vs t depth out e in
      let (l, le, d', first') = level_down depth levels (write_value v (depth + 1)) entry d first in
      rw (shape, append_assoc entry entries rest)
        (read_items_step (read_payload levels t) (count_items vs) v vs (entry ++ (entries ++ rest))
          (entries ++ rest) rest
          (read_payload_down levels l t (value_type v) (entry ++ (entries ++ rest))
            (ok (v, entries ++ rest)) le ty
            (read_value_written v (depth + 1) l entry (entries ++ rest) h.0 d' first'))
          (read_items_written vs t depth levels entries rest h.1 d more))

  read_fields_written :
      (fs acc : Fields) (depth levels fuel : ℕ) (out rest : List ℕ)
      → AreFields fs
      → Fresh acc fs
      → depth + levels ≡ 512
      → length out ≤ fuel
      → write_fields fs depth ≡ ok out
      → read_fields (read_payload levels) fuel acc (out ++ rest)
        ≡ ok (compound (add_fields acc fs), rest)
  read_fields_written empty acc depth levels fuel out rest h new d hf e =
      read_no_fields (read_payload levels) fuel acc out rest hf e
  read_fields_written (field k v fs) acc depth levels zero out rest h new d hf e =
      absurd (written_pos k v fs depth out hf e)
  read_fields_written (field k v fs) acc depth levels (suc fuel) out rest h new d hf e =
      let (name, entry, entries, valid, named, first, more, shape) =
        write_fields_parts k v fs depth out e in
      let (l, le, d', first') = level_down depth levels (write_value v (depth + 1)) entry d first in
      let after_name = entry ++ (entries ++ rest) in
      rw (shape, reassociate name entry entries rest)
        (read_fields_step (read_payload levels) fuel (value_type v) acc k (name ++ after_name)
            after_name (entries ++ rest) v valid (read_text_written k name after_name named) new.0
            (read_payload_down levels l (value_type v) (value_type v) after_name
              (ok (v, entries ++ rest)) le refl
              (read_value_written v (depth + 1) l entry (entries ++ rest) h.0 d' first'))
          ∙ read_fields_written fs (set_key k v acc) depth levels fuel entries rest h.1 new.1 d
              (shorter (value_type v) name entry entries out fuel shape hf) more)

-- Every value that WriteNetwork accepts, whose numbers are in their widths and whose map keys are
-- sorted, is read back by ReadNetwork from what was written, and the bytes that follow are left in
-- place.
pub read-write_network :
    (v : Value) (out rest : List ℕ)
    → IsValue v
    → write_network v ≡ ok out
    → read_network (out ++ rest) ≡ ok (v, rest)
unfolding read_network write_network
read-write_network v out rest h e = elim (Outcome-cases (write_value v 0)) [
  | inr (x, r) ↦ ground (arith, r)
  | inl (payload, r) ↦ ground (
    arith,
    r,
    read_payload_down 513 512 (value_type v) (value_type v) (payload ++ rest) (ok (v, rest)) refl
        refl (read_value_written v 0 512 payload rest h (omega arith) r),
  )
]
