-- ===== src/Nbt/Text/RoundTrip.antt =====
-- Modified UTF-8: what the decoder makes of what the encoder wrote.
use cyu_core.Base.{
  ℕ, ◌≤◌, ◌<◌, ◌≡◌, refl, true, List, [], Bool-cases, inl, inr, ◌++◌, arith, length, length-append,
  ok, err, ◌≢◌, Outcome-cases,
}
use cyu_core.Stream.{read_full, read_full-append, read_full_takes}
use cyu_core.Stream.BigEndian.{big_endian, length-big_endian, from_big_endian, from_big_endian_two}
use cyu_core.Nbt.Text.{
  valid_string, utf16_encode, stuck, encode_units, decode_units, decode_text, write_modified_utf8,
  read_modified_utf8,
}
use cyu_core.Nbt.Text.Units.{
  all_bytes, encode_units-all_bytes, decode_units-all_bytes, decode_units-ne-stuck,
}
use cyu_core.Nbt.Text.Surrogates.{
  utf16_encode-units, check-utf16_encode, utf16_decode-encode, check_units-ne-stuck,
}
use mathlib.Core.List.{append_assoc}
use native.Mathlib.Nat.{le_refl}

decode_text-all_bytes :
    (value : List ℕ)
    → valid_string value ≡ true
    → decode_text (all_bytes (utf16_encode value)) ≡ ok value
unfolding decode_text
decode_text-all_bytes value v = rw (
  decode_units-all_bytes (utf16_encode value) _ (utf16_encode-units value)
      (le_refl (length (all_bytes (utf16_encode value)))),
  check-utf16_encode value v,
  utf16_decode-encode value v,
)

-- What a successful write is: the text was valid, and its length fits two bytes.
written_text :
    (value out : List ℕ)
    → write_modified_utf8 value ≡ ok out
    → (valid_string value ≡ true)
      × (out
          ≡ big_endian 2 (length (all_bytes (utf16_encode value)))
            ++ all_bytes (utf16_encode value))
      × (length (all_bytes (utf16_encode value)) ≤ 65535)
unfolding write_modified_utf8
written_text value out e = elim (Bool-cases (valid_string value)) [
  | inr bad ↦ ground (arith, bad)
  | inl good ↦ elim (Outcome-cases (encode_units [] (utf16_encode value))) [
    | inl (encoded, r) ↦ ground (
      arith,
      good,
      r,
      encode_units-all_bytes (utf16_encode value) [] encoded (utf16_encode-units value),
    )
    | inr (x, r) ↦ ground (arith, good, r)
  ]
]

-- Every string that writeModifiedUTF8 accepts is read back by readModifiedUTF8, with the bytes that
-- follow left in place.
pub read-write_modified_utf8 :
    (value out rest : List ℕ)
    → write_modified_utf8 value ≡ ok out
    → read_modified_utf8 (out ++ rest) ≡ ok (value, rest)
unfolding read_modified_utf8
read-write_modified_utf8 value out rest e =
    let (v, shape, fits) = written_text value out e in
    let body = all_bytes (utf16_encode value) in
    rw (
      shape,
      append_assoc (big_endian 2 (length body)) body rest,
      read_full-append (big_endian 2 (length body)) (body ++ rest) 2 (length-big_endian 2 _),
      from_big_endian_two (length body) (omega arith),
      read_full-append body rest (length body) refl,
      decode_text-all_bytes value v,
    )

decode_text-ne-stuck : (bs : List ℕ) → decode_text bs ≢ err stuck
unfolding decode_text
decode_text-ne-stuck bs e = elim (Outcome-cases (decode_units (length bs) bs)) [
  | inl (us, r) ↦ ground (arith, r, check_units-ne-stuck us)
  | inr (x, r) ↦ ground (arith, r, decode_units-ne-stuck (length bs) bs (le_refl (length bs)))
]

-- The decoding loop ends on every input.
pub read_modified_utf8-ne-stuck : (bs : List ℕ) → read_modified_utf8 bs ≢ err stuck
unfolding read_modified_utf8
read_modified_utf8-ne-stuck bs e = elim (Outcome-cases (read_full 2 bs)) [
  | inr (x, r) ↦ ground (arith, r)
  | inl ((len, rest), r) ↦ elim (Outcome-cases (read_full (from_big_endian 0 len) rest)) [
    | inr (x, q) ↦ ground (arith, r, q)
    | inl ((encoded, rest'), q) ↦ ground (arith, r, q, decode_text-ne-stuck encoded)
  ]
]

-- Reading takes the two bytes of the length at least.
pub read_modified_utf8_takes :
    (bs rest text : List ℕ) → read_modified_utf8 bs ≡ ok (text, rest) → length rest < length bs
unfolding read_modified_utf8
read_modified_utf8_takes bs rest text e = elim (Outcome-cases (read_full 2 bs)) [
  | inr (x, r) ↦ ground (arith, r)
  | inl ((len, mid), r) ↦ elim (Outcome-cases (read_full (from_big_endian 0 len) mid)) [
    | inr (x, q) ↦ ground (arith, r, q)
    | inl ((encoded, rest'), q) ↦ ground (
      arith,
      r,
      q,
      read_full_takes 2 bs len mid r,
      length-append len mid,
      read_full_takes (from_big_endian 0 len) mid encoded rest' q,
      length-append encoded rest',
    )
  ]
]
