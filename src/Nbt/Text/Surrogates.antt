-- ===== src/Nbt/Text/Surrogates.antt =====
-- UTF-16 code units and runes.
use cyu_core.Base.{
  ℕ, ◌+◌, ◌-◌, ◌*◌, ◌/◌, ◌%◌, ◌^◌, ◌≤◌, ◌<◌, ◌≡◌, refl, ap, ◌∙◌, true, List, [], ◌∷◌, ◌++◌, arith,
  ok, err, ◌≢◌, All, All-append,
}
use native.Mathlib.Decide.{dec_lt}
use cyu_core.Nbt.Text.{
  is_scalar, valid_string, encode_rune, utf16_encode, utf16_decode, check_units, stuck,
}

-- A unit that is no surrogate stands for itself.
check_single :
    (u : ℕ) (us : List ℕ) → is_scalar u ≡ true → u < 0x10000 → check_units (u ∷ us) ≡ check_units us
unfolding check_units
check_single u [] s h = ground arith
check_single u (v ∷ us) s h = ground arith

decode_single :
    (u : ℕ) (us : List ℕ)
    → is_scalar u ≡ true
    → u < 0x10000
    → utf16_decode (u ∷ us) ≡ u ∷ utf16_decode us
unfolding utf16_decode
decode_single u [] s h = ground arith
decode_single u (v ∷ us) s h = ground arith

check_pair :
    (h l : ℕ) (us : List ℕ)
    → h < 1024
    → l < 1024
    → check_units ((0xd800 + h) ∷ (0xdc00 + l) ∷ us) ≡ check_units us
unfolding check_units
check_pair h l us hh hl = ground arith

decode_pair :
    (h l : ℕ) (us : List ℕ)
    → h < 1024
    → l < 1024
    → utf16_decode ((0xd800 + h) ∷ (0xdc00 + l) ∷ us) ≡ (h * 1024 + l + 0x10000) ∷ utf16_decode us
unfolding utf16_decode
decode_pair h l us hh hl = ground arith

-- The two shapes that utf16.Encode gives a scalar value.
encode_small : (r : ℕ) → is_scalar r ≡ true → r < 0x10000 → encode_rune r ≡ r ∷ []
unfolding encode_rune
encode_small r s h = ground arith

encode_large :
    (r : ℕ)
    → is_scalar r ≡ true
    → 0x10000 ≤ r
    → (encode_rune r ≡ (0xd800 + (r - 0x10000) / 1024) ∷ (0xdc00 + (r - 0x10000) % 1024) ∷ [])
      × ((r - 0x10000) / 1024 < 1024)
unfolding encode_rune
encode_large r s h = ground arith

check_rune :
    (r : ℕ) (us : List ℕ) → is_scalar r ≡ true → check_units (encode_rune r ++ us) ≡ check_units us
check_rune r us s = elim (dec_lt r 0x10000) [
  | yes small ↦ rw (encode_small r s small) (check_single r us s small)
  | no large ↦
      let (shape, high) = encode_large r s (omega arith) in
      rw shape (check_pair ((r - 0x10000) / 1024) ((r - 0x10000) % 1024) us high (omega arith))
]

decode_rune :
    (r : ℕ) (us : List ℕ)
    → is_scalar r ≡ true
    → utf16_decode (encode_rune r ++ us) ≡ r ∷ utf16_decode us
decode_rune r us s = elim (dec_lt r 0x10000) [
  | yes small ↦ rw (encode_small r s small) (decode_single r us s small)
  | no large ↦
      let (shape, high) = encode_large r s (omega arith) in
      rw shape (
        decode_pair ((r - 0x10000) / 1024) ((r - 0x10000) % 1024) us high (omega arith)
        ∙ ap (λ t. t ∷ utf16_decode us) (omega arith))
]

encode_rune-units : (r : ℕ) → All (λ u. u < 2 ^ 16) (encode_rune r)
unfolding encode_rune
encode_rune-units r = ground arith

-- What utf16.Encode gives are uint16s, on every string.
pub utf16_encode-units : (rs : List ℕ) → All (λ u. u < 2 ^ 16) (utf16_encode rs)
unfolding utf16_encode
utf16_encode-units [] = tt
utf16_encode-units (r ∷ rs) =
    All-append (λ u. u < 2 ^ 16) (encode_rune r) (utf16_encode rs) (encode_rune-units r)
      (utf16_encode-units rs)

-- On valid text the surrogates are paired, and utf16.Decode gives the runes back.
pub check-utf16_encode :
    (rs : List ℕ) → valid_string rs ≡ true → check_units (utf16_encode rs) ≡ ok tt
unfolding valid_string utf16_encode
check-utf16_encode [] v = unfold check_units in refl
check-utf16_encode (r ∷ rs) v =
    check_rune r (utf16_encode rs) (ground arith) ∙ check-utf16_encode rs (ground arith)

pub utf16_decode-encode :
    (rs : List ℕ) → valid_string rs ≡ true → utf16_decode (utf16_encode rs) ≡ rs
unfolding valid_string utf16_encode
utf16_decode-encode [] v = unfold utf16_decode in refl
utf16_decode-encode (r ∷ rs) v =
    decode_rune r (utf16_encode rs) (ground arith)
    ∙ ap (◌∷◌ r) (utf16_decode-encode rs (ground arith))

pub check_units-ne-stuck : (us : List ℕ) → check_units us ≢ err stuck
unfolding check_units
check_units-ne-stuck [] e = cc
check_units-ne-stuck (u ∷ []) e = ground arith
check_units-ne-stuck (u ∷ v ∷ us) e =
    ground (arith, check_units-ne-stuck us, check_units-ne-stuck (v ∷ us))
