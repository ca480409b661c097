-- ===== src/Nbt/Text.antt =====
-- internal/nbt/modified_utf8.go and modified_utf8_decode.go: Java's Modified UTF-8.
-- A Go string is the list of its runes; one that is no valid UTF-8 has an entry that is no Unicode
-- scalar value. `encode` and `decode` of unicode/utf16 are written out.
pub mod Units
pub mod Surrogates
pub mod RoundTrip
use cyu_core.Base.{
  ℕ, zero, suc, ◌+◌, ◌-◌, ◌*◌, ◌/◌, ◌%◌, ◌^◌, bit_and, bit_or, Bool, ◌&&◌, ◌||◌, not, List, [], ◌∷◌,
  ◌++◌, ltb, leb, ◌==◌, if◌then◌else◌, length, Outcome, ok, err, ◌>>=◌,
}
use cyu_core.Stream.{IoError, read_full}
use cyu_core.Stream.BigEndian.{big_endian, from_big_endian}

abbrev pub max_modified_utf8_bytes : ℕ
max_modified_utf8_bytes = 65535

-- `stuck` is no Go value: a loop of the model ran out of fuel.
pub data Error : Type 0 where
  io : IoError → Error
  not_utf8 : Error
  too_long : ℕ → Error
  malformed : Error
  bad_leading_byte : ℕ → Error
  unpaired_high_surrogate unpaired_low_surrogate : Error
  stuck : Error

abbrev pub from_reader {ℓ} : {A : Type ℓ} → Outcome IoError A → Outcome Error A
from_reader (ok a) = ok a
from_reader (err e) = err (io e)

abbrev pub is_high_surrogate : ℕ → Bool
is_high_surrogate u = leb 0xd800 u && leb u 0xdbff

abbrev pub is_low_surrogate : ℕ → Bool
is_low_surrogate u = leb 0xdc00 u && leb u 0xdfff

-- A Unicode scalar value.
abbrev pub is_scalar : ℕ → Bool
is_scalar r = ltb r 0xd800 || (ltb 0xdfff r && leb r 0x10ffff)

-- utf8.ValidString
unfoldable pub valid_string : List ℕ → Bool
valid_string [] = Bool.true
valid_string (r ∷ rs) = is_scalar r && valid_string rs

-- utf16.Encode
unfoldable pub encode_rune : ℕ → List ℕ
encode_rune r =
    if not (is_scalar r)
    then 0xfffd ∷ []
    else if ltb r 0x10000
    then r ∷ []
    else (0xd800 + (r - 0x10000) / 2 ^ 10) ∷ (0xdc00 + (r - 0x10000) % 2 ^ 10) ∷ []

unfoldable pub utf16_encode : List ℕ → List ℕ
utf16_encode [] = []
utf16_encode (r ∷ rs) = encode_rune r ++ utf16_encode rs

-- utf16.Decode
unfoldable pub utf16_decode : List ℕ → List ℕ
utf16_decode [] = []
utf16_decode (u ∷ []) = (if is_high_surrogate u || is_low_surrogate u then 0xfffd else u) ∷ []
utf16_decode (u ∷ v ∷ us) =
    let pair = ((u - 0xd800) * 2 ^ 10 + (v - 0xdc00) + 0x10000) ∷ utf16_decode us in
    let single =
      (if is_high_surrogate u || is_low_surrogate u then 0xfffd else u) ∷ utf16_decode (v ∷ us) in
    if is_high_surrogate u && is_low_surrogate v then pair else single

-- One to three bytes for a UTF-16 code unit; zero takes two.
unfoldable pub encode_unit : ℕ → List ℕ
encode_unit u =
    if leb 0x0001 u && leb u 0x007f
    then u ∷ []
    else if leb u 0x07ff
    then bit_or 0xc0 (u / 2 ^ 6) % 256 ∷ bit_or 0x80 (bit_and u 0x3f) % 256 ∷ []
    else bit_or 0xe0 (u / 2 ^ 12) % 256
      ∷ bit_or 0x80 (bit_and (u / 2 ^ 6) 0x3f) % 256
      ∷ bit_or 0x80 (bit_and u 0x3f) % 256
      ∷ []

-- The loop over the code units; the length is checked after each one.
unfoldable pub encode_units : (encoded : List ℕ) → List ℕ → Outcome Error (List ℕ)
encode_units encoded [] = ok encoded
encode_units encoded (u ∷ us) =
    let encoded' = encoded ++ encode_unit u in
    let more = encode_units encoded' us in
    if ltb max_modified_utf8_bytes (length encoded') then err (too_long (length encoded')) else more

-- What writeModifiedUTF8 writes: a length of two bytes and the encoding.
unfoldable pub write_modified_utf8 : List ℕ → Outcome Error (List ℕ)
write_modified_utf8 value = if not (valid_string value) then err not_utf8 else do
  encoded ← encode_units [] (utf16_encode value)
  ok (big_endian 2 (length encoded) ++ encoded)

unfoldable pub is_continuation : ℕ → Bool
is_continuation b = bit_and b 0xc0 == 0x80

unfoldable pub two_bytes : ℕ → List ℕ → Outcome Error (ℕ × List ℕ)
two_bytes a [] = err malformed
two_bytes a (b ∷ rest) =
    if is_continuation b
    then ok (bit_or (bit_and a 0x1f * 2 ^ 6 % 2 ^ 16) (bit_and b 0x3f), rest)
    else err malformed

unfoldable pub three_bytes : ℕ → List ℕ → Outcome Error (ℕ × List ℕ)
three_bytes a [] = err malformed
three_bytes a (b ∷ []) = err malformed
three_bytes a (b ∷ c ∷ rest) =
    if is_continuation b && is_continuation c
    then ok (
      bit_or (bit_or (bit_and a 0x0f * 2 ^ 12 % 2 ^ 16) (bit_and b 0x3f * 2 ^ 6 % 2 ^ 16))
          (bit_and c 0x3f),
      rest,
    )
    else err malformed

-- One round of the decoding loop, by the leading byte.
unfoldable pub decode_unit : ℕ → List ℕ → Outcome Error (ℕ × List ℕ)
decode_unit a rest =
    if leb 0x01 a && leb a 0x7f
    then ok (a, rest)
    else if bit_and a 0xe0 == 0xc0
    then two_bytes a rest
    else if bit_and a 0xf0 == 0xe0
    then three_bytes a rest
    else err (bad_leading_byte a)

unfoldable pub decode_units : (fuel : ℕ) → List ℕ → Outcome Error (List ℕ)
decode_units fuel [] = ok []
decode_units zero (a ∷ bs) = err stuck
decode_units (suc fuel) (a ∷ bs) = do
  (unit, rest) ← decode_unit a bs
  units ← decode_units fuel rest
  ok (unit ∷ units)

-- The check for unpaired surrogates.
unfoldable pub check_units : List ℕ → Outcome Error (Unit {0})
check_units [] = ok tt
check_units (u ∷ []) =
    if is_high_surrogate u
    then err unpaired_high_surrogate
    else if is_low_surrogate u
    then err unpaired_low_surrogate
    else ok tt
check_units (u ∷ v ∷ us) =
    let past_pair = check_units us in
    let past_one = check_units (v ∷ us) in
    if is_high_surrogate u
    then if ltb v 0xdc00 || ltb 0xdfff v then err unpaired_high_surrogate else past_pair
    else if is_low_surrogate u
    then err unpaired_low_surrogate
    else past_one

-- What readModifiedUTF8 makes of the bytes behind the length. Each round takes a byte at least, so
-- the number of bytes is enough fuel.
unfoldable pub decode_text : List ℕ → Outcome Error (List ℕ)
decode_text encoded = do
  units ← decode_units (length encoded) encoded
  _ ← check_units units
  ok (utf16_decode units)

unfoldable pub read_modified_utf8 : List ℕ → Outcome Error (List ℕ × List ℕ)
read_modified_utf8 bs = do
  (len, rest) ← from_reader (read_full 2 bs)
  (encoded, rest') ← from_reader (read_full (from_big_endian 0 len) rest)
  text ← decode_text encoded
  ok (text, rest')
