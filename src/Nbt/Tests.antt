-- ===== src/Nbt/Tests.antt =====
-- Runs of the NBT codec on small inputs, and the theorems at inputs that meet their conditions.
use cyu_core.Base.{ℕ, ◌≡◌, ◌≢◌, refl, List, [], ◌∷◌, ◌++◌, arith, ok, err}
use cyu_core.Stream.{read_full}
use cyu_core.Stream.BigEndian.{big_endian, from_big_endian}
use cyu_core.Nbt.Text.{
  valid_string, encode_rune, utf16_encode, utf16_decode, encode_unit, encode_units,
  write_modified_utf8, is_continuation, two_bytes, three_bytes, decode_unit, decode_units,
  check_units, decode_text, read_modified_utf8, stuck as text_stuck, unpaired_high_surrogate,
}
use cyu_core.Nbt.Text.RoundTrip.{read-write_modified_utf8, read_modified_utf8-ne-stuck}
use cyu_core.Nbt.{
  Value, null, byte, short, int, list, compound, nil, cons, empty, field, has_key, set_key,
  new_list, new_list_loop, byte_type, heterogeneous_list, duplicate_key, nil_element,
}
use cyu_core.Nbt.Write.{write_length, write_words, write_value, write_payload, write_network}
use cyu_core.Nbt.Read.{
  read_word, read_length, read_words, read_scalar, read_array, read_byte_array, read_string,
  read_items, read_list, read_fields, read_compound, read_value, read_payload, read_network,
}
use cyu_core.Nbt.RoundTrip.{IsValue, read-write_network}
use cyu_core.Nbt.Total.{Fits, read_network-Fits}

program : Unit {0}
unfolding read_full big_endian from_big_endian valid_string encode_rune utf16_encode utf16_decode
    encode_unit encode_units write_modified_utf8 is_continuation two_bytes three_bytes decode_unit
    decode_units check_units decode_text read_modified_utf8 has_key set_key new_list new_list_loop
    write_length write_words write_value write_payload write_network read_word read_length
    read_words read_scalar read_array read_byte_array read_string read_items read_list read_fields
    read_compound read_value read_payload read_network
program = tt

-- "a", NUL, and a rune outside the basic plane, which takes a surrogate pair.
abbrev sample_text : List ℕ
sample_text = 97 ∷ 0 ∷ 0x1f600 ∷ []

abbrev sample_text_bytes : List ℕ
sample_text_bytes = 0 ∷ 9 ∷ 97 ∷ 0xc0 ∷ 0x80 ∷ 0xed ∷ 0xa0 ∷ 0xbd ∷ 0xed ∷ 0xb8 ∷ 0x80 ∷ []

sample_text_written : write_modified_utf8 sample_text ≡ ok sample_text_bytes
unfolding program
sample_text_written = refl

read-write_modified_utf8_example :
    read_modified_utf8 (sample_text_bytes ++ (5 ∷ [])) ≡ ok (sample_text, 5 ∷ [])
read-write_modified_utf8_example =
    read-write_modified_utf8 sample_text sample_text_bytes (5 ∷ []) sample_text_written

lone_surrogate : read_modified_utf8 (0 ∷ 3 ∷ 0xed ∷ 0xa0 ∷ 0xbd ∷ []) ≡ err unpaired_high_surrogate
unfolding program
lone_surrogate = refl

read_modified_utf8-ne-stuck_example : read_modified_utf8 (0 ∷ 1 ∷ 0xc0 ∷ []) ≢ err text_stuck
read_modified_utf8-ne-stuck_example = read_modified_utf8-ne-stuck (0 ∷ 1 ∷ 0xc0 ∷ [])

-- {a: [3, 5], b: 7}
abbrev sample : Value
sample = compound (
    field (97 ∷ []) (list byte_type (cons (byte 3) (cons (byte 5) nil)))
      (field (98 ∷ []) (int 7) empty))

abbrev sample_bytes : List ℕ
sample_bytes =
    10 ∷ 9 ∷ 0 ∷ 1 ∷ 97 ∷ 1 ∷ 0 ∷ 0 ∷ 0 ∷ 2 ∷ 3 ∷ 5 ∷ 3 ∷ 0 ∷ 1 ∷ 98 ∷ 0 ∷ 0 ∷ 0 ∷ 7 ∷ 0 ∷ []

sample_written : write_network sample ≡ ok sample_bytes
unfolding program
sample_written = refl

sample-IsValue : IsValue sample
unfolding IsValue
sample-IsValue =
    (((refl, tt), (tt, tt)), ((omega arith, (omega arith, (omega arith, tt))), (omega arith, tt)))

read-write_network_example : read_network (sample_bytes ++ (5 ∷ [])) ≡ ok (sample, 5 ∷ [])
read-write_network_example =
    read-write_network sample sample_bytes (5 ∷ []) sample-IsValue sample_written

read_network-Fits_example : Fits 3 (read_network (10 ∷ 1 ∷ 0 ∷ []))
read_network-Fits_example = read_network-Fits (10 ∷ 1 ∷ 0 ∷ [])

duplicate :
    read_network (10 ∷ 1 ∷ 0 ∷ 1 ∷ 97 ∷ 3 ∷ 1 ∷ 0 ∷ 1 ∷ 97 ∷ 4 ∷ 0 ∷ [])
    ≡ err (duplicate_key (97 ∷ []))
unfolding program
duplicate = refl

mixed_list : new_list (cons (byte 1) (cons (short 2) nil)) ≡ err (heterogeneous_list 1 2)
unfolding program
mixed_list = refl

list_with_nil : new_list (cons (byte 1) (cons null nil)) ≡ err nil_element
unfolding program
list_with_nil = refl
