-- ===== src/Nbt/RoundTrip/Parts.antt =====
-- The parts of a payload that hold no other value.
use cyu_core.Base.{
  ℕ, ◌^◌, ◌<◌, ◌≡◌, refl, List, [], ◌∷◌, ◌++◌, arith, All, inl, inr, length, ok, ◌>>=◌,
  Outcome-cases,
}
use cyu_core.Stream.{read_full, read_full-append}
use cyu_core.Stream.BigEndian.{
  big_endian, from_big_endian, length-big_endian, from_big_endian_two, from_big_endian_four,
  from_big_endian_eight,
}
use cyu_core.Nbt.Text.{write_modified_utf8, read_modified_utf8}
use cyu_core.Nbt.Text.RoundTrip.{read-write_modified_utf8}
use cyu_core.Nbt.{from_text, Value, byte, byte_array, string}
use cyu_core.Nbt.Write.{write_length, write_words}
use cyu_core.Nbt.Read.{
  read_word, read_length, read_words, read_scalar, read_array, read_byte_array, read_string,
}
use mathlib.Core.List.{append_assoc}

-- A width of words whose bytes are read back.
pub record Width (n bound : ℕ) : Type 0 where
  pub back : (v : ℕ) → v < bound → from_big_endian 0 (big_endian n v) ≡ v

pub two_bytes : Width 2 (2 ^ 16)
two_bytes = record { back = from_big_endian_two }

pub four_bytes : Width 4 (2 ^ 32)
four_bytes = record { back = from_big_endian_four }

pub eight_bytes : Width 8 (2 ^ 64)
eight_bytes = record { back = from_big_endian_eight }

module _ {n bound : ℕ} (w : Width n bound) where
  pub read_word_written :
      (v : ℕ) (rest : List ℕ) → v < bound → read_word n (big_endian n v ++ rest) ≡ ok (v, rest)
  unfolding read_word
  read_word_written v rest h =
      rw (read_full-append (big_endian n v) rest n (length-big_endian n v), w.back v h)

  pub read_scalar_written :
      (make : ℕ → Value) (v : ℕ) (rest : List ℕ)
      → v < bound
      → read_scalar n make (big_endian n v ++ rest) ≡ ok (make v, rest)
  unfolding read_scalar
  read_scalar_written make v rest h = rw (read_word_written v rest h)

  read_words_written :
      (ws rest : List ℕ)
      → All (λ v. v < bound) ws
      → read_words n (length ws) (write_words n ws ++ rest) ≡ ok (ws, rest)
  unfolding read_words write_words
  read_words_written [] rest h = refl
  read_words_written (v ∷ ws) rest h = rw (
    append_assoc (big_endian n v) (write_words n ws) rest,
    read_word_written v (write_words n ws ++ rest) h.0,
    read_words_written ws rest h.1,
  )

pub read_length_written :
    (n : ℕ) (out rest : List ℕ) → write_length n ≡ ok out → read_length (out ++ rest) ≡ ok (n, rest)
unfolding write_length read_length
read_length_written n out rest e = ground (arith, read_word_written four_bytes n rest)

module _ {n bound : ℕ} (w : Width n bound) where
  pub read_array_written :
      (make : List ℕ → Value) (ws out rest : List ℕ)
      → All (λ v. v < bound) ws
      → (write_length (length ws) >>= λ len. ok (len ++ write_words n ws)) ≡ ok out
      → read_array n make (out ++ rest) ≡ ok (make ws, rest)
  unfolding read_array
  read_array_written make ws out rest h e = elim (Outcome-cases (write_length (length ws))) [
    | inr (x, r) ↦ ground (arith, r)
    | inl (len, r) ↦ ground (
      arith,
      r,
      append_assoc len (write_words n ws) rest,
      read_length_written (length ws) len (write_words n ws ++ rest) r,
      read_words_written w ws rest h,
    )
  ]

pub read_byte_array_written :
    (bs out rest : List ℕ)
    → (write_length (length bs) >>= λ len. ok (len ++ bs)) ≡ ok out
    → read_byte_array (out ++ rest) ≡ ok (byte_array bs, rest)
unfolding read_byte_array
read_byte_array_written bs out rest e = elim (Outcome-cases (write_length (length bs))) [
  | inr (x, r) ↦ ground (arith, r)
  | inl (len, r) ↦ ground (
    arith,
    r,
    append_assoc len bs rest,
    read_length_written (length bs) len (bs ++ rest) r,
    read_full-append bs rest (length bs) refl,
  )
]

-- A name or a text.
pub read_text_written :
    (s out rest : List ℕ)
    → from_text (write_modified_utf8 s) ≡ ok out
    → from_text (read_modified_utf8 (out ++ rest)) ≡ ok (s, rest)
read_text_written s out rest e = elim (Outcome-cases (write_modified_utf8 s)) [
  | inr (x, r) ↦ ground (arith, r)
  | inl (out', r) ↦ ground (arith, r, read-write_modified_utf8 s out' rest r)
]

pub read_string_written :
    (s out rest : List ℕ)
    → from_text (write_modified_utf8 s) ≡ ok out
    → read_string (out ++ rest) ≡ ok (string s, rest)
unfolding read_string
read_string_written s out rest e = rw (read_text_written s out rest e)

pub read_byte_written : (v : ℕ) (rest : List ℕ) → read_scalar 1 byte (v ∷ rest) ≡ ok (byte v, rest)
unfolding read_scalar read_word read_full from_big_endian
read_byte_written v rest = ground arith
