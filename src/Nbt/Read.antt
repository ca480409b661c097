-- ===== src/Nbt/Read.antt =====
-- internal/nbt/decode.go. A reader is the list of the bytes that it still has.
use cyu_core.Base.{
  ℕ, zero, suc, ◌^◌, ◌&&◌, not, List, [], ◌∷◌, leb, ◌==◌, if◌then◌else◌, length, Outcome, ok, err,
  ◌>>=◌,
}
use cyu_core.Stream.{read_full, eof}
use cyu_core.Stream.BigEndian.{from_big_endian}
use cyu_core.Nbt.Text.{read_modified_utf8}
use cyu_core.Nbt.{
  end, byte_type, short_type, int_type, long_type, float_type, double_type, byte_array_type,
  string_type, list_type, compound_type, int_array_type, long_array_type, valid_value_type,
  default_max_depth, Error, io, from_text, from_reader, invalid_root_type, invalid_element_type,
  invalid_entry_type, nesting_too_deep, negative_length, duplicate_key, unsupported_type, stuck,
  Value, byte, short, int, long, float, double, byte_array, string, int_array, long_array, list,
  compound, Items, nil, cons, Fields, empty, has_key, set_key,
}

abbrev pub read_byte : List ℕ → Outcome Error (ℕ × List ℕ)
read_byte [] = err (io eof)
read_byte (b ∷ bs) = ok (b, bs)

-- readUint16, readUint32 and readUint64, at 2, 4 and 8 bytes.
unfoldable pub read_word : (bytes : ℕ) → List ℕ → Outcome Error (ℕ × List ℕ)
read_word n bs = do (buf, rest) ← from_reader (read_full n bs); ok (from_big_endian 0 buf, rest)

-- `length < 0` is the sign bit of the pattern.
unfoldable pub read_length : List ℕ → Outcome Error (ℕ × List ℕ)
read_length bs = do
  (len, rest) ← read_word 4 bs
  if leb (2 ^ 31) len then err (negative_length len) else ok (len, rest)

unfoldable pub read_words : (bytes count : ℕ) → List ℕ → Outcome Error (List ℕ × List ℕ)
read_words n zero bs = ok ([], bs)
read_words n (suc count) bs = do
  (w, rest) ← read_word n bs
  (ws, rest') ← read_words n count rest
  ok (w ∷ ws, rest')

abbrev pub Reader : Type 0 → Type 0
Reader A = List ℕ → Outcome Error (A × List ℕ)

-- What readPayload makes of a scalar, with the constructor of its type.
unfoldable pub read_scalar : (bytes : ℕ) → (ℕ → Value) → Reader Value
read_scalar n make bs = do (w, rest) ← read_word n bs; ok (make w, rest)

unfoldable pub read_array : (bytes : ℕ) → (List ℕ → Value) → Reader Value
read_array n make bs = do
  (len, rest) ← read_length bs
  (ws, rest') ← read_words n len rest
  ok (make ws, rest')

unfoldable pub read_byte_array : Reader Value
read_byte_array bs = do
  (len, rest) ← read_length bs
  (raw, rest') ← from_reader (read_full len rest)
  ok (byte_array raw, rest')

unfoldable pub read_string : Reader Value
read_string bs = do (s, rest) ← from_text (read_modified_utf8 bs); ok (string s, rest)

-- The loop of readList; `read` is readPayload at the element type, one level down.
unfoldable pub read_items : Reader Value → (count : ℕ) → Reader Items
read_items read zero bs = ok (nil, bs)
read_items read (suc count) bs = do
  (v, rest) ← read bs
  (vs, rest') ← read_items read count rest
  ok (cons v vs, rest')

module _ (read : ℕ → Reader Value) where
  unfoldable pub read_list : Reader Value
  read_list bs = do
    (t, rest) ← read_byte bs
    (len, rest') ← read_length rest
    if len == 0
        then if not (t == end) && not (valid_value_type t)
          then err (invalid_element_type t)
          else ok (list t nil, rest')
        else if not (valid_value_type t)
        then err (invalid_element_type t)
        else do (vs, rest'') ← read_items (read t) len rest'; ok (list t vs, rest'')

  -- The loop of readCompound, with the map so far. Each round takes a byte at least.
  unfoldable pub read_fields : (fuel : ℕ) → Fields → Reader Value
  read_fields zero fs bs = err stuck
  read_fields (suc fuel) fs bs = do
    (t, rest) ← read_byte bs
    let entry = do
      (name, rest') ← from_text (read_modified_utf8 rest)
      if has_key name fs
          then err (duplicate_key name)
          else do (v, rest'') ← read t rest'; read_fields fuel (set_key name v fs) rest''
    if t == end
        then ok (compound fs, rest)
        else if not (valid_value_type t)
        then err (invalid_entry_type t)
        else entry

  unfoldable pub read_compound : Reader Value
  read_compound bs = read_fields (suc (length bs)) empty bs

  -- The `switch` of readPayload.
  unfoldable pub read_value : ℕ → Reader Value
  read_value t =
      if t == byte_type
      then read_scalar 1 byte
      else if t == short_type
      then read_scalar 2 short
      else if t == int_type
      then read_scalar 4 int
      else if t == long_type
      then read_scalar 8 long
      else if t == float_type
      then read_scalar 4 float
      else if t == double_type
      then read_scalar 8 double
      else if t == byte_array_type
      then read_byte_array
      else if t == string_type
      then read_string
      else if t == list_type
      then read_list
      else if t == compound_type
      then read_compound
      else if t == int_array_type
      then read_array 4 int_array
      else if t == long_array_type
      then read_array 8 long_array
      else λ bs. err (unsupported_type t)

-- readPayload at depth `default_max_depth + 1 - levels`: at no level left the depth is too large.
unfoldable pub read_payload : (levels : ℕ) → ℕ → Reader Value
read_payload zero t bs = err nesting_too_deep
read_payload (suc levels) t bs = read_value (read_payload levels) t bs

unfoldable pub read_network : Reader Value
read_network bs = do
  (t, rest) ← read_byte bs
  if not (valid_value_type t)
      then err (invalid_root_type t)
      else read_payload (suc default_max_depth) t rest
