-- ===== src/Nbt/Write.antt =====
-- internal/nbt/encode.go and optional.go. The writer is the append-only one of the packet encoders
-- (appendWriter), which takes everything, so the result is the bytes that were written.
use cyu_core.Base.{
  ℕ, ◌+◌, ◌&&◌, not, List, [], ◌∷◌, ◌++◌, ltb, ◌==◌, if◌then◌else◌, length, Outcome, ok, err, ◌>>=◌,
}
use cyu_core.Stream.BigEndian.{big_endian}
use cyu_core.Nbt.Text.{write_modified_utf8}
use cyu_core.Nbt.{
  end, valid_value_type, default_max_depth, max_int32, Error, from_text, invalid_root_type,
  invalid_element_type, invalid_entry_type, nil_root, nil_value, nil_element, heterogeneous_list,
  nesting_too_deep, length_overflow, Value, null, byte, short, int, long, float, double, byte_array,
  string, int_array, long_array, list, compound, Items, nil, cons, Fields, empty, field, value_type,
  is_nil, count_items,
}

unfoldable pub write_length : ℕ → Outcome Error (List ℕ)
write_length n = if ltb max_int32 n then err (length_overflow n) else ok (big_endian 4 n)

-- The loops over an IntArray and a LongArray.
unfoldable pub write_words : (bytes : ℕ) → List ℕ → List ℕ
write_words n [] = []
write_words n (w ∷ ws) = big_endian n w ++ write_words n ws

-- The guard of writePayload, before it looks at the value.
abbrev pub check_depth : ℕ → Outcome Error (List ℕ) → Outcome Error (List ℕ)
check_depth depth rest = if ltb default_max_depth depth then err nesting_too_deep else rest

-- `write_value` is writePayload behind its depth guard, `write_items` the loop of writeList and
-- `write_fields` that of writeCompound, whose keys come sorted.
unfoldable mutual
  pub write_value : Value → (depth : ℕ) → Outcome Error (List ℕ)
  write_value null depth = err nil_value
  write_value (byte v) depth = ok (v ∷ [])
  write_value (short v) depth = ok (big_endian 2 v)
  write_value (int v) depth = ok (big_endian 4 v)
  write_value (long v) depth = ok (big_endian 8 v)
  write_value (float v) depth = ok (big_endian 4 v)
  write_value (double v) depth = ok (big_endian 8 v)
  write_value (byte_array bs) depth = do len ← write_length (length bs); ok (len ++ bs)
  write_value (string s) depth = from_text (write_modified_utf8 s)
  write_value (list t nil) depth =
      if not (t == end) && not (valid_value_type t)
      then err (invalid_element_type t)
      else do len ← write_length 0; ok (t ∷ len)
  write_value (list t (cons v vs)) depth =
      if not (valid_value_type t) then err (invalid_element_type t) else do
        len ← write_length (count_items (cons v vs))
        entries ← write_items (cons v vs) t depth
        ok (t ∷ (len ++ entries))
  write_value (compound fs) depth = write_fields fs depth
  write_value (int_array ws) depth = do len ← write_length (length ws); ok (len ++ write_words 4 ws)
  write_value (long_array ws) depth = do
    len ← write_length (length ws)
    ok (len ++ write_words 8 ws)

  pub write_items : Items → (element_type depth : ℕ) → Outcome Error (List ℕ)
  write_items nil t depth = ok []
  write_items (cons v vs) t depth =
      if is_nil v
      then err nil_element
      else if not (value_type v == t)
      then err (heterogeneous_list t (value_type v))
      else do
        entry ← check_depth (depth + 1) (write_value v (depth + 1))
        entries ← write_items vs t depth
        ok (entry ++ entries)

  pub write_fields : Fields → (depth : ℕ) → Outcome Error (List ℕ)
  write_fields empty depth = ok (end ∷ [])
  write_fields (field k v fs) depth =
      if is_nil v
      then err nil_value
      else if not (valid_value_type (value_type v))
      then err (invalid_entry_type (value_type v))
      else do
        name ← from_text (write_modified_utf8 k)
        entry ← check_depth (depth + 1) (write_value v (depth + 1))
        entries ← write_fields fs depth
        ok (value_type v ∷ (name ++ (entry ++ entries)))

unfoldable pub write_payload : Value → (depth : ℕ) → Outcome Error (List ℕ)
write_payload v depth = check_depth depth (write_value v depth)

unfoldable pub write_network : Value → Outcome Error (List ℕ)
unfolding write_payload
write_network v =
    if is_nil v
    then err nil_root
    else if not (valid_value_type (value_type v))
    then err (invalid_root_type (value_type v))
    else do payload ← write_payload v 0; ok (value_type v ∷ payload)

-- WriteEndSentinelOptionalNetwork
unfoldable pub write_end_sentinel_optional : Value → Outcome Error (List ℕ)
write_end_sentinel_optional v = if is_nil v then ok (end ∷ []) else write_network v
