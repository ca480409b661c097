-- ===== src/Configuration/Decoded.antt =====
-- The payload of RegistryData as a client reads it: an independent description of its layout, on the
-- readers of the packet codec and of network NBT.
use cyu_core.Base.{
  ℕ, zero, suc, ◌-◌, ◌^◌, ◌<◌, ◌≡◌, refl, ap, sym, ◌∙◌, true, Option, none, some, List, [], ◌∷◌,
  ◌++◌, arith, inl, inr, Bool-cases, Outcome-cases, All, length, ok, err, ltb,
}
use cyu_core.Protocol.{append_string, append_var_int, read_string, read_var_int}
use cyu_core.Protocol.Text.{read_string-append_string, append_var_int-after, append_string-after}
use cyu_core.Protocol.VarInt.{read_var_int-append_var_int}
use cyu_core.Nbt.{
  Value, is_nil, null, byte, short, int, long, float, double, byte_array, string, int_array,
  long_array, list, compound,
}
use cyu_core.Nbt.Read.{read_network}
use cyu_core.Nbt.Write.{write_network}
use cyu_core.Nbt.RoundTrip.{IsValue, read-write_network}
use cyu_core.Registry.{Entry, Registry}
use cyu_core.Registry.Identifiers.{Identifier}
use cyu_core.Configuration.{append_network, append_entry, append_entries, encode_registry_data}
use mathlib.Core.List.{append_assoc, append-nil}

-- The value behind the flag of an entry.
unfoldable pub read_data : List ℕ → Option (Value × List ℕ)
read_data [] = none
read_data (zero ∷ rest) = some (null, rest)
read_data (suc b ∷ rest) = elim (read_network rest) [
  | err e ↦ none
  | ok (v, rest') ↦ some (v, rest')
]

unfoldable pub read_entry : List ℕ → Option (Entry × List ℕ)
unfolding read_data
read_entry bs = elim (read_string (2 ^ 31 - 1) bs) [
  | err e ↦ none
  | ok (key, rest) ↦ elim (read_data rest) [
    | none ↦ none
    | some (d, rest') ↦ some (record { key = key; data' = d }, rest')
  ]
]

unfoldable pub read_entries : ℕ → List ℕ → Option (List Entry × List ℕ)
unfolding read_entry
read_entries zero bs = some ([], bs)
read_entries (suc n) bs = elim (read_entry bs) [
  | none ↦ none
  | some (e, rest) ↦ elim (read_entries n rest) [
    | none ↦ none
    | some (es, rest') ↦ some (e ∷ es, rest')
  ]
]

unfoldable pub read_registry_data : List ℕ → Option (Identifier × List Entry × List ℕ)
unfolding read_entries
read_registry_data bs = elim (read_string (2 ^ 31 - 1) bs) [
  | err e ↦ none
  | ok (key, rest) ↦ elim (read_var_int rest) [
    | err e ↦ none
    | ok (n, rest') ↦ elim (read_entries n rest') [
      | none ↦ none
      | some (es, rest'') ↦ some (key, es, rest'')
    ]
  ]
]

-- An entry whose key fits a string, with a value that Go can hold.
abbrev pub IsSent : Entry → Type 0
IsSent e = (length e.key < 2 ^ 31) × IsValue e.data'

read_string_written :
    (key rest : List ℕ)
    → length key < 2 ^ 31
    → read_string (2 ^ 31 - 1) (append_string [] key ++ rest) ≡ ok (key, rest)
read_string_written key rest h =
    read_string-append_string (2 ^ 31 - 1) key rest (omega arith) (omega arith)

-- Bytes that were appended and are read as a value of the kind, whatever follows them.
record Chunk {A : Type 0} (read : List ℕ → Option (A × List ℕ)) (payload : List ℕ) (a : A)
    (out : List ℕ) : Type 0 where
  pub chunk : List ℕ
  pub split : out ≡ payload ++ chunk
  pub reads : (rest : List ℕ) → read (chunk ++ rest) ≡ some (a, rest)

read_entry_as :
    (key : List ℕ) (d : Value) (flagged rest : List ℕ)
    → length key < 2 ^ 31
    → read_data flagged ≡ some (d, rest)
    → read_entry (append_string [] key ++ flagged) ≡ some (record { key = key; data' = d }, rest)
unfolding read_entry
read_entry_as key d flagged rest h e =
    rw (read_string_written key flagged h, read_entry) (rw e refl)

nil_is_null : (v : Value) → is_nil v ≡ true → v ≡ null
nil_is_null null h = refl
nil_is_null (byte n) h = absurd cc
nil_is_null (short n) h = absurd cc
nil_is_null (int n) h = absurd cc
nil_is_null (long n) h = absurd cc
nil_is_null (float n) h = absurd cc
nil_is_null (double n) h = absurd cc
nil_is_null (byte_array ns) h = absurd cc
nil_is_null (string ns) h = absurd cc
nil_is_null (int_array ns) h = absurd cc
nil_is_null (long_array ns) h = absurd cc
nil_is_null (list t vs) h = absurd cc
nil_is_null (compound fs) h = absurd cc

-- An entry from the bytes behind its key.
Chunk-entry :
    (payload flagged : List ℕ) (e : Entry) (out : List ℕ)
    → length e.key < 2 ^ 31
    → append_string payload e.key ++ flagged ≡ out
    → ((rest : List ℕ) → read_data (flagged ++ rest) ≡ some (e.data', rest))
    → Chunk read_entry payload e out
Chunk-entry payload flagged e out fits is h = record {
  chunk = append_string [] e.key ++ flagged;
  split =
      sym is
      ∙ ap (λ (l : List ℕ). l ++ flagged) (append_string-after payload e.key)
      ∙ append_assoc payload (append_string [] e.key) flagged;
  reads = λ rest.
      ap read_entry (append_assoc (append_string [] e.key) flagged rest)
      ∙ read_entry_as e.key e.data' (flagged ++ rest) rest fits (h rest);
}

append_entry_as :
    (payload : List ℕ) (e : Entry) (out : List ℕ)
    → IsSent e
    → append_entry payload e ≡ ok out
    → Chunk read_entry payload e out
unfolding append_entry append_network read_data
append_entry_as payload e out sent h = elim (Bool-cases (is_nil e.data')) [
  | inl is_null ↦
      Chunk-entry payload (0 ∷ []) e out sent.0 (ground (arith, is_null))
        (λ rest. ap (λ (v : Value). some (v, rest)) (sym (nil_is_null e.data' is_null)))
  | inr some_value ↦ elim (Outcome-cases (write_network e.data')) [
    | inr (x, w) ↦ absurd (ground (arith, some_value, w))
    | inl (bytes, w) ↦
        Chunk-entry payload (1 ∷ bytes) e out sent.0
          (sym (append_assoc (append_string payload e.key) (1 ∷ []) bytes)
            ∙ ground (arith, some_value, w))
          (λ rest. rw (read-write_network e.data' bytes rest sent.1 w, read_data) refl)
  ]
]

append_entries_as :
    (payload : List ℕ) (es : List Entry) (out : List ℕ)
    → All IsSent es
    → append_entries payload es ≡ ok out
    → Chunk (read_entries (length es)) payload es out
unfolding append_entries read_entries
append_entries_as payload [] out sent h = record {
  chunk = [];
  split = let is : payload ≡ out = cc in sym is ∙ sym (append-nil payload);
  reads = λ rest. refl;
}
append_entries_as payload (e ∷ es) out sent h = elim (Outcome-cases (append_entry payload e)) [
  | inr (x, w) ↦ absurd (ground (arith, w))
  | inl (next, w) ↦
      let first = append_entry_as payload e next sent.0 w in
      let later = append_entries_as next es out sent.1 (ground (arith, w)) in
      record {
        chunk = first.chunk ++ later.chunk;
        split =
            later.split
            ∙ ap (λ (l : List ℕ). l ++ later.chunk) first.split
            ∙ append_assoc payload first.chunk later.chunk;
        reads = λ rest.
            ap (read_entries (suc (length es))) (append_assoc first.chunk later.chunk rest)
            ∙ rw (first.reads (later.chunk ++ rest), read_entries) (rw (later.reads rest) refl);
      }
]

-- What EncodeRegistryData makes of a registry, whose keys are shorter than 2 ^ 31 bytes and whose
-- values are ones that Go can hold with sorted map keys, is read back as its key and its entries in
-- their order, by a client that reads strings, VarInts and network NBT, and the bytes that follow
-- are left in place.
pub read-encode_registry_data :
    (r : Registry) (payload rest : List ℕ)
    → length r.key < 2 ^ 31
    → All IsSent r.entries
    → encode_registry_data (some r) ≡ ok payload
    → read_registry_data (payload ++ rest) ≡ some (r.key, r.entries, rest)
unfolding encode_registry_data read_registry_data
read-encode_registry_data r payload rest named sent h =
    elim (Bool-cases (ltb (2 ^ 31 - 1) (length r.entries))) [
      | inl e ↦ absurd (ground (arith, e))
      | inr e ↦
          let n = length r.entries in
          let few : n < 2 ^ 31 = ground arith in
          let head = append_string [] r.key in
          let entries =
            append_entries_as (append_var_int head n) r.entries payload sent (ground (arith, e)) in
          let split : payload ++ rest ≡ head ++ (append_var_int [] n ++ (entries.chunk ++ rest)) =
            ap (λ (l : List ℕ). l ++ rest)
              (entries.split
                ∙ ap (λ (l : List ℕ). l ++ entries.chunk)
                    (append_var_int-after head n (omega arith)))
            ∙ append_assoc (head ++ append_var_int [] n) entries.chunk rest
            ∙ append_assoc head (append_var_int [] n) (entries.chunk ++ rest) in
          ap read_registry_data split
          ∙ rw
              (
                read_string_written r.key (append_var_int [] n ++ (entries.chunk ++ rest)) named,
                read_registry_data,
              )
              (rw (read_var_int-append_var_int n (entries.chunk ++ rest) (omega arith))
                (rw (entries.reads rest) refl))
    ]
