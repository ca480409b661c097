-- ===== src/Nbt/Total.antt =====
-- The fuel of the reader on every input, well formed or not.
use cyu_core.Base.{
  ℕ, zero, suc, ◌≤◌, ◌<◌, refl, ◌≢◌, Bool, true, false, List, [], ◌∷◌, arith, inl, inr,
  if◌then◌else◌, length, length-append, Outcome, ok, err, ◌>>=◌, Outcome-cases,
}
use cyu_core.Stream.{eof, read_full, read_full_takes}
use cyu_core.Nbt.Text.{Error as TextError, read_modified_utf8, stuck as text_stuck}
use cyu_core.Nbt.Text.RoundTrip.{read_modified_utf8-ne-stuck, read_modified_utf8_takes}
use cyu_core.Nbt.{
  io, nesting_too_deep, duplicate_key, negative_length, invalid_root_type, invalid_element_type,
  invalid_entry_type, byte, short, int, long, float, double, byte_array, string, int_array,
  long_array, list, compound, nil, cons, Error, from_text, from_reader, Value, Fields, stuck, text,
  set_key, empty, unsupported_type,
}
use cyu_core.Nbt.Read.{
  Reader, read_byte, read_word, read_length, read_words, read_scalar, read_array, read_byte_array,
  read_string, read_value, read_payload, read_network, read_items, read_fields, read_list,
  read_compound,
}
use native.Mathlib.Nat.{le_refl, le_trans}

abbrev IsRealText : TextError → Type 0
IsRealText text_stuck = ⊥
IsRealText _ = Unit {0}

-- An error that the Go code can return.
abbrev pub IsReal : Error → Type 0
unfolding IsRealText
IsReal stuck = ⊥
IsReal (text e) = IsRealText e
IsReal _ = Unit {0}

-- The outcome of a reader on `n` bytes: a real error, or a value with no more than `n` bytes left.
pub data Fits {A : Type 0} (n : ℕ) : Outcome Error (A × List ℕ) → Type 0 where
  took : (a : A) (rest : List ℕ) → length rest ≤ n → Fits n (ok (a, rest))
  failed : (e : Error) → IsReal e → Fits n (err e)

abbrev FitsAll : {A : Type 0} → Reader A → Type 0
FitsAll r = (bs : List ℕ) → Fits (length bs) (r bs)

-- A step, and what it goes on with on the bytes that it left.
bind :
    {A B : Type 0} {n : ℕ} {m : Outcome Error (A × List ℕ)}
    (f : A × List ℕ → Outcome Error (B × List ℕ))
    → Fits n m
    → ((a : A) (rest : List ℕ) → length rest ≤ n → Fits n (f (a, rest)))
    → Fits n (m >>= f)
bind f (took a rest h) k = k a rest h
bind f (failed e h) k = failed e h

weaken : {A : Type 0} {m n : ℕ} {r : Outcome Error (A × List ℕ)} → m ≤ n → Fits m r → Fits n r
weaken le (took a rest h) = took a rest (le_trans h le)
weaken le (failed e h) = failed e h

branch :
    {A : Type 0} {n : ℕ} (b : Bool) {r r' : Outcome Error (A × List ℕ)}
    → Fits n r
    → Fits n r'
    → Fits n (if b then r else r')
branch true h h' = h
branch false h h' = h'

choose :
    {A : Type 0} (b : Bool) {r r' : Reader A}
    → FitsAll r
    → FitsAll r'
    → FitsAll (if b then r else r')
choose true h h' = h
choose false h h' = h'

io-Fits : (n : ℕ) (bs : List ℕ) → Fits (length bs) (from_reader (read_full n bs))
io-Fits n bs = elim (Outcome-cases (read_full n bs)) [
  | inr (x, r) ↦ rw r (failed (io x) tt)
  | inl ((xs, rest), r) ↦
      rw r (took xs rest (ground (arith, read_full_takes n bs xs rest r, length-append xs rest)))
]

IsRealText-ne-stuck : (e : TextError) → e ≢ text_stuck → IsRealText e
IsRealText-ne-stuck text_stuck h = absurd (h refl)
IsRealText-ne-stuck _ h = tt

text-Fits : (bs : List ℕ) → Fits (length bs) (from_text (read_modified_utf8 bs))
text-Fits bs = elim (Outcome-cases (read_modified_utf8 bs)) [
  | inr (x, r) ↦
      rw r (failed (text x) (IsRealText-ne-stuck x (λ e. read_modified_utf8-ne-stuck bs (cc))))
  | inl ((xs, rest), r) ↦
      rw r (took xs rest (ground (arith, read_modified_utf8_takes bs rest xs r)))
]

read_byte-Fits : FitsAll read_byte
read_byte-Fits [] = failed (io eof) tt
read_byte-Fits (b ∷ bs) = took b bs (omega arith)

-- A reader on what an earlier step has left.
on_rest :
    {A : Type 0} {r : Reader A} {n : ℕ} (rest : List ℕ)
    → length rest ≤ n
    → FitsAll r
    → Fits n (r rest)
on_rest rest h all = weaken h (all rest)

read_word-Fits : (n : ℕ) → FitsAll (read_word n)
unfolding read_word
read_word-Fits n bs = bind _ (io-Fits n bs) (λ buf rest h. took _ rest h)

read_length-Fits : FitsAll read_length
unfolding read_length
read_length-Fits bs =
    bind _ (read_word-Fits 4 bs)
      (λ len rest h. branch _ (failed (negative_length len) tt) (took len rest h))

read_words-Fits : (n count : ℕ) → FitsAll (read_words n count)
unfolding read_words
read_words-Fits n zero bs = took [] bs (le_refl (length bs))
read_words-Fits n (suc count) bs = bind _ (read_word-Fits n bs) λ w rest h.
    bind _ (on_rest rest h (read_words-Fits n count)) (λ ws rest' h'. took (w ∷ ws) rest' h')

read_scalar-Fits : (n : ℕ) (make : ℕ → Value) → FitsAll (read_scalar n make)
unfolding read_scalar
read_scalar-Fits n make bs = bind _ (read_word-Fits n bs) (λ w rest h. took (make w) rest h)

read_array-Fits : (n : ℕ) (make : List ℕ → Value) → FitsAll (read_array n make)
unfolding read_array
read_array-Fits n make bs = bind _ (read_length-Fits bs) λ len rest h.
    bind _ (on_rest rest h (read_words-Fits n len)) (λ ws rest' h'. took (make ws) rest' h')

read_byte_array-Fits : FitsAll read_byte_array
unfolding read_byte_array
read_byte_array-Fits bs = bind _ (read_length-Fits bs) λ len rest h.
    bind _ (on_rest rest h (io-Fits len)) (λ raw rest' h'. took (byte_array raw) rest' h')

read_string-Fits : FitsAll read_string
unfolding read_string
read_string-Fits bs = bind _ (text-Fits bs) (λ s rest h. took (string s) rest h)

read_items-Fits :
    (read : Reader Value) → FitsAll read → (count : ℕ) → FitsAll (read_items read count)
unfolding read_items
read_items-Fits read r zero bs = took nil bs (le_refl (length bs))
read_items-Fits read r (suc count) bs = bind _ (r bs) λ v rest h.
    bind _ (on_rest rest h (read_items-Fits read r count))
      (λ vs rest' h'. took (cons v vs) rest' h')

module _ (read : ℕ → Reader Value) (r : (t : ℕ) → FitsAll (read t)) where
  read_list-Fits : FitsAll (read_list read)
  unfolding read_list
  read_list-Fits bs = bind _ (read_byte-Fits bs) λ t rest h.
      bind _ (on_rest rest h read_length-Fits) λ len rest' h'.
        branch _ (branch _ (failed (invalid_element_type t) tt) (took (list t nil) rest' h')) (
          branch _ (failed (invalid_element_type t) tt) (
            bind _ (on_rest rest' h' (read_items-Fits (read t) (r t) len))
              (λ vs rest'' h''. took (list t vs) rest'' h'')))

  read_fields-Fits :
      (fuel : ℕ) (fs : Fields) (bs : List ℕ)
      → length bs < fuel
      → Fits (length bs) (read_fields read fuel fs bs)
  unfolding read_fields
  read_fields-Fits zero fs bs h = absurd (omega arith)
  read_fields-Fits (suc fuel) fs [] h = failed (io eof) tt
  read_fields-Fits (suc fuel) fs (t ∷ rest) h = branch _ (took (compound fs) rest (omega arith)) (
      branch _ (failed (invalid_entry_type t) tt) (
        weaken {n = suc (length rest)} (omega arith) (
          bind _ (text-Fits rest) λ name rest' h'. branch _ (failed (duplicate_key name) tt) (
            bind _ (on_rest rest' h' (r t)) λ v rest'' h''.
              weaken h'' (read_fields-Fits fuel (set_key name v fs) rest'' (omega arith))))))

  read_compound-Fits : FitsAll (read_compound read)
  unfolding read_compound
  read_compound-Fits bs = read_fields-Fits (suc (length bs)) empty bs (omega arith)

  read_value-Fits : (t : ℕ) → FitsAll (read_value read t)
  unfolding read_value
  read_value-Fits t = choose _ (read_scalar-Fits 1 byte) (
      choose _ (read_scalar-Fits 2 short) (
        choose _ (read_scalar-Fits 4 int) (
          choose _ (read_scalar-Fits 8 long) (
            choose _ (read_scalar-Fits 4 float) (
              choose _ (read_scalar-Fits 8 double) (
                choose _ read_byte_array-Fits (
                  choose _ read_string-Fits (
                    choose _ read_list-Fits (
                      choose _ read_compound-Fits (
                        choose _ (read_array-Fits 4 int_array) (
                          choose _ (read_array-Fits 8 long_array)
                            (λ bs. failed (unsupported_type t) tt))))))))))))

pub read_payload-Fits : (levels t : ℕ) → FitsAll (read_payload levels t)
unfolding read_payload
read_payload-Fits zero t bs = failed nesting_too_deep tt
read_payload-Fits (suc levels) t bs =
    read_value-Fits (read_payload levels) (read_payload-Fits levels) t bs

-- ReadNetwork ends on any bytes: no loop runs out of fuel, and it returns an error of the Go code
-- or a value with no more bytes left than were given.
pub read_network-Fits : (bs : List ℕ) → Fits (length bs) (read_network bs)
unfolding read_network
read_network-Fits bs = bind _ (read_byte-Fits bs) λ t rest h.
    branch _ (failed (invalid_root_type t) tt) (on_rest rest h (read_payload-Fits 513 t))
