-- ===== src/Protocol.antt =====
-- internal/protocol/codec.go: the framing of the Java Edition protocol. An int32 is its two's
-- complement pattern, a number below 2 ^ 32, and a byte slice is a list of numbers.
pub mod VarInt
pub mod Text
pub mod Packet
pub mod WriteAll
mod Tests
use cyu_core.Base.{
  ℕ, zero, suc, ◌+◌, ◌*◌, ◌/◌, ◌%◌, ◌^◌, ◌≤◌, ◌<◌, bit_and, bit_or, ◌≡◌, Bool, ◌||◌, Option, none,
  some, List, [], ◌∷◌, ◌++◌, arith, ltb, leb, ◌==◌, if◌then◌else◌, length, take, drop, Outcome, ok,
  err, ◌>>=◌,
}
use cyu_core.Stream.{IoError, eof, read_full}
use mathlib.Core.Logic.{dite}
use mathlib.Core.WellFounded.{Acc, WellFounded}
use native.Mathlib.Decide.{dec_lt}

abbrev pub max_var_int_bytes : ℕ
max_var_int_bytes = 5

abbrev pub default_max_string_size : ℕ
default_max_string_size = 32767

abbrev pub default_max_packet_size : ℕ
default_max_packet_size = 2 * 1024 * 1024

-- `writer` is an error that the io.Writer gave, by its number. `slice_out_of_range` is the panic of
-- `data[n:]`. `stuck` is no Go value: the loop of `write_all` ran out of fuel.
pub data Error : Type 0 where
  io : IoError → Error
  var_int_too_long : Error
  invalid_string_length invalid_packet_length : (len max : ℕ) → Error
  writer : ℕ → Error
  short_write : Error
  slice_out_of_range : Error
  stuck : Error

-- A failure of the reader is passed on as it is.
abbrev pub from_reader {ℓ} : {A : Type ℓ} → Outcome IoError A → Outcome Error A
from_reader (ok a) = ok a
from_reader (err e) = err (io e)

-- io.ReadFull into a buffer of one byte.
abbrev pub read_byte : List ℕ → Outcome Error (ℕ × List ℕ)
read_byte [] = err (io eof)
read_byte (b ∷ bs) = ok (b, bs)

-- `left` counts the rounds that the `for` loop may still make, and `i` those that it has made.
unfoldable pub read_var_int_loop : (left i value : ℕ) → List ℕ → Outcome Error (ℕ × List ℕ)
read_var_int_loop zero i value bs = err var_int_too_long
read_var_int_loop (suc left) i value bs = do
  (b, rest) ← read_byte bs
  let value' = bit_or value (bit_and b 0x7f * 2 ^ (7 * i) % 2 ^ 32)
  let more = read_var_int_loop left (i + 1) value' rest
  if bit_and b 0x80 == 0 then ok (value', rest) else more

unfoldable pub read_var_int : List ℕ → Outcome Error (ℕ × List ℕ)
read_var_int = read_var_int_loop max_var_int_bytes 0 0

Acc-below : (k n : ℕ) → n < k → Acc ◌<◌ n
Acc-below zero n h = absurd (omega arith)
Acc-below (suc k) n h = Acc.intro n (λ m lt. Acc-below k m (omega arith))

shift_falls : (u : ℕ) → 0 < u / 128 → u / 128 < u
shift_falls u h = omega arith

-- `u >>= 7` is `u / 128`; the loop goes on while that is not 0.
append_var_int_loop : List ℕ → (u : ℕ) → Acc ◌<◌ u → List ℕ
append_var_int_loop dst u (Acc.intro _ smaller) =
    let b = bit_and u 0x7f in
    dite (dec_lt 0 (u / 128))
      (λ more.
        append_var_int_loop (dst ++ (bit_or b 0x80 ∷ [])) (u / 128)
          (smaller _ (shift_falls u more)))
      (λ _. dst ++ (b ∷ []))

pub append_var_int : List ℕ → ℕ → List ℕ
append_var_int dst value = append_var_int_loop dst value (Acc-below (suc value) value (omega arith))

-- `length < 0` is the sign bit of the pattern.
abbrev pub is_negative : ℕ → Bool
is_negative w = leb (2 ^ 31) w

-- A string is its bytes; `int32(len(value))` wraps.
unfoldable pub read_string : (max : ℕ) → List ℕ → Outcome Error (List ℕ × List ℕ)
read_string max bs = do
  (len, rest) ← read_var_int bs
  if is_negative len || ltb max len
      then err (invalid_string_length len max)
      else from_reader (read_full len rest)

pub append_string : List ℕ → List ℕ → List ℕ
append_string dst value = append_var_int dst (length value % 2 ^ 32) ++ value

-- The packet id and the payload, which is what the inner reader has left, then what follows.
split_packet : (raw rest : List ℕ) → Outcome Error (ℕ × List ℕ × List ℕ)
split_packet raw rest = do (packet_id, payload) ← read_var_int raw; ok (packet_id, payload, rest)

-- ReadPacket behind its length prefix.
read_body : (max len : ℕ) → List ℕ → Outcome Error (ℕ × List ℕ × List ℕ)
read_body max len bs =
    if is_negative len || len == 0 || ltb max len
    then err (invalid_packet_length len max)
    else do (raw, rest) ← from_reader (read_full len bs); split_packet raw rest

pub read_packet : (max : ℕ) → List ℕ → Outcome Error (ℕ × List ℕ × List ℕ)
read_packet max bs = do (len, rest) ← read_var_int bs; read_body max len rest

-- io.Writer. `write` returns how many bytes it took, its error, and the writer after the call;
-- `written` is all that it took so far. The laws are those of the interface's documentation.
pub record Writer : Type 1 where
  pub State : Type 0
  pub write : State → List ℕ → ℕ × Option ℕ × State
  pub written : State → List ℕ
  pub count-le : (s : State) (bs : List ℕ) → (write s bs).0 ≤ length bs
  pub written-write :
      (s : State) (bs : List ℕ) → written (write s bs).2 ≡ written s ++ take (write s bs).0 bs

module _ (w : Writer) where
  open w use {State, write}

  -- What one round makes of the answer of w.Write; `more` is the rest of the loop.
  after_write :
      List ℕ
      → (n : ℕ) → Option ℕ
      → State
      → Outcome Error (Unit {0}) × State
      → Outcome Error (Unit {0}) × State
  after_write bs n e s' more = if ltb (length bs) n then (err slice_out_of_range, s') else elim e [
    | some x ↦ (err (writer x), s')
    | none ↦ if n == 0 then (err short_write, s') else more
  ]

  -- Every round that goes on has taken a byte at least, so `length data` rounds are enough.
  write_all_loop : ℕ → State → List ℕ → Outcome Error (Unit {0}) × State
  write_all_loop fuel s [] = (ok tt, s)
  write_all_loop zero s (b ∷ bs) = (err stuck, s)
  write_all_loop (suc fuel) s (b ∷ bs) =
      let (n, e, s') = write s (b ∷ bs) in
      after_write (b ∷ bs) n e s' (write_all_loop fuel s' (drop n (b ∷ bs)))

  pub write_all : State → List ℕ → Outcome Error (Unit {0}) × State
  write_all s data_bytes = write_all_loop (length data_bytes) s data_bytes

  -- The second write is made only if the first one returned nil.
  write_both : State → List ℕ → List ℕ → Outcome Error (Unit {0}) × State
  write_both s header payload =
      let first = write_all s header in
      elim first.0 [ err e ↦ (err e, first.1) | ok _ ↦ write_all first.1 payload ]

  pub write_packet :
      State → (packet_id : ℕ) → (payload : List ℕ) → (max : ℕ) → Outcome Error (Unit {0}) × State
  write_packet s packet_id payload max =
      let id = append_var_int [] packet_id in
      let total = length id + length payload in
      let header = append_var_int [] (total % 2 ^ 32) ++ id in
      if total == 0 || ltb max total
      then (err (invalid_packet_length total max), s)
      else write_both s header payload
