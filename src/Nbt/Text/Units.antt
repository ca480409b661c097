-- ===== src/Nbt/Text/Units.antt =====
-- One code unit: its bytes, and how they are read.
use cyu_core.Base.{
  ℕ, zero, suc, ◌+◌, ◌*◌, ◌/◌, ◌%◌, ◌^◌, ◌≤◌, ◌<◌, bit_and, bit_or, ◌≡◌, refl, ◌&&◌, ◌>>=◌, List,
  [], ◌∷◌, ◌++◌, arith, leb, All, Outcome-cases, inl, inr, if◌then◌else◌, length, length-append, ok,
  err, ◌≢◌,
}
use cyu_core.Base.Bits.{misses, agree_of_no_miss, bit_and_mask, bit_or_disjoint_left}
use cyu_core.Nbt.Text.{
  encode_unit, encode_units, decode_unit, two_bytes, three_bytes, is_continuation, decode_units,
  stuck,
}
use mathlib.Core.List.{append_assoc, append-nil}

lead_two : (x : ℕ) → x < 32 → bit_or 0xc0 x ≡ 192 + x
unfolding misses
lead_two = agree_of_no_miss (bit_or 0xc0) (λ x. 192 + x) 32 refl

lead_three : (x : ℕ) → x < 16 → bit_or 0xe0 x ≡ 224 + x
unfolding misses
lead_three = agree_of_no_miss (bit_or 0xe0) (λ x. 224 + x) 16 refl

continuation : (x : ℕ) → x < 64 → bit_or 0x80 x ≡ 128 + x
unfolding misses
continuation = agree_of_no_miss (bit_or 0x80) (λ x. 128 + x) 64 refl

lead_two_top : (x : ℕ) → x < 32 → bit_and (192 + x) 0xe0 ≡ 192
unfolding misses
lead_two_top = agree_of_no_miss (λ x. bit_and (192 + x) 0xe0) (λ x. 192) 32 refl

lead_three_top : (x : ℕ) → x < 16 → bit_and (224 + x) 0xe0 ≡ 224
unfolding misses
lead_three_top = agree_of_no_miss (λ x. bit_and (224 + x) 0xe0) (λ x. 224) 16 refl

lead_three_nibble : (x : ℕ) → x < 16 → bit_and (224 + x) 0xf0 ≡ 224
unfolding misses
lead_three_nibble = agree_of_no_miss (λ x. bit_and (224 + x) 0xf0) (λ x. 224) 16 refl

continuation_top : (x : ℕ) → x < 64 → bit_and (128 + x) 0xc0 ≡ 128
unfolding misses
continuation_top = agree_of_no_miss (λ x. bit_and (128 + x) 0xc0) (λ x. 128) 64 refl

-- The bytes of a unit in plain arithmetic.
pub unit_bytes : ℕ → List ℕ
unit_bytes u =
    if leb 1 u && leb u 127
    then u ∷ []
    else if leb u 2047
    then (192 + u / 64) ∷ (128 + u % 64) ∷ []
    else (224 + u / 4096) ∷ (128 + u / 64 % 64) ∷ (128 + u % 64) ∷ []

pub encode_unit-unit_bytes : (u : ℕ) → u < 2 ^ 16 → encode_unit u ≡ unit_bytes u
unfolding encode_unit unit_bytes
encode_unit-unit_bytes u h = ground (
  arith,
  bit_and_mask 6 u,
  bit_and_mask 6 (u / 64),
  lead_two (u / 64),
  lead_three (u / 4096),
  continuation (u % 64),
  continuation (u / 64 % 64),
)

decode_two :
    (x y : ℕ) (rest : List ℕ)
    → x < 32
    → y < 64
    → decode_unit (192 + x) ((128 + y) ∷ rest) ≡ ok (x * 64 + y, rest)
unfolding decode_unit two_bytes is_continuation
decode_two x y rest hx hy = ground (
  arith,
  lead_two_top x,
  continuation_top y,
  bit_and_mask 5 (192 + x),
  bit_and_mask 6 (128 + y),
  bit_or_disjoint_left 6 y x,
)

decode_three :
    (x y z : ℕ) (rest : List ℕ)
    → x < 16
    → y < 64
    → z < 64
    → decode_unit (224 + x) ((128 + y) ∷ (128 + z) ∷ rest) ≡ ok (x * 4096 + y * 64 + z, rest)
unfolding decode_unit three_bytes is_continuation
decode_three x y z rest hx hy hz = ground (
  arith,
  lead_three_top x,
  lead_three_nibble x,
  continuation_top y,
  continuation_top z,
  bit_and_mask 4 (224 + x),
  bit_and_mask 6 (128 + y),
  bit_and_mask 6 (128 + z),
  bit_or_disjoint_left 12 (y * 64) x,
  bit_or_disjoint_left 6 z (x * 64 + y),
)

decode_one : (u : ℕ) (rest : List ℕ) → 1 ≤ u → u ≤ 127 → decode_unit u rest ≡ ok (u, rest)
unfolding decode_unit
decode_one u rest lo hi = ground arith

-- One round of the loop takes the bytes of one unit.
decode_units-unit_bytes :
    (fuel u : ℕ) (bs : List ℕ)
    → u < 2 ^ 16
    → decode_units (suc fuel) (unit_bytes u ++ bs) ≡ (decode_units fuel bs >>= λ us. ok (u ∷ us))
unfolding unit_bytes decode_units
decode_units-unit_bytes fuel u bs h = ground (
  arith,
  decode_one u bs,
  decode_two (u / 64) (u % 64) bs,
  decode_three (u / 4096) (u / 64 % 64) (u % 64) bs,
)

pub all_bytes : List ℕ → List ℕ
all_bytes [] = []
all_bytes (u ∷ us) = unit_bytes u ++ all_bytes us

unit_bytes_pos : (u : ℕ) → 1 ≤ length (unit_bytes u)
unfolding unit_bytes
unit_bytes_pos u = ground arith

-- What the encoding loop returns, when it does not stop at the limit.
pub encode_units-all_bytes :
    (us encoded out : List ℕ)
    → All (λ u. u < 2 ^ 16) us
    → length encoded ≤ 65535
    → encode_units encoded us ≡ ok out
    → (out ≡ encoded ++ all_bytes us) × (length out ≤ 65535)
unfolding encode_units all_bytes
encode_units-all_bytes [] encoded out hs fits e = ground (arith, append-nil encoded)
encode_units-all_bytes (u ∷ us) encoded out hs fits e = ground (
  arith,
  encode_unit-unit_bytes u,
  encode_units-all_bytes us (encoded ++ unit_bytes u) out hs.1,
  append_assoc encoded (unit_bytes u) (all_bytes us),
)

pub decode_units-all_bytes :
    (us : List ℕ) (fuel : ℕ)
    → All (λ u. u < 2 ^ 16) us
    → length (all_bytes us) ≤ fuel
    → decode_units fuel (all_bytes us) ≡ ok us
unfolding all_bytes
decode_units-all_bytes [] fuel hs hf = unfold decode_units in refl
decode_units-all_bytes (u ∷ us) zero hs hf =
    absurd (omega (arith, length-append (unit_bytes u) (all_bytes us), unit_bytes_pos u))
decode_units-all_bytes (u ∷ us) (suc fuel) hs hf = ground (
  arith,
  decode_units-unit_bytes fuel u (all_bytes us) hs.0,
  length-append (unit_bytes u) (all_bytes us),
  unit_bytes_pos u,
  decode_units-all_bytes us fuel hs.1,
)

decode_unit_takes :
    (a unit : ℕ) (bs rest : List ℕ) → decode_unit a bs ≡ ok (unit, rest) → length rest ≤ length bs
unfolding decode_unit two_bytes three_bytes
decode_unit_takes a unit [] rest e = ground arith
decode_unit_takes a unit (b ∷ []) rest e = ground arith
decode_unit_takes a unit (b ∷ c ∷ bs) rest e = ground arith

decode_unit-ne-stuck : (a : ℕ) (bs : List ℕ) → decode_unit a bs ≢ err stuck
unfolding decode_unit two_bytes three_bytes
decode_unit-ne-stuck a [] e = ground arith
decode_unit-ne-stuck a (b ∷ []) e = ground arith
decode_unit-ne-stuck a (b ∷ c ∷ bs) e = ground arith

pub decode_units-ne-stuck :
    (fuel : ℕ) (bs : List ℕ) → length bs ≤ fuel → decode_units fuel bs ≢ err stuck
unfolding decode_units
decode_units-ne-stuck fuel [] h e = cc
decode_units-ne-stuck zero (a ∷ bs) h e = absurd (omega arith)
decode_units-ne-stuck (suc fuel) (a ∷ bs) h e = elim (Outcome-cases (decode_unit a bs)) [
  | inl ((u, rest), r) ↦
      ground (arith, r, decode_unit_takes a u bs rest r, decode_units-ne-stuck fuel rest)
  | inr (x, r) ↦ ground (arith, r, decode_unit-ne-stuck a bs)
]
