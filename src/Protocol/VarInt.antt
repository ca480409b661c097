-- ===== src/Protocol/VarInt.antt =====
-- AppendVarInt and ReadVarInt against the groups of seven bits of a number.
use cyu_core.Base.{
  ℕ, zero, suc, ◌+◌, ◌*◌, ◌/◌, ◌%◌, ◌^◌, ◌≤◌, ◌<◌, bit_and, bit_or, ◌≡◌, refl, ap, ◌∙◌, List, [],
  ◌∷◌, ◌++◌, arith, ltb, if◌then◌else◌, length, All, ok,
}
use cyu_core.Base.Bits.{bit_and_mask, bit_or_disjoint, misses, agree_of_no_miss}
use cyu_core.Base.Words.{IsByte, IsU32}
use native.Mathlib.Decide.{dec_lt}
use cyu_core.Protocol.{
  read_var_int_loop, read_var_int, append_var_int_loop, append_var_int, Acc-below,
}
use mathlib.Core.List.{append_assoc}
use mathlib.Core.WellFounded.{Acc}
use native.Mathlib.Nat.{div-add-mod, mul-le-mul_right}
use native.Mathlib.Numerals.{towards_suc}

-- Seven bits to a byte, lowest first, the top bit on all but the last, for `u` below 128 ^ (k + 1).
unfoldable pub groups : ℕ → ℕ → List ℕ
groups zero u = u ∷ []
groups (suc k) u =
    let higher = groups k (u / 128) in if ltb u 128 then u ∷ [] else (u % 128 + 128) ∷ higher

top_bit : (b : ℕ) → b < 256 → bit_and b 0x80 ≡ b / 128 * 128
unfolding misses
top_bit = agree_of_no_miss (λ b. bit_and b 0x80) (λ b. b / 128 * 128) 256 refl

with_top_bit : (b : ℕ) → b < 128 → bit_or b 0x80 ≡ b + 128
with_top_bit b h = bit_or_disjoint 7 b 1 h

append_var_int_loop-groups :
    (k : ℕ) (dst : List ℕ) (u : ℕ) (w : Acc ◌<◌ u)
    → u < 128 ^ suc k
    → append_var_int_loop dst u w ≡ dst ++ groups k u
unfolding append_var_int_loop groups
append_var_int_loop-groups zero dst u (Acc.intro _ smaller) h = ground (arith, bit_and_mask 7 u)
append_var_int_loop-groups (suc k) dst u (Acc.intro _ smaller) h = grind (
  arith,
  bit_and_mask 7 u,
  with_top_bit (u % 128),
  λ (w : Acc ◌<◌ (u / 128)).
      append_var_int_loop-groups k (dst ++ ((u % 128 + 128) ∷ [])) (u / 128) w (omega arith),
  append_assoc dst ((u % 128 + 128) ∷ []) (groups k (u / 128)),
)

pub append_var_int-groups :
    (dst : List ℕ) (v : ℕ) → IsU32 v → append_var_int dst v ≡ dst ++ groups 4 v
unfolding append_var_int
append_var_int-groups dst v h = append_var_int_loop-groups 4 dst v _ (omega arith)

groups-IsByte : (k u : ℕ) → u < 128 ^ suc k → All IsByte (groups k u)
unfolding groups
groups-IsByte zero u h = omega arith
groups-IsByte (suc k) u h = ground (arith, groups-IsByte k (u / 128) (omega arith))

pub length-groups : (k u : ℕ) → (1 ≤ length (groups k u)) × (length (groups k u) ≤ k + 1)
unfolding groups
length-groups zero u = omega arith
length-groups (suc k) u = ground (arith, length-groups k (u / 128))

-- For a value below 2 ^ 32 AppendVarInt keeps what the slice holds and appends one to five bytes,
-- each below 256.
pub append_var_int_shape :
    (dst : List ℕ) (v : ℕ)
    → IsU32 v
    → (written : List ℕ) × (append_var_int dst v ≡ dst ++ written)
      × All IsByte written
      × (1 ≤ length written)
      × (length written ≤ 5)
append_var_int_shape dst v h =
    let (lo, hi) = length-groups 4 v in
    (groups 4 v, append_var_int-groups dst v h, groups-IsByte 4 v (omega arith), lo, hi)

times_seven : (i : ℕ) → 7 * (i + 1) ≡ 7 * i + 7
times_seven i = omega arith

seven_more : (i : ℕ) → 2 ^ (7 * (i + 1)) ≡ 128 * 2 ^ (7 * i)
seven_more i = ap (λ (t : ℕ). 2 ^ t) (times_seven i) ∙ simp towards_suc (omega arith)

split_group : (u i : ℕ) → u * 2 ^ (7 * i) ≡ u % 128 * 2 ^ (7 * i) + u / 128 * 2 ^ (7 * (i + 1))
split_group u i = omega (
  arith,
  ap (λ (t : ℕ). t * 2 ^ (7 * i)) (div-add-mod u 128),
  ap (λ (t : ℕ). u / 128 * t) (seven_more i),
)

-- One round on a last byte, and on a byte that says that more follow.
last_round :
    (left i value u : ℕ) (rest : List ℕ)
    → u < 128
    → value < 2 ^ (7 * i)
    → IsU32 (value + u * 2 ^ (7 * i))
    → read_var_int_loop (suc left) i value (u ∷ rest) ≡ ok (value + u * 2 ^ (7 * i), rest)
unfolding read_var_int_loop
last_round left i value u rest hu hv fits =
    ground (arith, bit_and_mask 7 u, top_bit u, bit_or_disjoint (7 * i) value u)

inner_round :
    (left i value g : ℕ) (rest : List ℕ)
    → g < 128
    → value < 2 ^ (7 * i)
    → IsU32 (value + g * 2 ^ (7 * i))
    → read_var_int_loop (suc left) i value ((g + 128) ∷ rest)
      ≡ read_var_int_loop left (i + 1) (value + g * 2 ^ (7 * i)) rest
unfolding read_var_int_loop
inner_round left i value g rest hg hv fits =
    ground (arith, bit_and_mask 7 (g + 128), top_bit (g + 128), bit_or_disjoint (7 * i) value g)

group_bound :
    (value g i : ℕ) → g < 128 → value < 2 ^ (7 * i) → value + g * 2 ^ (7 * i) < 2 ^ (7 * (i + 1))
group_bound value g i hg hv = grind (arith, seven_more i, mul-le-mul_right (2 ^ (7 * i)) hg)

read_var_int_loop-groups :
    (k left i value u : ℕ) (rest : List ℕ)
    → k < left
    → u < 128 ^ suc k
    → value < 2 ^ (7 * i)
    → IsU32 (value + u * 2 ^ (7 * i))
    → read_var_int_loop left i value (groups k u ++ rest) ≡ ok (value + u * 2 ^ (7 * i), rest)
unfolding groups
read_var_int_loop-groups k zero i value u rest hk hu hv fits = absurd (omega arith)
read_var_int_loop-groups zero (suc left) i value u rest hk hu hv fits =
    last_round left i value u rest (omega arith) hv fits
read_var_int_loop-groups (suc k) (suc left) i value u rest hk hu hv fits = ground (
  arith,
  last_round left i value u rest,
  split_group u i,
  inner_round left i value (u % 128) (groups k (u / 128) ++ rest),
  group_bound value (u % 128) i,
  read_var_int_loop-groups k left (i + 1) (value + u % 128 * 2 ^ (7 * i)) (u / 128) rest
      (omega arith) (omega arith),
)

-- ReadVarInt reads back every int32 that AppendVarInt wrote, and leaves what follows it.
pub read_var_int-append_var_int :
    (v : ℕ) (rest : List ℕ) → IsU32 v → read_var_int (append_var_int [] v ++ rest) ≡ ok (v, rest)
unfolding read_var_int
read_var_int-append_var_int v rest h =
    rw (append_var_int-groups [] v h) (ground (arith, read_var_int_loop-groups 4 5 0 0 v rest))

shift_whole : (g s : ℕ) → g * 2 ^ s < 2 ^ 32 → g * 2 ^ s % 2 ^ 32 ≡ g * 2 ^ s
shift_whole g s h = omega arith

shift_cut : (g : ℕ) → g * 2 ^ 28 % 2 ^ 32 ≡ g % 16 * 2 ^ 28
shift_cut g = omega arith

-- What `value |= uint32(g) << (7 * i)` keeps: the word has 32 bits, and the last shift cuts.
shift_in :
    (value g i : ℕ)
    → i < 5
    → g < 128
    → value < 2 ^ (7 * i)
    → (bit_or value (g * 2 ^ (7 * i) % 2 ^ 32) < 2 ^ 32)
      × (i < 4 → bit_or value (g * 2 ^ (7 * i) % 2 ^ 32) < 2 ^ (7 * (i + 1)))
shift_in value g zero hi hg hv =
    rw (shift_whole g 0 (omega arith), bit_or_disjoint 0 value g hv) (omega arith)
shift_in value g (suc zero) hi hg hv =
    rw (shift_whole g 7 (omega arith), bit_or_disjoint 7 value g hv) (omega arith)
shift_in value g (suc (suc zero)) hi hg hv =
    rw (shift_whole g 14 (omega arith), bit_or_disjoint 14 value g hv) (omega arith)
shift_in value g (suc (suc (suc zero))) hi hg hv =
    rw (shift_whole g 21 (omega arith), bit_or_disjoint 21 value g hv) (omega arith)
shift_in value g (suc (suc (suc (suc zero)))) hi hg hv =
    rw (shift_cut g, bit_or_disjoint 28 value (g % 16) hv) (omega arith, λ lt. absurd (omega arith))
shift_in value g (suc (suc (suc (suc (suc i))))) hi hg hv = absurd (omega arith)

-- On any input the loop takes `left` bytes at most, and what it returns is a uint32.
read_var_int_loop_takes :
    (left i value v : ℕ) (bs rest : List ℕ)
    → i + left ≤ 5
    → (0 < left → value < 2 ^ (7 * i))
    → read_var_int_loop left i value bs ≡ ok (v, rest)
    → IsU32 v × (length rest < length bs) × (length bs ≤ length rest + left)
unfolding read_var_int_loop
read_var_int_loop_takes zero i value v bs rest hi hv e = cc
read_var_int_loop_takes (suc left) i value v [] rest hi hv e = cc
read_var_int_loop_takes (suc left) i value v (b ∷ bs) rest hi hv e = ground (
  arith,
  bit_and_mask 7 b,
  shift_in value (b % 128) i,
  hv (omega arith),
  read_var_int_loop_takes left (i + 1) (bit_or value (b % 128 * 2 ^ (7 * i) % 2 ^ 32)) v bs rest
      (omega arith),
)

-- What ReadVarInt returns on any input is below 2 ^ 32, and one to five bytes were taken.
pub read_var_int_takes :
    (bs rest : List ℕ) (v : ℕ)
    → read_var_int bs ≡ ok (v, rest)
    → IsU32 v × (length rest < length bs) × (length bs ≤ length rest + 5)
unfolding read_var_int
read_var_int_takes bs rest v e =
    read_var_int_loop_takes 5 0 0 v bs rest (omega arith) (λ h. omega arith) e

pub append_var_int_zero : append_var_int [] 0 ≡ 0 ∷ []
unfolding append_var_int append_var_int_loop Acc-below dec_lt
append_var_int_zero = refl
