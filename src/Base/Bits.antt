-- ===== src/Base/Bits.antt =====
-- The bit operations that the code uses, as arithmetic: masks of low bits at every width, and the
-- union of two words whose bits do not overlap.
use Prim.Native.Nat.{
  ℕ, zero, suc, ◌+◌, ◌-◌, ◌*◌, ◌/◌, ◌%◌, ◌^◌, ◌≤◌, ◌<◌, min, max, bit_and, bit_or, digits, bitwise,
  bit_and-bitwise, bit_or-bitwise,
}
use mathlib.Core.Path.{◌≡◌, refl, ap}
use native.Mathlib.Nat.{le_refl, pow-suc, add-mul-mod_self_left, mod-eq_of_lt, mod-lt, div-add-mod}
use native.Mathlib.Omega.{arith}
use cyu_core.Base.Tests.{◌==◌, if◌then◌else◌}

-- The digit recursion runs on fuel; any fuel from the first word on gives the same digits.
module _ (tail : ℕ → ℕ) (digit : ℕ → ℕ → ℕ) where
  any_fuel : (x y j k : ℕ) → x ≤ j → x ≤ k → digits tail digit j x y ≡ digits tail digit k x y
  any_fuel zero y zero zero hj hk = refl
  any_fuel zero y (suc j) zero hj hk = refl
  any_fuel zero y zero (suc k) hj hk = refl
  any_fuel zero y (suc j) (suc k) hj hk = refl
  any_fuel (suc x) y zero k hj hk = absurd (omega arith)
  any_fuel (suc x) y (suc j) zero hj hk = absurd (omega arith)
  any_fuel (suc x) y (suc j) (suc k) hj hk =
      let half = any_fuel (suc x / 2) (y / 2) j k (omega arith) (omega arith) in
      ap (λ (t : ℕ). t * 2 + digit (suc x % 2) (y % 2)) half

  bitwise_low_digit :
      (a b : ℕ)
      → bitwise tail digit (suc a) b
        ≡ bitwise tail digit (suc a / 2) (b / 2) * 2 + digit (suc a % 2) (b % 2)
  bitwise_low_digit a b =
      ap (λ (t : ℕ). t * 2 + digit (suc a % 2) (b % 2))
        (any_fuel (suc a / 2) (b / 2) a (suc a / 2) (omega arith) (le_refl _))

-- The lowest binary digit of a union and of an intersection.
or_digit : (a b : ℕ) → bit_or a b ≡ bit_or (a / 2) (b / 2) * 2 + max (a % 2) (b % 2)
or_digit zero b = simp bit_or-bitwise (omega arith)
or_digit (suc a) b = simp bit_or-bitwise (bitwise_low_digit (λ y. y) max a b)

and_digit : (a b : ℕ) → bit_and a b ≡ bit_and (a / 2) (b / 2) * 2 + min (a % 2) (b % 2)
and_digit zero b = simp bit_and-bitwise (omega arith)
and_digit (suc a) b = simp bit_and-bitwise (bitwise_low_digit (λ y. 0) min a b)

double_mod : (m a : ℕ) → 0 < m → a % (m * 2) ≡ a / 2 % m * 2 + a % 2
double_mod m a h = grind (
  arith,
  div-add-mod (a / 2) m,
  add-mul-mod_self_left (a / 2 % m * 2 + a % 2) (m * 2) (a / 2 / m),
  mod-lt (a / 2) h,
  mod-eq_of_lt {n = a / 2 % m * 2 + a % 2} {m = m * 2} (omega (arith, mod-lt (a / 2) h)),
)

zero_of_le : {a : ℕ} → a ≤ 0 → a ≡ 0
zero_of_le h = omega arith

bit_and-zero : (n a : ℕ) → a ≤ n → bit_and a 0 ≡ 0
bit_and-zero zero a h = rw (zero_of_le h) refl
bit_and-zero (suc n) a h = omega (arith, and_digit a 0, bit_and-zero n (a / 2))

pow_pos : (k : ℕ) → 0 < 2 ^ k
pow_pos zero = omega arith
pow_pos (suc k) = omega (arith, pow-suc 2 k, pow_pos k)

half_mask : (k : ℕ) → (2 ^ suc k - 1) / 2 ≡ 2 ^ k - 1
half_mask k = omega (arith, pow-suc 2 k, pow_pos k)

pub bit_and_mask : (k a : ℕ) → bit_and a (2 ^ k - 1) ≡ a % 2 ^ k
bit_and_mask zero a = omega (arith, bit_and-zero a a)
bit_and_mask (suc k) a = omega (
  arith,
  and_digit a (2 ^ suc k - 1),
  ap (bit_and (a / 2)) (half_mask k),
  bit_and_mask k (a / 2),
  pow-suc 2 k,
  pow_pos k,
  ap (λ (m : ℕ). a % m) (pow-suc 2 k),
  double_mod (2 ^ k) a (pow_pos k),
)

shift_double : (s g : ℕ) → g * 2 ^ suc s ≡ g * 2 ^ s * 2
shift_double s g = rw (pow-suc 2 s) (omega arith)

half_shift : (s g : ℕ) → g * 2 ^ suc s / 2 ≡ g * 2 ^ s
half_shift s g = omega (arith, shift_double s g)

zero-bit_or : (b : ℕ) → bit_or 0 b ≡ b
zero-bit_or b = bit_or-bitwise 0 b

bit_or-zero : (n a : ℕ) → a ≤ n → bit_or a 0 ≡ a
bit_or-zero zero a h = rw (zero_of_le h) refl
bit_or-zero (suc n) a h = omega (arith, or_digit a 0, bit_or-zero n (a / 2))

pub bit_or_disjoint : (s a g : ℕ) → a < 2 ^ s → bit_or a (g * 2 ^ s) ≡ a + g * 2 ^ s
bit_or_disjoint zero a g h =
    rw (zero_of_le {a = a} (omega arith)) (omega (arith, zero-bit_or (g * 1)))
bit_or_disjoint (suc s) a g h = omega (
  arith,
  or_digit a (g * 2 ^ suc s),
  ap (bit_or (a / 2)) (half_shift s g),
  bit_or_disjoint s (a / 2) g (omega (arith, pow-suc 2 s)),
  pow-suc 2 s,
  shift_double s g,
)

pub bit_or_disjoint_left : (s a g : ℕ) → a < 2 ^ s → bit_or (g * 2 ^ s) a ≡ g * 2 ^ s + a
bit_or_disjoint_left zero a g h =
    rw (zero_of_le {a = a} (omega arith)) (omega (arith, bit_or-zero (g * 1) (g * 1)))
bit_or_disjoint_left (suc s) a g h = omega (
  arith,
  or_digit (g * 2 ^ suc s) a,
  ap (λ (t : ℕ). bit_or t (a / 2)) (half_shift s g),
  bit_or_disjoint_left s (a / 2) g (omega (arith, pow-suc 2 s)),
  pow-suc 2 s,
  shift_double s g,
)

-- How often two functions differ below a bound: a table of bytes is checked by evaluation.
module _ (f g : ℕ → ℕ) where
  unfoldable pub misses : ℕ → ℕ
  misses zero = 0
  misses (suc n) = misses n + (if f n == g n then 0 else 1)

  pub agree_of_no_miss : (n : ℕ) → misses n ≡ 0 → (x : ℕ) → x < n → f x ≡ g x
  unfolding misses
  agree_of_no_miss zero none_missed x below = absurd (omega arith)
  agree_of_no_miss (suc n) none_missed x below = ground (arith, agree_of_no_miss n (ground arith) x)
