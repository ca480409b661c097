-- ===== src/Positions/RoundTrip.antt =====
-- Unpacking gives back every position within the packed widths.
use cyu_core.Base.{
  ℕ, ◌+◌, ◌-◌, ◌*◌, ◌/◌, ◌%◌, ◌^◌, ◌≤◌, ◌<◌, ◌≡◌, ◌⊎◌, inl, inr, refl, ap, ◌∙◌, bit_or, arith,
}
use cyu_core.Base.Bits.{bit_and_mask, bit_or_disjoint_left}
use cyu_core.Positions.{pack_position, shift_right, unpack_position}

-- An int64 that fits into `2 * half` numbers: from -half to half - 1.
abbrev pub FitsInt : (half : ℕ) → ℕ → Type 0
FitsInt half w = (w < half) ⊎ ((2 ^ 64 - half ≤ w) × (w < 2 ^ 64))

low_bits :
    (ux uz uy : ℕ)
    → ux < 2 ^ 26
    → uz < 2 ^ 26
    → uy < 2 ^ 12
    → bit_or (bit_or (ux * 2 ^ 38 % 2 ^ 64) (uz * 2 ^ 12 % 2 ^ 64)) uy
      ≡ ux * 2 ^ 38 + (uz * 2 ^ 12 + uy)
low_bits ux uz uy hx hz hy =
    let a : ux * 2 ^ 38 % 2 ^ 64 ≡ ux * 2 ^ 38 = omega arith in
    let b : uz * 2 ^ 12 % 2 ^ 64 ≡ uz * 2 ^ 12 = omega arith in
    let c = bit_or_disjoint_left 38 (uz * 2 ^ 12) ux (omega arith) in
    let d : ux * 2 ^ 38 + uz * 2 ^ 12 ≡ (ux * 2 ^ 26 + uz) * 2 ^ 12 = omega arith in
    let e = bit_or_disjoint_left 12 uy (ux * 2 ^ 26 + uz) hy in rw (a, b, c, d, e) (omega arith)

pack_position_sum :
    (x y z : ℕ) → pack_position x y z ≡ x % 2 ^ 26 * 2 ^ 38 + (z % 2 ^ 26 * 2 ^ 12 + y % 2 ^ 12)
unfolding pack_position
pack_position_sum x y z =
    rw (bit_and_mask 26 x, bit_and_mask 26 z, bit_and_mask 12 y)
      (low_bits (x % 2 ^ 26) (z % 2 ^ 26) (y % 2 ^ 12) (omega arith) (omega arith) (omega arith))

module _ (ux uz uy : ℕ) (hx : ux < 2 ^ 26) (hz : uz < 2 ^ 26) (hy : uy < 2 ^ 12) where
  abbrev packed : ℕ
  packed = ux * 2 ^ 38 + (uz * 2 ^ 12 + uy)

  high_part : packed / 2 ^ 38 ≡ ux
  high_part = omega arith

  low_part : packed * 2 ^ 52 % 2 ^ 64 ≡ uy * 2 ^ 52
  low_part = omega arith

  middle_part : packed * 2 ^ 26 % 2 ^ 64 ≡ uz * 2 ^ 38 + uy * 2 ^ 26
  middle_part = omega arith

  positive : packed < 2 ^ 64
  positive = omega arith

  -- The sign of the packed number is that of x.
  top_bit : (2 ^ 63 ≤ packed → 2 ^ 25 ≤ ux) × (packed < 2 ^ 63 → ux < 2 ^ 25)
  top_bit = (λ h. omega arith, λ h. omega arith)

-- A number of `k` bits at the top of the word, shifted down with its sign.
extend :
    (w part x : ℕ)
    → w / 2 ^ 38 ≡ part
    → (2 ^ 63 ≤ w → 2 ^ 25 ≤ part)
    → (w < 2 ^ 63 → part < 2 ^ 25)
    → part ≡ x % 2 ^ 26
    → FitsInt (2 ^ 25) x
    → shift_right w 38 ≡ x
unfolding shift_right
extend w part x top high low is_part (inl small) = ground arith
extend w part x top high low is_part (inr (a, b)) = ground arith

extend_low :
    (part y : ℕ)
    → part < 2 ^ 12
    → part ≡ y % 2 ^ 12
    → FitsInt (2 ^ 11) y
    → shift_right (part * 2 ^ 52) 52 ≡ y
unfolding shift_right
extend_low part y small is_part (inl h) = ground arith
extend_low part y small is_part (inr (a, b)) = ground arith

-- A position whose x and z are from -2 ^ 25 to 2 ^ 25 - 1 and whose y is from -2 ^ 11 to 2 ^ 11 - 1
-- is unpacked from what packPosition made of it.
pub unpack_position-pack_position :
    (x y z : ℕ)
    → FitsInt (2 ^ 25) x
    → FitsInt (2 ^ 11) y
    → FitsInt (2 ^ 25) z
    → unpack_position (pack_position x y z) ≡ (x, y, z)
unfolding unpack_position
unpack_position-pack_position x y z fx fy fz =
    let ux = x % 2 ^ 26 in
    let uz = z % 2 ^ 26 in
    let uy = y % 2 ^ 12 in
    let hx : ux < 2 ^ 26 = omega arith in
    let hz : uz < 2 ^ 26 = omega arith in
    let hy : uy < 2 ^ 12 = omega arith in
    let sign = top_bit ux uz uy hx hz hy in
    let part_x =
      extend (packed ux uz uy hx hz hy) ux x (high_part ux uz uy hx hz hy) sign.0 sign.1 refl fx in
    let part_y =
      ap (λ w. shift_right w 52) (low_part ux uz uy hx hz hy) ∙ extend_low uy y hy refl fy in
    let part_z =
      ap (λ w. shift_right w 38) (middle_part ux uz uy hx hz hy)
      ∙ extend (uz * 2 ^ 38 + uy * 2 ^ 26) uz z (omega arith) (λ h. omega arith) (λ h. omega arith)
          refl fz in
    rw (pack_position_sum x y z) (rw (part_x, part_y, part_z) refl)
