-- ===== src/Positions.antt =====
-- types.go: the packing of a block position into 64 bits. An int and an int64 are their two's
-- complement patterns.
pub mod RoundTrip
mod Tests
use cyu_core.Base.{ℕ, ◌+◌, ◌-◌, ◌*◌, ◌/◌, ◌%◌, ◌^◌, bit_and, bit_or, leb, if◌then◌else◌}

unfoldable pub pack_position : (x y z : ℕ) → ℕ
pack_position x y z =
    let ux = bit_and x 0x3FFFFFF in
    let uz = bit_and z 0x3FFFFFF in
    let uy = bit_and y 0xFFF in bit_or (bit_or (ux * 2 ^ 38 % 2 ^ 64) (uz * 2 ^ 12 % 2 ^ 64)) uy

-- `int64(w) >> k`, which fills with the sign.
unfoldable pub shift_right : (w k : ℕ) → ℕ
shift_right w k = if leb (2 ^ 63) w then w / 2 ^ k + (2 ^ 64 - 2 ^ (64 - k)) else w / 2 ^ k

unfoldable pub unpack_position : (val : ℕ) → ℕ × ℕ × ℕ
unfolding shift_right
unpack_position val = (
  shift_right val 38,
  shift_right (val * 2 ^ 52 % 2 ^ 64) 52,
  shift_right (val * 2 ^ 26 % 2 ^ 64) 38,
)
