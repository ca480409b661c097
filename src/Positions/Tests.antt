-- ===== src/Positions/Tests.antt =====
-- Runs of the packing on small inputs, and the theorem at one of them.
use cyu_core.Base.{◌-◌, ◌^◌, ◌≡◌, refl, inl, inr, arith}
use cyu_core.Positions.{pack_position, shift_right, unpack_position}
use cyu_core.Positions.RoundTrip.{unpack_position-pack_position}

program : Unit {0}
unfolding pack_position shift_right unpack_position
program = tt

origin : pack_position 0 64 0 ≡ 64
unfolding program
origin = refl

unpack_position-pack_position_example :
    unpack_position (pack_position (2 ^ 64 - 3) 64 (2 ^ 25 - 1)) ≡ (2 ^ 64 - 3, 64, 2 ^ 25 - 1)
unpack_position-pack_position_example =
    unpack_position-pack_position (2 ^ 64 - 3) 64 (2 ^ 25 - 1) (inr (omega arith, omega arith))
      (inl (omega arith)) (inl (omega arith))
