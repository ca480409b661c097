-- ===== src/Colors/Tests.antt =====
-- Runs of the colour codes on small inputs, and the theorem at one of them.
use cyu_core.Base.{◌≡◌, refl, [], ◌∷◌}
use cyu_core.Colors.{is_code, translate_color_codes}

program : Unit {0}
unfolding is_code translate_color_codes
program = tt

-- "&&a&z"
mixed :
    translate_color_codes (0x26 ∷ 0x26 ∷ 0x61 ∷ 0x26 ∷ 0x7a ∷ [])
    ≡ 0x26 ∷ 0xa7 ∷ 0x61 ∷ 0x26 ∷ 0x7a ∷ []
unfolding program
mixed = refl
