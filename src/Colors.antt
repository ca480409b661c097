-- ===== src/Colors.antt =====
-- translateColorCodes of protocol.go. A string is the list of its runes.
pub mod Translated
mod Tests
use cyu_core.Base.{ℕ, Bool, true, false, ◌&&◌, ◌||◌, List, [], ◌∷◌, leb, ◌==◌, if◌then◌else◌}

-- `&` and `§`
abbrev pub ampersand : ℕ
ampersand = 0x26

abbrev pub section_sign : ℕ
section_sign = 0xa7

abbrev between : ℕ → ℕ → ℕ → Bool
between low high r = leb low r && leb r high

-- strings.ContainsRune of validCodes: 0 to 9, a to f, k to o and r, in both cases.
unfoldable pub is_code : ℕ → Bool
is_code r =
    between 0x30 0x39 r
    || (between 0x61 0x66 r
        || (between 0x6b 0x6f r
            || ((r == 0x72) || (between 0x41 0x46 r || (between 0x4b 0x4f r || (r == 0x52))))))

unfoldable pub translate_color_codes : List ℕ → List ℕ
translate_color_codes [] = []
translate_color_codes (r ∷ []) = r ∷ []
translate_color_codes (r ∷ c ∷ rest) =
    let after_code = translate_color_codes rest in
    let after_rune = translate_color_codes (c ∷ rest) in
    if (r == ampersand) && is_code c then section_sign ∷ c ∷ after_code else r ∷ after_rune
