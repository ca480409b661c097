-- ===== src/Colors/Translated.antt =====
-- What is left after the translation.
use cyu_core.Base.{
  ℕ, ◌≡◌, refl, ap, ◌∙◌, Bool, true, false, ◌&&◌, List, [], ◌∷◌, ◌==◌, arith, inl, inr, Bool-cases,
}
use cyu_core.Colors.{ampersand, section_sign, is_code, translate_color_codes}

keep_head :
    (r : ℕ) (xs : List ℕ)
    → (r == ampersand) ≡ false
    → translate_color_codes (r ∷ xs) ≡ r ∷ translate_color_codes xs
unfolding translate_color_codes
keep_head r [] h = refl
keep_head r (c ∷ xs) h = rw h refl

code_is_no_ampersand : (c : ℕ) → is_code c ≡ true → (c == ampersand) ≡ false
unfolding is_code
code_is_no_ampersand c h = ground arith

abbrev starts_with_code : List ℕ → Bool
starts_with_code [] = false
starts_with_code (r ∷ xs) = is_code r

-- A text that starts with no code does not after the translation.
first_rune :
    (c : ℕ) (xs : List ℕ)
    → is_code c ≡ false
    → starts_with_code (translate_color_codes (c ∷ xs)) ≡ false
unfolding translate_color_codes is_code
first_rune c [] h = h
first_rune c (d ∷ xs) h = elim (Bool-cases ((c == ampersand) && is_code d)) [
  | inl e ↦ rw e refl
  | inr e ↦ rw e h
]

-- An ampersand in front of no code stays.
keep_ampersand :
    (r : ℕ) (xs : List ℕ)
    → starts_with_code xs ≡ false
    → translate_color_codes (r ∷ xs) ≡ r ∷ translate_color_codes xs
unfolding translate_color_codes
keep_ampersand r [] h = refl
keep_ampersand r (c ∷ xs) h = elim (Bool-cases (r == ampersand)) [
  | inl e ↦ rw e (rw h refl)
  | inr e ↦ rw e refl
]

-- Translating a text twice gives the same as translating it once.
pub translate_color_codes-translate_color_codes :
    (s : List ℕ) → translate_color_codes (translate_color_codes s) ≡ translate_color_codes s
unfolding translate_color_codes
translate_color_codes-translate_color_codes [] = refl
translate_color_codes-translate_color_codes (r ∷ []) = refl
translate_color_codes-translate_color_codes (r ∷ c ∷ rest) = elim (Bool-cases (r == ampersand)) [
  | inr e ↦ rw e (
      keep_head r (translate_color_codes (c ∷ rest)) e
      ∙ ap (◌∷◌ r) (translate_color_codes-translate_color_codes (c ∷ rest)))
  | inl e ↦ elim (Bool-cases (is_code c)) [
    | inl code ↦
        rw (e, code)
          (keep_head section_sign (c ∷ translate_color_codes rest) refl
            ∙ ap (◌∷◌ section_sign) (
                keep_head c (translate_color_codes rest) (code_is_no_ampersand c code)
                ∙ ap (◌∷◌ c) (translate_color_codes-translate_color_codes rest)))
    | inr other ↦
        rw (e, other)
          (keep_ampersand r (translate_color_codes (c ∷ rest)) (first_rune c rest other)
            ∙ ap (◌∷◌ r) (translate_color_codes-translate_color_codes (c ∷ rest)))
  ]
]
