-- ===== src/Packets/Chat.antt =====
-- The packets of types.go that carry a text as a length of two bytes and its UTF-8 form. A text is the
-- list of its runes.
use cyu_core.Base.{
  ℕ, ◌+◌, ◌/◌, ◌%◌, ◌^◌, ◌<◌, ◌≡◌, ap, ◌∙◌, ◌&&◌, ◌||◌, List, [], ◌∷◌, ◌++◌, arith, ltb, leb,
  length, take, drop, take-append, if◌then◌else◌, ◌↔◌,
}
use cyu_core.Stream.BigEndian.{big_endian, from_big_endian, from_big_endian_two, length-big_endian}
use cyu_core.Colors.{translate_color_codes}

-- The bytes that WriteRune writes: the replacement character for what is no rune.
unfoldable pub encode_rune : ℕ → List ℕ
encode_rune r =
    if ltb r 0x80
    then r ∷ []
    else if ltb r 0x800
    then (0xc0 + r / 64) ∷ (0x80 + r % 64) ∷ []
    else if (leb 0xd800 r && leb r 0xdfff) || ltb 0x10ffff r
    then 0xef ∷ 0xbf ∷ 0xbd ∷ []
    else if ltb r 0x10000
    then (0xe0 + r / 4096) ∷ (0x80 + r / 64 % 64) ∷ (0x80 + r % 64) ∷ []
    else (0xf0 + r / 262144) ∷ (0x80 + r / 4096 % 64) ∷ (0x80 + r / 64 % 64) ∷ (0x80 + r % 64) ∷ []

unfoldable pub encode_runes : List ℕ → List ℕ
unfolding encode_rune
encode_runes [] = []
encode_runes (r ∷ rs) = encode_rune r ++ encode_runes rs

unfoldable pub format_text : List ℕ → List ℕ
unfolding encode_runes translate_color_codes
format_text text = encode_runes (translate_color_codes text)

unfoldable pub build_system_chat_message : (text : List ℕ) → List ℕ
unfolding format_text
build_system_chat_message text =
    let formatted = format_text text in
    (0x08 ∷ []) ++ (big_endian 2 (length formatted % 2 ^ 16) ++ (formatted ++ (0 ∷ [])))

unfoldable pub build_disconnect : (reason : List ℕ) → List ℕ
unfolding format_text
build_disconnect reason =
    let formatted = format_text reason in
    (0x08 ∷ []) ++ (big_endian 2 (length formatted % 2 ^ 16) ++ formatted)

-- The length that stands behind the type of the tag.
abbrev pub announced_length : List ℕ → ℕ
announced_length packet = from_big_endian 0 (take 2 (drop 1 packet))

announced :
    (n : ℕ) (rest : List ℕ)
    → announced_length ((0x08 ∷ []) ++ (big_endian 2 (n % 2 ^ 16) ++ rest)) ≡ n % 2 ^ 16
announced n rest =
    ap (λ (k : ℕ). from_big_endian 0 (take k (big_endian 2 (n % 2 ^ 16) ++ rest)))
      (length-big_endian 2 (n % 2 ^ 16))
    ∙ ap (from_big_endian 0) (take-append (big_endian 2 (n % 2 ^ 16)) rest)
    ∙ from_big_endian_two (n % 2 ^ 16) (omega arith)

-- The length that a system chat message or a disconnect packet announces for its text is the number
-- of bytes of the text exactly if that number is below 2 ^ 16.
pub announced_length_iff :
    (text : List ℕ)
    → let n = length (format_text text) in
      ((announced_length (build_system_chat_message text) ≡ n) ↔ (n < 2 ^ 16))
      × ((announced_length (build_disconnect text) ≡ n) ↔ (n < 2 ^ 16))
unfolding build_system_chat_message build_disconnect
announced_length_iff text =
    let n = length (format_text text) in
    let chat = announced n (format_text text ++ (0 ∷ [])) in
    let disconnect = announced n (format_text text) in
    (
      ((λ h. omega arith), λ h. chat ∙ omega arith),
      ((λ h. omega arith), λ h. disconnect ∙ omega arith),
    )
