-- ===== src/Packets/Tests.antt =====
-- Packets of small inputs, and the theorem on the length of a text at one.
use cyu_core.Base.{ℕ, ◌≡◌, ◌<◌, ◌^◌, ◌↔◌, refl, List, [], ◌∷◌, length}
use cyu_core.Stream.BigEndian.{big_endian, from_big_endian}
use cyu_core.Colors.{is_code, translate_color_codes}
use cyu_core.Packets.{build_game_event_waiting_chunks, build_set_time}
use cyu_core.Packets.Chat.{
  encode_rune, encode_runes, format_text, build_system_chat_message, build_disconnect,
  announced_length, announced_length_iff,
}

program : Unit {0}
unfolding big_endian from_big_endian is_code translate_color_codes build_game_event_waiting_chunks
    build_set_time encode_rune encode_runes format_text build_system_chat_message build_disconnect
program = tt

-- "&a!" becomes a section sign, which takes two bytes, an a and an exclamation mark.
chat_packet :
    build_system_chat_message (0x26 ∷ 0x61 ∷ 0x21 ∷ [])
    ≡ 0x08 ∷ 0 ∷ 4 ∷ 0xc2 ∷ 0xa7 ∷ 0x61 ∷ 0x21 ∷ 0 ∷ []
unfolding program
chat_packet = refl

disconnect_packet : build_disconnect (0x20ac ∷ []) ≡ 0x08 ∷ 0 ∷ 3 ∷ 0xe2 ∷ 0x82 ∷ 0xac ∷ []
unfolding program
disconnect_packet = refl

waiting_packet : build_game_event_waiting_chunks ≡ 13 ∷ 0 ∷ 0 ∷ 0 ∷ 0 ∷ []
unfolding program
waiting_packet = refl

time_packet :
    build_set_time 1 258 ≡ 0 ∷ 0 ∷ 0 ∷ 0 ∷ 0 ∷ 0 ∷ 0 ∷ 1 ∷ 0 ∷ 0 ∷ 0 ∷ 0 ∷ 0 ∷ 0 ∷ 1 ∷ 2 ∷ []
unfolding program
time_packet = refl

announced_length_iff_example :
    let text : List ℕ = 0x26 ∷ 0x61 ∷ 0x21 ∷ [] in
    let n = length (format_text text) in
    ((announced_length (build_system_chat_message text) ≡ n) ↔ (n < 2 ^ 16))
    × ((announced_length (build_disconnect text) ≡ n) ↔ (n < 2 ^ 16))
announced_length_iff_example = announced_length_iff (0x26 ∷ 0x61 ∷ 0x21 ∷ [])
