-- ===== src/Sessions/Handshake.antt =====
-- The handshake of session_login.go, and what its login packets hold.
use cyu_core.Base.{
  ℕ, zero, suc, Bool, not, ◌||◌, Option, List, [], ◌∷◌, ◌++◌, ltb, ◌==◌, if◌then◌else◌, length,
  drop, ok, err, ◌>>=◌, bit_and, bit_or,
}
use cyu_core.Protocol.{read_var_int, is_negative, default_max_string_size}
use cyu_core.Sessions.{handshake, status, login, PacketOut, Session, transition_state}
use cyu_core.Sessions.Play.{Decoded, decode_var_int, decode_string, decode_word}

-- What the handlers use of the server. `md5` is md5.Sum of crypto/md5, which gives sixteen bytes; the
-- configuration, of which `none` is the nil pointer, is encoded at the start.
pub record Environment : Type 0 where
  pub md5 : List ℕ → List ℕ
  pub status_response : List ℕ
  pub max_players : ℕ
  pub game_mode : ℕ
  pub spawn_x : ℕ
  pub spawn_y : ℕ
  pub spawn_z : ℕ
  pub platform_block : ℕ
  pub configuration : Option (List (List ℕ) × List ℕ)

unfoldable pub set_at : (index : ℕ) → (ℕ → ℕ) → List ℕ → List ℕ
set_at i f [] = []
set_at zero f (b ∷ bs) = f b ∷ bs
set_at (suc i) f (b ∷ bs) = b ∷ set_at i f bs

-- "OfflinePlayer:", "Player" and "26.2"
abbrev pub offline_player : List ℕ
offline_player =
    0x4f ∷ 0x66 ∷ 0x66 ∷ 0x6c ∷ 0x69 ∷ 0x6e ∷ 0x65 ∷ 0x50 ∷ 0x6c ∷ 0x61 ∷ 0x79 ∷ 0x65 ∷ 0x72 ∷ 0x3a
    ∷ []

abbrev pub player : List ℕ
player = 0x50 ∷ 0x6c ∷ 0x61 ∷ 0x79 ∷ 0x65 ∷ 0x72 ∷ []

abbrev pub version : List ℕ
version = 0x32 ∷ 0x36 ∷ 0x2e ∷ 0x32 ∷ []

unfoldable pub make_offline_uuid : (md5 : List ℕ → List ℕ) → (name : List ℕ) → List ℕ
unfolding set_at
make_offline_uuid md5 name =
    set_at 8 (λ b. bit_or (bit_and b 0x3f) 0x80)
      (set_at 6 (λ b. bit_or (bit_and b 0x0f) 0x30) (md5 (offline_player ++ name)))

-- The version, the intention and nothing else of a handshake that is read to its end.
unfoldable pub decode_handshake : List ℕ → Decoded (ℕ × ℕ)
unfolding decode_var_int decode_string decode_word
decode_handshake payload = do
  (proto, bs) ← decode_var_int payload
  (host, bs') ← decode_string bs
  (port, bs'') ← decode_word 2 bs'
  (next, rest) ← decode_var_int bs''
  ok ((proto, next), rest)

unfoldable pub handle_handshake : (packet_id : ℕ) → List ℕ → Session → Session
unfolding decode_handshake transition_state
handle_handshake id payload s = if not (id == 0) then s else elim (decode_handshake payload) [
  | err e ↦ s
  | ok ((proto, next), rest) ↦
      let s' : Session = record s { client_proto = proto } in
      if next == 1
      then (transition_state handshake status s').1
      else if next == 2
      then (transition_state handshake login s').1
      else s'
]

-- What the reader has left after readString, whether it returned a string or not: a number that goes
-- on after five bytes leaves what follows them, and a short string leaves nothing.
unfoldable pub after_string : List ℕ → List ℕ
after_string bs = elim (read_var_int bs) [
  | err e ↦ drop 5 bs
  | ok (len, rest) ↦
      if is_negative len || ltb default_max_string_size len then rest else drop len rest
]

unfoldable pub name_of : List ℕ → List ℕ
unfolding decode_string
name_of payload = elim (decode_string payload) [
  | err e ↦ player
  | ok (name, rest) ↦ if length name == 0 then player else name
]

-- What happens to a session; `sends` is a packet that the runtime owner sends to a player in the game.
pub data SessionEvent : Type 0 where
  reads : (packet_id : ℕ) (payload : List ℕ) (posted : Bool) → SessionEvent
  writes : (written : Bool) → SessionEvent
  enters : (admitted : Option (List PacketOut)) (disconnect : List ℕ) → SessionEvent
  sends : PacketOut → SessionEvent
  removed closes : SessionEvent
