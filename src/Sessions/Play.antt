-- ===== src/Sessions/Play.antt =====
-- session_play.go: what the packets of a player in the game ask the runtime owner for.
use cyu_core.Base.{
  ℕ, ◌+◌, ◌-◌, ◌%◌, ◌^◌, Bool, not, ◌&&◌, Option, none, some, List, [], ◌∷◌, ◌++◌, leb, ◌==◌,
  if◌then◌else◌, length, Outcome, ok, err, ◌>>=◌,
}
use cyu_core.Stream.{read_full}
use cyu_core.Stream.BigEndian.{from_big_endian}
use cyu_core.Protocol.{read_var_int, read_string, default_max_string_size}
use cyu_core.Positions.{unpack_position}

-- An error of a reader, which the handlers only test for.
abbrev pub Decoded : Type 0 → Type 0
Decoded A = Outcome (Unit {0}) (A × List ℕ)

abbrev pub decoded : {E A : Type 0} → Outcome E (A × List ℕ) → Decoded A
decoded (ok r) = ok r
decoded (err e) = err tt

-- The int of an int32.
unfoldable pub int_of : ℕ → ℕ
int_of v = if leb (2 ^ 31) v then v + (2 ^ 64 - 2 ^ 32) else v

unfoldable pub decode_var_int : List ℕ → Decoded ℕ
unfolding int_of
decode_var_int bs = do (v, rest) ← decoded (read_var_int bs); ok (int_of v, rest)

unfoldable pub decode_string : List ℕ → Decoded (List ℕ)
decode_string bs = decoded (read_string default_max_string_size bs)

-- `binary.Read` of an unsigned number, or of the bits of a float.
unfoldable pub decode_word : (bytes : ℕ) → List ℕ → Decoded ℕ
unfolding read_full from_big_endian
decode_word n bs = do (word, rest) ← decoded (read_full n bs); ok (from_big_endian 0 word, rest)

pub record Move : Type 0 where
  pub position : Option (ℕ × ℕ × ℕ)
  pub rotation : Option (ℕ × ℕ)
  pub on_ground : Bool

pub data PlayerEvent : Type 0 where
  player_move : Move → PlayerEvent
  player_chat : (text : List ℕ) → PlayerEvent
  player_animation : (animation : ℕ) → PlayerEvent
  break_block : (x y z sequence : ℕ) → PlayerEvent
  place_block : (x y z block_id sequence : ℕ) → PlayerEvent

-- `readMoveGrounded`
unfoldable pub decode_grounded : List ℕ → Decoded Bool
unfolding decode_word
decode_grounded bs = do (b, rest) ← decode_word 1 bs; ok (not (b == 0), rest)

unfoldable pub decode_position : List ℕ → Decoded (ℕ × ℕ × ℕ)
unfolding decode_word
decode_position bs = do
  (x, bs') ← decode_word 8 bs
  (y, bs'') ← decode_word 8 bs'
  (z, rest) ← decode_word 8 bs''
  ok ((x, y, z), rest)

unfoldable pub decode_rotation : List ℕ → Decoded (ℕ × ℕ)
unfolding decode_word
decode_rotation bs = do
  (yaw, bs') ← decode_word 4 bs
  (pitch, rest) ← decode_word 4 bs'
  ok ((yaw, pitch), rest)

unfoldable pub move_position : List ℕ → Decoded PlayerEvent
unfolding decode_position decode_grounded
move_position bs = do
  (p, bs') ← decode_position bs
  (g, rest) ← decode_grounded bs'
  ok (player_move (record { position = some p; rotation = none; on_ground = g }), rest)

unfoldable pub move_both : List ℕ → Decoded PlayerEvent
unfolding decode_position decode_rotation decode_grounded
move_both bs = do
  (p, bs') ← decode_position bs
  (r, bs'') ← decode_rotation bs'
  (g, rest) ← decode_grounded bs''
  ok (player_move (record { position = some p; rotation = some r; on_ground = g }), rest)

unfoldable pub move_rotation : List ℕ → Decoded PlayerEvent
unfolding decode_rotation decode_grounded
move_rotation bs = do
  (r, bs') ← decode_rotation bs
  (g, rest) ← decode_grounded bs'
  ok (player_move (record { position = none; rotation = some r; on_ground = g }), rest)

unfoldable pub move_status : List ℕ → Decoded PlayerEvent
unfolding decode_grounded
move_status bs = do
  (g, rest) ← decode_grounded bs
  ok (player_move (record { position = none; rotation = none; on_ground = g }), rest)

-- The two kinds of chat; an empty text is ignored.
unfoldable pub chat_after : (prefix : List ℕ) → List ℕ → Decoded PlayerEvent
unfolding decode_string
chat_after prefix bs = do
  (text, rest) ← decode_string bs
  if length text == 0 then err tt else ok (player_chat (prefix ++ text), rest)

unfoldable pub handle_player_action : List ℕ → Decoded PlayerEvent
unfolding decode_var_int decode_word unpack_position
handle_player_action bs = do
  (status, bs') ← decode_var_int bs
  (pos, bs'') ← decode_word 8 bs'
  (face, bs''') ← decode_word 1 bs''
  (seq, rest) ← decode_var_int bs'''
  if not (status == 0) && not (status == 2)
      then err tt
      else let (x, y, z) = unpack_position pos in ok (break_block x y z seq, rest)

-- `v++` and `v--` on an int
unfoldable pub up : ℕ → ℕ
up v = (v + 1) % 2 ^ 64

unfoldable pub down : ℕ → ℕ
down v = (v + (2 ^ 64 - 1)) % 2 ^ 64

-- The block next to a face of another one; `none` is the default case.
unfoldable pub beside : (face x y z : ℕ) → Option (ℕ × ℕ × ℕ)
unfolding up down
beside face x y z =
    if face == 0
    then some (x, down y, z)
    else if face == 1
    then some (x, up y, z)
    else if face == 2
    then some (x, y, down z)
    else if face == 3
    then some (x, y, up z)
    else if face == 4
    then some (down x, y, z)
    else if face == 5
    then some (up x, y, z)
    else none

-- The byte that only some clients send.
unfoldable pub skip_border_hit : List ℕ → List ℕ
skip_border_hit [] = []
skip_border_hit (b ∷ bs) = bs

unfoldable pub place_beside : (face pos seq : ℕ) → List ℕ → Decoded PlayerEvent
unfolding unpack_position beside
place_beside face pos seq rest =
    let (x, y, z) = unpack_position pos in
    elim (beside face x y z) [
      | none ↦ err tt
      | some (tx, ty, tz) ↦ ok (place_block tx ty tz 330 seq, rest)
    ]

unfoldable pub handle_use_item_on : List ℕ → Decoded PlayerEvent
unfolding decode_var_int decode_word skip_border_hit place_beside
handle_use_item_on bs = do
  (hand, bs1) ← decode_var_int bs
  (pos, bs2) ← decode_word 8 bs1
  (face, bs3) ← decode_var_int bs2
  (cx, bs4) ← decode_word 4 bs3
  (cy, bs5) ← decode_word 4 bs4
  (cz, bs6) ← decode_word 4 bs5
  (inside, bs7) ← decode_word 1 bs6
  (seq, rest) ← decode_var_int (skip_border_hit bs7)
  place_beside face pos seq rest

-- The event that handlePlay posts; an error where it posts none.
unfoldable pub handle_play : (packet_id : ℕ) → List ℕ → Decoded PlayerEvent
unfolding move_position move_both move_rotation move_status chat_after handle_player_action
    handle_use_item_on
handle_play id payload =
    if id == 0x1e
    then move_position payload
    else if id == 0x1f
    then move_both payload
    else if id == 0x20
    then move_rotation payload
    else if id == 0x21
    then move_status payload
    else if id == 0x09
    then chat_after [] payload
    else if id == 0x07
    then chat_after (0x2f ∷ []) payload
    else if id == 0x3f
    then ok (player_animation 0, payload)
    else if id == 0x29
    then handle_player_action payload
    else if id == 0x42
    then handle_use_item_on payload
    else err tt
