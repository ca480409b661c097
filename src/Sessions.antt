-- ===== src/Sessions.antt =====
-- session.go, session_login.go and session_play.go: one player's connection, from the handshake to the
-- end. Each packet that is read, each packet that the write loop takes from the queue, each event of the
-- runtime owner and each Close is one step.
pub mod Play
pub mod Handshake
pub mod Login
pub mod Sound
pub mod Kept
pub mod Entered
pub mod Ordered
mod Tests
use cyu_core.Base.{
  ℕ, zero, suc, ◌+◌, ◌%◌, ◌^◌, Bool, true, false, not, ◌&&◌, ◌||◌, Option, none, some, List, [],
  ◌∷◌, ◌++◌, ltb, ◌==◌, if◌then◌else◌, length,
}

pub data SessionState : Type 0 where
  handshake status login config play closed play_pending : SessionState

abbrev pub is_state : SessionState → SessionState → Bool
is_state handshake handshake = true
is_state status status = true
is_state login login = true
is_state config config = true
is_state play play = true
is_state closed closed = true
is_state play_pending play_pending = true
is_state _ _ = false

abbrev pub outbound_queue_capacity : ℕ
outbound_queue_capacity = 128

pub record PacketOut : Type 0 where
  pub id : ℕ
  pub payload : List ℕ

-- `queue` is what the buffered channel holds, and `queued` the ids of all packets that it took, the last
-- one first, which the code does not keep. `removals` counts the calls of RemovePlayer. The channel
-- `done` is closed when `close_once` is set, and the connection with it.
pub record Session : Type 0 where
  pub entity_id : ℕ
  pub state : SessionState
  pub username : List ℕ
  pub uuid : List ℕ
  pub client_proto : ℕ
  pub configuration_sent : Bool
  pub game_mode : ℕ
  pub registered : Bool
  pub queue : List PacketOut
  pub close_once : Bool
  pub removals : ℕ
  pub queued : List ℕ

abbrev pub new_player_session : (entity_id : ℕ) → Session
new_player_session entity_id = record {
  entity_id = entity_id;
  state = handshake;
  username = [];
  uuid = [];
  client_proto = 0;
  configuration_sent = false;
  game_mode = 0;
  registered = false;
  queue = [];
  close_once = false;
  removals = 0;
  queued = [];
}

-- `transitionState`
unfoldable pub transition_state : (old next : SessionState) → Session → Bool × Session
transition_state old next s =
    if is_state s.state old then (true, record s { state = next }) else (false, s)

unfoldable pub close : Session → Session
close s = if s.close_once then s else record s {
  state = closed;
  close_once = true;
  removals = if s.registered then s.removals + 1 else s.removals;
}

unfoldable pub enqueue : PacketOut → Session → Session
enqueue p s = record s { queue = s.queue ++ (p ∷ []); queued = p.id ∷ s.queued }

-- `SendPacket`. A session that is closed has its state and `done` set together.
unfoldable pub send_packet : (id : ℕ) (payload : List ℕ) → Session → Bool × Session
unfolding close enqueue
send_packet id payload s =
    if is_state s.state closed || s.close_once
    then (false, s)
    else if ltb (length s.queue) outbound_queue_capacity
    then (true, enqueue (record { id = id; payload = payload }) s)
    else (false, close s)

-- The calls of SendPacket up to the first that returns false.
unfoldable pub send_packets : List PacketOut → Session → Bool × Session
unfolding send_packet
send_packets [] s = (true, s)
send_packets (p ∷ ps) s =
    let (sent, s') = send_packet p.id p.payload s in
    let rest = send_packets ps s' in if sent then rest else (false, s')

-- What the write loop receives from the queue, and what it leaves there.
abbrev pub receive : List PacketOut → Option PacketOut × List PacketOut
receive [] = (none, [])
receive (p ∷ ps) = (some p, ps)

-- A round of the write loop with a packet: `written` is whether writePacket returned nil.
unfoldable pub write_step : (written : Bool) → Session → Session
unfolding close
write_step written s =
    let (p, rest) = receive s.queue in
    let taken : Session = record s { queue = rest } in
    if s.close_once
    then s
    else elim p [ none ↦ s | some packet ↦ if written then taken else close taken ]
