-- ===== src/Players/Runtime/Sent.antt =====
-- What the runtime owner sends to the sessions: SendPacket with the Close of a slow client, the broadcasts
-- of server.go, and the removal that a Close posts.
use cyu_core.Base.{ℕ, Bool, true, not, ◌&&◌, Option, List, [], ◌∷◌, ◌==◌, if◌then◌else◌}
use cyu_core.Mailbox.{Queue, post_critical}
use cyu_core.World.{World}
use cyu_core.Packets.{build_entity_position_sync}
use cyu_core.Sessions.{Session, PacketOut, play, is_state, close, send_packet}
use cyu_core.Sessions.Play.{PlayerEvent}
use cyu_core.Players.Snapshot.{Snapshot}

pub data RuntimeEvent : Type 0 where
  player_event : (session : ℕ) → PlayerEvent → RuntimeEvent
  remove_player : (session : ℕ) → RuntimeEvent

-- Sessions are numbers. `players` is the player map in the order of Range, `pose` what the owner keeps
-- of a player, and `handled` the events that were taken from the mailbox, the last one first.
pub record Runtime : Type 0 where
  pub mailbox : Option (Queue RuntimeEvent)
  pub world : World
  pub session : ℕ → Session
  pub players : List (List ℕ × ℕ)
  pub online_count : ℕ
  pub pose : ℕ → Snapshot
  pub teleport_seq : ℕ → ℕ
  pub published : ℕ → Snapshot
  pub handled : List RuntimeEvent

-- `lower` is strings.ToLower, and `quit_message` the code points of a fmt.Sprintf with the name. The
-- commands and plugins that a chat reaches, and the plugins' handlers of PlayerQuit, are what they do.
pub record Elsewhere : Type 0 where
  pub lower : List ℕ → List ℕ
  pub quit_message : List ℕ → List ℕ
  pub handle_chat : (session : ℕ) (text : List ℕ) → Runtime → Runtime
  pub player_quit : (session : ℕ) → Runtime → Runtime

abbrev pub assign {ℓ} : {A : Type ℓ} → ℕ → A → (ℕ → A) → ℕ → A
assign i a f j = if j == i then a else f j

-- `runtimePlayerActive`
abbrev pub runtime_player_active : (session : ℕ) → Runtime → Bool
runtime_player_active i r = is_state (r.session i).state play && (r.session i).registered

-- A session that Close has just closed, and that is registered, posts its removal.
unfoldable pub update_session : (session : ℕ) → Session → Runtime → Runtime
unfolding post_critical
update_session i s' r =
    let s = r.session i in
    let r' : Runtime = record r { session = assign i s' r.session } in
    if (s'.close_once && not s.close_once) && s.registered
    then record r' { mailbox = (post_critical r.mailbox (remove_player i)).1 }
    else r'

unfoldable pub send_to : (session id : ℕ) (payload : List ℕ) → Runtime → Runtime
unfolding update_session send_packet
send_to i id payload r = update_session i (send_packet id payload (r.session i)).1 r

unfoldable pub disconnect : (session : ℕ) → Runtime → Runtime
unfolding update_session close
disconnect i r = update_session i (close (r.session i)) r

-- Calls of SendPacket whose results are not used.
unfoldable pub send_each : (session : ℕ) → List PacketOut → Runtime → Runtime
unfolding send_to
send_each i [] r = r
send_each i (p ∷ ps) r = send_each i ps (send_to i p.id p.payload r)

-- The Range over the players: `to` is the condition on the session.
unfoldable pub broadcast : (to : ℕ → Bool) → List PacketOut → List (List ℕ × ℕ) → Runtime → Runtime
unfolding send_each
broadcast to packets [] r = r
broadcast to packets ((k, j) ∷ ps) r =
    broadcast to packets ps
      (if to j && is_state (r.session j).state play then send_each j packets r else r)

abbrev pub one_packet : (id : ℕ) (payload : List ℕ) → List PacketOut
one_packet id payload = record { id = id; payload = payload } ∷ []

abbrev pub everyone : ℕ → Bool
everyone j = true

abbrev pub all_but : ℕ → ℕ → Bool
all_but i j = not (j == i)

abbrev pub entity_move : (sender : ℕ) → Runtime → List PacketOut
entity_move i r =
    let p = r.pose i in
    one_packet 0x23 (
      build_entity_position_sync (r.session i).entity_id p.x p.y p.z p.yaw p.pitch
        (not (p.on_ground == 0)))

unfoldable pub broadcast_entity_move : (sender : ℕ) → Runtime → Runtime
unfolding broadcast
broadcast_entity_move i r = broadcast (all_but i) (entity_move i r) r.players r
