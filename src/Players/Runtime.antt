-- ===== src/Players/Runtime.antt =====
-- What the runtime owner does with the events of the mailbox: drainRuntimeEvents, applyRuntimeEvent and
-- what they call in player_state.go, with removePlayerOwned and the broadcasts of server.go. Of the events,
-- EnterPlay (Sessions.Login has its handler) and the barrier, which closes a channel, are left out.
pub mod Sent
pub mod Calm
pub mod Blocks
mod Tests
use cyu_core.Base.{
  ℕ, zero, suc, ◌+◌, ◌-◌, ◌%◌, ◌^◌, Bool, true, false, not, ◌&&◌, ◌||◌, Option, none, some, List,
  [], ◌∷◌, ltb, leb, ◌==◌, if◌then◌else◌,
}
use cyu_core.Mailbox.{Queue, try_post, post_critical, try_pop}
use cyu_core.World.{World, block_air, set_block}
use cyu_core.Packets.{
  build_player_position_sync, build_player_info_remove, build_entity_position_sync,
  build_remove_entities, build_animate, build_block_update, build_block_changed_ack,
}
use cyu_core.Packets.Chat.{build_system_chat_message}
use cyu_core.Sessions.{Session, PacketOut, play, is_state, close, send_packet}
use cyu_core.Sessions.Play.{
  Move, PlayerEvent, player_move, player_chat, player_animation, break_block, place_block,
}
use cyu_core.Players.Snapshot.{Snapshot}
use cyu_core.Players.Roster.{compare_and_delete}
use cyu_core.Players.Runtime.Sent.{
  player_event, remove_player, RuntimeEvent, Runtime, Elsewhere, assign, runtime_player_active,
  update_session, send_to, disconnect, send_each, broadcast, one_packet, everyone, all_but,
  entity_move, broadcast_entity_move,
}

unfoldable pub publish_snapshot : (session : ℕ) → Runtime → Runtime
publish_snapshot i r = record r {
  published =
      assign i (record (r.pose i) { game_mode = (r.session i).game_mode % 2 ^ 32 }) r.published;
}

unfoldable pub teleport : (session x y z yaw pitch : ℕ) → Runtime → Runtime
unfolding publish_snapshot send_to broadcast_entity_move build_player_position_sync
teleport i x y z yaw pitch r =
    let seq = (r.teleport_seq i + 1) % 2 ^ 64 in
    let p : Snapshot = record (r.pose i) { x = x; y = y; z = z; yaw = yaw; pitch = pitch } in
    let moved : Runtime = record r {
      teleport_seq = assign i seq r.teleport_seq;
      pose = assign i p r.pose;
    } in
    broadcast_entity_move i
      (send_to i 0x48 (build_player_position_sync seq x y z yaw pitch) (publish_snapshot i moved))

-- `y < -10.0` on the bits of a float64: the negative numbers from -10.0 down to the infinite one.
abbrev pub below_void : ℕ → Bool
below_void y = ltb 0xc024000000000000 y && leb y 0xfff0000000000000

abbrev pub moved : Move → Snapshot → Snapshot
moved m p =
    let placed : Snapshot = elim m.position [
      | none ↦ p
      | some (x, y, z) ↦ record p { x = x; y = y; z = z }
    ] in
    let turned : Snapshot = elim m.rotation [
      | none ↦ placed
      | some (yaw, pitch) ↦ record placed { yaw = yaw; pitch = pitch }
    ] in
    record turned { on_ground = if m.on_ground then 1 else 0 }

-- The code points of the message to a player who fell.
abbrev fell_message : List ℕ
fell_message =
    0x26 ∷ 0x65 ∷ 0x5b ∷ 0x4fdd ∷ 0x62a4 ∷ 0x5d ∷ 0x20 ∷ 0x4f60 ∷ 0x5df2 ∷ 0x5760 ∷ 0x5165 ∷ 0x865a
    ∷ 0x7a7a ∷ 0xff0c ∷ 0x5df2 ∷ 0x81ea ∷ 0x52a8 ∷ 0x5c06 ∷ 0x4f60 ∷ 0x62c9 ∷ 0x56de ∷ 0x51fa
    ∷ 0x751f ∷ 0x70b9 ∷ 0x5e73 ∷ 0x53f0 ∷ 0xff01 ∷ []

abbrev pub place_player : (session : ℕ) → Snapshot → Runtime → Runtime
place_player i p r = record r { pose = assign i p r.pose }

-- What happens to a player who is below the world.
unfoldable pub rescue : (session : ℕ) → Snapshot → Runtime → Runtime
unfolding teleport send_to build_system_chat_message
rescue i p r =
    let w = r.world in
    send_to i 0x79 (build_system_chat_message fell_message)
      (teleport i w.spawn_x w.spawn_y w.spawn_z p.yaw p.pitch r)

unfoldable pub show_move : (session : ℕ) → Runtime → Runtime
unfolding publish_snapshot broadcast_entity_move
show_move i r = broadcast_entity_move i (publish_snapshot i r)

unfoldable pub apply_player_move : (session : ℕ) → Move → Runtime → Runtime
unfolding rescue show_move
apply_player_move i m r =
    let p = moved m (r.pose i) in
    let there = place_player i p r in if below_void p.y then rescue i p there else show_move i there

abbrev pub block_packet : (x y z block : ℕ) → List PacketOut
block_packet x y z block = one_packet 0x08 (build_block_update x y z block)

-- A sequence below 0 is not acknowledged.
unfoldable pub change_block : (session x y z block sequence : ℕ) → Runtime → Runtime
unfolding set_block broadcast send_to build_block_changed_ack
change_block i x y z block seq r =
    let r' : Runtime = record r { world = set_block x y z block r.world } in
    let told = broadcast everyone (block_packet x y z block) r'.players r' in
    if leb (2 ^ 63) seq then told else send_to i 0x04 (build_block_changed_ack seq) told

-- A drain of the owner, and what network goroutines do between two drains.
pub data Happening : Type 0 where
  drains : (limit : ℕ) → Happening
  posts : (session : ℕ) → PlayerEvent → Happening
  closes : (session : ℕ) → Happening

abbrev pub animation_packet : (session animation : ℕ) → Runtime → List PacketOut
animation_packet i a r = one_packet 0x02 (build_animate (r.session i).entity_id a)

abbrev pub quit_packets : Session → List PacketOut
quit_packets s =
    record { id = 0x4d; payload = build_remove_entities (s.entity_id ∷ []) }
    ∷ record { id = 0x46; payload = build_player_info_remove s.uuid }
    ∷ []

abbrev pub unlist_player : (session : ℕ) → List (List ℕ × ℕ) → Runtime → Runtime
unlist_player i rest r = record r {
  session = assign i (record (r.session i) { registered = false }) r.session;
  players = rest;
}

-- `onlineCount.Add(-1)`
abbrev pub one_fewer : Runtime → Runtime
one_fewer r = record r { online_count = (r.online_count + (2 ^ 32 - 1)) % 2 ^ 32 }

module _ (other : Elsewhere) where
  unfoldable pub apply_active : (session : ℕ) → PlayerEvent → Runtime → Runtime
  unfolding apply_player_move broadcast change_block
  apply_active i (player_move m) r = apply_player_move i m r
  apply_active i (player_chat text) r = other.handle_chat i text r
  apply_active i (player_animation a) r = broadcast (all_but i) (animation_packet i a r) r.players r
  apply_active i (break_block x y z seq) r = change_block i x y z block_air seq r
  apply_active i (place_block x y z block seq) r = change_block i x y z block seq r

  abbrev pub quit_message_packet : Session → List PacketOut
  quit_message_packet s =
      one_packet 0x79 (build_system_chat_message (other.quit_message s.username))

  -- What removePlayerOwned does when the player map had the session.
  unfoldable pub announce_quit : (session : ℕ) → Runtime → Runtime
  unfolding broadcast
  announce_quit i r =
      let s = r.session i in
      let told = other.player_quit i (broadcast everyone (quit_packets s) r.players r) in
      broadcast everyone (quit_message_packet s) told.players told

  unfoldable pub remove_owned : (session : ℕ) → Runtime → Runtime
  unfolding compare_and_delete announce_quit
  remove_owned i r =
      let s = r.session i in
      let (deleted, rest) = compare_and_delete (other.lower s.username) i r.players in
      let removed = unlist_player i rest r in
      if not s.registered
      then r
      else if deleted
      then announce_quit i (one_fewer removed)
      else removed

  unfoldable pub apply_runtime_event : RuntimeEvent → Runtime → Runtime
  unfolding apply_active remove_owned
  apply_runtime_event (player_event i e) r =
      if runtime_player_active i r then apply_active i e r else r
  apply_runtime_event (remove_player i) r = remove_owned i r

  -- The number of events that it returns is by how many `handled` grows.
  unfoldable pub drain_runtime_events : (limit : ℕ) → Runtime → Runtime
  unfolding try_pop apply_runtime_event
  drain_runtime_events zero r = r
  drain_runtime_events (suc n) r =
      let (popped, rest) = try_pop r.mailbox in
      elim popped [
        | none ↦ r
        | some e ↦
            drain_runtime_events n
              (apply_runtime_event e (record r { mailbox = rest; handled = e ∷ r.handled }))
      ]

  -- postPlayerRuntime, of a network goroutine.
  unfoldable pub post_player_event : (session : ℕ) → PlayerEvent → Runtime → Runtime
  unfolding try_post disconnect
  post_player_event i e r =
      let (posted, q) = try_post r.mailbox (player_event i e) in
      if not (is_state (r.session i).state play)
      then r
      else if posted
      then record r { mailbox = q }
      else disconnect i r

  unfoldable pub happen : Happening → Runtime → Runtime
  unfolding drain_runtime_events post_player_event disconnect
  happen (drains limit) r = drain_runtime_events limit r
  happen (posts i e) r = post_player_event i e r
  happen (closes i) r = disconnect i r

  unfoldable pub run_runtime : List Happening → Runtime → Runtime
  unfolding happen
  run_runtime [] r = r
  run_runtime (h ∷ hs) r = run_runtime hs (happen h r)
