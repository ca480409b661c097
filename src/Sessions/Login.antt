-- ===== src/Sessions/Login.antt =====
-- session_login.go from the status to the game, and the read loop of session.go.
use cyu_core.Base.{
  ℕ, ◌-◌, ◌^◌, Bool, true, false, not, ◌||◌, Option, none, some, List, [], ◌∷◌, ◌++◌, leb, ◌==◌,
  if◌then◌else◌, length, take, ok, err,
}
use cyu_core.Chunk.{write_var_int, build_chunk_packet}
use cyu_core.Packets.{
  build_login_success, build_known_packs, build_play_login, build_player_position_sync,
  build_center_chunk, build_player_info_add, build_game_event_waiting_chunks,
}
use cyu_core.Sessions.{
  SessionState, handshake, status, login, config, play, closed, play_pending, is_state, PacketOut,
  Session, transition_state, close, send_packet, send_packets, write_step,
}
use cyu_core.Sessions.Play.{handle_play}
use cyu_core.Sessions.Handshake.{
  reads, writes, enters, sends, removed, closes, Environment, version, make_offline_uuid,
  handle_handshake, after_string, name_of, SessionEvent,
}

module _ (env : Environment) where
  unfoldable pub handle_status : (packet_id : ℕ) → List ℕ → Session → Session
  unfolding send_packet
  handle_status id payload s =
      if id == 0
      then (send_packet 0 env.status_response s).1
      else if id == 1
      then (send_packet 1 payload s).1
      else s

  unfoldable pub handle_login_start : List ℕ → Session → Session
  unfolding name_of after_string make_offline_uuid send_packet build_login_success
  handle_login_start payload s =
      let name = name_of payload in
      let rest = after_string payload in
      let uuid = if leb 16 (length rest) then take 16 rest else make_offline_uuid env.md5 name in
      (send_packet 2 (build_login_success s.client_proto uuid name)
        (record s { username = name; uuid = uuid })).1

  unfoldable pub handle_login : (packet_id : ℕ) → List ℕ → Session → Session
  unfolding handle_login_start transition_state send_packet build_known_packs
  handle_login id payload s =
      let (moved, s') = transition_state login config s in
      if id == 0
      then handle_login_start payload s
      else if id == 3
      then (if moved then (send_packet 0x0e (build_known_packs version) s').1 else s')
      else s

  abbrev pub registry_packets : List (List ℕ) → List PacketOut
  registry_packets [] = []
  registry_packets (p ∷ ps) = record { id = 0x07; payload = p } ∷ registry_packets ps

  unfoldable pub send_configuration : Session → Bool × Session
  unfolding send_packets
  send_configuration s = elim env.configuration [
    | none ↦ (false, s)
    | some (registry_data, update_tags) ↦
        send_packets
          (registry_packets registry_data
            ++ (record { id = 0x0d; payload = update_tags }
                ∷ record { id = 0x03; payload = [] }
                ∷ []))
          s
  ]

  unfoldable pub handle_known_packs : Session → Session
  unfolding close send_configuration
  handle_known_packs s =
      let (sent, s') = send_configuration (record s { configuration_sent = true }) in
      if s.configuration_sent then close s else if sent then s' else close s'

  -- `posted` is whether the mailbox took the event.
  unfoldable pub handle_finish : (posted : Bool) → Session → Session
  unfolding close transition_state
  handle_finish posted s =
      let (moved, s') = transition_state config play_pending s in
      if not s.configuration_sent
      then close s
      else if not moved
      then s'
      else if posted
      then s'
      else close s'

  unfoldable pub handle_config : (packet_id : ℕ) (posted : Bool) → Session → Session
  unfolding handle_known_packs handle_finish
  handle_config id posted s =
      if id == 0x07 then handle_known_packs s else if id == 0x03 then handle_finish posted s else s

  abbrev chunk_packet : (cx cz : ℕ) → PacketOut
  chunk_packet cx cz = record { id = 0x2d; payload = build_chunk_packet cx cz env.platform_block }

  -- The chunks of the two loops; `minus_one` is the pattern of -1.
  abbrev chunk_packets : List PacketOut
  chunk_packets =
      let minus_one : ℕ = 2 ^ 64 - 1 in
      chunk_packet minus_one minus_one
      ∷ chunk_packet minus_one 0
      ∷ chunk_packet minus_one 1
      ∷ chunk_packet 0 minus_one
      ∷ chunk_packet 0 0
      ∷ chunk_packet 0 1
      ∷ chunk_packet 1 minus_one
      ∷ chunk_packet 1 0
      ∷ chunk_packet 1 1
      ∷ []

  -- `sendInitialPlayPackets`, at the position that enterPlay has just set.
  unfoldable pub initial_play_packets : Session → List PacketOut
  unfolding build_chunk_packet build_play_login build_player_position_sync build_center_chunk
      build_player_info_add build_game_event_waiting_chunks write_var_int
  initial_play_packets s =
      record { id = 0x31; payload = build_play_login s.entity_id env.max_players s.game_mode true }
      ∷ record {
        id = 0x48;
        payload = build_player_position_sync 1 env.spawn_x env.spawn_y env.spawn_z 0 0;
      }
      ∷ record { id = 0x5e; payload = build_center_chunk 0 0 }
      ∷ record { id = 0x0c; payload = [] }
      ∷ (chunk_packets
          ++ (record { id = 0x0b; payload = write_var_int 9 }
              ∷ record { id = 0x46; payload = build_player_info_add s.uuid s.username s.game_mode }
              ∷ record { id = 0x26; payload = build_game_event_waiting_chunks }
              ∷ []))

  -- What AddPlayer and the welcome do with the session: `none` if a player of the name is there, else
  -- the packets that they send it, whose results are not used.
  unfoldable pub add_player :
      (admitted : Option (List PacketOut)) → (disconnect : List ℕ) → Session → Session
  unfolding send_packet send_packets close
  add_player none disconnect s = close (send_packet 0x20 disconnect s).1
  add_player (some packets) disconnect s = (send_packets packets (record s { registered = true })).1

  unfoldable pub enter_play :
      (admitted : Option (List PacketOut)) → (disconnect : List ℕ) → Session → Session
  unfolding transition_state send_packets initial_play_packets close add_player
  enter_play admitted disconnect s =
      let placed : Session = record s { game_mode = env.game_mode } in
      let (moved, s') = transition_state play_pending play placed in
      let (sent, s'') = send_packets (initial_play_packets s') s' in
      if not (is_state s.state play_pending) || s.close_once
      then s
      else if not moved
      then s'
      else if not sent
      then close s''
      else if not (is_state s''.state play) || s''.close_once
      then s''
      else add_player admitted disconnect s''

  -- postPlayerRuntime of what handlePlay decodes; `posted` as in handle_finish.
  unfoldable pub post_play : (packet_id : ℕ) → List ℕ → (posted : Bool) → Session → Session
  unfolding handle_play close
  post_play id payload posted s = elim (handle_play id payload) [
    | err e ↦ s
    | ok r ↦ if not (is_state s.state play) then s else if posted then s else close s
  ]

  -- One round of the read loop with a packet.
  unfoldable pub handle_packet :
      SessionState → (packet_id : ℕ) → List ℕ → (posted : Bool) → Session → Session
  unfolding handle_handshake handle_status handle_login handle_config post_play close
  handle_packet handshake id payload posted s = handle_handshake id payload s
  handle_packet status id payload posted s = handle_status id payload s
  handle_packet login id payload posted s = handle_login id payload s
  handle_packet config id payload posted s = handle_config id posted s
  handle_packet play id payload posted s = post_play id payload posted s
  handle_packet play_pending id payload posted s = s
  handle_packet closed id payload posted s = close s

  unfoldable pub happen : SessionEvent → Session → Session
  unfolding handle_packet write_step enter_play send_packet close
  happen (reads id payload posted) s = handle_packet s.state id payload posted s
  happen (writes written) s = write_step written s
  happen (enters admitted disconnect) s = enter_play admitted disconnect s
  happen (sends p) s = if is_state s.state play then (send_packet p.id p.payload s).1 else s
  happen removed s = record s { registered = false }
  happen closes s = close s

  unfoldable pub run_session : List SessionEvent → Session → Session
  unfolding happen
  run_session [] s = s
  run_session (e ∷ es) s = run_session es (happen e s)
