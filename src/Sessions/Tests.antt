-- ===== src/Sessions/Tests.antt =====
-- Sessions that run to the game, or that break the order of the packets.
use cyu_core.Base.{◌≤◌, ◌≡◌, refl, true, false, some, List, [], ◌∷◌, ◌++◌, length}
use cyu_core.Stream.{read_full}
use cyu_core.Protocol.{read_var_int_loop, read_var_int, read_string}
use cyu_core.Sessions.{login, play, closed, is_state, new_player_session}
use cyu_core.Sessions.Login.{run_session}
use cyu_core.Sessions.Handshake.{Environment, SessionEvent, reads, enters, closes}
use cyu_core.Sessions.Sound.{was_queued, IsOrdered}
use cyu_core.Sessions.Ordered.{run_session-IsOrdered}

program : Unit {0}
unfolding run_session was_queued read_var_int_loop read_var_int read_string read_full
program = tt

-- A server whose hash is always the same and whose configuration has two registries.
abbrev a_server : Environment
a_server = record {
  md5 = λ bs. 0 ∷ 1 ∷ 2 ∷ 3 ∷ 4 ∷ 5 ∷ 6 ∷ 7 ∷ 8 ∷ 9 ∷ 10 ∷ 11 ∷ 12 ∷ 13 ∷ 14 ∷ 15 ∷ [];
  status_response = [];
  max_players = 20;
  game_mode = 1;
  spawn_x = 0;
  spawn_y = 0;
  spawn_z = 0;
  platform_block = 1;
  configuration = some ((1 ∷ []) ∷ (2 ∷ []) ∷ [], 3 ∷ []);
}

-- The handshake of a client of protocol 5 that goes on to log in.
abbrev greets : SessionEvent
greets = reads 0 (5 ∷ 1 ∷ 0x61 ∷ 0x63 ∷ 0xdd ∷ 2 ∷ []) true

abbrev logs_in : List SessionEvent
logs_in = greets ∷ reads 0 (1 ∷ 0x62 ∷ []) true ∷ reads 3 [] true ∷ []

abbrev configures : List SessionEvent
configures = logs_in ++ (reads 7 [] true ∷ reads 3 [] true ∷ [])

abbrev joins : List SessionEvent
joins = configures ++ (enters (some []) [] ∷ [])

greeted : (run_session a_server (greets ∷ []) (new_player_session 1)).state ≡ login
unfolding program
greeted = refl

-- The version and the variant of a UUID that is made of the name.
named :
    (run_session a_server logs_in (new_player_session 1)).uuid
    ≡ 0 ∷ 1 ∷ 2 ∷ 3 ∷ 4 ∷ 5 ∷ 0x36 ∷ 7 ∷ 0x88 ∷ 9 ∷ 10 ∷ 11 ∷ 12 ∷ 13 ∷ 14 ∷ 15 ∷ []
unfolding program
named = refl

configured :
    (run_session a_server configures (new_player_session 1)).queued
    ≡ 0x03 ∷ 0x0d ∷ 0x07 ∷ 0x07 ∷ 0x0e ∷ 0x02 ∷ []
unfolding program
configured = refl

joined : (run_session a_server joins (new_player_session 1)).state ≡ play
unfolding program
joined = refl

-- FinishConfiguration of a client that has not been sent the configuration.
too_early :
    (run_session a_server (logs_in ++ (reads 3 [] true ∷ [])) (new_player_session 1)).state ≡ closed
unfolding program
too_early = refl

-- A second request for the configuration.
asked_twice :
    (run_session a_server
      (logs_in ++ (reads 7 [] true ∷ reads 7 [] true ∷ []))
      (new_player_session 1)).state
    ≡ closed
unfolding program
asked_twice = refl

-- A client that is closed while its entry waits for the runtime owner does not come back.
stays_closed :
    (run_session a_server
      (configures ++ (closes ∷ enters (some []) [] ∷ []))
      (new_player_session 1)).state
    ≡ closed
unfolding program
stays_closed = refl

-- The mailbox is full.
not_posted :
    (run_session a_server
      (logs_in ++ (reads 7 [] true ∷ reads 3 [] false ∷ []))
      (new_player_session 1)).state
    ≡ closed
unfolding program
not_posted = refl

run_session-IsOrdered_example :
    let s = run_session a_server joins (new_player_session 1) in
    (length s.queue ≤ 128)
    × IsOrdered s.queued
    × (is_state s.state play ≡ true → was_queued 0x03 s.queued ≡ true)
    × (is_state s.state closed ≡ s.close_once)
run_session-IsOrdered_example = run_session-IsOrdered a_server 1 joins
