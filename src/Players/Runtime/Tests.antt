-- ===== src/Players/Runtime/Tests.antt =====
-- Drains of small mailboxes, and the theorem on the blocks at one.
use cyu_core.Base.{ℕ, ◌≡◌, refl, true, false, none, some, List, [], ◌∷◌, if◌then◌else◌, ◌==◌, same}
use cyu_core.Mailbox.{new}
use cyu_core.World.{BlockPos, same_pos}
use cyu_core.Sessions.{Session, new_player_session, play}
use cyu_core.Sessions.Play.{Move, player_move, break_block, place_block}
use cyu_core.Players.Snapshot.{zero_snapshot}
use cyu_core.Players.Runtime.{Happening, drains, posts, closes, run_runtime}
use cyu_core.Players.Runtime.Sent.{Runtime, Elsewhere}
use cyu_core.Players.Runtime.Calm.{IsCalm, Calm-refl}
use cyu_core.Players.Runtime.Blocks.{last_asked, is_trusted, block_of, blocks_kept}

program : Unit {0}
unfolding run_runtime last_asked new same same_pos
program = tt

abbrev a_player : ℕ → Session
a_player i = record (new_player_session i) {
  state = play;
  registered = true;
  username = if i == 1 then 0x61 ∷ [] else 0x62 ∷ [];
}

-- Two players, "a" and "b", a mailbox for two events and no block that was changed.
abbrev start : Runtime
start = record {
  mailbox = new 2;
  world = record {
    modified_blocks = λ p. none;
    world_age = 0;
    time_of_day = 0;
    spawn_x = 1;
    spawn_y = 2;
    spawn_z = 3;
  };
  session = a_player;
  players = (0x61 ∷ [], 1) ∷ (0x62 ∷ [], 2) ∷ [];
  online_count = 2;
  pose = λ i. zero_snapshot;
  teleport_seq = λ i. 1;
  published = λ i. zero_snapshot;
  handled = [];
}

-- Chat and the plugins do nothing.
abbrev nothing_else : Elsewhere
nothing_else = record {
  lower = λ name. name;
  quit_message = λ name. name;
  handle_chat = λ i text r. r;
  player_quit = λ i r. r;
}

nothing_else-IsCalm : IsCalm nothing_else
nothing_else-IsCalm = record { calm_chat = λ i text r. Calm-refl r; calm_quit = λ i r. Calm-refl r }

abbrev here : BlockPos
here = record { x = 3; y = 64; z = 5 }

-- The first player breaks a block and leaves, the second one puts another there.
abbrev a_minute : List Happening
a_minute =
    posts 1 (break_block 3 64 5 7)
    ∷ posts 2 (place_block 3 64 5 330 8)
    ∷ drains 1
    ∷ closes 1
    ∷ drains 1024
    ∷ []

replaced : (run_runtime nothing_else a_minute start).world.modified_blocks here ≡ some 330
unfolding program
replaced = refl

-- The removal of the first player was handled before the event of the second.
one_left : (run_runtime nothing_else a_minute start).online_count ≡ 1
unfolding program
one_left = refl

-- The third event finds no room, and its player is disconnected.
no_room :
    ((run_runtime nothing_else
        (posts 1 (break_block 3 64 5 7)
          ∷ posts 1 (break_block 3 64 6 8)
          ∷ posts 2 (break_block 3 64 7 9)
          ∷ [])
        start).session
      2).close_once
    ≡ true
unfolding program
no_room = refl

abbrev a_fall : Move
a_fall = record { position = some (0, 0xc025000000000000, 0); rotation = none; on_ground = false }

-- A player at -10.5 is brought back to the spawn point.
rescued :
    ((run_runtime nothing_else (posts 1 (player_move a_fall) ∷ drains 1 ∷ []) start).published 1).y
    ≡ 2
unfolding program
rescued = refl

trusted :
    let r = run_runtime nothing_else a_minute start in
    is_trusted (last_asked here r.handled) r.session ≡ true
unfolding program
trusted = refl

blocks_kept_example :
    let r = run_runtime nothing_else a_minute start in
    r.world.modified_blocks here ≡ block_of (last_asked here r.handled) none
blocks_kept_example = blocks_kept nothing_else here a_minute start nothing_else-IsCalm refl trusted
