-- ===== src/Players/Snapshot/Tests.antt =====
-- Interleavings of a writer and a reader, and the theorems at inputs that meet their conditions.
use cyu_core.Base.{◌^◌, ◌<◌, ◌≡◌, refl, List, [], ◌∷◌, ◌++◌, arith}
use cyu_core.Players.Snapshot.{
  Snapshot, idle, waiting, loading, returned, new_store, begin_store, next_store, next_load, Event,
  begins, stores, loads, run,
}
use cyu_core.Players.Snapshot.Coherent.{load_coherent, load_ends, one_load}

program : Unit {0}
unfolding begin_store next_store next_load run
program = tt

abbrev a_snapshot : Snapshot
a_snapshot = record { game_mode = 1; x = 2; y = 3; z = 4; yaw = 5; pitch = 6; on_ground = 1 }

abbrev one_store : List Event
one_store =
    begins a_snapshot ∷ stores ∷ stores ∷ stores ∷ stores ∷ stores ∷ stores ∷ stores ∷ stores ∷ []

-- Everything of a Load but its last step.
abbrev almost : List Event
almost = loads ∷ loads ∷ loads ∷ loads ∷ loads ∷ loads ∷ loads ∷ loads ∷ []

-- A Load that begins before a Store and meets it half way starts again.
torn_load : (run (almost ++ (one_store ++ (loads ∷ []))) new_store).reader ≡ waiting
unfolding program
torn_load = refl

-- A Load does not begin while a Store runs.
blocked_load : (run (begins a_snapshot ∷ stores ∷ loads ∷ []) new_store).reader ≡ waiting
unfolding program
blocked_load = refl

small : (run (one_store ++ almost) new_store).sequence < 2 ^ 64
unfolding program
small = omega arith

copied : (run (one_store ++ almost) new_store).reader ≡ loading 2 7 a_snapshot
unfolding program
copied = refl

returns :
    let s = run (one_store ++ almost) new_store in
    (next_load s.reader s).reader ≡ returned a_snapshot
unfolding program
returns = refl

load_coherent_example : a_snapshot ≡ (run (one_store ++ almost) new_store).published
load_coherent_example =
    load_coherent (one_store ++ almost) 2 7 a_snapshot a_snapshot small copied returns

small_stored : (run one_store new_store).sequence < 2 ^ 64
unfolding program
small_stored = omega arith

stored_idle : (run one_store new_store).writer ≡ idle
unfolding program
stored_idle = refl

stored_waiting : (run one_store new_store).reader ≡ waiting
unfolding program
stored_waiting = refl

load_ends_example :
    (run one_load (run one_store new_store)).reader ≡ returned (run one_store new_store).published
load_ends_example = load_ends one_store small_stored stored_idle stored_waiting
