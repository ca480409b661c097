-- ===== src/Players/Snapshot.antt =====
-- playerSnapshotStore of player_state.go. Go's atomics are sequentially consistent, so each of them is
-- one step, and the steps of the one writer and of a reader interleave in any order.
pub mod Sound
pub mod Coherent
mod Tests
use cyu_core.Base.{
  ℕ, zero, suc, ◌+◌, ◌%◌, ◌^◌, Bool, ◌&&◌, not, List, [], ◌∷◌, ltb, ◌==◌, if◌then◌else◌,
}

-- The game mode is the pattern of an int32, the floats are their bits, the Boolean is 0 or 1.
pub record Snapshot : Type 0 where
  pub game_mode : ℕ
  pub x : ℕ
  pub y : ℕ
  pub z : ℕ
  pub yaw : ℕ
  pub pitch : ℕ
  pub on_ground : ℕ

abbrev pub zero_snapshot : Snapshot
zero_snapshot = record { game_mode = 0; x = 0; y = 0; z = 0; yaw = 0; pitch = 0; on_ground = 0 }

-- The k-th atomic in the order in which Store and Load go through them, from 0.
abbrev pub get_field : ℕ → Snapshot → ℕ
get_field zero s = s.game_mode
get_field (suc zero) s = s.x
get_field (suc (suc zero)) s = s.y
get_field (suc (suc (suc zero))) s = s.z
get_field (suc (suc (suc (suc zero)))) s = s.yaw
get_field (suc (suc (suc (suc (suc zero))))) s = s.pitch
get_field (suc (suc (suc (suc (suc (suc k)))))) s = s.on_ground

abbrev pub set_field : ℕ → ℕ → Snapshot → Snapshot
set_field zero v s = record s { game_mode = v }
set_field (suc zero) v s = record s { x = v }
set_field (suc (suc zero)) v s = record s { y = v }
set_field (suc (suc (suc zero))) v s = record s { z = v }
set_field (suc (suc (suc (suc zero)))) v s = record s { yaw = v }
set_field (suc (suc (suc (suc (suc zero))))) v s = record s { pitch = v }
set_field (suc (suc (suc (suc (suc (suc k)))))) v s = record s { on_ground = v }

-- `storing target k`: Store has made the sequence odd and has stored k of the seven values.
pub data Writer : Type 0 where
  idle : Writer
  storing : (target : Snapshot) (k : ℕ) → Writer

-- `loading start k copy`: Load has read an even sequence and k of the seven values.
pub data Reader : Type 0 where
  waiting : Reader
  loading : (start k : ℕ) (copy : Snapshot) → Reader
  returned : Snapshot → Reader

-- `sequence` counts all additions: the atomic holds it modulo 2 ^ 64. `published` is the snapshot of
-- the last Store that has returned, which the code does not keep.
pub record State : Type 0 where
  pub sequence : ℕ
  pub memory : Snapshot
  pub writer : Writer
  pub published : Snapshot
  pub reader : Reader

abbrev pub new_store : State
new_store = record {
  sequence = 0;
  memory = zero_snapshot;
  writer = idle;
  published = zero_snapshot;
  reader = waiting;
}

-- The call of Store with its first addition. There is one writer, which calls it when it is idle.
unfoldable pub begin_store : Writer → Snapshot → State → State
begin_store idle target s = record s { sequence = s.sequence + 1; writer = storing target 0 }
begin_store (storing old k) target s = s

-- The next step of Store: one of the seven values, or the second addition.
unfoldable pub next_store : Writer → State → State
next_store idle s = s
next_store (storing target k) s =
    if ltb k 7
    then record s {
      memory = set_field k (get_field k target) s.memory;
      writer = storing target (suc k);
    }
    else record s { sequence = s.sequence + 1; writer = idle; published = target }

-- The next step of Load; a call that has returned is followed by another one.
unfoldable pub next_load : Reader → State → State
next_load waiting s =
    let start = s.sequence % 2 ^ 64 in
    if start % 2 == 0 then record s { reader = loading start 0 zero_snapshot } else s
next_load (loading start k copy) s =
    let end = s.sequence % 2 ^ 64 in
    if ltb k 7
    then record s { reader = loading start (suc k) (set_field k (get_field k s.memory) copy) }
    else if (start == end) && (end % 2 == 0)
    then record s { reader = returned copy }
    else record s { reader = waiting }
next_load (returned copy) s = record s { reader = waiting }

pub data Event : Type 0 where
  begins : Snapshot → Event
  stores loads : Event

unfoldable pub run : List Event → State → State
unfolding begin_store next_store next_load
run [] s = s
run (begins target ∷ es) s = run es (begin_store s.writer target s)
run (stores ∷ es) s = run es (next_store s.writer s)
run (loads ∷ es) s = run es (next_load s.reader s)
