-- ===== src/World.antt =====
-- world.go: the blocks and the clock of the world, which the tick goroutine owns. An int64 is its
-- two's complement pattern, a number below 2 ^ 64, and so are the coordinates, Go's int.
pub mod Clock
pub mod Blocks
mod Tests
use cyu_core.Base.{
  ℕ, zero, suc, ◌+◌, ◌-◌, ◌*◌, ◌/◌, ◌%◌, ◌^◌, Bool, ◌&&◌, ◌||◌, Option, none, some, List, [], ◌∷◌,
  ltb, leb, ◌==◌, if◌then◌else◌,
}

abbrev pub block_air : ℕ
block_air = 0

abbrev pub block_grass : ℕ
block_grass = 9

abbrev pub block_stone_bricks : ℕ
block_stone_bricks = 330

abbrev pub block_glowstone : ℕ
block_glowstone = 296

pub record BlockPos : Type 0 where
  pub x : ℕ
  pub y : ℕ
  pub z : ℕ

-- The map of modified blocks is the function of its lookups. The spawn point is the bits of three
-- float64 values.
pub record World : Type 0 where
  pub modified_blocks : BlockPos → Option ℕ
  pub world_age : ℕ
  pub time_of_day : ℕ
  pub spawn_x : ℕ
  pub spawn_y : ℕ
  pub spawn_z : ℕ

unfoldable pub same_pos : BlockPos → BlockPos → Bool
same_pos p q = (p.x == q.x) && ((p.y == q.y) && (p.z == q.z))

unfoldable pub store : BlockPos → ℕ → (BlockPos → Option ℕ) → BlockPos → Option ℕ
store p block blocks q = if same_pos p q then some block else blocks q

-- The `switch` of initSpawnPlatform.
unfoldable pub platform_block : (x z : ℕ) → ℕ
platform_block x z =
    if ((x == 0) || (x == 15)) || ((z == 0) || (z == 15))
    then block_glowstone
    else if (x + z) % 2 == 0
    then block_stone_bricks
    else block_grass

-- The two loops of initSpawnPlatform, from x = 16 - rows and z = 16 - left on.
unfoldable pub platform_row : (x left : ℕ) → (BlockPos → Option ℕ) → BlockPos → Option ℕ
unfolding store platform_block
platform_row x zero blocks = blocks
platform_row x (suc left) blocks =
    let z = 15 - left in
    platform_row x left (store (record { x = x; y = 64; z = z }) (platform_block x z) blocks)

unfoldable pub platform_rows : (rows : ℕ) → (BlockPos → Option ℕ) → BlockPos → Option ℕ
unfolding platform_row
platform_rows zero blocks = blocks
platform_rows (suc rows) blocks = platform_rows rows (platform_row (15 - rows) 16 blocks)

unfoldable pub new_world : (spawn_x spawn_y spawn_z : ℕ) → World
unfolding platform_rows
new_world sx sy sz = record {
  modified_blocks = platform_rows 16 (λ p. none);
  world_age = 0;
  time_of_day = 0;
  spawn_x = sx;
  spawn_y = sy;
  spawn_z = sz;
}

-- `0 <= x && x < 16` on a pattern: a negative number has the sign bit.
unfoldable pub get_block : (x y z : ℕ) → World → ℕ
get_block x y z w = elim (w.modified_blocks (record { x = x; y = y; z = z })) [
  | some block ↦ block
  | none ↦ if (y == 64) && (ltb x 16 && ltb z 16) then block_stone_bricks else block_air
]

unfoldable pub set_block : (x y z block : ℕ) → World → World
unfolding store
set_block x y z block w = record {
  modified_blocks = store (record { x = x; y = y; z = z }) block w.modified_blocks;
  world_age = w.world_age;
  time_of_day = w.time_of_day;
  spawn_x = w.spawn_x;
  spawn_y = w.spawn_y;
  spawn_z = w.spawn_z;
}

-- Go's `%` on an int64 has the sign of the dividend.
unfoldable pub int64_rem : (a m : ℕ) → ℕ
int64_rem a m = if leb (2 ^ 63) a then (2 ^ 64 - (2 ^ 64 - a) % m) % 2 ^ 64 else a % m

unfoldable pub normalize_time_of_day : ℕ → ℕ
unfolding int64_rem
normalize_time_of_day tod =
    let rem = int64_rem tod 24000 in if leb (2 ^ 63) rem then (rem + 24000) % 2 ^ 64 else rem

abbrev set_clock : (age tod : ℕ) → World → World
set_clock age tod w = record {
  modified_blocks = w.modified_blocks;
  world_age = age;
  time_of_day = tod;
  spawn_x = w.spawn_x;
  spawn_y = w.spawn_y;
  spawn_z = w.spawn_z;
}

-- AdvanceTime; its results are the two fields.
unfoldable pub advance_time : ℕ → World → World
unfolding normalize_time_of_day
advance_time ticks w =
    set_clock ((w.world_age + ticks) % 2 ^ 64)
      (normalize_time_of_day ((w.time_of_day + ticks) % 2 ^ 64)) w

unfoldable pub set_time_of_day : ℕ → World → World
unfolding normalize_time_of_day
set_time_of_day tod w = set_clock w.world_age (normalize_time_of_day tod) w
