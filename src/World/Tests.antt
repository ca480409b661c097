-- ===== src/World/Tests.antt =====
-- Runs of the world on small inputs, and the theorems at inputs that meet their conditions.
use cyu_core.Base.{
  ◌+◌, ◌-◌, ◌%◌, ◌^◌, ◌<◌, ◌≤◌, ◌≡◌, refl, none, arith, if◌then◌else◌, ◌==◌, ◌&&◌, ltb,
}
use cyu_core.World.{
  World, same_pos, store, platform_block, platform_row, platform_rows, new_world, get_block,
  set_block, int64_rem, normalize_time_of_day, advance_time, set_time_of_day,
}
use cyu_core.World.Blocks.{get_block-new_world}
use cyu_core.World.Clock.{normalize_time_of_day_lem, ticks_of, advance_time_ticks}

program : Unit {0}
unfolding same_pos store platform_block platform_row platform_rows new_world get_block set_block
    int64_rem normalize_time_of_day advance_time set_time_of_day
program = tt

-- -1 is the last tick of the day.
minus_one : normalize_time_of_day (2 ^ 64 - 1) ≡ 23999
unfolding program
minus_one = refl

abbrev bare : World
bare = record {
  modified_blocks = λ p. none;
  world_age = 5;
  time_of_day = 23000;
  spawn_x = 0;
  spawn_y = 0;
  spawn_z = 0;
}

next_day : (advance_time 1500 bare).time_of_day ≡ 500
unfolding program
next_day = refl

corner : get_block 0 64 15 (new_world 0 0 0) ≡ 296
unfolding program
corner = refl

normalize_time_of_day_lem_example :
    (normalize_time_of_day (2 ^ 64 - 1) < 24000)
    × (2 ^ 64 - 1 < 2 ^ 63 → normalize_time_of_day (2 ^ 64 - 1) ≡ (2 ^ 64 - 1) % 24000)
    × (2 ^ 63 ≤ 2 ^ 64 - 1
        → (normalize_time_of_day (2 ^ 64 - 1) + (2 ^ 64 - (2 ^ 64 - 1))) % 24000 ≡ 0)
    × (normalize_time_of_day (normalize_time_of_day (2 ^ 64 - 1))
        ≡ normalize_time_of_day (2 ^ 64 - 1))
normalize_time_of_day_lem_example = normalize_time_of_day_lem (2 ^ 64 - 1) (omega arith)

advance_time_ticks_example :
    let w = ticks_of 1500 bare in
    (w.world_age ≡ (5 + 1500) % 2 ^ 64)
    × (w.time_of_day ≡ (23000 + 1500) % 24000)
    × (advance_time 1500 bare ≡ w)
advance_time_ticks_example = advance_time_ticks bare 1500 (omega arith) (omega arith) (omega arith)

get_block-new_world_example : get_block 3 64 4 (new_world 0 0 0) ≡ (
    if ((64 == 64) && ltb 3 16) && ltb 4 16
    then (if (ltb 0 3 && ltb 3 15) && (ltb 0 4 && ltb 4 15)
        then (if (3 + 4) % 2 == 1 then 9 else 330)
        else 296)
    else 0)
get_block-new_world_example = get_block-new_world 0 0 0 3 64 4
