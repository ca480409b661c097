-- ===== src/World/Clock.antt =====
-- The clock: the normal form of the time of day, and the ticks.
use cyu_core.Base.{ℕ, zero, suc, ◌+◌, ◌-◌, ◌%◌, ◌^◌, ◌≤◌, ◌<◌, ◌≡◌, ap, sym, ◌∙◌, arith}
use cyu_core.Base.Words.{IsU64}
use cyu_core.World.{World, int64_rem, normalize_time_of_day, advance_time}

normalize_time_of_day_bound : (tod : ℕ) → IsU64 tod → normalize_time_of_day tod < 24000
unfolding normalize_time_of_day int64_rem
normalize_time_of_day_bound tod h = ground arith

-- A time within the day is kept.
normalize_time_of_day_keeps : (tod : ℕ) → tod < 24000 → normalize_time_of_day tod ≡ tod
unfolding normalize_time_of_day int64_rem
normalize_time_of_day_keeps tod h = ground arith

-- The remainder is that of the signed number, whose sign bit counts for -2 ^ 64.
normalize_time_of_day_negative :
    (tod : ℕ) → IsU64 tod → 2 ^ 63 ≤ tod → (normalize_time_of_day tod + (2 ^ 64 - tod)) % 24000 ≡ 0
unfolding normalize_time_of_day int64_rem
normalize_time_of_day_negative tod h neg = ground arith

normalize_time_of_day_positive : (tod : ℕ) → tod < 2 ^ 63 → normalize_time_of_day tod ≡ tod % 24000
unfolding normalize_time_of_day int64_rem
normalize_time_of_day_positive tod h = ground arith

-- For every int64 the normal form is within the day and differs from the signed number by whole
-- days, and it is kept by a second normalisation.
pub normalize_time_of_day_lem :
    (tod : ℕ)
    → IsU64 tod
    → (normalize_time_of_day tod < 24000)
      × (tod < 2 ^ 63 → normalize_time_of_day tod ≡ tod % 24000)
      × (2 ^ 63 ≤ tod → (normalize_time_of_day tod + (2 ^ 64 - tod)) % 24000 ≡ 0)
      × (normalize_time_of_day (normalize_time_of_day tod) ≡ normalize_time_of_day tod)
normalize_time_of_day_lem tod h = (
  normalize_time_of_day_bound tod h,
  normalize_time_of_day_positive tod,
  normalize_time_of_day_negative tod h,
  normalize_time_of_day_keeps (normalize_time_of_day tod) (normalize_time_of_day_bound tod h),
)

-- The world after n ticks of the game, each of which calls AdvanceTime with 1.
unfoldable pub ticks_of : (n : ℕ) → World → World
ticks_of zero w = w
ticks_of (suc n) w = advance_time 1 (ticks_of n w)

-- Only the age and the time of day differ.
abbrev at_time : (age tod : ℕ) → World → World
at_time age tod w = record w { world_age = age; time_of_day = tod }

advance_time_lem :
    (w : World) (n : ℕ)
    → w.time_of_day < 24000
    → n < 2 ^ 62
    → advance_time n w ≡ at_time ((w.world_age + n) % 2 ^ 64) ((w.time_of_day + n) % 24000) w
unfolding advance_time
advance_time_lem w n day small =
    let same : (w.time_of_day + n) % 2 ^ 64 ≡ w.time_of_day + n = omega arith in
    ap (λ t. at_time ((w.world_age + n) % 2 ^ 64) t w)
      (ap normalize_time_of_day same
        ∙ normalize_time_of_day_positive (w.time_of_day + n) (omega arith))

ticks_of_lem :
    (w : World) (n : ℕ)
    → w.world_age < 2 ^ 64
    → w.time_of_day < 24000
    → ticks_of n w ≡ at_time ((w.world_age + n) % 2 ^ 64) ((w.time_of_day + n) % 24000) w
unfolding ticks_of
ticks_of_lem w zero age day =
    let same_age : w.world_age ≡ (w.world_age + 0) % 2 ^ 64 = omega arith in
    let same_time : w.time_of_day ≡ (w.time_of_day + 0) % 24000 = omega arith in
    ap (λ a. at_time a w.time_of_day w) same_age
    ∙ ap (λ t. at_time ((w.world_age + 0) % 2 ^ 64) t w) same_time
ticks_of_lem w (suc n) age day =
    let before = at_time ((w.world_age + n) % 2 ^ 64) ((w.time_of_day + n) % 24000) w in
    let same_age : (before.world_age + 1) % 2 ^ 64 ≡ (w.world_age + suc n) % 2 ^ 64 = omega arith in
    let same_time : (before.time_of_day + 1) % 24000 ≡ (w.time_of_day + suc n) % 24000 =
      omega arith in
    ap (advance_time 1) (ticks_of_lem w n age day)
    ∙ advance_time_lem before 1 (omega arith) (omega arith)
    ∙ ap (λ a. at_time a ((before.time_of_day + 1) % 24000) w) same_age
    ∙ ap (λ t. at_time ((w.world_age + suc n) % 2 ^ 64) t w) same_time

-- After n ticks, n below 2 ^ 62, each of which advances the time by 1, a world within its day is n
-- ticks older, modulo 2 ^ 64, its time of day is n later, modulo 24000, and it is the world that one
-- call of AdvanceTime with n gives, its blocks and its spawn point included.
pub advance_time_ticks :
    (w : World) (n : ℕ)
    → w.world_age < 2 ^ 64
    → w.time_of_day < 24000
    → n < 2 ^ 62
    → let w' = ticks_of n w in
      (w'.world_age ≡ (w.world_age + n) % 2 ^ 64)
      × (w'.time_of_day ≡ (w.time_of_day + n) % 24000)
      × (advance_time n w ≡ w')
advance_time_ticks w n age day small =
    let after = ticks_of_lem w n age day in
    (
      ap (λ (v : World). v.world_age) after,
      ap (λ (v : World). v.time_of_day) after,
      advance_time_lem w n day small ∙ sym after,
    )
