-- ===== src/World/Blocks.antt =====
-- The blocks: the platform of a new world, and what a change of one block leaves alone.
use cyu_core.Base.{
  ℕ, zero, suc, ◌+◌, ◌-◌, ◌%◌, ◌≤◌, ◌<◌, ◌≡◌, refl, ap, sym, ◌∙◌, true, false, ◌&&◌, Option, none,
  some, inl, inr, Bool-cases, arith, ltb, leb, ◌==◌, ==_iff, if◌then◌else◌,
}
use cyu_core.World.{
  BlockPos, World, same_pos, store, platform_block, platform_row, platform_rows, new_world,
  get_block, set_block, block_air,
}

abbrev pos : (x y z : ℕ) → BlockPos
pos a b c = record { x = a; y = b; z = c }

store_lem :
    (a c block : ℕ) (blocks : BlockPos → Option ℕ) (x y z : ℕ)
    → store (pos a 64 c) block blocks (pos x y z)
      ≡ (if ((x == a) && (y == 64)) && (z == c) then some block else blocks (pos x y z))
unfolding store same_pos
store_lem a c block blocks x y z = ground arith

-- The rounds for one x, from some z on.
platform_row_lem :
    (a left : ℕ) (blocks : BlockPos → Option ℕ) (x y z : ℕ)
    → left ≤ 16
    → platform_row a left blocks (pos x y z) ≡ (
        if ((x == a) && (y == 64)) && (leb (16 - left) z && ltb z 16)
        then some (platform_block a z)
        else blocks (pos x y z))
unfolding platform_row
platform_row_lem a zero blocks x y z h = ground arith
platform_row_lem a (suc left) blocks x y z h =
    let stored = store_lem a (15 - left) (platform_block a (15 - left)) blocks x y z in
    platform_row_lem a left (store (pos a 64 (15 - left)) (platform_block a (15 - left)) blocks) x y
      z (omega arith)
    ∙ elim (Bool-cases (z == (15 - left))) [
      | inl e ↦ let block = ap (platform_block a) ((==_iff z (15 - left)).0 e) in ground arith
      | inr e ↦ ground arith
    ]

row_apart :
    (a : ℕ) (blocks : BlockPos → Option ℕ) (x y z : ℕ)
    → (x == a) ≡ false
    → platform_row a 16 blocks (pos x y z) ≡ blocks (pos x y z)
row_apart a blocks x y z e = platform_row_lem a 16 blocks x y z (omega arith) ∙ rw e refl

next_row :
    (rows x : ℕ)
    → rows ≤ 15
    → (x == (15 - rows)) ≡ false
    → leb (16 - rows) x ≡ leb (16 - suc rows) x
next_row rows x h e = ground arith

first_column : (z : ℕ) → leb 0 z ≡ true
first_column z = ground arith

same_column : (x : ℕ) → (x == x) ≡ true
same_column x = ground arith

-- The round of x, in the words of the whole platform.
row_test :
    (rows x : ℕ) (y z : ℕ)
    → rows ≤ 15
    → x ≡ 15 - rows
    → ((y == 64) && (leb 0 z && ltb z 16))
      ≡ (((leb (16 - suc rows) x && ltb x 16) && (y == 64)) && ltb z 16)
row_test rows x y z h e =
    let low : leb (16 - suc rows) x ≡ true = ground arith in
    let high : ltb x 16 ≡ true = ground arith in rw low (rw high (rw (first_column z) refl))

row_here :
    (rows : ℕ) (blocks : BlockPos → Option ℕ) (x y z : ℕ)
    → rows ≤ 15
    → x ≡ 15 - rows
    → platform_row (15 - rows) 16 blocks (pos x y z) ≡ (
        if ((leb (16 - suc rows) x && ltb x 16) && (y == 64)) && ltb z 16
        then some (platform_block x z)
        else blocks (pos x y z))
row_here rows blocks x y z h e =
    ap (λ a. platform_row a 16 blocks (pos x y z)) (sym e)
    ∙ platform_row_lem x 16 blocks x y z (omega arith)
    ∙ ap
        (λ b.
          if (b && (y == 64)) && (leb 0 z && ltb z 16)
          then some (platform_block x z)
          else blocks (pos x y z))
        (same_column x)
    ∙ ap (λ b. if b then some (platform_block x z) else blocks (pos x y z))
        (row_test rows x y z h e)

platform_rows_lem :
    (rows : ℕ) (blocks : BlockPos → Option ℕ) (x y z : ℕ)
    → rows ≤ 16
    → platform_rows rows blocks (pos x y z) ≡ (
        if ((leb (16 - rows) x && ltb x 16) && (y == 64)) && ltb z 16
        then some (platform_block x z)
        else blocks (pos x y z))
unfolding platform_rows
platform_rows_lem zero blocks x y z h = ground arith
platform_rows_lem (suc rows) blocks x y z h =
    platform_rows_lem rows (platform_row (15 - rows) 16 blocks) x y z (omega arith)
    ∙ elim (Bool-cases (x == (15 - rows))) [
      | inl e ↦
          let here = (==_iff x (15 - rows)).0 e in
          let later : leb (16 - rows) x ≡ false = ground arith in
          let row = row_here rows blocks x y z (omega arith) here in rw later row
      | inr e ↦
          ap
            (λ t.
              if ((leb (16 - rows) x && ltb x 16) && (y == 64)) && ltb z 16
              then some (platform_block x z)
              else t)
            (row_apart (15 - rows) blocks x y z e)
          ∙ ap
              (λ b.
                if ((b && ltb x 16) && (y == 64)) && ltb z 16
                then some (platform_block x z)
                else blocks (pos x y z))
              (next_row rows x (omega arith) e)
    ]

on_platform :
    (x y z : ℕ)
    → (((leb 0 x && ltb x 16) && (y == 64)) && ltb z 16) ≡ (((y == 64) && ltb x 16) && ltb z 16)
on_platform x y z = ground arith

-- A lookup in a table that holds the platform.
read_block :
    (x y z : ℕ) (w : World)
    → w.modified_blocks (pos x y z)
      ≡ (if ((y == 64) && ltb x 16) && ltb z 16 then some (platform_block x z) else none)
    → get_block x y z w
      ≡ (if ((y == 64) && ltb x 16) && ltb z 16 then platform_block x z else block_air)
unfolding get_block
read_block x y z w e = elim (Bool-cases (((y == 64) && ltb x 16) && ltb z 16)) [
  | inl h ↦
      let held : w.modified_blocks (pos x y z) ≡ some (platform_block x z) = e ∙ rw h refl in
      rw h (rw (held, get_block) refl)
  | inr h ↦
      let held : w.modified_blocks (pos x y z) ≡ none = e ∙ rw h refl in
      rw h (rw (held, get_block) (ground arith))
]

-- The layout of the platform, from the inside out: grass (9) and stone bricks (330) by turns, and a
-- rim of glowstone (296).
layout : (x z : ℕ) → ℕ
layout x z =
    let inside = (ltb 0 x && ltb x 15) && (ltb 0 z && ltb z 15) in
    if inside then (if (x + z) % 2 == 1 then 9 else 330) else 296

platform_block-layout : (x z : ℕ) → x < 16 → z < 16 → platform_block x z ≡ layout x z
unfolding platform_block layout
platform_block-layout x z hx hz = ground arith

-- In a new world the blocks with y = 64 and both other coordinates from 0 to 15 are the platform: 296
-- (glowstone) on the edge, and inside it 330 (stone bricks) where x + z is even and 9 (grass) where it
-- is odd. All other blocks are 0 (air).
pub get_block-new_world :
    (sx sy sz x y z : ℕ)
    → get_block x y z (new_world sx sy sz) ≡ (
        if ((y == 64) && ltb x 16) && ltb z 16
        then (if (ltb 0 x && ltb x 15) && (ltb 0 z && ltb z 15)
            then (if (x + z) % 2 == 1 then 9 else 330)
            else 296)
        else 0)
unfolding new_world layout
get_block-new_world sx sy sz x y z =
    read_block x y z (new_world sx sy sz) (
      platform_rows_lem 16 (λ p. none) x y z (omega arith)
      ∙ ap (λ b. if b then some (platform_block x z) else none) (on_platform x y z))
    ∙ elim (Bool-cases (((y == 64) && ltb x 16) && ltb z 16)) [
      | inl h ↦ rw h (platform_block-layout x z (ground arith) (ground arith))
      | inr h ↦ rw h refl
    ]

-- After SetBlock the block of that position is the new one, and that of every other is as before.
pub get_block-set_block :
    (x y z block a b c : ℕ) (w : World)
    → get_block a b c (set_block x y z block w)
      ≡ (if (x == a) && ((y == b) && (z == c)) then block else get_block a b c w)
unfolding get_block set_block store same_pos
get_block-set_block x y z block a b c w = ground arith
