-- ===== src/Chunk/Sections.antt =====
-- What a client reads of the sections of a chunk packet.
use cyu_core.Base.{
  ℕ, zero, suc, ◌-◌, ◌%◌, ◌^◌, ◌<◌, ◌≡◌, refl, ap, sym, ◌∙◌, Bool, true, false, ◌&&◌, ◌||◌, Option,
  some, List, [], ◌∷◌, ◌++◌, ◌==◌, arith, if◌then◌else◌, inl, inr, Bool-cases, All, All-append,
}
use cyu_core.Stream.BigEndian.{big_endian, from_big_endian_two}
use cyu_core.Chunk.{
  write_var_int, write_uint64s, build_empty_section, build_platform_section, write_sections,
}
use cyu_core.Chunk.Client.{
  Reader, and_then, give, read_number, read_unsigned, read_many, single, indexed, read_indices,
  read_contents, read_indexed, read_behind, read_container, Section, read_section, whole,
  lift_whole, Reads, Reads-and_then, Reads-last,
}
use mathlib.Core.List.{append_assoc, append-nil}
use mathlib.Core.Path.{subst}
use cyu_core.Chunk.Reads.{
  Reads-word, Reads-byte, Reads-number, repeat, words_bytes, words_bytes-append,
  write_uint64s-repeat, Reads-none, Reads-cons, Reads-words, All-repeat,
}

-- A section of air, and one whose lowest layer, of 256 blocks, is one block.
abbrev pub air : Section
air = record { block_count = 0; fluid_count = 0; blocks = single 0; biomes = single 1 }

abbrev pub layer_words : List ℕ
layer_words = repeat 16 0x1111111111111111 ++ repeat 240 0

abbrev pub layer : ℕ → Section
layer id = record {
  block_count = 256;
  fluid_count = 0;
  blocks = indexed 4 (0 ∷ id % 2 ^ 32 ∷ []) layer_words;
  biomes = single 1;
}

pub Reads-single :
    (v : ℕ) → Reads read_container ((0 ∷ []) ++ write_var_int v) (single (v % 2 ^ 32))
unfolding read_container read_behind
Reads-single v =
    Reads-and_then (read_unsigned 1) read_behind (0 ∷ []) (write_var_int v) 0 (single (v % 2 ^ 32))
      (Reads-byte 0) (Reads-last read_number single (write_var_int v) (v % 2 ^ 32) (Reads-number v))

pub Reads-air : Reads read_section build_empty_section air
unfolding read_section read_contents build_empty_section
Reads-air =
    let two = big_endian 2 0 in
    let one_value = (0 ∷ []) ++ write_var_int 0 in
    let biome = (0 ∷ []) ++ write_var_int 1 in
    Reads-and_then (read_unsigned 2) _ two (two ++ (one_value ++ biome)) 0 air
      (Reads-word 2 0 (from_big_endian_two 0 (omega arith)))
      (Reads-and_then (read_unsigned 2) _ two (one_value ++ biome) 0 air
        (Reads-word 2 0 (from_big_endian_two 0 (omega arith)))
        (Reads-and_then read_container _ one_value biome (single 0) air (Reads-single 0)
          (Reads-last read_container _ biome (single 1) (Reads-single 1))))

-- The parts of a container with a palette, in front of what follows.
pub container_parts :
    (a b c d e f y : List ℕ)
    → (a ++ (b ++ (c ++ (d ++ (e ++ f))))) ++ y ≡ a ++ (b ++ (c ++ (d ++ (e ++ (f ++ y)))))
container_parts a b c d e f y =
    append_assoc a (b ++ (c ++ (d ++ (e ++ f)))) y
    ∙ ap (◌++◌ a) (append_assoc b (c ++ (d ++ (e ++ f))) y)
    ∙ ap (λ t. a ++ (b ++ t)) (append_assoc c (d ++ (e ++ f)) y)
    ∙ ap (λ t. a ++ (b ++ (c ++ t))) (append_assoc d (e ++ f) y)
    ∙ ap (λ t. a ++ (b ++ (c ++ (d ++ t)))) (append_assoc e f y)

pub Reads-layer_words :
    Reads
      (read_many 256 (read_unsigned 8))
      (write_uint64s 16 0x1111111111111111 ++ write_uint64s 240 0)
      layer_words
unfolding repeat
Reads-layer_words =
    let low = repeat 16 0x1111111111111111 in
    let high = repeat 240 0 in
    let bytes : words_bytes layer_words
        ≡ write_uint64s 16 0x1111111111111111 ++ write_uint64s 240 0 =
      words_bytes-append low high
      ∙ ap (λ t. t ++ words_bytes high) (sym (write_uint64s-repeat 16 0x1111111111111111))
      ∙ ap (◌++◌ (write_uint64s 16 0x1111111111111111)) (sym (write_uint64s-repeat 240 0)) in
    let small : All (λ w. w < 2 ^ 64) layer_words =
      All-append (λ w. w < 2 ^ 64) low high (All-repeat 16 0x1111111111111111 (omega arith))
        (All-repeat 240 0 (omega arith)) in
    subst (λ t. Reads (read_many 256 (read_unsigned 8)) t layer_words) bytes
      (Reads-words layer_words small)

-- The palette of two blocks.
pub Reads-palette :
    (id : ℕ)
    → Reads (read_many 2 read_number) (write_var_int 0 ++ write_var_int id) (0 ∷ id % 2 ^ 32 ∷ [])
Reads-palette id =
    let block = write_var_int id in
    subst (λ t. Reads (read_many 2 read_number) (write_var_int 0 ++ t) (0 ∷ id % 2 ^ 32 ∷ []))
      (append-nil block)
      (Reads-cons 1 read_number (write_var_int 0) (block ++ []) 0 (id % 2 ^ 32 ∷ [])
        (Reads-number 0)
        (Reads-cons 0 read_number block [] (id % 2 ^ 32) [] (Reads-number id)
          (Reads-none read_number)))

pub Reads-indices :
    (palette : List ℕ)
    → Reads
        (read_indices 4 palette)
        (write_var_int 256 ++ (write_uint64s 16 0x1111111111111111 ++ write_uint64s 240 0))
        (indexed 4 palette layer_words)
unfolding read_indices
Reads-indices palette =
    let words = write_uint64s 16 0x1111111111111111 ++ write_uint64s 240 0 in
    Reads-and_then read_number
      (λ count. and_then (read_many count (read_unsigned 8)) (λ ws. give (indexed 4 palette ws)))
      (write_var_int 256) words 256 (indexed 4 palette layer_words) (Reads-number 256)
      (Reads-last (read_many 256 (read_unsigned 8)) (indexed 4 palette) words layer_words
        Reads-layer_words)

pub Reads-indexed :
    (id : ℕ)
    → Reads
        (read_indexed 4)
        (write_var_int 2
          ++ (write_var_int 0
              ++ (write_var_int id
                  ++ (write_var_int 256
                      ++ (write_uint64s 16 0x1111111111111111 ++ write_uint64s 240 0)))))
        (indexed 4 (0 ∷ id % 2 ^ 32 ∷ []) layer_words)
unfolding read_indexed
Reads-indexed id =
    let words = write_uint64s 16 0x1111111111111111 ++ write_uint64s 240 0 in
    let palette = 0 ∷ id % 2 ^ 32 ∷ [] in
    let both = write_var_int 0 ++ write_var_int id in
    let is = indexed 4 palette layer_words in
    Reads-and_then read_number (λ size. and_then (read_many size read_number) (read_indices 4))
      (write_var_int 2) _ 2 is (Reads-number 2)
      (subst (λ t. Reads (and_then (read_many 2 read_number) (read_indices 4)) t is)
        (append_assoc (write_var_int 0) (write_var_int id) (write_var_int 256 ++ words))
        (Reads-and_then (read_many 2 read_number) (read_indices 4) both (write_var_int 256 ++ words)
          palette is (Reads-palette id) (Reads-indices palette)))

pub Reads-layer : (id : ℕ) → Reads read_section (build_platform_section id) (layer id)
unfolding read_section read_contents build_platform_section read_container read_behind
Reads-layer id =
    let biome = (0 ∷ []) ++ write_var_int 1 in
    let low = write_uint64s 16 0x1111111111111111 in
    let high = write_uint64s 240 0 in
    let is = indexed 4 (0 ∷ id % 2 ^ 32 ∷ []) layer_words in
    let container =
      (4 ∷ [])
      ++ (write_var_int 2
          ++ (write_var_int 0 ++ (write_var_int id ++ (write_var_int 256 ++ (low ++ high))))) in
    let read_states : Reads read_container container is =
      Reads-and_then (read_unsigned 1) read_behind (4 ∷ []) _ 4 is (Reads-byte 4)
        (Reads-indexed id) in
    let parts : container ++ biome
        ≡ (4 ∷ [])
          ++ (write_var_int 2
              ++ (write_var_int 0
                  ++ (write_var_int id ++ (write_var_int 256 ++ (low ++ (high ++ biome)))))) =
      ap (λ t. (4 ∷ []) ++ t)
        (container_parts (write_var_int 2) (write_var_int 0) (write_var_int id) (write_var_int 256)
          low high biome) in
    Reads-and_then (read_unsigned 2) _ (big_endian 2 256) _ 256 (layer id)
      (Reads-word 2 256 (from_big_endian_two 256 (omega arith)))
      (Reads-and_then (read_unsigned 2) _ (big_endian 2 0) _ 0 (layer id)
        (Reads-word 2 0 (from_big_endian_two 0 (omega arith)))
        (subst (λ t. Reads (read_contents 256 0) t (layer id)) parts
          (Reads-and_then read_container _ container biome is (layer id) read_states
            (Reads-last read_container _ biome (single 1) (Reads-single 1)))))

-- The sections from the 24 - left-th on.
unfoldable pub sections_from : (left : ℕ) → (at_origin : Bool) → (id : ℕ) → List Section
sections_from zero at_origin id = []
sections_from (suc left) at_origin id =
    let s = 23 - left in
    (if ((s == 4) || ((s == 8) || (s == 12))) && at_origin then layer id else air)
    ∷ sections_from left at_origin id

pub Reads-sections :
    (left : ℕ) (at_origin : Bool) (id : ℕ)
    → Reads
        (read_many left read_section)
        (write_sections left at_origin id)
        (sections_from left at_origin id)
unfolding write_sections sections_from
Reads-sections zero at_origin id = Reads-none read_section
Reads-sections (suc left) at_origin id =
    let s = 23 - left in
    let others = Reads-sections left at_origin id in
    elim (Bool-cases (((s == 4) || ((s == 8) || (s == 12))) && at_origin)) [
      | inl e ↦ rw e (
          Reads-cons left read_section (build_platform_section id)
            (write_sections left at_origin id) (layer id) (sections_from left at_origin id)
            (Reads-layer id) others)
      | inr e ↦ rw e (
          Reads-cons left read_section build_empty_section (write_sections left at_origin id) air
            (sections_from left at_origin id) Reads-air others)
    ]

-- The 24 sections of the chunk at the origin have three layers, those of the others are air.
abbrev pub level_sections : (at_origin : Bool) → (id : ℕ) → List Section
level_sections at_origin id =
    let platform = if at_origin then layer id else air in
    repeat 4 air
    ++ (platform ∷ (repeat 3 air ++ (platform ∷ (repeat 3 air ++ (platform ∷ repeat 11 air)))))

pub all_sections :
    (at_origin : Bool) (id : ℕ) → sections_from 24 at_origin id ≡ level_sections at_origin id
unfolding sections_from repeat
all_sections true id = refl
all_sections false id = refl

pub Reads-whole :
    {A : Type 0} (p : Reader A) (xs : List ℕ) (a : A) → Reads p xs a → whole p xs ≡ some a
unfolding whole
Reads-whole p xs a reads = rw (ap p (sym (append-nil xs)) ∙ reads [], whole) refl

pub Reads-lift_whole : {A : Type 0} (o : Option A) (a : A) → o ≡ some a → Reads (lift_whole o) [] a
unfolding lift_whole
Reads-lift_whole o a e rest = rw e refl
