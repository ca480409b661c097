-- ===== src/Chunk/Client.antt =====
-- The level chunk packet as a client reads it: an independent description of its layout.
use cyu_core.Base.{
  ℕ, zero, suc, ◌/◌, ◌%◌, ◌^◌, ◌≡◌, refl, ap, ◌∙◌, Option, none, some, List, [], ◌∷◌, ◌++◌, ok, err,
  if◌then◌else◌, ◌==◌,
}
use cyu_core.Stream.{read_full}
use cyu_core.Stream.BigEndian.{from_big_endian}
use cyu_core.Protocol.{read_var_int}
use mathlib.Core.List.{append_assoc}

abbrev pub Reader : Type 0 → Type 0
Reader A = List ℕ → Option (A × List ℕ)

-- One reader after the other, with what the first one read.
unfoldable pub and_then : {A B : Type 0} → Reader A → (A → Reader B) → Reader B
and_then p f bs = elim (p bs) [ none ↦ none | some (a, rest) ↦ f a rest ]

unfoldable pub give : {A : Type 0} → A → Reader A
give a bs = some (a, bs)

unfoldable pub read_bytes : (n : ℕ) → Reader (List ℕ)
read_bytes n bs = elim (read_full n bs) [ err e ↦ none | ok r ↦ some r ]

unfoldable pub read_number : Reader ℕ
read_number bs = elim (read_var_int bs) [ err e ↦ none | ok r ↦ some r ]

unfoldable pub read_unsigned : (bytes : ℕ) → Reader ℕ
unfolding and_then read_bytes give
read_unsigned n = and_then (read_bytes n) (λ bs. give (from_big_endian 0 bs))

unfoldable pub read_many : {A : Type 0} → (n : ℕ) → Reader A → Reader (List A)
unfolding and_then give
read_many zero p = give []
read_many (suc n) p = and_then p (λ a. and_then (read_many n p) (λ as'. give (a ∷ as')))

-- A container of 4096 blocks, or of the biomes: one value for all, or a palette with indices into it,
-- of some number of bits, packed into words of 64 bits.
pub data Container : Type 0 where
  single : (value : ℕ) → Container
  indexed : (bits : ℕ) → (palette words : List ℕ) → Container

unfoldable pub read_indices : (bits : ℕ) → (palette : List ℕ) → Reader Container
unfolding and_then give read_number read_many read_unsigned
read_indices bits palette = and_then read_number (λ count.
    and_then (read_many count (read_unsigned 8)) (λ words. give (indexed bits palette words)))

unfoldable pub read_indexed : (bits : ℕ) → Reader Container
unfolding read_indices
read_indexed bits =
    and_then read_number (λ size. and_then (read_many size read_number) (read_indices bits))

unfoldable pub read_behind : (bits : ℕ) → Reader Container
unfolding and_then give read_number read_indexed
read_behind zero = and_then read_number (λ v. give (single v))
read_behind (suc bits) = read_indexed (suc bits)

unfoldable pub read_container : Reader Container
unfolding and_then read_unsigned read_behind
read_container = and_then (read_unsigned 1) read_behind

pub record Section : Type 0 where
  pub block_count : ℕ
  pub fluid_count : ℕ
  pub blocks : Container
  pub biomes : Container

unfoldable pub read_contents : (block_count fluid_count : ℕ) → Reader Section
unfolding and_then give read_container
read_contents block_count fluid_count = and_then read_container (λ states.
    and_then read_container (λ biomes. give (record {
      block_count = block_count;
      fluid_count = fluid_count;
      blocks = states;
      biomes = biomes;
    })))

unfoldable pub read_section : Reader Section
unfolding and_then read_unsigned read_contents
read_section =
    and_then (read_unsigned 2)
      (λ blocks. and_then (read_unsigned 2) (λ fluids. read_contents blocks fluids))

pub record Level : Type 0 where
  pub x : ℕ
  pub z : ℕ
  -- The kind of the one height map and its words.
  pub map_kind : ℕ
  pub heights : List ℕ
  pub sections : List Section
  -- The number of block entities, the light masks, and the numbers of light arrays.
  pub tail : List ℕ

-- The data of the sections, all of it.
unfoldable pub whole : {A : Type 0} → Reader A → List ℕ → Option A
whole p bs = elim (p bs) [ none ↦ none | some (a, []) ↦ some a | some (a, b ∷ rest) ↦ none ]

unfoldable pub lift_whole : {A : Type 0} → Option A → Reader A
lift_whole none bs = none
lift_whole (some a) bs = some (a, bs)

unfoldable pub read_heights : ℕ → Reader (ℕ × List ℕ)
unfolding and_then give read_number read_many read_unsigned
read_heights maps =
    if maps == 1
    then and_then read_number (λ kind.
      and_then read_number
        (λ count. and_then (read_many count (read_unsigned 8)) (λ words. give (kind, words))))
    else (λ bs. none)

-- `heights` is the kind of the height map with its words.
unfoldable pub read_light :
    (x z : ℕ) → (heights : ℕ × List ℕ) → (sections : List Section) → Reader Level
unfolding and_then give read_number read_many
read_light x z heights sections = and_then (read_many 7 read_number) (λ tail. give (record {
  x = x;
  z = z;
  map_kind = heights.0;
  heights = heights.1;
  sections = sections;
  tail = tail;
}))

-- The sections are all of the data, whose size comes first.
unfoldable pub read_data : (x z : ℕ) → (heights : ℕ × List ℕ) → Reader Level
unfolding and_then read_number read_many read_bytes read_section whole lift_whole read_light
read_data x z heights = and_then read_number (λ size. and_then (read_bytes size) (λ data'.
    and_then (lift_whole (whole (read_many 24 read_section) data')) (read_light x z heights)))

unfoldable pub read_level : Reader Level
unfolding and_then read_number read_unsigned read_heights read_data
read_level = and_then (read_unsigned 4) (λ x.
    and_then (read_unsigned 4)
      (λ z. and_then read_number (λ maps. and_then (read_heights maps) (read_data x z))))

-- The element at an index, 0 out of range.
unfoldable pub nth : (index : ℕ) → List ℕ → ℕ
nth i [] = 0
nth zero (v ∷ vs) = v
nth (suc i) (v ∷ vs) = nth i vs

-- The value at an index of a container: 64 / bits indices are in a word, the first one lowest.
unfoldable pub value_at : (index : ℕ) → Container → ℕ
unfolding nth
value_at i (single v) = v
value_at i (indexed bits palette words) =
    let per_word = 64 / bits in
    nth (nth (i / per_word) words / (2 ^ bits) ^ (i % per_word) % 2 ^ bits) palette

-- A reader reads a value of the bytes `xs`, whatever follows them.
abbrev pub Reads : {A : Type 0} → Reader A → List ℕ → A → Type 0
Reads p xs a = (rest : List ℕ) → p (xs ++ rest) ≡ some (a, rest)

pub Reads-and_then :
    {A B : Type 0} (p : Reader A) (f : A → Reader B) (xs ys : List ℕ) (a : A) (b : B)
    → Reads p xs a
    → Reads (f a) ys b
    → Reads (and_then p f) (xs ++ ys) b
unfolding and_then
Reads-and_then p f xs ys a b first second rest =
    ap (and_then p f) (append_assoc xs ys rest) ∙ rw (first (ys ++ rest), and_then) (second rest)

pub Reads-give : {A : Type 0} (a : A) → Reads (give a) [] a
unfolding give
Reads-give a rest = refl

-- The last reader of a row, behind which a value is given.
pub Reads-last :
    {A B : Type 0} (p : Reader A) (f : A → B) (xs : List ℕ) (a : A)
    → Reads p xs a
    → Reads (and_then p (λ x. give (f x))) xs (f a)
unfolding and_then give
Reads-last p f xs a first rest = rw (first rest, and_then) refl
