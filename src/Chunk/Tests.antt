-- ===== src/Chunk/Tests.antt =====
-- Runs of the chunk packets, and the theorem at one of them.
use cyu_core.Base.{ℕ, ◌<◌, ◌≡◌, refl, true, some, [], ◌∷◌, ◌++◌, if◌then◌else◌, ltb}
use cyu_core.Stream.BigEndian.{big_endian}
use cyu_core.Chunk.{write_uint64s, build_chunk_packet}
use cyu_core.Chunk.Client.{read_level, value_at}
use cyu_core.Chunk.Reads.{repeat}
use cyu_core.Chunk.Sections.{layer, level_sections}
use cyu_core.Chunk.Layers.{read_level-build_chunk_packet}

program : Unit {0}
unfolding write_uint64s big_endian
program = tt

one_word : write_uint64s 1 258 ≡ 0 ∷ 0 ∷ 0 ∷ 0 ∷ 0 ∷ 0 ∷ 1 ∷ 2 ∷ []
unfolding program
one_word = refl

read_level-build_chunk_packet_example :
    (read_level (build_chunk_packet 0 0 296 ++ (7 ∷ []))
      ≡ some (
        record {
          x = 0;
          z = 0;
          map_kind = 4;
          heights = repeat 37 0;
          sections = level_sections true 296;
          tail = repeat 7 0;
        },
        7 ∷ [],
      ))
    × ((i : ℕ) → i < 4096 → value_at i (layer 296).blocks ≡ (if ltb i 256 then 296 else 0))
read_level-build_chunk_packet_example = read_level-build_chunk_packet 0 0 296 (7 ∷ [])
