-- ===== src/Chunk.antt =====
-- chunk.go: the level chunk packet, and writeVarInt of protocol.go. An int is its two's complement
-- pattern, and int32 of it its low half.
pub mod Size
pub mod Client
pub mod Reads
pub mod Sections
pub mod Decoded
pub mod Layers
mod Tests
use cyu_core.Base.{
  ℕ, zero, suc, ◌-◌, ◌%◌, ◌^◌, Bool, ◌&&◌, ◌||◌, List, [], ◌∷◌, ◌++◌, ◌==◌, if◌then◌else◌, length,
}
use cyu_core.Stream.BigEndian.{big_endian}
use cyu_core.Protocol.{append_var_int}

unfoldable pub write_var_int : ℕ → List ℕ
write_var_int val = append_var_int [] (val % 2 ^ 32)

-- A loop that writes the same uint64 `n` times.
unfoldable pub write_uint64s : (n word : ℕ) → List ℕ
write_uint64s zero word = []
write_uint64s (suc n) word = big_endian 8 word ++ write_uint64s n word

unfoldable pub build_empty_section : List ℕ
unfolding write_var_int
build_empty_section =
    big_endian 2 0
    ++ (big_endian 2 0 ++ ((0 ∷ []) ++ (write_var_int 0 ++ ((0 ∷ []) ++ write_var_int 1))))

unfoldable pub build_platform_section : (block_state_id : ℕ) → List ℕ
unfolding write_var_int write_uint64s
build_platform_section block_state_id =
    big_endian 2 256
    ++ (big_endian 2 0
        ++ ((4 ∷ [])
            ++ (write_var_int 2
                ++ (write_var_int 0
                    ++ (write_var_int block_state_id
                        ++ (write_var_int 256
                            ++ (write_uint64s 16 0x1111111111111111
                                ++ (write_uint64s 240 0 ++ ((0 ∷ []) ++ write_var_int 1)))))))))

-- The loop over the 24 sections, of which `left` are still to be written.
unfoldable pub write_sections : (left : ℕ) → (at_origin : Bool) → (block_id : ℕ) → List ℕ
unfolding build_empty_section build_platform_section
write_sections zero at_origin block_id = []
write_sections (suc left) at_origin block_id =
    let s = 23 - left in
    (if ((s == 4) || ((s == 8) || (s == 12))) && at_origin
      then build_platform_section block_id
      else build_empty_section)
    ++ write_sections left at_origin block_id

unfoldable pub build_chunk_packet : (chunk_x chunk_z platform_block_id : ℕ) → List ℕ
unfolding write_sections
build_chunk_packet chunk_x chunk_z platform_block_id =
    let sections = write_sections 24 ((chunk_x == 0) && (chunk_z == 0)) platform_block_id in
    big_endian 4 (chunk_x % 2 ^ 32)
    ++ (big_endian 4 (chunk_z % 2 ^ 32)
        ++ (write_var_int 1
            ++ (write_var_int 4
                ++ (write_var_int 37
                    ++ (write_uint64s 37 0
                        ++ (write_var_int (length sections)
                            ++ (sections
                                ++ (write_var_int 0
                                    ++ ((0 ∷ 0 ∷ 0 ∷ 0 ∷ [])
                                        ++ (write_var_int 0 ++ write_var_int 0))))))))))
