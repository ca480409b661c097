-- ===== src/Chunk/Decoded.antt =====
-- What a client reads of a whole chunk packet.
use cyu_core.Base.{
  ℕ, ◌%◌, ◌^◌, ◌≡◌, refl, ap, sym, ◌∙◌, Bool, ◌&&◌, some, List, [], ◌∷◌, ◌++◌, ◌==◌, arith, length,
}
use cyu_core.Stream.BigEndian.{big_endian, from_big_endian_four}
use cyu_core.Protocol.VarInt.{append_var_int_zero}
use cyu_core.Chunk.{write_var_int, write_uint64s, write_sections, build_chunk_packet}
use cyu_core.Chunk.Size.{length-write_sections}
use cyu_core.Chunk.Client.{
  Reader, and_then, give, read_bytes, read_number, read_unsigned, read_many, read_section, Level,
  whole, lift_whole, read_heights, read_light, read_data, read_level, Reads, Reads-and_then,
  Reads-last,
}
use mathlib.Core.List.{append_assoc, append-nil}
use mathlib.Core.Path.{subst}
use cyu_core.Chunk.Reads.{
  Reads-bytes, Reads-word, Reads-number, repeat, write_uint64s-repeat, Reads-none, Reads-cons,
  Reads-words, All-repeat,
}
use cyu_core.Chunk.Sections.{
  Reads-sections, level_sections, all_sections, Reads-whole, Reads-lift_whole,
}

zero_byte : write_var_int 0 ≡ 0 ∷ []
unfolding write_var_int
zero_byte = append_var_int_zero

Reads-zero : Reads read_number (0 ∷ []) 0
Reads-zero = subst (λ t. Reads read_number t 0) zero_byte (Reads-number 0)

Reads-heights :
    Reads
      (read_heights 1)
      (write_var_int 4 ++ (write_var_int 37 ++ write_uint64s 37 0))
      (4, repeat 37 0)
unfolding read_heights repeat
Reads-heights =
    let words = write_uint64s 37 0 in
    let is : ℕ × List ℕ = (4, repeat 37 0) in
    let read_words : Reads (read_many 37 (read_unsigned 8)) words (repeat 37 0) =
      subst (λ t. Reads (read_many 37 (read_unsigned 8)) t (repeat 37 0))
        (sym (write_uint64s-repeat 37 0))
        (Reads-words (repeat 37 0) (All-repeat 37 0 (omega arith))) in
    Reads-and_then read_number
      (λ kind.
        and_then read_number
          (λ count. and_then (read_many count (read_unsigned 8)) (λ ws. give (kind, ws))))
      (write_var_int 4) (write_var_int 37 ++ words) 4 is (Reads-number 4)
      (Reads-and_then read_number
        (λ count. and_then (read_many count (read_unsigned 8)) (λ ws. give (4, ws)))
        (write_var_int 37) words 37 is (Reads-number 37)
        (Reads-last (read_many 37 (read_unsigned 8)) (λ ws. (4, ws)) words (repeat 37 0)
          read_words))

abbrev tail_bytes : List ℕ
tail_bytes = write_var_int 0 ++ ((0 ∷ 0 ∷ 0 ∷ 0 ∷ []) ++ (write_var_int 0 ++ write_var_int 0))

Reads-tail : Reads (read_many 7 read_number) tail_bytes (repeat 7 0)
unfolding repeat
Reads-tail =
    let n = write_var_int 0 in
    let byte = 0 ∷ [] in
    let last_one = Reads-cons 0 read_number n [] 0 [] (Reads-number 0) (Reads-none read_number) in
    let last_two =
      Reads-cons 1 read_number n n 0 (0 ∷ []) (Reads-number 0)
        (subst (λ t. Reads (read_many 1 read_number) t (0 ∷ [])) (append-nil n) last_one) in
    let three = Reads-cons 2 read_number byte (n ++ n) 0 (repeat 2 0) Reads-zero last_two in
    let four = Reads-cons 3 read_number byte (byte ++ (n ++ n)) 0 (repeat 3 0) Reads-zero three in
    let five =
      Reads-cons 4 read_number byte (byte ++ (byte ++ (n ++ n))) 0 (repeat 4 0) Reads-zero four in
    let six =
      Reads-cons 5 read_number byte (byte ++ (byte ++ (byte ++ (n ++ n)))) 0 (repeat 5 0) Reads-zero
        five in
    Reads-cons 6 read_number n ((0 ∷ 0 ∷ 0 ∷ 0 ∷ []) ++ (n ++ n)) 0 (repeat 6 0) (Reads-number 0)
      six

abbrev pub level : (chunk_x chunk_z platform_block_id : ℕ) → Level
level chunk_x chunk_z id = record {
  x = chunk_x % 2 ^ 32;
  z = chunk_z % 2 ^ 32;
  map_kind = 4;
  heights = repeat 37 0;
  sections = level_sections ((chunk_x == 0) && (chunk_z == 0)) id;
  tail = repeat 7 0;
}

module _ (chunk_x chunk_z id : ℕ) where
  abbrev at_origin : Bool
  at_origin = (chunk_x == 0) && (chunk_z == 0)

  abbrev sections : List ℕ
  sections = write_sections 24 at_origin id

  abbrev heights : ℕ × List ℕ
  heights = (4, repeat 37 0)

  abbrev x32 : ℕ
  x32 = chunk_x % 2 ^ 32

  abbrev z32 : ℕ
  z32 = chunk_z % 2 ^ 32

  read_whole : whole (read_many 24 read_section) sections ≡ some (level_sections at_origin id)
  read_whole = Reads-whole (read_many 24 read_section) sections (level_sections at_origin id) (
      subst (Reads (read_many 24 read_section) sections) (all_sections at_origin id)
        (Reads-sections 24 at_origin id))

  Reads-light :
      Reads
        (read_light x32 z32 heights (level_sections at_origin id))
        tail_bytes
        (level chunk_x chunk_z id)
  unfolding read_light
  Reads-light = Reads-last (read_many 7 read_number) _ tail_bytes (repeat 7 0) Reads-tail

  size_kept : length sections % 2 ^ 32 ≡ length sections
  size_kept = omega (arith, length-write_sections 24 at_origin id)

  abbrev read_after : List ℕ → Reader Level
  read_after bs =
      and_then (lift_whole (whole (read_many 24 read_section) bs)) (read_light x32 z32 heights)

  Reads-data :
      Reads
        (read_data x32 z32 heights)
        (write_var_int (length sections) ++ (sections ++ tail_bytes))
        (level chunk_x chunk_z id)
  unfolding read_data
  Reads-data =
      Reads-and_then read_number (λ size. and_then (read_bytes size) read_after)
        (write_var_int (length sections)) (sections ++ tail_bytes) (length sections)
        (level chunk_x chunk_z id)
        (subst (Reads read_number (write_var_int (length sections))) size_kept
          (Reads-number (length sections)))
        (Reads-and_then (read_bytes (length sections)) read_after sections tail_bytes sections
          (level chunk_x chunk_z id) (Reads-bytes sections (length sections) refl)
          (Reads-and_then (lift_whole (whole (read_many 24 read_section) sections))
            (read_light x32 z32 heights) [] tail_bytes (level_sections at_origin id)
            (level chunk_x chunk_z id)
            (Reads-lift_whole (whole (read_many 24 read_section) sections)
              (level_sections at_origin id) read_whole)
            Reads-light))

  pub Reads-level :
      Reads read_level (build_chunk_packet chunk_x chunk_z id) (level chunk_x chunk_z id)
  unfolding read_level build_chunk_packet
  Reads-level =
      let maps = write_var_int 4 ++ (write_var_int 37 ++ write_uint64s 37 0) in
      let body = write_var_int (length sections) ++ (sections ++ tail_bytes) in
      let parts : maps ++ body
          ≡ write_var_int 4 ++ (write_var_int 37 ++ (write_uint64s 37 0 ++ body)) =
        append_assoc (write_var_int 4) (write_var_int 37 ++ write_uint64s 37 0) body
        ∙ ap (◌++◌ (write_var_int 4)) (append_assoc (write_var_int 37) (write_uint64s 37 0) body) in
      Reads-and_then (read_unsigned 4) _ (big_endian 4 x32) _ x32 (level chunk_x chunk_z id)
        (Reads-word 4 x32 (from_big_endian_four x32 (omega arith)))
        (Reads-and_then (read_unsigned 4) _ (big_endian 4 z32) _ z32 (level chunk_x chunk_z id)
          (Reads-word 4 z32 (from_big_endian_four z32 (omega arith)))
          (Reads-and_then read_number (λ n. and_then (read_heights n) (read_data x32 z32))
            (write_var_int 1) _ 1 (level chunk_x chunk_z id) (Reads-number 1)
            (subst
              (λ t.
                Reads (and_then (read_heights 1) (read_data x32 z32)) t (level chunk_x chunk_z id))
              parts
              (Reads-and_then (read_heights 1) (read_data x32 z32) maps body heights
                (level chunk_x chunk_z id) Reads-heights Reads-data))))
