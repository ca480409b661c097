-- ===== src/Chunk/Size.antt =====
-- How long the sections of a chunk packet are at most.
use cyu_core.Base.{
  ℕ, zero, suc, ◌+◌, ◌-◌, ◌*◌, ◌%◌, ◌^◌, ◌≤◌, ◌≡◌, refl, ap, Bool, ◌&&◌, ◌||◌, List, [], ◌∷◌, ◌++◌,
  ◌==◌, arith, length, length-append, inl, inr, Bool-cases,
}
use cyu_core.Stream.BigEndian.{big_endian, length-big_endian}
use cyu_core.Protocol.VarInt.{append_var_int_shape}
use cyu_core.Chunk.{
  write_var_int, write_uint64s, build_empty_section, build_platform_section, write_sections,
}

length-write_var_int : (v : ℕ) → length (write_var_int v) ≤ 5
unfolding write_var_int
length-write_var_int v =
    let (written, e, bytes, low, high) = append_var_int_shape [] (v % 2 ^ 32) (omega arith) in
    omega (arith, ap length e, length-append [] written)

length-write_uint64s : (n w : ℕ) → length (write_uint64s n w) ≡ 8 * n
unfolding write_uint64s
length-write_uint64s zero w = refl
length-write_uint64s (suc n) w = omega (
  arith,
  length-append (big_endian 8 w) (write_uint64s n w),
  length-big_endian 8 w,
  length-write_uint64s n w,
)

-- A part in front of a list adds its length at most.
in_front : (xs ys : List ℕ) (m n : ℕ) → length xs ≤ m → length ys ≤ n → length (xs ++ ys) ≤ m + n
in_front xs ys m n hx hy = omega (arith, length-append xs ys)

words_at_most : (n w : ℕ) → length (big_endian n w) ≤ n
words_at_most n w = omega (arith, length-big_endian n w)

uint64s_at_most : (n w : ℕ) → length (write_uint64s n w) ≤ 8 * n
uint64s_at_most n w = omega (arith, length-write_uint64s n w)

length-build_empty_section : length build_empty_section ≤ 16
unfolding build_empty_section
length-build_empty_section = in_front (big_endian 2 0) _ 2 14 (words_at_most 2 0) (
    in_front (big_endian 2 0) _ 2 12 (words_at_most 2 0) (
      in_front (0 ∷ []) _ 1 11 (omega arith) (
        in_front (write_var_int 0) _ 5 6 (length-write_var_int 0)
          (in_front (0 ∷ []) (write_var_int 1) 1 5 (omega arith) (length-write_var_int 1)))))

length-build_platform_section : (id : ℕ) → length (build_platform_section id) ≤ 2079
unfolding build_platform_section
length-build_platform_section id = in_front (big_endian 2 256) _ 2 2077 (words_at_most 2 256) (
    in_front (big_endian 2 0) _ 2 2075 (words_at_most 2 0) (
      in_front (4 ∷ []) _ 1 2074 (omega arith) (
        in_front (write_var_int 2) _ 5 2069 (length-write_var_int 2) (
          in_front (write_var_int 0) _ 5 2064 (length-write_var_int 0) (
            in_front (write_var_int id) _ 5 2059 (length-write_var_int id) (
              in_front (write_var_int 256) _ 5 2054 (length-write_var_int 256) (
                in_front (write_uint64s 16 0x1111111111111111) _ 128 1926
                  (uint64s_at_most 16 0x1111111111111111)
                  (in_front (write_uint64s 240 0) _ 1920 6 (uint64s_at_most 240 0) (
                    in_front (0 ∷ []) (write_var_int 1) 1 5 (omega arith)
                      (length-write_var_int 1))))))))))

pub length-write_sections :
    (left : ℕ) (at_origin : Bool) (id : ℕ) → length (write_sections left at_origin id) ≤ left * 2079
unfolding write_sections
length-write_sections zero at_origin id = omega arith
length-write_sections (suc left) at_origin id =
    let s = 23 - left in
    let rest = length-write_sections left at_origin id in
    elim (Bool-cases (((s == 4) || ((s == 8) || (s == 12))) && at_origin)) [
      | inl e ↦ rw e (
          omega (
            arith,
            length-append (build_platform_section id) (write_sections left at_origin id),
            length-build_platform_section id,
          ))
      | inr e ↦ rw e (
          omega (
            arith,
            length-append build_empty_section (write_sections left at_origin id),
            length-build_empty_section,
          ))
    ]
