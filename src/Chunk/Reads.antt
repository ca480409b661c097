-- ===== src/Chunk/Reads.antt =====
-- The readers of the client on the numbers and the words that the packet builders write.
use cyu_core.Base.{
  ℕ, zero, suc, ◌+◌, ◌*◌, ◌%◌, ◌^◌, ◌<◌, ◌≡◌, refl, ap, sym, ◌∙◌, some, List, [], ◌∷◌, ◌++◌, arith,
  length, All,
}
use cyu_core.Stream.{read_full-append}
use cyu_core.Stream.BigEndian.{
  big_endian, from_big_endian, length-big_endian, from_big_endian_eight,
}
use cyu_core.Protocol.VarInt.{read_var_int-append_var_int}
use cyu_core.Chunk.{write_var_int, write_uint64s}
use cyu_core.Chunk.Client.{
  Reader, read_bytes, read_number, read_unsigned, read_many, Reads, Reads-and_then, Reads-give,
  Reads-last,
}
use mathlib.Core.List.{append_assoc}

pub Reads-bytes : (xs : List ℕ) (n : ℕ) → n ≡ length xs → Reads (read_bytes n) xs xs
unfolding read_bytes
Reads-bytes xs n e rest = rw (read_full-append xs rest n e, read_bytes) refl

pub Reads-word :
    (n v : ℕ) → from_big_endian 0 (big_endian n v) ≡ v → Reads (read_unsigned n) (big_endian n v) v
unfolding read_unsigned
Reads-word n v e rest =
    Reads-last (read_bytes n) (from_big_endian 0) (big_endian n v) (big_endian n v)
      (Reads-bytes (big_endian n v) n (length-big_endian n v)) rest
    ∙ ap (λ t. some (t, rest)) e

pub Reads-byte : (b : ℕ) → Reads (read_unsigned 1) (b ∷ []) b
unfolding read_unsigned from_big_endian
Reads-byte b rest =
    Reads-last (read_bytes 1) (from_big_endian 0) (b ∷ []) (b ∷ []) (Reads-bytes (b ∷ []) 1 refl)
      rest
    ∙ ap (λ t. some (t, rest)) (let same : 0 * 256 + b ≡ b = omega arith in same)

pub Reads-number : (v : ℕ) → Reads read_number (write_var_int v) (v % 2 ^ 32)
unfolding read_number write_var_int
Reads-number v rest =
    rw (read_var_int-append_var_int (v % 2 ^ 32) rest (omega arith), read_number) refl

-- A run of one value.
unfoldable pub repeat : {A : Type 0} → (n : ℕ) → A → List A
repeat zero a = []
repeat (suc n) a = a ∷ repeat n a

unfoldable pub words_bytes : List ℕ → List ℕ
words_bytes [] = []
words_bytes (w ∷ ws) = big_endian 8 w ++ words_bytes ws

pub words_bytes-append :
    (vs ws : List ℕ) → words_bytes (vs ++ ws) ≡ words_bytes vs ++ words_bytes ws
unfolding words_bytes
words_bytes-append [] ws = refl
words_bytes-append (v ∷ vs) ws =
    ap (◌++◌ (big_endian 8 v)) (words_bytes-append vs ws)
    ∙ sym (append_assoc (big_endian 8 v) (words_bytes vs) (words_bytes ws))

pub write_uint64s-repeat : (n w : ℕ) → write_uint64s n w ≡ words_bytes (repeat n w)
unfolding write_uint64s words_bytes repeat
write_uint64s-repeat zero w = refl
write_uint64s-repeat (suc n) w = ap (◌++◌ (big_endian 8 w)) (write_uint64s-repeat n w)

pub Reads-none : {A : Type 0} (p : Reader A) → Reads (read_many 0 p) [] []
unfolding read_many
Reads-none p = Reads-give []

pub Reads-cons :
    {A : Type 0} (n : ℕ) (p : Reader A) (xs ys : List ℕ) (a : A) (as' : List A)
    → Reads p xs a
    → Reads (read_many n p) ys as'
    → Reads (read_many (suc n) p) (xs ++ ys) (a ∷ as')
unfolding read_many
Reads-cons n p xs ys a as' first others =
    Reads-and_then p _ xs ys a (a ∷ as') first
      (Reads-last (read_many n p) (λ vs. a ∷ vs) ys as' others)

pub Reads-words :
    (ws : List ℕ)
    → All (λ w. w < 2 ^ 64) ws
    → Reads (read_many (length ws) (read_unsigned 8)) (words_bytes ws) ws
unfolding words_bytes
Reads-words [] small = Reads-none (read_unsigned 8)
Reads-words (w ∷ ws) small =
    Reads-cons (length ws) (read_unsigned 8) (big_endian 8 w) (words_bytes ws) w ws
      (Reads-word 8 w (from_big_endian_eight w small.0)) (Reads-words ws small.1)

pub All-repeat : (n w : ℕ) → w < 2 ^ 64 → All (λ v. v < 2 ^ 64) (repeat n w)
unfolding repeat
All-repeat zero w h = tt
All-repeat (suc n) w h = (h, All-repeat n w h)
