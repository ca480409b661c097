-- ===== src/Chunk/Layers.antt =====
-- The blocks of the sections that were read.
use cyu_core.Base.{
  ℕ, zero, suc, ◌-◌, ◌/◌, ◌%◌, ◌^◌, ◌<◌, ◌≤◌, ◌≡◌, refl, ap, ◌∙◌, ◌&&◌, some, List, [], ◌∷◌, ◌++◌,
  ◌==◌, arith, if◌then◌else◌, inl, inr, Bool-cases, ltb,
}
use cyu_core.Chunk.{build_chunk_packet}
use cyu_core.Chunk.Client.{read_level, nth, value_at}
use cyu_core.Chunk.Reads.{repeat}
use cyu_core.Chunk.Sections.{layer, level_sections, layer_words}
use cyu_core.Chunk.Decoded.{Reads-level}
use native.Mathlib.Nat.{zero-div}

nth-repeat : (i n v : ℕ) → i < n → nth i (repeat n v) ≡ v
unfolding nth repeat
nth-repeat i zero v h = absurd (omega arith)
nth-repeat zero (suc n) v h = refl
nth-repeat (suc i) (suc n) v h = nth-repeat i n v (omega arith)

nth-layer_words_low : (n i v : ℕ) (ws : List ℕ) → i < n → nth i (repeat n v ++ ws) ≡ v
unfolding nth repeat
nth-layer_words_low zero i v ws h = absurd (omega arith)
nth-layer_words_low (suc n) zero v ws h = refl
nth-layer_words_low (suc n) (suc i) v ws h = nth-layer_words_low n i v ws (omega arith)

nth-layer_words_high : (n i v : ℕ) (ws : List ℕ) → n ≤ i → nth i (repeat n v ++ ws) ≡ nth (i - n) ws
unfolding nth repeat
nth-layer_words_high zero i v ws h = ap (λ t. nth t ws) (let same : i ≡ i - 0 = omega arith in same)
nth-layer_words_high (suc n) zero v ws h = absurd (omega arith)
nth-layer_words_high (suc n) (suc i) v ws h =
    nth-layer_words_high n i v ws (omega arith)
    ∙ ap (λ t. nth t ws) (let same : i - n ≡ suc i - suc n = omega arith in same)

-- Each index in a word of a full layer is 1.
digit : (j : ℕ) → j < 16 → 0x1111111111111111 / 16 ^ j % 16 ≡ 1
digit zero h = refl
digit (suc zero) h = refl
digit (suc (suc zero)) h = refl
digit (suc (suc (suc zero))) h = refl
digit (suc (suc (suc (suc zero)))) h = refl
digit (suc (suc (suc (suc (suc zero))))) h = refl
digit (suc (suc (suc (suc (suc (suc zero)))))) h = refl
digit (suc (suc (suc (suc (suc (suc (suc zero))))))) h = refl
digit (suc (suc (suc (suc (suc (suc (suc (suc zero)))))))) h = refl
digit (suc (suc (suc (suc (suc (suc (suc (suc (suc zero))))))))) h = refl
digit (suc (suc (suc (suc (suc (suc (suc (suc (suc (suc zero)))))))))) h = refl
digit (suc (suc (suc (suc (suc (suc (suc (suc (suc (suc (suc zero))))))))))) h = refl
digit (suc (suc (suc (suc (suc (suc (suc (suc (suc (suc (suc (suc zero)))))))))))) h = refl
digit (suc (suc (suc (suc (suc (suc (suc (suc (suc (suc (suc (suc (suc zero))))))))))))) h = refl
digit (suc (suc (suc (suc (suc (suc (suc (suc (suc (suc (suc (suc (suc (suc zero)))))))))))))) h =
    refl
digit (suc (suc (suc (suc (suc (suc (suc (suc (suc (suc (suc (suc (suc (suc (suc zero)))))))))))))))
      h =
    refl
digit
      (suc
        (suc (suc (suc (suc (suc (suc (suc (suc (suc (suc (suc (suc (suc (suc (suc j))))))))))))))))
      h =
    absurd (omega arith)

no_digit : (j : ℕ) → 0 / 16 ^ j % 16 ≡ 0
no_digit j = ap (λ t. t % 16) (zero-div (16 ^ j))

value_at-layer :
    (id i : ℕ) → i < 4096 → value_at i (layer id).blocks ≡ (if ltb i 256 then id % 2 ^ 32 else 0)
unfolding value_at nth
value_at-layer id i h = elim (Bool-cases (ltb i 256)) [
  | inl e ↦
      let word : nth (i / 16) layer_words ≡ 0x1111111111111111 =
        nth-layer_words_low 16 (i / 16) 0x1111111111111111 (repeat 240 0) (ground arith) in
      rw e (
        ap (λ w. nth (w / 16 ^ (i % 16) % 16) (0 ∷ id % 2 ^ 32 ∷ [])) word
        ∙ ap (λ d. nth d (0 ∷ id % 2 ^ 32 ∷ [])) (digit (i % 16) (omega arith)))
  | inr e ↦
      let word : nth (i / 16) layer_words ≡ 0 =
        nth-layer_words_high 16 (i / 16) 0x1111111111111111 (repeat 240 0) (ground arith)
        ∙ nth-repeat (i / 16 - 16) 240 0 (ground arith) in
      rw e (
        ap (λ w. nth (w / 16 ^ (i % 16) % 16) (0 ∷ id % 2 ^ 32 ∷ [])) word
        ∙ ap (λ d. nth d (0 ∷ id % 2 ^ 32 ∷ [])) (no_digit (i % 16)))
]

-- A client reads every packet of buildChunkPacket to its end, and what follows is left in place: the
-- coordinates modulo 2 ^ 32, one height map of 37 zero words, and, within their announced size, 24
-- sections, all air, but for the numbers 4, 8 and 12 of the chunk at the origin. Each of these counts 256
-- blocks, and its 4096 blocks are 256 times the platform block, modulo 2 ^ 32, and then air.
pub read_level-build_chunk_packet :
    (chunk_x chunk_z id : ℕ) (rest : List ℕ)
    → (read_level (build_chunk_packet chunk_x chunk_z id ++ rest)
        ≡ some (
          record {
            x = chunk_x % 2 ^ 32;
            z = chunk_z % 2 ^ 32;
            map_kind = 4;
            heights = repeat 37 0;
            sections = level_sections ((chunk_x == 0) && (chunk_z == 0)) id;
            tail = repeat 7 0;
          },
          rest,
        ))
      × ((i : ℕ) → i < 4096 → value_at i (layer id).blocks ≡ (if ltb i 256 then id % 2 ^ 32 else 0))
read_level-build_chunk_packet chunk_x chunk_z id rest =
    (Reads-level chunk_x chunk_z id rest, value_at-layer id)
