-- ===== src/Stream/BigEndian.antt =====
-- encoding/binary's BigEndian, as internal/nbt and the packet builders use it.
use cyu_core.Base.{
  ℕ, zero, suc, ◌+◌, ◌*◌, ◌/◌, ◌%◌, ◌^◌, ◌<◌, ◌≡◌, refl, List, [], ◌∷◌, arith, length, All,
}
use cyu_core.Base.Words.{IsByte}

-- PutUint16, PutUint32 and PutUint64 at 2, 4 and 8 bytes; a signed word is its pattern.
unfoldable pub big_endian : (bytes value : ℕ) → List ℕ
big_endian zero value = []
big_endian (suc n) value = (value / 256 ^ n % 256) ∷ big_endian n value

-- Uint16, Uint32 and Uint64.
unfoldable pub from_big_endian : (acc : ℕ) → List ℕ → ℕ
from_big_endian acc [] = acc
from_big_endian acc (b ∷ bs) = from_big_endian (acc * 256 + b) bs

pub length-big_endian : (n v : ℕ) → n ≡ length (big_endian n v)
unfolding big_endian
length-big_endian zero v = refl
length-big_endian (suc n) v = omega (arith, length-big_endian n v)

pub big_endian-IsByte : (n v : ℕ) → All IsByte (big_endian n v)
unfolding big_endian
big_endian-IsByte zero v = tt
big_endian-IsByte (suc n) v = (omega arith, big_endian-IsByte n v)

pub from_big_endian_two : (v : ℕ) → v < 2 ^ 16 → from_big_endian 0 (big_endian 2 v) ≡ v
unfolding big_endian from_big_endian
from_big_endian_two v h = omega arith

pub from_big_endian_four : (v : ℕ) → v < 2 ^ 32 → from_big_endian 0 (big_endian 4 v) ≡ v
unfolding big_endian from_big_endian
from_big_endian_four v h = omega arith

pub from_big_endian_eight : (v : ℕ) → v < 2 ^ 64 → from_big_endian 0 (big_endian 8 v) ≡ v
unfolding big_endian from_big_endian
from_big_endian_eight v h = omega arith
