-- ===== src/Base/Words.antt =====
-- Machine words as numbers below a power of two. A signed word is its two's complement pattern.
use Prim.Native.Nat.{ℕ, ◌<◌, ◌^◌}

abbrev pub IsByte : ℕ → Type 0
IsByte b = b < 256

abbrev pub IsU16 : ℕ → Type 0
IsU16 v = v < 2 ^ 16

abbrev pub IsU32 : ℕ → Type 0
IsU32 v = v < 2 ^ 32

abbrev pub IsU64 : ℕ → Type 0
IsU64 v = v < 2 ^ 64
