-- ===== src/Stream.antt =====
-- The standard library's readers and writers, as internal/protocol/codec.go and internal/nbt use
-- them. A reader is the list of the bytes that it still has; it ends with io.EOF.
pub mod BigEndian
use cyu_core.Base.{
  ℕ, ◌≡◌, List, ◌++◌, arith, leb, ◌==◌, if◌then◌else◌, length, take, drop, take-append, drop-append,
  length-append, length-take, take-append-drop, Outcome, ok, err,
}

pub data IoError : Type 0 where
  eof unexpected_eof : IoError

-- io.ReadFull into a buffer of `n` bytes.
unfoldable pub read_full : ℕ → List ℕ → Outcome IoError (List ℕ × List ℕ)
read_full n bs =
    if leb n (length bs)
    then ok (take n bs, drop n bs)
    else if length bs == 0
    then err eof
    else err unexpected_eof

pub read_full-append :
    (xs rest : List ℕ) (n : ℕ) → n ≡ length xs → read_full n (xs ++ rest) ≡ ok (xs, rest)
unfolding read_full
read_full-append xs rest n e =
    rw e (ground (arith, length-append xs rest, take-append xs rest, drop-append xs rest))

pub read_full_takes :
    (n : ℕ) (bs xs rest : List ℕ)
    → read_full n bs ≡ ok (xs, rest)
    → (length xs ≡ n) × (bs ≡ xs ++ rest)
unfolding read_full
read_full_takes n bs xs rest e = ground (arith, length-take n bs, take-append-drop n bs)
