-- ===== src/Protocol/Text.antt =====
-- Length-prefixed strings.
use cyu_core.Base.{ℕ, ◌%◌, ◌^◌, ◌≤◌, ◌<◌, ◌≡◌, ap, sym, ◌∙◌, List, [], ◌++◌, arith, length, ok, err}
use cyu_core.Stream.{read_full-append}
use cyu_core.Protocol.{append_var_int, read_string, append_string, invalid_string_length}
use cyu_core.Protocol.VarInt.{read_var_int-append_var_int, append_var_int-groups}
use mathlib.Core.List.{append_assoc}

-- A string no longer than the limit of the reader, itself below 2 ^ 31, is read back from what
-- AppendString wrote, with what follows left in place.
pub read_string-append_string :
    (max : ℕ) (value rest : List ℕ)
    → max < 2 ^ 31
    → length value ≤ max
    → read_string max (append_string [] value ++ rest) ≡ ok (value, rest)
unfolding read_string append_string
read_string-append_string max value rest small fits =
    rw
      (
        append_assoc (append_var_int [] (length value % 2 ^ 32)) value rest,
        read_var_int-append_var_int (length value % 2 ^ 32) (value ++ rest) (omega arith),
      )
      (ground (arith, read_full-append value rest (length value % 2 ^ 32)))

-- A string longer than the limit of the reader, and shorter than 2 ^ 31, is refused with its
-- length, whatever follows it.
pub read_string_too_long :
    (max : ℕ) (value rest : List ℕ)
    → max < length value
    → length value < 2 ^ 31
    → read_string max (append_string [] value ++ rest)
      ≡ err (invalid_string_length (length value) max)
unfolding read_string append_string
read_string_too_long max value rest long fits =
    rw
      (
        append_assoc (append_var_int [] (length value % 2 ^ 32)) value rest,
        read_var_int-append_var_int (length value % 2 ^ 32) (value ++ rest) (omega arith),
      )
      (ground arith)

-- The writers append to what there is.
pub append_var_int-after :
    (dst : List ℕ) (v : ℕ) → v < 2 ^ 32 → append_var_int dst v ≡ dst ++ append_var_int [] v
append_var_int-after dst v h =
    append_var_int-groups dst v h ∙ ap (◌++◌ dst) (sym (append_var_int-groups [] v h))

pub append_string-after :
    (dst value : List ℕ) → append_string dst value ≡ dst ++ append_string [] value
unfolding append_string
append_string-after dst value =
    ap (λ (l : List ℕ). l ++ value) (append_var_int-after dst (length value % 2 ^ 32) (omega arith))
    ∙ append_assoc dst (append_var_int [] (length value % 2 ^ 32)) value
