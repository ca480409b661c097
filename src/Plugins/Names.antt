-- ===== src/Plugins/Names.antt =====
-- api/command/command.go and api/event/event.go: the names of commands and of event types. A string
-- is its bytes.
use cyu_core.Base.{
  ℕ, ◌+◌, ◌-◌, Bool, not, ◌&&◌, ◌||◌, List, [], ◌∷◌, ltb, leb, ◌==◌, if◌then◌else◌, length, Outcome,
  ok, err,
}
unfoldable pub use cyu_core.Base.{same, contains}
pub use cyu_core.Base.{same_of_eq, eq_of_same}

abbrev pub max_name_length : ℕ
max_name_length = 48

abbrev pub max_description_length : ℕ
max_description_length = 256

abbrev pub max_type_length : ℕ
max_type_length = 96

abbrev pub is_alpha_numeric : ℕ → Bool
is_alpha_numeric ch = (leb 0x61 ch && leb ch 0x7a) || (leb 0x30 ch && leb ch 0x39)

-- The errors of the two packages, and how each was met.
pub data NameError : Type 0 where
  invalid_length : NameError
  unsupported_character must_be_alpha_numeric : ℕ → NameError
  description_too_long : NameError
  duplicate_literal : List ℕ → NameError
  several_separators : NameError
  not_namespaced : NameError

-- A result that is used for its error only. The loop of command.ParseName from `index` on, in a name of `size` bytes.
unfoldable pub check_name : (index size : ℕ) → List ℕ → Outcome NameError (Unit {0})
check_name index size [] = ok tt
check_name index size (ch ∷ rest) =
    let others = check_name (index + 1) size rest in
    let separator = (ch == 0x5f) || (ch == 0x2d) in
    if not (is_alpha_numeric ch) && not separator
    then err (unsupported_character ch)
    else if ((index == 0) || (index == size - 1)) && not (is_alpha_numeric ch)
    then err (must_be_alpha_numeric ch)
    else others

unfoldable pub parse_name : List ℕ → Outcome NameError (List ℕ)
unfolding check_name
parse_name raw =
    if (length raw == 0) || ltb max_name_length (length raw)
    then err invalid_length
    else elim (check_name 0 (length raw) raw) [ ok _ ↦ ok raw | err e ↦ err e ]

pub record Definition : Type 0 where
  pub name : List ℕ
  pub aliases : List (List ℕ)
  -- The description as strings.TrimSpace leaves it.
  pub description : List ℕ

-- The loop over the aliases. ParseName gives back its argument, so that the comparison with it
-- never fails.
unfoldable pub check_aliases : (seen aliases : List (List ℕ)) → Outcome NameError (Unit {0})
unfolding parse_name
check_aliases seen [] = ok tt
check_aliases seen (alias ∷ aliases) =
    let others = check_aliases (alias ∷ seen) aliases in
    elim (parse_name alias) [
      | err e ↦ err e
      | ok _ ↦ if contains alias seen then err (duplicate_literal alias) else others
    ]

-- Definition.Validate
unfoldable pub validate : Definition → Outcome NameError (Unit {0})
validate d = elim (parse_name d.name) [
  | err e ↦ err e
  | ok _ ↦
      if ltb max_description_length (length d.description)
      then err description_too_long
      else check_aliases (d.name ∷ []) d.aliases
]

-- The loop of event.ParseType: `colon` is one more than the index of the colon, and 0 before it.
unfoldable pub find_colon : (index colon : ℕ) → List ℕ → Outcome NameError ℕ
find_colon index colon [] = ok colon
find_colon index colon (ch ∷ rest) =
    let at_colon = find_colon (index + 1) (index + 1) rest in
    let others = find_colon (index + 1) colon rest in
    if ch == 0x3a
    then (if leb 1 colon then err several_separators else at_colon)
    else if is_alpha_numeric ch
    then others
    else if (ch == 0x2e) || (ch == 0x5f) || (ch == 0x2d) || (ch == 0x2f)
    then others
    else err (unsupported_character ch)

unfoldable pub parse_type : List ℕ → Outcome NameError (List ℕ)
parse_type raw =
    if (length raw == 0) || ltb max_type_length (length raw)
    then err invalid_length
    else elim (find_colon 0 0 raw) [
      | err e ↦ err e
      | ok colon ↦ if leb colon 1 || (colon == length raw) then err not_namespaced else ok raw
    ]
