-- ===== src/Registry/Identifiers.antt =====
-- internal/registry/identifier.go: an identifier is its bytes, a namespace and a path with a colon between.
use cyu_core.Base.{
  ℕ, Bool, true, false, not, ◌&&◌, ◌||◌, Option, none, some, List, [], ◌∷◌, leb, ◌==◌,
  if◌then◌else◌, Outcome, ok, err, same,
}

abbrev pub Identifier : Type 0
Identifier = List ℕ

pub data IdentifierError : Type 0 where
  not_namespaced invalid_namespace_character invalid_path_character not_canonical : IdentifierError

unfoldable pub is_namespace_rune : ℕ → Bool
is_namespace_rune r =
    (leb 0x61 r && leb r 0x7a)
    || (leb 0x30 r && leb r 0x39)
    || (r == 0x5f)
    || (r == 0x2d)
    || (r == 0x2e)

unfoldable pub is_path_rune : ℕ → Bool
unfolding is_namespace_rune
is_path_rune r = is_namespace_rune r || (r == 0x2f)

-- What stands before and after the first colon; `none` if there is none.
unfoldable pub split_colon : List ℕ → Option (List ℕ × List ℕ)
split_colon [] = none
split_colon (b ∷ bs) =
    let rest = split_colon bs in
    if b == 0x3a
    then some ([], bs)
    else elim rest [ none ↦ none | some (before, after) ↦ some (b ∷ before, after) ]

unfoldable pub has_colon : List ℕ → Bool
has_colon [] = false
has_colon (b ∷ bs) = (b == 0x3a) || has_colon bs

-- A byte above 0x7f is part of a rune above it, or is no rune: neither is allowed.
unfoldable pub all_runes : (allowed : ℕ → Bool) → List ℕ → Bool
all_runes allowed [] = true
all_runes allowed (r ∷ rs) = allowed r && all_runes allowed rs

abbrev pub is_empty : List ℕ → Bool
is_empty [] = true
is_empty (b ∷ bs) = false

unfoldable pub parse_identifier : List ℕ → Outcome IdentifierError Identifier
unfolding is_namespace_rune is_path_rune split_colon has_colon all_runes
parse_identifier raw = elim (split_colon raw) [
  | none ↦ err not_namespaced
  | some (namespace, path) ↦
      if is_empty namespace || is_empty path || has_colon path
      then err not_namespaced
      else if not (all_runes is_namespace_rune namespace)
      then err invalid_namespace_character
      else if not (all_runes is_path_rune path)
      then err invalid_path_character
      else ok raw
]

unfoldable pub validate_identifier : Identifier → Outcome IdentifierError (Unit {0})
unfolding parse_identifier
validate_identifier i = elim (parse_identifier i) [
  | err e ↦ err e
  | ok parsed ↦ if not (same parsed i) then err not_canonical else ok tt
]
