-- ===== src/Registry.antt =====
-- internal/registry/model.go: the registries and tags of a version's data. A pointer to a registry is the
-- registry, and an identifier (Registry/Identifiers, of identifier.go) is its bytes.
pub mod Identifiers
pub mod Entries
pub mod Tags
pub mod Required
mod Tests
use cyu_core.Base.{
  ℕ, zero, suc, ◌+◌, ◌-◌, ◌%◌, ◌^◌, Bool, true, false, not, ◌&&◌, ◌||◌, Option, none, some, List,
  [], ◌∷◌, ◌++◌, leb, ltb, ◌==◌, if◌then◌else◌, length, get_elem?, Outcome, ok, err, same, contains,
}
use cyu_core.Nbt.{Value}
use cyu_core.Registry.Identifiers.{
  not_namespaced, invalid_namespace_character, invalid_path_character, not_canonical, Identifier,
  IdentifierError, is_namespace_rune, is_path_rune, split_colon, has_colon, all_runes, is_empty,
  parse_identifier, validate_identifier,
}

-- The `Data` of an entry may be nil, which is `null`.
pub record Entry : Type 0 where
  pub key : Identifier
  pub data' : Value

-- A map is the list of its pairs, of which no two have the same key.
abbrev pub Map : Type 0 → Type 0
Map A = List (Identifier × A)

unfoldable pub find_key : {A : Type 0} → Identifier → Map A → Option A
find_key k [] = none
find_key k ((i, a) ∷ rest) = let found = find_key k rest in if same i k then some a else found

abbrev pub is_some : {A : Type 0} → Option A → Bool
is_some none = false
is_some (some a) = true

pub record Registry : Type 0 where
  pub key : Identifier
  pub entries : List Entry
  pub ids : Map ℕ

pub data RegistryError : Type 0 where
  invalid_identifier : IdentifierError → RegistryError
  duplicate_entry duplicate_registry unknown_registry duplicate_group : Identifier → RegistryError
  nil_registry : (index : ℕ) → RegistryError
  duplicate_tag duplicate_tag_entry missing_tag_entry : Identifier → RegistryError

-- The loop of NewRegistry from `index` on; an id is the pattern of an int32. Clone gives an equal value.
unfoldable pub add_entries : (index : ℕ) → List Entry → Registry → Outcome RegistryError Registry
unfolding validate_identifier find_key
add_entries index [] r = ok r
add_entries index (e ∷ es) r =
    let rest =
      add_entries (index + 1) es
        (record r { entries = r.entries ++ (e ∷ []); ids = (e.key, index % 2 ^ 32) ∷ r.ids }) in
    elim (validate_identifier e.key) [
      | err x ↦ err (invalid_identifier x)
      | ok _ ↦ if is_some (find_key e.key r.ids) then err (duplicate_entry e.key) else rest
    ]

unfoldable pub new_registry : Identifier → List Entry → Outcome RegistryError Registry
unfolding validate_identifier add_entries
new_registry key entries = elim (validate_identifier key) [
  | err x ↦ err (invalid_identifier x)
  | ok _ ↦ add_entries 0 entries (record { key = key; entries = []; ids = [] })
]

-- `r.entries[id]`; `none` is the panic of an index out of range, which a negative id is.
unfoldable pub entry_at : ℕ → List Entry → Option Entry
entry_at id es = if ltb id (2 ^ 31) then get_elem? es id else none

-- `none` is a missing key.
unfoldable pub lookup : Identifier → Registry → Option (Option Entry × ℕ)
unfolding find_key entry_at
lookup key r = elim (find_key key r.ids) [
  | none ↦ none
  | some id ↦ some (entry_at id r.entries, id)
]

unfoldable pub entry_id : Identifier → Registry → Option ℕ
unfolding find_key
entry_id key r = find_key key r.ids

pub record Tag : Type 0 where
  pub key : Identifier
  pub entries : List Identifier

pub record TagGroup : Type 0 where
  pub registry : Identifier
  pub tags : List Tag

pub record Set : Type 0 where
  pub registries : Map Registry
  pub registry_order : List Identifier
  pub tag_groups : Map TagGroup

-- The first loop of NewSet from `index` on; `none` is a nil registry.
unfoldable pub add_registries :
    (index : ℕ) → List (Option Registry) → Set → Outcome RegistryError Set
unfolding find_key
add_registries index [] s = ok s
add_registries index (none ∷ rs) s = err (nil_registry index)
add_registries index (some r ∷ rs) s =
    let rest = add_registries (index + 1) rs (record s {
      registries = (r.key, r) ∷ s.registries;
      registry_order = s.registry_order ++ (r.key ∷ []);
    }) in
    if is_some (find_key r.key s.registries) then err (duplicate_registry r.key) else rest

-- The loop over the entries of a tag. The copy that it makes equals the tag.
unfoldable pub check_tag_entries :
    Registry → (seen entries : List Identifier) → Outcome RegistryError (Unit {0})
unfolding find_key
check_tag_entries r seen [] = ok tt
check_tag_entries r seen (e ∷ es) =
    let rest = check_tag_entries r (e ∷ seen) es in
    if contains e seen
    then err (duplicate_tag_entry e)
    else if not (is_some (find_key e r.ids))
    then err (missing_tag_entry e)
    else rest

unfoldable pub check_tags :
    Registry → (seen : List Identifier) → List Tag → Outcome RegistryError (Unit {0})
unfolding validate_identifier check_tag_entries
check_tags r seen [] = ok tt
check_tags r seen (t ∷ ts) =
    let rest = check_tags r (t.key ∷ seen) ts in
    elim (validate_identifier t.key) [
      | err x ↦ err (invalid_identifier x)
      | ok _ ↦
          if contains t.key seen
          then err (duplicate_tag t.key)
          else elim (check_tag_entries r [] t.entries) [ err x ↦ err x | ok _ ↦ rest ]
    ]

unfoldable pub add_tag_group : TagGroup → Set → Outcome RegistryError Set
unfolding validate_identifier find_key check_tags
add_tag_group g s = elim (validate_identifier g.registry) [
  | err x ↦ err (invalid_identifier x)
  | ok _ ↦ elim (find_key g.registry s.registries) [
    | none ↦ err (unknown_registry g.registry)
    | some r ↦
        if is_some (find_key g.registry s.tag_groups)
        then err (duplicate_group g.registry)
        else elim (check_tags r [] g.tags) [
          | err x ↦ err x
          | ok _ ↦ ok (record s { tag_groups = (g.registry, g) ∷ s.tag_groups })
        ]
  ]
]

unfoldable pub add_tag_groups : List TagGroup → Set → Outcome RegistryError Set
unfolding add_tag_group
add_tag_groups [] s = ok s
add_tag_groups (g ∷ gs) s = elim (add_tag_group g s) [
  | err x ↦ err x
  | ok s' ↦ add_tag_groups gs s'
]

abbrev pub empty_set : Set
empty_set = record { registries = []; registry_order = []; tag_groups = [] }

unfoldable pub new_set : List (Option Registry) → List TagGroup → Outcome RegistryError Set
unfolding add_registries add_tag_groups
new_set rs gs = elim (add_registries 0 rs empty_set) [ err x ↦ err x | ok s ↦ add_tag_groups gs s ]

-- The methods `Registry`, `Registries` and `Tags`; `none` in the list is a nil registry.
unfoldable pub registry_of : Identifier → Set → Option Registry
unfolding find_key
registry_of key s = find_key key s.registries

unfoldable pub registries_in : List Identifier → Set → List (Option Registry)
unfolding registry_of
registries_in [] s = []
registries_in (k ∷ ks) s = registry_of k s ∷ registries_in ks s

unfoldable pub registries_of : Set → List (Option Registry)
unfolding registries_in
registries_of s = registries_in s.registry_order s

unfoldable pub tags_of : Identifier → Set → Option TagGroup
unfolding find_key
tags_of key s = find_key key s.tag_groups

pub record Requirements : Type 0 where
  pub registries : List Identifier
  pub tags : Map (List Identifier)

pub data Issue : Type 0 where
  missing_registry : Identifier → Issue
  missing_tag : (registry tag : Identifier) → Issue

unfoldable pub registry_issues : List Identifier → Set → List Issue
unfolding find_key
registry_issues [] s = []
registry_issues (k ∷ ks) s =
    let rest = registry_issues ks s in
    if is_some (find_key k s.registries) then rest else missing_registry k ∷ rest

unfoldable pub keys_of : List Tag → List Identifier
keys_of [] = []
keys_of (t ∷ ts) = t.key ∷ keys_of ts

-- The required tags of a registry that are not among the present ones.
unfoldable pub tag_issues :
    (registry : Identifier) → (present required : List Identifier) → List Issue
tag_issues r present [] = []
tag_issues r present (t ∷ ts) =
    let rest = tag_issues r present ts in
    if contains t present then rest else missing_tag r t ∷ rest

unfoldable pub group_issues : Map (List Identifier) → Set → List Issue
unfolding find_key keys_of tag_issues
group_issues [] s = []
group_issues ((r, required) ∷ rest) s = elim (find_key r s.tag_groups) [
  | none ↦ tag_issues r [] required ++ group_issues rest s
  | some g ↦ tag_issues r (keys_of g.tags) required ++ group_issues rest s
]

-- The issues, in an order of the map's keys; none of them is the nil error.
unfoldable pub validate_requirements : Requirements → Set → List Issue
unfolding registry_issues group_issues
validate_requirements q s = registry_issues q.registries s ++ group_issues q.tags s
