-- ===== src/Registry/Tests.antt =====
-- Small registries and sets, and the theorems at inputs that meet their conditions.
use cyu_core.Base.{
  ℕ, ◌≡◌, refl, false, none, some, List, [], ◌∷◌, arith, ok, err, All, same, ◌↔◌, get_elem?,
  contains,
}
use cyu_core.Registry.{
  Entry, find_key, Registry, duplicate_entry, missing_tag_entry, unknown_registry, add_entries,
  new_registry, entry_at, lookup, TagGroup, Set, add_registries, check_tag_entries, check_tags,
  add_tag_group, add_tag_groups, new_set, Requirements, missing_registry, missing_tag,
  registry_issues, keys_of, tag_issues, group_issues, validate_requirements,
}
use cyu_core.Registry.Identifiers.{
  Identifier, not_namespaced, invalid_namespace_character, invalid_path_character,
  is_namespace_rune, is_path_rune, split_colon, has_colon, all_runes, parse_identifier,
  validate_identifier,
}
use cyu_core.Nbt.{null}
use cyu_core.Registry.Entries.{lookup-new_registry}
use cyu_core.Registry.Required.{HasRegistry, HasTags, validate_requirements_iff}

program : Unit {0}
unfolding same contains is_namespace_rune is_path_rune split_colon has_colon all_runes
    parse_identifier validate_identifier find_key add_entries new_registry entry_at lookup
    add_registries check_tag_entries check_tags add_tag_group add_tag_groups new_set registry_issues
    keys_of tag_issues group_issues validate_requirements
program = tt

-- "a:b", "a:x" and "a:y"
abbrev ab : Identifier
ab = 0x61 ∷ 0x3a ∷ 0x62 ∷ []

abbrev ax : Identifier
ax = 0x61 ∷ 0x3a ∷ 0x78 ∷ []

abbrev ay : Identifier
ay = 0x61 ∷ 0x3a ∷ 0x79 ∷ []

no_namespace : parse_identifier (0x61 ∷ []) ≡ err not_namespaced
unfolding program
no_namespace = refl

slash_in_path : parse_identifier (0x61 ∷ 0x3a ∷ 0x2f ∷ []) ≡ ok (0x61 ∷ 0x3a ∷ 0x2f ∷ [])
unfolding program
slash_in_path = refl

slash_in_namespace : parse_identifier (0x2f ∷ 0x3a ∷ 0x61 ∷ []) ≡ err invalid_namespace_character
unfolding program
slash_in_namespace = refl

upper_case : parse_identifier (0x61 ∷ 0x3a ∷ 0x41 ∷ []) ≡ err invalid_path_character
unfolding program
upper_case = refl

abbrev two_entries : List Entry
two_entries = record { key = ax; data' = null } ∷ record { key = ay; data' = null } ∷ []

abbrev two : Registry
two = record { key = ab; entries = two_entries; ids = (ay, 1) ∷ (ax, 0) ∷ [] }

new_two : new_registry ab two_entries ≡ ok two
unfolding program
new_two = refl

new_duplicate :
    new_registry ab (record { key = ax; data' = null } ∷ record { key = ax; data' = null } ∷ [])
    ≡ err (duplicate_entry ax)
unfolding program
new_duplicate = refl

lookup-new_registry_example :
    (two.entries ≡ two_entries)
    × ((i : ℕ) (e : Entry) → get_elem? two_entries i ≡ some e → lookup e.key two ≡ some (some e, i))
    × ((k : Identifier)
        → All (λ (e : Entry). same e.key k ≡ false) two_entries
        → lookup k two ≡ none)
lookup-new_registry_example = lookup-new_registry ab two_entries two new_two (omega arith)

abbrev tagged : TagGroup
tagged = record { registry = ab; tags = record { key = ax; entries = ay ∷ ax ∷ [] } ∷ [] }

abbrev a_set : Set
a_set = record {
  registries = (ab, two) ∷ [];
  registry_order = ab ∷ [];
  tag_groups = (ab, tagged) ∷ [];
}

new_a_set : new_set (some two ∷ []) (tagged ∷ []) ≡ ok a_set
unfolding program
new_a_set = refl

new_unresolved :
    new_set
      (some two ∷ [])
      (record { registry = ab; tags = record { key = ax; entries = ab ∷ [] } ∷ [] } ∷ [])
    ≡ err (missing_tag_entry ab)
unfolding program
new_unresolved = refl

new_untargeted : new_set [] (tagged ∷ []) ≡ err (unknown_registry ab)
unfolding program
new_untargeted = refl

abbrev needed : Requirements
needed = record { registries = ab ∷ ax ∷ []; tags = (ab, ax ∷ ay ∷ []) ∷ [] }

two_issues : validate_requirements needed a_set ≡ missing_registry ax ∷ missing_tag ab ay ∷ []
unfolding program
two_issues = refl

validate_requirements_iff_example :
    (validate_requirements needed a_set ≡ [])
    ↔ (All (HasRegistry a_set) needed.registries × All (HasTags a_set) needed.tags)
validate_requirements_iff_example = validate_requirements_iff needed a_set
