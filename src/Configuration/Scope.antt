-- ===== src/Configuration/Scope.antt =====
-- internal/protocol/java/v776/scope.go: which registries are sent, in which order.
use cyu_core.Base.{
  Bool, true, false, Option, none, some, ℕ, List, [], ◌∷◌, if◌then◌else◌, Outcome, ok, err, ◌>>=◌,
  same, contains,
}
use cyu_core.Registry.{Registry, Tag, Set, registry_of, tags_of}
use cyu_core.Registry.Identifiers.{Identifier}
use cyu_core.Configuration.{ConfigurationError, nil_set, missing_synchronized, missing_is_fire}

-- A path in the namespace "minecraft".
abbrev pub minecraft : List ℕ → Identifier
minecraft path = 0x6d ∷ 0x69 ∷ 0x6e ∷ 0x65 ∷ 0x63 ∷ 0x72 ∷ 0x61 ∷ 0x66 ∷ 0x74 ∷ 0x3a ∷ path

abbrev pub damage_type : Identifier
damage_type =
    minecraft (0x64 ∷ 0x61 ∷ 0x6d ∷ 0x61 ∷ 0x67 ∷ 0x65 ∷ 0x5f ∷ 0x74 ∷ 0x79 ∷ 0x70 ∷ 0x65 ∷ [])

abbrev pub is_fire : Identifier
is_fire = minecraft (0x69 ∷ 0x73 ∷ 0x5f ∷ 0x66 ∷ 0x69 ∷ 0x72 ∷ 0x65 ∷ [])

abbrev pub synchronized_registry_keys : List Identifier
synchronized_registry_keys =
    -- minecraft:worldgen/biome
    (minecraft (
      0x77 ∷ 0x6f ∷ 0x72 ∷ 0x6c ∷ 0x64 ∷ 0x67 ∷ 0x65 ∷ 0x6e ∷ 0x2f ∷ 0x62 ∷ 0x69 ∷ 0x6f ∷ 0x6d
      ∷ 0x65 ∷ []))
    ∷
        -- minecraft:chat_type
        (minecraft (0x63 ∷ 0x68 ∷ 0x61 ∷ 0x74 ∷ 0x5f ∷ 0x74 ∷ 0x79 ∷ 0x70 ∷ 0x65 ∷ []))
    ∷
        -- minecraft:trim_pattern
        (minecraft
        (0x74 ∷ 0x72 ∷ 0x69 ∷ 0x6d ∷ 0x5f ∷ 0x70 ∷ 0x61 ∷ 0x74 ∷ 0x74 ∷ 0x65 ∷ 0x72 ∷ 0x6e ∷ []))
    ∷
        -- minecraft:trim_material
        (minecraft (
        0x74 ∷ 0x72 ∷ 0x69 ∷ 0x6d ∷ 0x5f ∷ 0x6d ∷ 0x61 ∷ 0x74 ∷ 0x65 ∷ 0x72 ∷ 0x69 ∷ 0x61 ∷ 0x6c
        ∷ []))
    ∷
        -- minecraft:wolf_variant
        (minecraft
        (0x77 ∷ 0x6f ∷ 0x6c ∷ 0x66 ∷ 0x5f ∷ 0x76 ∷ 0x61 ∷ 0x72 ∷ 0x69 ∷ 0x61 ∷ 0x6e ∷ 0x74 ∷ []))
    ∷
        -- minecraft:wolf_sound_variant
        (minecraft (
        0x77 ∷ 0x6f ∷ 0x6c ∷ 0x66 ∷ 0x5f ∷ 0x73 ∷ 0x6f ∷ 0x75 ∷ 0x6e ∷ 0x64 ∷ 0x5f ∷ 0x76 ∷ 0x61
        ∷ 0x72 ∷ 0x69 ∷ 0x61 ∷ 0x6e ∷ 0x74 ∷ []))
    ∷
        -- minecraft:pig_variant
        (minecraft
        (0x70 ∷ 0x69 ∷ 0x67 ∷ 0x5f ∷ 0x76 ∷ 0x61 ∷ 0x72 ∷ 0x69 ∷ 0x61 ∷ 0x6e ∷ 0x74 ∷ []))
    ∷
        -- minecraft:pig_sound_variant
        (minecraft (
        0x70 ∷ 0x69 ∷ 0x67 ∷ 0x5f ∷ 0x73 ∷ 0x6f ∷ 0x75 ∷ 0x6e ∷ 0x64 ∷ 0x5f ∷ 0x76 ∷ 0x61 ∷ 0x72
        ∷ 0x69 ∷ 0x61 ∷ 0x6e ∷ 0x74 ∷ []))
    ∷
        -- minecraft:frog_variant
        (minecraft
        (0x66 ∷ 0x72 ∷ 0x6f ∷ 0x67 ∷ 0x5f ∷ 0x76 ∷ 0x61 ∷ 0x72 ∷ 0x69 ∷ 0x61 ∷ 0x6e ∷ 0x74 ∷ []))
    ∷
        -- minecraft:cat_variant
        (minecraft
        (0x63 ∷ 0x61 ∷ 0x74 ∷ 0x5f ∷ 0x76 ∷ 0x61 ∷ 0x72 ∷ 0x69 ∷ 0x61 ∷ 0x6e ∷ 0x74 ∷ []))
    ∷
        -- minecraft:cat_sound_variant
        (minecraft (
        0x63 ∷ 0x61 ∷ 0x74 ∷ 0x5f ∷ 0x73 ∷ 0x6f ∷ 0x75 ∷ 0x6e ∷ 0x64 ∷ 0x5f ∷ 0x76 ∷ 0x61 ∷ 0x72
        ∷ 0x69 ∷ 0x61 ∷ 0x6e ∷ 0x74 ∷ []))
    ∷
        -- minecraft:cow_sound_variant
        (minecraft (
        0x63 ∷ 0x6f ∷ 0x77 ∷ 0x5f ∷ 0x73 ∷ 0x6f ∷ 0x75 ∷ 0x6e ∷ 0x64 ∷ 0x5f ∷ 0x76 ∷ 0x61 ∷ 0x72
        ∷ 0x69 ∷ 0x61 ∷ 0x6e ∷ 0x74 ∷ []))
    ∷
        -- minecraft:cow_variant
        (minecraft
        (0x63 ∷ 0x6f ∷ 0x77 ∷ 0x5f ∷ 0x76 ∷ 0x61 ∷ 0x72 ∷ 0x69 ∷ 0x61 ∷ 0x6e ∷ 0x74 ∷ []))
    ∷
        -- minecraft:chicken_sound_variant
        (minecraft (
        0x63 ∷ 0x68 ∷ 0x69 ∷ 0x63 ∷ 0x6b ∷ 0x65 ∷ 0x6e ∷ 0x5f ∷ 0x73 ∷ 0x6f ∷ 0x75 ∷ 0x6e ∷ 0x64
        ∷ 0x5f ∷ 0x76 ∷ 0x61 ∷ 0x72 ∷ 0x69 ∷ 0x61 ∷ 0x6e ∷ 0x74 ∷ []))
    ∷
        -- minecraft:chicken_variant
        (minecraft (
        0x63 ∷ 0x68 ∷ 0x69 ∷ 0x63 ∷ 0x6b ∷ 0x65 ∷ 0x6e ∷ 0x5f ∷ 0x76 ∷ 0x61 ∷ 0x72 ∷ 0x69 ∷ 0x61
        ∷ 0x6e ∷ 0x74 ∷ []))
    ∷
        -- minecraft:zombie_nautilus_variant
        (minecraft (
        0x7a ∷ 0x6f ∷ 0x6d ∷ 0x62 ∷ 0x69 ∷ 0x65 ∷ 0x5f ∷ 0x6e ∷ 0x61 ∷ 0x75 ∷ 0x74 ∷ 0x69 ∷ 0x6c
        ∷ 0x75 ∷ 0x73 ∷ 0x5f ∷ 0x76 ∷ 0x61 ∷ 0x72 ∷ 0x69 ∷ 0x61 ∷ 0x6e ∷ 0x74 ∷ []))
    ∷
        -- minecraft:painting_variant
        (minecraft (
        0x70 ∷ 0x61 ∷ 0x69 ∷ 0x6e ∷ 0x74 ∷ 0x69 ∷ 0x6e ∷ 0x67 ∷ 0x5f ∷ 0x76 ∷ 0x61 ∷ 0x72 ∷ 0x69
        ∷ 0x61 ∷ 0x6e ∷ 0x74 ∷ []))
    ∷
        -- minecraft:sulfur_cube_archetype
        (minecraft (
        0x73 ∷ 0x75 ∷ 0x6c ∷ 0x66 ∷ 0x75 ∷ 0x72 ∷ 0x5f ∷ 0x63 ∷ 0x75 ∷ 0x62 ∷ 0x65 ∷ 0x5f ∷ 0x61
        ∷ 0x72 ∷ 0x63 ∷ 0x68 ∷ 0x65 ∷ 0x74 ∷ 0x79 ∷ 0x70 ∷ 0x65 ∷ []))
    ∷
        -- minecraft:dimension_type
        (minecraft (
        0x64 ∷ 0x69 ∷ 0x6d ∷ 0x65 ∷ 0x6e ∷ 0x73 ∷ 0x69 ∷ 0x6f ∷ 0x6e ∷ 0x5f ∷ 0x74 ∷ 0x79 ∷ 0x70
        ∷ 0x65 ∷ []))
    ∷
        -- minecraft:damage_type
        (minecraft
        (0x64 ∷ 0x61 ∷ 0x6d ∷ 0x61 ∷ 0x67 ∷ 0x65 ∷ 0x5f ∷ 0x74 ∷ 0x79 ∷ 0x70 ∷ 0x65 ∷ []))
    ∷
        -- minecraft:banner_pattern
        (minecraft (
        0x62 ∷ 0x61 ∷ 0x6e ∷ 0x6e ∷ 0x65 ∷ 0x72 ∷ 0x5f ∷ 0x70 ∷ 0x61 ∷ 0x74 ∷ 0x74 ∷ 0x65 ∷ 0x72
        ∷ 0x6e ∷ []))
    ∷
        -- minecraft:enchantment
        (minecraft
        (0x65 ∷ 0x6e ∷ 0x63 ∷ 0x68 ∷ 0x61 ∷ 0x6e ∷ 0x74 ∷ 0x6d ∷ 0x65 ∷ 0x6e ∷ 0x74 ∷ []))
    ∷
        -- minecraft:jukebox_song
        (minecraft
        (0x6a ∷ 0x75 ∷ 0x6b ∷ 0x65 ∷ 0x62 ∷ 0x6f ∷ 0x78 ∷ 0x5f ∷ 0x73 ∷ 0x6f ∷ 0x6e ∷ 0x67 ∷ []))
    ∷
        -- minecraft:instrument
        (minecraft (0x69 ∷ 0x6e ∷ 0x73 ∷ 0x74 ∷ 0x72 ∷ 0x75 ∷ 0x6d ∷ 0x65 ∷ 0x6e ∷ 0x74 ∷ []))
    ∷
        -- minecraft:test_environment
        (minecraft (
        0x74 ∷ 0x65 ∷ 0x73 ∷ 0x74 ∷ 0x5f ∷ 0x65 ∷ 0x6e ∷ 0x76 ∷ 0x69 ∷ 0x72 ∷ 0x6f ∷ 0x6e ∷ 0x6d
        ∷ 0x65 ∷ 0x6e ∷ 0x74 ∷ []))
    ∷
        -- minecraft:test_instance
        (minecraft (
        0x74 ∷ 0x65 ∷ 0x73 ∷ 0x74 ∷ 0x5f ∷ 0x69 ∷ 0x6e ∷ 0x73 ∷ 0x74 ∷ 0x61 ∷ 0x6e ∷ 0x63 ∷ 0x65
        ∷ []))
    ∷
        -- minecraft:dialog
        (minecraft (0x64 ∷ 0x69 ∷ 0x61 ∷ 0x6c ∷ 0x6f ∷ 0x67 ∷ []))
    ∷
        -- minecraft:world_clock
        (minecraft
        (0x77 ∷ 0x6f ∷ 0x72 ∷ 0x6c ∷ 0x64 ∷ 0x5f ∷ 0x63 ∷ 0x6c ∷ 0x6f ∷ 0x63 ∷ 0x6b ∷ []))
    ∷
        -- minecraft:timeline
        (minecraft (0x74 ∷ 0x69 ∷ 0x6d ∷ 0x65 ∷ 0x6c ∷ 0x69 ∷ 0x6e ∷ 0x65 ∷ []))
    ∷ []

-- The copies of the slice are the slice.
unfoldable pub is_synchronized_registry : Identifier → Bool
is_synchronized_registry key = contains key synchronized_registry_keys

unfoldable pub resolve : List Identifier → Set → Outcome ConfigurationError (List Registry)
unfolding registry_of
resolve [] s = ok []
resolve (k ∷ ks) s = elim (registry_of k s) [
  | none ↦ err (missing_synchronized k)
  | some r ↦ resolve ks s >>= λ rs. ok (r ∷ rs)
]

unfoldable pub registry_data_registries : Option Set → Outcome ConfigurationError (List Registry)
unfolding resolve
registry_data_registries none = err nil_set
registry_data_registries (some s) = resolve synchronized_registry_keys s

unfoldable pub has_tag : Identifier → List Tag → Bool
has_tag key [] = false
has_tag key (t ∷ ts) = let rest = has_tag key ts in if same t.key key then true else rest

unfoldable pub validate_configuration_set : Option Set → Outcome ConfigurationError (Unit {0})
unfolding registry_data_registries tags_of has_tag
validate_configuration_set none = err nil_set
validate_configuration_set (some s) = registry_data_registries (some s) >>= λ rs.
    elim (tags_of damage_type s) [
      | none ↦ err missing_is_fire
      | some g ↦ if has_tag is_fire g.tags then ok tt else err missing_is_fire
    ]
