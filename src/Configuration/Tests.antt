-- ===== src/Configuration/Tests.antt =====
-- The theorems on the configuration packets at inputs that meet their conditions.
use cyu_core.Base.{
  ℕ, ◌≡◌, ◌<◌, ◌^◌, ◌++◌, refl, true, Option, some, List, [], ◌∷◌, arith, ok, err, Outcome, All,
  same, length, contains, map,
}
use cyu_core.Registry.{
  find_key, Registry, RegistryError, add_registries, check_tag_entries, check_tags, TagGroup, Set,
  empty_set, add_tag_group, add_tag_groups, new_set, registry_of, tags_of,
}
use cyu_core.Registry.Identifiers.{
  Identifier, is_namespace_rune, is_path_rune, split_colon, has_colon, all_runes, parse_identifier,
  validate_identifier,
}
use cyu_core.Nbt.{byte, null}
use cyu_core.Nbt.RoundTrip.{IsValue}
use cyu_core.Nbt.Write.{write_value, write_payload, write_network}
use cyu_core.Configuration.{
  ConfigurationError, append_network, append_entry, append_entries, encode_registry_data,
  encode_update_tags,
}
use cyu_core.Configuration.Scope.{
  damage_type, is_fire, synchronized_registry_keys, is_synchronized_registry, resolve,
  registry_data_registries, has_tag, validate_configuration_set,
}
use cyu_core.Configuration.Decoded.{IsSent, read_registry_data, read-encode_registry_data}
use cyu_core.Configuration.Encodes.{IsSmallGroup, encode_update_tags-new_set}
use cyu_core.Configuration.Synchronized.{synchronized_registries}

program : Unit {0}
unfolding same contains is_namespace_rune is_path_rune split_colon has_colon all_runes
    parse_identifier validate_identifier find_key add_registries check_tag_entries check_tags
    add_tag_group add_tag_groups new_set registry_of tags_of resolve registry_data_registries
    has_tag validate_configuration_set append_network append_entry append_entries
    encode_registry_data write_value write_payload write_network is_synchronized_registry
program = tt

-- A registry for each synchronized key, and the tag that is required.
abbrev empty_registries : List Identifier → List (Option Registry)
empty_registries [] = []
empty_registries (k ∷ ks) = some (record { key = k; entries = []; ids = [] }) ∷ empty_registries ks

abbrev fire_group : TagGroup
fire_group = record { registry = damage_type; tags = record { key = is_fire; entries = [] } ∷ [] }

abbrev set_of : Outcome RegistryError Set → Set
set_of (ok s) = s
set_of (err e) = empty_set

abbrev sent_set : Set
sent_set = set_of (new_set (empty_registries synchronized_registry_keys) (fire_group ∷ []))

sent_made : new_set (empty_registries synchronized_registry_keys) (fire_group ∷ []) ≡ ok sent_set
unfolding program
sent_made = refl

sent_valid : validate_configuration_set (some sent_set) ≡ ok tt
unfolding program
sent_valid = refl

damage_type_synchronized : is_synchronized_registry damage_type ≡ true
unfolding program
damage_type_synchronized = refl

synchronized_registries_example :
    (sent : List Registry) × (registry_data_registries (some sent_set) ≡ ok sent)
    × (map (λ (r : Registry). r.key) sent ≡ synchronized_registry_keys)
synchronized_registries_example =
    synchronized_registries (empty_registries synchronized_registry_keys) (fire_group ∷ []) sent_set
      tt sent_made sent_valid

small_groups : All IsSmallGroup sent_set.tag_groups
unfolding program
small_groups = ((omega arith, (omega arith, tt)), tt)

few_registries : length sent_set.registry_order < 2 ^ 31
unfolding program
few_registries = omega arith

encode_update_tags-new_set_example :
    (bytes : List ℕ) × (encode_update_tags (some sent_set) ≡ ok bytes)
encode_update_tags-new_set_example =
    encode_update_tags-new_set (empty_registries synchronized_registry_keys) (fire_group ∷ [])
      sent_set sent_made small_groups few_registries

-- One entry with a value and one without.
abbrev two_entries : Registry
two_entries = record {
  key = damage_type;
  entries =
      record { key = is_fire; data' = byte 5 } ∷ record { key = damage_type; data' = null } ∷ [];
  ids = (damage_type, 1) ∷ (is_fire, 0) ∷ [];
}

abbrev payload_of : Outcome ConfigurationError (List ℕ) → List ℕ
payload_of (ok bs) = bs
payload_of (err e) = []

abbrev payload : List ℕ
payload = payload_of (encode_registry_data (some two_entries))

encoded_two : encode_registry_data (some two_entries) ≡ ok payload
unfolding program
encoded_two = refl

two-IsSent : All IsSent two_entries.entries
unfolding IsValue
two-IsSent = ((omega arith, omega arith), ((omega arith, tt), tt))

read-encode_registry_data_example :
    read_registry_data (payload ++ (9 ∷ [])) ≡ some (damage_type, two_entries.entries, 9 ∷ [])
read-encode_registry_data_example =
    read-encode_registry_data two_entries payload (9 ∷ []) (omega arith) two-IsSent encoded_two
