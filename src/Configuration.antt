-- ===== src/Configuration.antt =====
-- internal/protocol/java/v776/configuration.go: the payloads of the RegistryData and UpdateTags
-- packets, on the packet codec, network NBT and the registries. `none` is a nil pointer.
pub mod Scope
pub mod Decoded
pub mod Encodes
pub mod Synchronized
mod Tests
use cyu_core.Base.{
  ℕ, zero, suc, ◌+◌, ◌-◌, ◌%◌, ◌^◌, Bool, true, false, not, Option, none, some, List, [], ◌∷◌, ◌++◌,
  ltb, if◌then◌else◌, length, Outcome, ok, err, ◌>>=◌,
}
use cyu_core.Protocol.{append_string, append_var_int}
use cyu_core.Nbt.{Value, is_nil}
use cyu_core.Nbt.Write.{write_network}
use cyu_core.Registry.{Entry, Registry, TagGroup, Tag, Set, registries_of, tags_of, entry_id}
use cyu_core.Registry.Identifiers.{Identifier}

-- `nil_dereference` is the panic of a method of a nil registry.
pub data ConfigurationError : Type 0 where
  nil_registry nil_set nil_dereference missing_is_fire : ConfigurationError
  too_many_entries count_exceeds : (count : ℕ) → ConfigurationError
  entry_failed : (entry : Identifier) → cyu_core.Nbt.Error → ConfigurationError
  missing_entry : (registry tag entry : Identifier) → ConfigurationError
  missing_synchronized : Identifier → ConfigurationError

-- Write of appendWriter, whose writes do not fail, behind WriteNetwork.
unfoldable pub append_network : List ℕ → Identifier → Value → Outcome ConfigurationError (List ℕ)
unfolding write_network
append_network payload key v = elim (write_network v) [
  | err e ↦ err (entry_failed key e)
  | ok bytes ↦ ok (payload ++ bytes)
]

unfoldable pub append_entry : List ℕ → Entry → Outcome ConfigurationError (List ℕ)
unfolding append_network
append_entry payload e =
    let named = append_string payload e.key in
    if is_nil e.data'
    then ok (named ++ (0 ∷ []))
    else append_network (named ++ (1 ∷ [])) e.key e.data'

unfoldable pub append_entries : List ℕ → List Entry → Outcome ConfigurationError (List ℕ)
unfolding append_entry
append_entries payload [] = ok payload
append_entries payload (e ∷ es) = append_entry payload e >>= λ next. append_entries next es

unfoldable pub encode_registry_data : Option Registry → Outcome ConfigurationError (List ℕ)
unfolding append_entries
encode_registry_data none = err nil_registry
encode_registry_data (some r) =
    let n = length r.entries in
    if ltb (2 ^ 31 - 1) n
    then err (too_many_entries n)
    else append_entries (append_var_int (append_string [] r.key) n) r.entries

-- A length is never below 0.
unfoldable pub append_count : List ℕ → (count : ℕ) → Outcome ConfigurationError (List ℕ)
append_count dst count =
    if ltb (2 ^ 31 - 1) count then err (count_exceeds count) else ok (append_var_int dst count)

unfoldable pub count_groups : List (Option Registry) → Set → Outcome ConfigurationError ℕ
unfolding tags_of
count_groups [] s = ok 0
count_groups (none ∷ rs) s = err nil_dereference
count_groups (some r ∷ rs) s = elim (tags_of r.key s) [
  | none ↦ count_groups rs s
  | some g ↦ count_groups rs s >>= λ n. ok (suc n)
]

unfoldable pub append_ids :
    Registry → TagGroup → Tag → List ℕ → List Identifier → Outcome ConfigurationError (List ℕ)
unfolding entry_id
append_ids r g t payload [] = ok payload
append_ids r g t payload (e ∷ es) = elim (entry_id e r) [
  | none ↦ err (missing_entry g.registry t.key e)
  | some id ↦ append_ids r g t (append_var_int payload id) es
]

unfoldable pub append_tag : Registry → TagGroup → List ℕ → Tag → Outcome ConfigurationError (List ℕ)
unfolding append_count append_ids
append_tag r g payload t =
    append_count (append_string payload t.key) (length t.entries) >>= λ counted.
    append_ids r g t counted t.entries

unfoldable pub append_tags :
    Registry → TagGroup → List ℕ → List Tag → Outcome ConfigurationError (List ℕ)
unfolding append_tag
append_tags r g payload [] = ok payload
append_tags r g payload (t ∷ ts) = append_tag r g payload t >>= λ next. append_tags r g next ts

unfoldable pub append_group : Registry → List ℕ → TagGroup → Outcome ConfigurationError (List ℕ)
unfolding append_count append_tags
append_group r payload g =
    append_count (append_string payload g.registry) (length g.tags) >>= λ counted.
    append_tags r g counted g.tags

unfoldable pub append_groups :
    List ℕ → List (Option Registry) → Set → Outcome ConfigurationError (List ℕ)
unfolding tags_of append_group
append_groups payload [] s = ok payload
append_groups payload (none ∷ rs) s = err nil_dereference
append_groups payload (some r ∷ rs) s = elim (tags_of r.key s) [
  | none ↦ append_groups payload rs s
  | some g ↦ append_group r payload g >>= λ next. append_groups next rs s
]

unfoldable pub encode_update_tags : Option Set → Outcome ConfigurationError (List ℕ)
unfolding registries_of count_groups append_count append_groups
encode_update_tags none = err nil_set
encode_update_tags (some s) = count_groups (registries_of s) s >>= λ n.
    append_count [] n >>= λ payload. append_groups payload (registries_of s) s
