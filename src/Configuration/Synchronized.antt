-- ===== src/Configuration/Synchronized.antt =====
-- The registries that are sent for a set that passed ValidateConfigurationSet.
use cyu_core.Base.{
  ◌≡◌, ap, sym, ◌∙◌, Option, some, List, [], ◌∷◌, arith, inl, inr, Option-cases, Outcome-cases, ok,
  map,
}
use cyu_core.Registry.{Registry, TagGroup, Set, find_key, registry_of, new_set}
use cyu_core.Registry.Identifiers.{Identifier}
use cyu_core.Registry.Tags.{IsGraph, find_key-All, new_set-IsGraph}
use cyu_core.Configuration.Scope.{
  synchronized_registry_keys, resolve, registry_data_registries, validate_configuration_set,
}

keys_of_resolved :
    (s : Set) (ks : List Identifier) (out : List Registry)
    → IsGraph s
    → resolve ks s ≡ ok out
    → map (λ (r : Registry). r.key) out ≡ ks
unfolding resolve registry_of
keys_of_resolved s [] out good h = let is : [] ≡ out = cc in ap (map (λ r. r.key)) (sym is)
keys_of_resolved s (k ∷ ks) out good h = elim (Option-cases (find_key k s.registries)) [
  | inl e ↦ absurd (ground (arith, e))
  | inr (r, e) ↦ elim (Outcome-cases (resolve ks s)) [
    | inr (x, d) ↦ absurd (ground (arith, e, d))
    | inl (rs, d) ↦
        let is : r ∷ rs ≡ out = ground (arith, e, d) in
        let named : r.key ≡ k = find_key-All (λ p. p.1.key ≡ p.0) k r s.registries good.keyed e in
        ap (map (λ (q : Registry). q.key)) (sym is)
        ∙ ap (λ (j : Identifier). j ∷ map (λ (q : Registry). q.key) rs) named
        ∙ ap (◌∷◌ k) (keys_of_resolved s ks rs good d)
  ]
]

-- For a set that NewSet returned and ValidateConfigurationSet accepted, RegistryDataRegistries
-- returns registries whose keys are the synchronized keys in their order.
pub synchronized_registries :
    (rs : List (Option Registry)) (gs : List TagGroup) (s : Set) (u : Unit {0})
    → new_set rs gs ≡ ok s
    → validate_configuration_set (some s) ≡ ok u
    → (sent : List Registry) × (registry_data_registries (some s) ≡ ok sent)
      × (map (λ (r : Registry). r.key) sent ≡ synchronized_registry_keys)
unfolding validate_configuration_set registry_data_registries
synchronized_registries rs gs s u made h =
    elim (Outcome-cases (resolve synchronized_registry_keys s)) [
      | inr (x, d) ↦ absurd (ground (arith, d))
      | inl (sent, d) ↦ (
        sent,
        d,
        keys_of_resolved s synchronized_registry_keys sent (new_set-IsGraph rs gs s made) d,
      )
    ]
