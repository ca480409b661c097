-- ===== src/Registry/Required.antt =====
-- When a set meets the requirements of a version.
use cyu_core.Base.{
  ◌≡◌, refl, sym, ◌∙◌, true, Option, none, some, List, [], ◌∷◌, ◌++◌, inl, inr, ◌↔◌, Bool-cases,
  Option-cases, All, contains,
}
use cyu_core.Registry.{
  Map, find_key, is_some, TagGroup, Set, Requirements, registry_issues, keys_of, tag_issues,
  group_issues, validate_requirements,
}
use cyu_core.Registry.Identifiers.{Identifier}

abbrev pub HasRegistry : Set → Identifier → Type 0
HasRegistry s k = is_some (find_key k s.registries) ≡ true

-- The tags that a set has for a registry.
abbrev pub present_tags : Option TagGroup → List Identifier
present_tags none = []
present_tags (some g) = keys_of g.tags

abbrev pub HasTags : Set → Identifier × List Identifier → Type 0
HasTags s p =
    All (λ (t : Identifier). contains t (present_tags (find_key p.0 s.tag_groups)) ≡ true) p.1

append_empty : {A : Type 0} (xs ys : List A) → (xs ++ ys ≡ []) ↔ ((xs ≡ []) × (ys ≡ []))
append_empty [] ys = ((λ h. (refl, h)), λ h. h.1)
append_empty (x ∷ xs) ys = ((λ h. absurd cc), λ h. absurd (let g = h.0 in cc))

registry_issues_iff :
    (ks : List Identifier) (s : Set) → (registry_issues ks s ≡ []) ↔ All (HasRegistry s) ks
unfolding registry_issues
registry_issues_iff [] s = ((λ h. tt), λ h. refl)
registry_issues_iff (k ∷ ks) s =
    let rest = registry_issues_iff ks s in
    elim (Bool-cases (is_some (find_key k s.registries))) [
      | inl e ↦ rw e ((λ h. (refl, rest.0 h)), λ h. rest.1 h.1)
      | inr e ↦ rw e ((λ h. absurd cc), λ h. absurd (let g = h.0 in cc))
    ]

tag_issues_iff :
    (r : Identifier) (present required : List Identifier)
    → (tag_issues r present required ≡ [])
      ↔ All (λ (t : Identifier). contains t present ≡ true) required
unfolding tag_issues
tag_issues_iff r present [] = ((λ h. tt), λ h. refl)
tag_issues_iff r present (t ∷ ts) =
    let rest = tag_issues_iff r present ts in
    elim (Bool-cases (contains t present)) [
      | inl e ↦ rw e ((λ h. (refl, rest.0 h)), λ h. rest.1 h.1)
      | inr e ↦ rw e ((λ h. absurd cc), λ h. absurd (let g = h.0 in cc))
    ]

group_issues-present :
    (r : Identifier) (required : List Identifier) (rest : Map (List Identifier)) (s : Set)
    → group_issues ((r, required) ∷ rest) s
      ≡ tag_issues r (present_tags (find_key r s.tag_groups)) required ++ group_issues rest s
unfolding group_issues
group_issues-present r required rest s = elim (Option-cases (find_key r s.tag_groups)) [
  | inl e ↦ rw (e, group_issues) refl
  | inr (g, e) ↦ rw (e, group_issues) refl
]

group_issues_iff :
    (m : Map (List Identifier)) (s : Set) → (group_issues m s ≡ []) ↔ All (HasTags s) m
unfolding group_issues
group_issues_iff [] s = ((λ h. tt), λ h. refl)
group_issues_iff ((r, required) ∷ rest) s =
    let opened = group_issues-present r required rest s in
    let here = tag_issues_iff r (present_tags (find_key r s.tag_groups)) required in
    let later = group_issues_iff rest s in
    let both =
      append_empty (tag_issues r (present_tags (find_key r s.tag_groups)) required)
        (group_issues rest s) in
    (
      (λ h. let split = both.0 (sym opened ∙ h) in (here.0 split.0, later.0 split.1)),
      λ h. opened ∙ both.1 (here.1 h.0, later.1 h.1),
    )

-- ValidateRequirements returns nil exactly if the set has every required registry and, for each
-- registry with required tags, every one of them.
pub validate_requirements_iff :
    (q : Requirements) (s : Set)
    → (validate_requirements q s ≡ []) ↔ (All (HasRegistry s) q.registries × All (HasTags s) q.tags)
unfolding validate_requirements
validate_requirements_iff q s =
    let both = append_empty (registry_issues q.registries s) (group_issues q.tags s) in
    let registries = registry_issues_iff q.registries s in
    let groups = group_issues_iff q.tags s in
    (
      (λ h. let split = both.0 h in (registries.0 split.0, groups.0 split.1)),
      λ h. both.1 (registries.1 h.0, groups.1 h.1),
    )
