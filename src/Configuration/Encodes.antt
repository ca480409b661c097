-- ===== src/Configuration/Encodes.antt =====
-- Which sets are encoded.
use cyu_core.Base.{
  ℕ, suc, ◌^◌, ◌<◌, ◌≤◌, ◌≡◌, refl, ap, sym, ◌∙◌, true, Option, none, some, List, [], ◌∷◌, arith,
  inl, inr, Option-cases, All, length, ok, Outcome, ◌>>=◌,
}
use cyu_core.Protocol.{append_string, append_var_int}
use cyu_core.Registry.{
  find_key, is_some, Registry, TagGroup, Tag, Set, new_set, registries_in, registries_of,
  registry_of, tags_of, entry_id,
}
use cyu_core.Registry.Identifiers.{Identifier}
use cyu_core.Registry.Entries.{some_found}
use cyu_core.Registry.Tags.{
  IsEntryOf, IsResolved, IsGroupOf, IsGraph, find_key-All, new_set-IsGraph,
}
use cyu_core.Configuration.{
  ConfigurationError, append_count, count_groups, append_ids, append_tag, append_tags, append_group,
  append_groups, encode_update_tags,
}
use mathlib.Core.Path.{subst}

abbrev pub Succeeds : {A : Type 0} → Outcome ConfigurationError A → Type 0
Succeeds {A} r = (a : A) × (r ≡ ok a)

abbrev IsCount : ℕ → Type 0
IsCount n = n < 2 ^ 31

Succeeds-bind :
    {A B : Type 0} (r : Outcome ConfigurationError A) (f : A → Outcome ConfigurationError B)
    → Succeeds r
    → ((a : A) → Succeeds (f a))
    → Succeeds (r >>= f)
Succeeds-bind r f (a, e) h = rw e (h a)

Succeeds-append_count : (dst : List ℕ) (n : ℕ) → IsCount n → Succeeds (append_count dst n)
unfolding append_count
Succeeds-append_count dst n h = (append_var_int dst n, ground arith)

Succeeds-append_ids :
    (r : Registry) (g : TagGroup) (t : Tag) (payload : List ℕ) (es : List Identifier)
    → All (IsEntryOf r) es
    → Succeeds (append_ids r g t payload es)
unfolding append_ids entry_id
Succeeds-append_ids r g t payload [] h = (payload, refl)
Succeeds-append_ids r g t payload (e ∷ es) h =
    let (id, found) = some_found (find_key e r.ids) h.0 in
    rw (found, append_ids) (Succeeds-append_ids r g t (append_var_int payload id) es h.1)

-- The counts of a tag and of a group fit a VarInt.
abbrev pub IsSmallTag : Tag → Type 0
IsSmallTag t = length t.entries < 2 ^ 31

abbrev pub IsSmallGroup : Identifier × TagGroup → Type 0
IsSmallGroup p = (length p.1.tags < 2 ^ 31) × All IsSmallTag p.1.tags

Succeeds-append_tags :
    (r : Registry) (g : TagGroup) (payload : List ℕ) (ts : List Tag)
    → All (IsResolved r) ts
    → All IsSmallTag ts
    → Succeeds (append_tags r g payload ts)
unfolding append_tags append_tag
Succeeds-append_tags r g payload [] h k = (payload, refl)
Succeeds-append_tags r g payload (t ∷ ts) h k =
    Succeeds-bind (append_tag r g payload t) (λ next. append_tags r g next ts)
      (Succeeds-bind (append_count (append_string payload t.key) (length t.entries))
        (λ counted. append_ids r g t counted t.entries) (Succeeds-append_count _ _ k.0)
        (λ counted. Succeeds-append_ids r g t counted t.entries h.0))
      (λ next. Succeeds-append_tags r g next ts h.1 k.1)

Succeeds-append_group :
    (r : Registry) (payload : List ℕ) (g : TagGroup)
    → All (IsResolved r) g.tags
    → (length g.tags < 2 ^ 31)
    → All IsSmallTag g.tags
    → Succeeds (append_group r payload g)
unfolding append_group
Succeeds-append_group r payload g h n k =
    Succeeds-bind (append_count (append_string payload g.registry) (length g.tags))
      (λ counted. append_tags r g counted g.tags) (Succeeds-append_count _ _ n)
      (λ counted. Succeeds-append_tags r g counted g.tags h k)

module _ (s : Set) (good : IsGraph s) (small : All IsSmallGroup s.tag_groups) where
  -- A registry of the set, under its key.
  abbrev IsIn : Option Registry → Type 0
  IsIn none = ⊥
  IsIn (some r) = find_key r.key s.registries ≡ some r

  Succeeds-append_groups :
      (payload : List ℕ) (rs : List (Option Registry))
      → All IsIn rs
      → Succeeds (append_groups payload rs s)
  unfolding append_groups tags_of
  Succeeds-append_groups payload [] h = (payload, refl)
  Succeeds-append_groups payload (none ∷ rs) h = absurd (h.0)
  Succeeds-append_groups payload (some r ∷ rs) h =
      elim (Option-cases (find_key r.key s.tag_groups)) [
        | inl e ↦ rw (e, append_groups) (Succeeds-append_groups payload rs h.1)
        | inr (g, e) ↦
            let (owner, found, named, resolved) =
              find_key-All (IsGroupOf s.registries) r.key g s.tag_groups good.grouped e in
            let same_owner : owner ≡ r = cc in
            let fits = find_key-All IsSmallGroup r.key g s.tag_groups small e in
            rw (e, append_groups)
              (Succeeds-bind (append_group r payload g) (λ next. append_groups next rs s)
                (Succeeds-append_group r payload g
                  (subst (λ (o : Registry). All (IsResolved o) g.tags) same_owner resolved) fits.0
                  fits.1)
                (λ next. Succeeds-append_groups next rs h.1))
      ]

  count_groups_bound :
      (rs : List (Option Registry))
      → All IsIn rs
      → (n : ℕ) × (count_groups rs s ≡ ok n) × (n ≤ length rs)
  unfolding count_groups tags_of
  count_groups_bound [] h = (0, refl, omega arith)
  count_groups_bound (none ∷ rs) h = absurd (h.0)
  count_groups_bound (some r ∷ rs) h =
      let (n, counted, bound) = count_groups_bound rs h.1 in
      elim (Option-cases (find_key r.key s.tag_groups)) [
        | inl e ↦ (n, rw (e, count_groups) counted, omega arith)
        | inr (g, e) ↦ (suc n, rw (e, count_groups) (rw counted refl), omega arith)
      ]

  registries_in-IsIn :
      (ks : List Identifier)
      → All (λ (k : Identifier). is_some (find_key k s.registries) ≡ true) ks
      → All IsIn (registries_in ks s) × (length (registries_in ks s) ≡ length ks)
  unfolding registries_in registry_of
  registries_in-IsIn [] h = (tt, refl)
  registries_in-IsIn (k ∷ ks) h =
      let (r, found) = some_found (find_key k s.registries) h.0 in
      let named : r.key ≡ k = find_key-All (λ p. p.1.key ≡ p.0) k r s.registries good.keyed found in
      let rest = registries_in-IsIn ks h.1 in
      (
        (subst IsIn (sym found) (ap (λ j. find_key j s.registries) named ∙ found), rest.0),
        omega (arith, rest.1),
      )

  Succeeds-encode_update_tags :
      length s.registry_order < 2 ^ 31 → Succeeds (encode_update_tags (some s))
  unfolding encode_update_tags registries_of
  Succeeds-encode_update_tags few =
      let (known, size) = registries_in-IsIn s.registry_order good.ordered in
      let (n, counted, bound) = count_groups_bound (registries_in s.registry_order s) known in
      rw counted (
        Succeeds-bind (append_count [] n)
          (λ payload. append_groups payload (registries_in s.registry_order s) s)
          (Succeeds-append_count [] n (omega arith))
          (λ payload. Succeeds-append_groups payload (registries_in s.registry_order s) known))

-- EncodeUpdateTags succeeds on every set that NewSet returned, if its registries, the tags of each
-- group and the entries of each tag are fewer than 2 ^ 31: no tag names an entry that its registry
-- does not have.
pub encode_update_tags-new_set :
    (rs : List (Option Registry)) (gs : List TagGroup) (s : Set)
    → new_set rs gs ≡ ok s
    → All IsSmallGroup s.tag_groups
    → length s.registry_order < 2 ^ 31
    → (bytes : List ℕ) × (encode_update_tags (some s) ≡ ok bytes)
encode_update_tags-new_set rs gs s made small few =
    Succeeds-encode_update_tags s (new_set-IsGraph rs gs s made) small few
