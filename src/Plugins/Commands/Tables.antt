-- ===== src/Plugins/Commands/Tables.antt =====
-- What the loops over the two maps of the registry do to a lookup.
use cyu_core.Base.{
  ℕ, ◌≡◌, refl, ap, Bool, true, ◌&&◌, ◌||◌, Option, none, some, List, [], ◌∷◌, ◌==◌, arith,
  if◌then◌else◌, inl, inr, Bool-cases,
}
use cyu_core.Plugins.Names.{same, eq_of_same, contains}
use cyu_core.Plugins.Commands.{Command, link, unlink, find_id, delete_id, points_to, mark_reserved}

pub link_lem :
    (c : Command) (ns : List (List ℕ)) (names : List ℕ → Option Command) (k : List ℕ)
    → link c ns names k ≡ (if contains k ns then some c else names k)
unfolding link contains
link_lem c [] names k = refl
link_lem c (n ∷ ns) names k =
    rw (link_lem c ns (λ j. if same n j then some c else names j) k) (ground arith)

pointed_alike :
    (n k : List ℕ) (names : List ℕ → Option Command) (c : Command)
    → same n k ≡ true
    → points_to (names n) c ≡ points_to (names k) c
pointed_alike n k names c h = ap (λ t. points_to (names t) c) (eq_of_same n k h)

pub unlink_lem :
    (c : Command) (ns : List (List ℕ)) (names : List ℕ → Option Command) (k : List ℕ)
    → unlink c ns names k ≡ (if contains k ns && points_to (names k) c then none else names k)
unfolding unlink contains
unlink_lem c [] names k = refl
unlink_lem c (n ∷ ns) names k = elim (Bool-cases (points_to (names n) c)) [
  | inl points ↦
      rw (points, unlink_lem c ns (λ j. if same n j then none else names j) k)
        (ground (arith, points_to, pointed_alike n k names c))
  | inr apart ↦ rw (apart, unlink_lem c ns names k) (ground (arith, pointed_alike n k names c))
]

pub mark_reserved_lem :
    (ns : List (List ℕ)) (marks : List ℕ → Bool) (k : List ℕ)
    → mark_reserved ns marks k ≡ (contains k ns || marks k)
unfolding mark_reserved contains
mark_reserved_lem [] marks k = refl
mark_reserved_lem (n ∷ ns) marks k =
    rw (mark_reserved_lem ns (λ j. same n j || marks j) k) (ground arith)

pub find_id-delete_id :
    (i j : ℕ) (cs : List Command)
    → find_id i (delete_id j cs) ≡ (if i == j then none else find_id i cs)
unfolding find_id delete_id
find_id-delete_id i j [] = ground arith
find_id-delete_id i j (c ∷ cs) = ground (arith, find_id-delete_id i j cs)

pub find_id_finds : (i : ℕ) (cs : List Command) (c : Command) → find_id i cs ≡ some c → c.id ≡ i
unfolding find_id
find_id_finds i [] c h = cc
find_id_finds i (d ∷ cs) c h = ground (arith, find_id_finds i cs c)
