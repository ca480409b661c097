-- ===== src/Players/Roster/Entries.antt =====
-- The player map: the sessions that it has, and what CompareAndDelete leaves.
use cyu_core.Base.{
  ℕ, ◌+◌, ◌≡◌, refl, ap, sym, ◌∙◌, Bool, true, false, not, ◌&&◌, ◌||◌, none, List, [], ◌∷◌, ◌==◌,
  if◌then◌else◌, length, inl, inr, Bool-cases, arith, if-elim, same, same_of_eq,
}
use cyu_core.Players.Roster.{load_player, compare_and_delete}

abbrev pub is_stored : (session : ℕ) → List (List ℕ × ℕ) → Bool
is_stored i [] = false
is_stored i ((k, j) ∷ ps) = (j == i) || is_stored i ps

abbrev pub is_taken : (key : List ℕ) → List (List ℕ × ℕ) → Bool
is_taken k [] = false
is_taken k ((k', j) ∷ ps) = same k' k || is_taken k ps

-- Each session stands under its own key, and no key twice.
abbrev pub IsKeyed : (key : ℕ → List ℕ) → List (List ℕ × ℕ) → Type 0
IsKeyed key [] = Unit {0}
IsKeyed key ((k, j) ∷ ps) = (k ≡ key j) × (is_taken k ps ≡ false) × IsKeyed key ps

pub number_of_same : (j i : ℕ) → (j == i) ≡ true → j ≡ i
number_of_same j i h = ground arith

-- A session whose key is free is not in the map.
pub stored_free :
    (key : ℕ → List ℕ) (i : ℕ) (ps : List (List ℕ × ℕ))
    → IsKeyed key ps
    → is_taken (key i) ps ≡ false
    → is_stored i ps ≡ false
stored_free key i [] g h = refl
stored_free key i ((k, j) ∷ ps) (e, f, g) h = elim (Bool-cases (j == i)) [
  | inr d ↦ ground (arith, d, stored_free key i ps g, h)
  | inl d ↦
      let at : k ≡ key i = e ∙ ap key (number_of_same j i d) in
      let found : same k (key i) ≡ true = ap (λ x. same x (key i)) at ∙ same_of_eq (key i) in
      absurd ground (arith, found, h)
]

pub load_free :
    (k : List ℕ) (ps : List (List ℕ × ℕ)) → load_player k ps ≡ none → is_taken k ps ≡ false
unfolding load_player
load_free k [] h = refl
load_free k ((k', j) ∷ ps) h = elim (Bool-cases (same k' k)) [
  | inl d ↦ absurd ground (arith, d, h)
  | inr d ↦ ground (arith, d, h, load_free k ps)
]

-- CompareAndDelete finds a session exactly if it is there, and takes one entry.
pub deleted_stored :
    (key : ℕ → List ℕ) (i : ℕ) (ps : List (List ℕ × ℕ))
    → IsKeyed key ps
    → (compare_and_delete (key i) i ps).0 ≡ is_stored i ps
unfolding compare_and_delete
deleted_stored key i [] g = refl
deleted_stored key i ((k, j) ∷ ps) (e, f, g) = elim (Bool-cases (j == i)) [
  | inl d ↦
      let at : k ≡ key i = e ∙ ap key (number_of_same j i d) in
      let found : same k (key i) ≡ true = ap (λ x. same x (key i)) at ∙ same_of_eq (key i) in
      rw (found, d) refl
  | inr d ↦ ground (arith, d, deleted_stored key i ps g)
]

abbrev pub one_if : Bool → ℕ
one_if b = if b then 1 else 0

pub length-deleted :
    (k : List ℕ) (i : ℕ) (ps : List (List ℕ × ℕ))
    → let r = compare_and_delete k i ps in length ps ≡ length r.1 + one_if r.0
unfolding compare_and_delete
length-deleted k i [] = refl
length-deleted k i ((k', j) ∷ ps) = elim (Bool-cases (same k' k && (j == i))) [
  | inl d ↦ rw d (ground arith)
  | inr d ↦ rw d (ground (arith, length-deleted k i ps))
]

pub taken_after :
    (k k' : List ℕ) (i : ℕ) (ps : List (List ℕ × ℕ))
    → is_taken k' ps ≡ false
    → is_taken k' (compare_and_delete k i ps).1 ≡ false
unfolding compare_and_delete
taken_after k k' i [] h = refl
taken_after k k' i ((k'', j) ∷ ps) h = elim (Bool-cases (same k'' k && (j == i))) [
  | inl d ↦ rw d (ground (arith, h))
  | inr d ↦ rw d (ground (arith, h, taken_after k k' i ps))
]

pub IsKeyed-after :
    (key : ℕ → List ℕ) (k : List ℕ) (i : ℕ) (ps : List (List ℕ × ℕ))
    → IsKeyed key ps
    → IsKeyed key (compare_and_delete k i ps).1
unfolding compare_and_delete
IsKeyed-after key k i [] g = tt
IsKeyed-after key k i ((k', j) ∷ ps) (e, f, g) =
    if-elim (λ (r : Bool × List (List ℕ × ℕ)). IsKeyed key r.1) (same k' k && (j == i)) (true, ps)
      ((compare_and_delete k i ps).0, (k', j) ∷ (compare_and_delete k i ps).1) (λ d. g)
      (λ d. (e, taken_after k k' i ps f, IsKeyed-after key k i ps g))

pub stored_others :
    (k : List ℕ) (i j : ℕ) (ps : List (List ℕ × ℕ))
    → (j == i) ≡ false
    → is_stored j (compare_and_delete k i ps).1 ≡ is_stored j ps
unfolding compare_and_delete
stored_others k i j [] h = refl
stored_others k i j ((k', l) ∷ ps) h = elim (Bool-cases (same k' k && (l == i))) [
  | inl d ↦ rw d (ground (arith, d, h))
  | inr d ↦ rw d (ap (λ b. (l == j) || b) (stored_others k i j ps h))
]

pub stored_gone :
    (key : ℕ → List ℕ) (i : ℕ) (ps : List (List ℕ × ℕ))
    → IsKeyed key ps
    → is_stored i (compare_and_delete (key i) i ps).1 ≡ false
unfolding compare_and_delete
stored_gone key i [] g = refl
stored_gone key i ((k, j) ∷ ps) (e, f, g) = elim (Bool-cases (j == i)) [
  | inl d ↦
      let at : k ≡ key i = e ∙ ap key (number_of_same j i d) in
      let found : same k (key i) ≡ true = ap (λ x. same x (key i)) at ∙ same_of_eq (key i) in
      rw (found, d) (stored_free key i ps g (ap (λ x. is_taken x ps) (sym at) ∙ f))
  | inr d ↦ ground (arith, d, stored_gone key i ps g)
]

same_either : (i j : ℕ) → (i == j) ≡ (j == i)
same_either i j = ground arith

pub stored_cons :
    (k : List ℕ) (i j : ℕ) (ps : List (List ℕ × ℕ))
    → is_stored j ((k, i) ∷ ps) ≡ (j == i) || is_stored j ps
stored_cons k i j ps = ap (λ b. b || is_stored j ps) (same_either i j)

pub stored_after :
    (key : ℕ → List ℕ) (i j : ℕ) (ps : List (List ℕ × ℕ))
    → IsKeyed key ps
    → is_stored j (compare_and_delete (key i) i ps).1 ≡ not (j == i) && is_stored j ps
stored_after key i j ps g = elim (Bool-cases (j == i)) [
  | inr d ↦ rw d (stored_others (key i) i j ps d)
  | inl d ↦ rw d (
      ap (λ x. is_stored x (compare_and_delete (key i) i ps).1) (number_of_same j i d)
      ∙ stored_gone key i ps g)
]
