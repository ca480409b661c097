-- ===== src/Players/Roster/Sound.antt =====
-- What holds of a roster between two steps, and what a step does to the facts on one session.
use cyu_core.Base.{
  ℕ, ◌+◌, ◌-◌, ◌%◌, ◌^◌, ◌≡◌, ◌<◌, ap, ◌∙◌, Bool, true, false, not, ◌&&◌, ◌||◌, List, [], ◌∷◌, ◌++◌,
  ◌==◌, if◌then◌else◌, length, inl, inr, Bool-cases, arith,
}
use cyu_core.Players.Roster.{Owner, resting, checked, registering, published, Roster, put}
use cyu_core.Players.Roster.Entries.{is_stored, IsKeyed, number_of_same}

abbrev pub is_registering : ℕ → Owner → Bool
is_registering j resting = false
is_registering j (checked i) = false
is_registering j (registering i) = j == i
is_registering j (published i) = false

-- Whether the owner will still check that the session is open.
abbrev pub is_adding : ℕ → Owner → Bool
is_adding j resting = false
is_adding j (checked i) = false
is_adding j (registering i) = j == i
is_adding j (published i) = j == i

abbrev pub uncounted : Owner → ℕ
uncounted resting = 0
uncounted (checked i) = 0
uncounted (registering i) = 0
uncounted (published i) = 1

abbrev pub is_waiting : ℕ → List ℕ → Bool
is_waiting j [] = false
is_waiting j (i ∷ is) = (j == i) || is_waiting j is

abbrev pub is_admitted : ℕ → Owner → (is_there registered : Bool) → Bool
is_admitted j resting there registered = true
is_admitted j (checked i) there registered = true
is_admitted j (registering i) there registered = not (j == i) || (not there && registered)
is_admitted j (published i) there registered = not (j == i) || there

-- A registered session is in the map or about to be, and one that is closed as well has its Close under
-- way, its removal in the mailbox or the owner's check before it.
pub record IsSoundAt (key : ℕ → List ℕ) (o : Owner) (s : Roster) : Type 0 where
  pub keyed : IsKeyed key s.players
  pub bounded : s.online_count < 2 ^ 32
  pub counted : (s.online_count + uncounted o) % 2 ^ 32 ≡ length s.players % 2 ^ 32
  pub known : (j : ℕ) → not (s.registered j) || (is_stored j s.players || is_registering j o) ≡ true
  pub seated : (j : ℕ) → not (is_stored j s.players) || s.registered j ≡ true
  pub reported :
      (j : ℕ)
      → not (s.close_once j && s.registered j)
          || (s.closing j || (is_waiting j s.removals || is_adding j o))
        ≡ true
  pub admitted : (j : ℕ) → is_admitted j o (is_stored j s.players) (s.registered j) ≡ true

abbrev pub IsSound : (key : ℕ → List ℕ) → Roster → Type 0
IsSound key s = IsSoundAt key s.owner s

pub waiting-append :
    (j i : ℕ) (is : List ℕ) → is_waiting j (is ++ (i ∷ [])) ≡ is_waiting j is || (j == i)
waiting-append j i [] = ground arith
waiting-append j i (k ∷ is) = ground (arith, waiting-append j i is)

pub reported_after :
    (i j : ℕ) (s : Roster)
    → s.closing i ≡ true
    → not (s.close_once j && s.registered j)
        || (s.closing j || (is_waiting j s.removals || is_adding j s.owner))
      ≡ true
    → not (s.close_once j && s.registered j)
        || (put i false s.closing j
            || (is_waiting j (if s.registered i then s.removals ++ (i ∷ []) else s.removals)
                || is_adding j s.owner))
      ≡ true
reported_after i j s e h = elim (Bool-cases (j == i)) [
  | inr d ↦ elim (Bool-cases (s.registered i)) [
    | inl r ↦ rw (d, r, waiting-append j i s.removals) (ground (arith, h))
    | inr r ↦ rw (d, r) h
  ]
  | inl d ↦ elim (Bool-cases (s.registered i)) [
    | inl r ↦ rw (d, r, waiting-append j i s.removals) (ground (arith, d))
    | inr r ↦ rw (d, ap s.registered (number_of_same j i d) ∙ r) (ground arith)
  ]
]

pub without_one :
    (c n m : ℕ) → n ≡ m + 1 → (c + 1) % 2 ^ 32 ≡ n % 2 ^ 32 → (c + 0) % 2 ^ 32 ≡ m % 2 ^ 32
without_one c n m e h = omega arith

pub one_less :
    (c n m : ℕ)
    → n ≡ m + 1
    → (c + 0) % 2 ^ 32 ≡ n % 2 ^ 32
    → ((c + (2 ^ 32 - 1)) % 2 ^ 32 + 0) % 2 ^ 32 ≡ m % 2 ^ 32
one_less c n m e h = omega arith

-- What is known of a session that the owner has found open.
pub open_reported :
    (i j : ℕ) (s : Roster)
    → not (s.playing i) || s.close_once i ≡ false
    → not (s.close_once j && s.registered j)
        || (s.closing j || (is_waiting j s.removals || is_adding j (published i)))
      ≡ true
    → not (s.close_once j && s.registered j) || (s.closing j || (is_waiting j s.removals || false))
      ≡ true
open_reported i j s e h = elim (Bool-cases (j == i)) [
  | inr d ↦ ground (arith, d, h)
  | inl d ↦
      let opened : s.close_once i ≡ false = ground (arith, e) in
      let this = ap s.close_once (number_of_same j i d) ∙ opened in ground (arith, this)
]

-- The first event has been taken.
pub still_reported :
    (i j : ℕ) (is : List ℕ) (s : Roster)
    → s.removals ≡ i ∷ is
    → s.registered i ≡ false
    → not (s.close_once j && s.registered j) || (s.closing j || (is_waiting j s.removals || false))
      ≡ true
    → not (s.close_once j && s.registered j) || (s.closing j || (is_waiting j is || false)) ≡ true
still_reported i j is s at e h = elim (Bool-cases (j == i)) [
  | inr d ↦ let waits = ap (is_waiting j) at in ground (arith, d, waits, h)
  | inl d ↦ let this = ap s.registered (number_of_same j i d) ∙ e in ground (arith, this)
]

pub others_reported :
    (i j : ℕ) (is : List ℕ) (s : Roster)
    → s.removals ≡ i ∷ is
    → not (s.close_once j && s.registered j) || (s.closing j || (is_waiting j s.removals || false))
      ≡ true
    → not (s.close_once j && put i false s.registered j)
        || (s.closing j || (is_waiting j is || false))
      ≡ true
others_reported i j is s at h = let waits = ap (is_waiting j) at in ground (arith, waits, h)

pub free_of_unregistered :
    (i j : ℕ) (s : Roster)
    → (j == i) ≡ true
    → s.registered i ≡ false
    → not (is_stored j s.players) || s.registered j ≡ true
    → not (is_stored j s.players) && true ≡ true
free_of_unregistered i j s d e h =
    let r = ap s.registered (number_of_same j i d) ∙ e in ground (arith, r, h)
