-- ===== src/Plugins/Scheduler/Queue.antt =====
-- The order of the queue of tasks: what `push` and `without` keep.
use cyu_core.Base.{ℕ, ◌==◌, ◌≡◌, true, false, List, [], ◌∷◌, arith, inl, inr, Bool-cases, All}
use cyu_core.Plugins.Scheduler.{Task, less, push, without}

-- A task that comes before another, and is not that other.
abbrev pub IsBefore : Task → Task → Type 0
IsBefore t u = (less t u ≡ true) × ((u.id == t.id) ≡ false)

abbrev pub IsAbsent : (id : ℕ) → List Task → Type 0
IsAbsent i ts = All (λ (t : Task). (t.id == i) ≡ false) ts

abbrev pub IsSorted : List Task → Type 0
IsSorted [] = Unit {0}
IsSorted (t ∷ ts) = All (IsBefore t) ts × IsSorted ts

module _ {κ} {A : Type 0} {P Q : A → Type κ} where
  pub All-imp : ((a : A) → P a → Q a) → (xs : List A) → All P xs → All Q xs
  All-imp f [] h = tt
  All-imp f (x ∷ xs) h = (f x h.0, All-imp f xs h.1)

pub All-pair {κ μ} :
    {A : Type 0} (P : A → Type κ) (Q : A → Type μ) (xs : List A)
    → All P xs
    → All Q xs
    → All (λ a. P a × Q a) xs
All-pair P Q [] h k = tt
All-pair P Q (x ∷ xs) h k = ((h.0, k.0), All-pair P Q xs h.1 k.1)

pub All-push {κ} :
    (P : Task → Type κ) (t : Task) (ts : List Task) → P t → All P ts → All P (push t ts)
unfolding push
All-push P t [] h hs = (h, tt)
All-push P t (u ∷ us) h hs = elim (Bool-cases (less t u)) [
  | inl e ↦ rw e (h, hs)
  | inr e ↦ rw e (hs.0, All-push P t us h hs.1)
]

pub All-without {κ} : (P : Task → Type κ) (i : ℕ) (ts : List Task) → All P ts → All P (without i ts)
unfolding without
All-without P i [] h = tt
All-without P i (t ∷ ts) h = elim (Bool-cases (t.id == i)) [
  | inl e ↦ rw e h.1
  | inr e ↦ rw e (h.0, All-without P i ts h.1)
]

pub less_trans : (t u v : Task) → less t u ≡ true → less u v ≡ true → less t v ≡ true
unfolding less
less_trans t u v h k = ground arith

less_total : (t u : Task) → (u.id == t.id) ≡ false → less t u ≡ false → less u t ≡ true
unfolding less
less_total t u h k = ground arith

other_way : (t u : Task) → (u.id == t.id) ≡ false → (t.id == u.id) ≡ false
other_way t u h = ground arith

pub IsSorted-push :
    (t : Task) (ts : List Task) → IsAbsent t.id ts → IsSorted ts → IsSorted (push t ts)
unfolding push
IsSorted-push t [] h k = (tt, tt)
IsSorted-push t (u ∷ us) h k = elim (Bool-cases (less t u)) [
  | inl e ↦
      rw e (
        ((e, h.0), All-imp (λ v p. (less_trans t u v e p.0.0, p.1)) us (All-pair _ _ us k.0 h.1)),
        k,
      )
  | inr e ↦ rw e (
    All-push (IsBefore u) t us (less_total t u h.0 e, other_way t u h.0) k.0,
    IsSorted-push t us h.1 k.1,
  )
]

pub IsSorted-without : (i : ℕ) (ts : List Task) → IsSorted ts → IsSorted (without i ts)
unfolding without
IsSorted-without i [] h = tt
IsSorted-without i (t ∷ ts) h = elim (Bool-cases (t.id == i)) [
  | inl e ↦ rw e h.1
  | inr e ↦ rw e (All-without (IsBefore t) i ts h.0, IsSorted-without i ts h.1)
]

same_id : (t u : Task) (i : ℕ) → (t.id == i) ≡ true → (u.id == t.id) ≡ false → (u.id == i) ≡ false
same_id t u i h k = ground arith

pub IsAbsent-without : (i : ℕ) (ts : List Task) → IsSorted ts → IsAbsent i (without i ts)
unfolding without
IsAbsent-without i [] h = tt
IsAbsent-without i (t ∷ ts) h = elim (Bool-cases (t.id == i)) [
  | inl e ↦ rw e (All-imp (λ u p. same_id t u i e p.1) ts h.0)
  | inr e ↦ rw e (e, IsAbsent-without i ts h.1)
]
