-- ===== src/Plugins/Scheduler/Owners.antt =====
-- The registrations of the owners and their states: what each change does to a lookup.
use cyu_core.Base.{
  ℕ, ◌+◌, ◌==◌, ◌≡◌, refl, sym, true, false, Option, none, some, List, [], ◌∷◌, arith, inl, inr,
  Bool-cases, All, if◌then◌else◌,
}
use cyu_core.Plugins.Scheduler.{
  OwnerState, Owners, is_listed, delete_task, delete_owner, state_of, modify,
}

abbrev pub Registrations : Type 0
Registrations = List (ℕ × ℕ)

-- How many tasks of an owner are registered.
unfoldable pub count : (owner : ℕ) → Registrations → ℕ
count owner [] = 0
count owner ((o, i) ∷ rs) = let rest = count owner rs in if o == owner then rest + 1 else rest

abbrev pub IsFree : (id : ℕ) → Registrations → Type 0
IsFree i rs = All (λ (r : ℕ × ℕ). (r.1 == i) ≡ false) rs

abbrev pub AreDistinct : Registrations → Type 0
AreDistinct [] = Unit {0}
AreDistinct ((o, i) ∷ rs) = IsFree i rs × AreDistinct rs

pub All-delete_task {κ} :
    (P : ℕ × ℕ → Type κ) (o i : ℕ) (rs : Registrations) → All P rs → All P (delete_task o i rs)
unfolding delete_task
All-delete_task P o i [] h = tt
All-delete_task P o i ((p, j) ∷ rs) h = ground (arith, All-delete_task P o i rs h.1)

pub All-delete_owner {κ} :
    (P : ℕ × ℕ → Type κ) (o : ℕ) (rs : Registrations) → All P rs → All P (delete_owner o rs)
unfolding delete_owner
All-delete_owner P o [] h = tt
All-delete_owner P o ((p, j) ∷ rs) h = ground (arith, All-delete_owner P o rs h.1)

pub AreDistinct-delete_task :
    (o i : ℕ) (rs : Registrations) → AreDistinct rs → AreDistinct (delete_task o i rs)
unfolding delete_task
AreDistinct-delete_task o i [] h = tt
AreDistinct-delete_task o i ((p, j) ∷ rs) h =
    let rest = AreDistinct-delete_task o i rs h.1 in
    let free = All-delete_task (λ r. (r.1 == j) ≡ false) o i rs h.0 in ground arith

pub AreDistinct-delete_owner :
    (o : ℕ) (rs : Registrations) → AreDistinct rs → AreDistinct (delete_owner o rs)
unfolding delete_owner
AreDistinct-delete_owner o [] h = tt
AreDistinct-delete_owner o ((p, j) ∷ rs) h =
    let rest = AreDistinct-delete_owner o rs h.1 in
    let free = All-delete_owner (λ r. (r.1 == j) ≡ false) o rs h.0 in ground arith

pub listed-delete_task :
    (o i p j : ℕ) (rs : Registrations)
    → (j == i) ≡ false
    → is_listed p j rs ≡ true
    → is_listed p j (delete_task o i rs) ≡ true
unfolding is_listed delete_task
listed-delete_task o i p j [] h k = k
listed-delete_task o i p j ((q, l) ∷ rs) h k = ground (arith, listed-delete_task o i p j rs h)

pub listed-delete_owner :
    (o p j : ℕ) (rs : Registrations)
    → (p == o) ≡ false
    → is_listed p j rs ≡ true
    → is_listed p j (delete_owner o rs) ≡ true
unfolding is_listed delete_owner
listed-delete_owner o p j [] h k = k
listed-delete_owner o p j ((q, l) ∷ rs) h k = ground (arith, listed-delete_owner o p j rs h)

-- A task that is taken out is gone, and another owner's count stands.
pub free_not_listed : (p i : ℕ) (rs : Registrations) → IsFree i rs → is_listed p i rs ≡ false
unfolding is_listed
free_not_listed p i [] h = refl
free_not_listed p i ((q, l) ∷ rs) h = ground (arith, free_not_listed p i rs h.1)

pub free-delete_task : (o i : ℕ) (rs : Registrations) → IsFree i rs → delete_task o i rs ≡ rs
unfolding delete_task
free-delete_task o i [] h = refl
free-delete_task o i ((q, l) ∷ rs) h = ground (arith, free-delete_task o i rs h.1)

pub not_listed-delete_task :
    (o i : ℕ) (rs : Registrations) → is_listed o i (delete_task o i rs) ≡ false
unfolding is_listed delete_task
not_listed-delete_task o i [] = refl
not_listed-delete_task o i ((q, l) ∷ rs) = ground (arith, not_listed-delete_task o i rs)

pub count-delete_other :
    (p o i : ℕ) (rs : Registrations) → (o == p) ≡ false → count p (delete_task o i rs) ≡ count p rs
unfolding count delete_task
count-delete_other p o i [] h = refl
count-delete_other p o i ((q, l) ∷ rs) h = ground (arith, count-delete_other p o i rs h)

pub count-delete_task :
    (o i : ℕ) (rs : Registrations)
    → AreDistinct rs
    → is_listed o i rs ≡ true
    → count o (delete_task o i rs) + 1 ≡ count o rs
unfolding is_listed count delete_task
count-delete_task o i [] h k = absurd (ground arith)
count-delete_task o i ((q, l) ∷ rs) h k = elim (Bool-cases (l == i)) [
  | inl e ↦
      let same : l ≡ i = ground arith in
      let gone = free-delete_task o i rs (rw (sym same) h.0) in
      let missing = free_not_listed o i rs (rw (sym same) h.0) in ground arith
  | inr e ↦ ground (arith, count-delete_task o i rs h.1)
]

pub count-delete_owner :
    (p o : ℕ) (rs : Registrations)
    → count p (delete_owner o rs) ≡ (if o == p then 0 else count p rs)
unfolding count delete_owner
count-delete_owner p o [] = ground arith
count-delete_owner p o ((q, l) ∷ rs) = ground (arith, count-delete_owner p o rs)

pub count_zero : (o i : ℕ) (rs : Registrations) → count o rs ≡ 0 → is_listed o i rs ≡ false
unfolding count is_listed
count_zero o i [] h = refl
count_zero o i ((q, l) ∷ rs) h = ground (arith, count_zero o i rs)

-- Lookups after a change of a state.
abbrev pub change : (OwnerState → OwnerState) → Option OwnerState → Option OwnerState
change f none = none
change f (some st) = some (f st)

pub state_of-modify_at :
    (p o : ℕ) (f : OwnerState → OwnerState) (os : Owners)
    → (o == p) ≡ true
    → state_of p (modify o f os) ≡ change f (state_of p os)
unfolding state_of modify
state_of-modify_at p o f [] h = refl
state_of-modify_at p o f ((q, st) ∷ os) h = ground (arith, state_of-modify_at p o f os h)

pub state_of-modify_else :
    (p o : ℕ) (f : OwnerState → OwnerState) (os : Owners)
    → (o == p) ≡ false
    → state_of p (modify o f os) ≡ state_of p os
unfolding state_of modify
state_of-modify_else p o f [] h = refl
state_of-modify_else p o f ((q, st) ∷ os) h = ground (arith, state_of-modify_else p o f os h)

abbrev pub pending_of : Option OwnerState → ℕ
pending_of none = 0
pending_of (some st) = st.pending
