-- ===== src/Plugins/Scheduler/Order/Popped.antt =====
-- The head of the queue, which a round of a tick takes, and how it is retired or skipped.
use cyu_core.Base.{
  ℕ, ◌+◌, ◌≤◌, ◌<◌, ◌==◌, ◌≡◌, refl, ap, sym, ◌∙◌, true, false, ltb, none, some, List, [], ◌∷◌,
  arith, inl, inr, Bool-cases, All, length,
}
use cyu_core.Plugins.Scheduler.{
  Task, Scheduler, less, without, is_active, remove_registration_locked, cancel,
}
use cyu_core.Plugins.Scheduler.Advance.{pop_due, retire_one_shot_locked, retire, skip}
use cyu_core.Plugins.Scheduler.Queue.{IsBefore, IsAbsent, IsSorted, All-imp, All-without}
use cyu_core.Plugins.Scheduler.Consistent.{
  IsListed, IsConsistent, IsConsistent-cancel, IsConsistent-remove_registration,
}
use cyu_core.Plugins.Scheduler.Consistent.Registered.{listed_known}
use cyu_core.Plugins.Scheduler.Order.{
  count_due, Evolves, Evolves-refl, Evolves-shorter, Evolves-registration, Evolves-cancel,
}
use mathlib.Core.Path.{subst}
use mathlib.Core.Option.{some-injective}

pub due_later : (now : ℕ) (t u : Task) → now < t.due → less t u ≡ true → now < u.due
unfolding less
due_later now t u h k = ground arith

pub pop_due-none :
    (now : ℕ) (ts : List Task)
    → IsSorted ts
    → pop_due now ts ≡ none
    → All (λ (u : Task). now < u.due) ts
unfolding pop_due
pop_due-none now [] h e = tt
pop_due-none now (t ∷ ts) h e =
    let later : now < t.due = ground arith in
    (later, All-imp (λ u p. due_later now t u later p.0) ts h.0)

pub pop_due-some :
    (now : ℕ) (q : List Task) (t : Task) (ts : List Task)
    → pop_due now q ≡ some (t, ts)
    → (q ≡ t ∷ ts) × (ltb now t.due ≡ false)
unfolding pop_due
pop_due-some now [] t ts e = absurd (ground arith)
pop_due-some now (u ∷ us) t ts e = elim (Bool-cases (ltb now u.due)) [
  | inl d ↦ absurd (ground arith)
  | inr d ↦
      let opened : pop_due now (u ∷ us) ≡ some (u, us) = rw (d, pop_due) refl in
      let is = some-injective _ _ (sym opened ∙ e) in
      (
        ap (λ (r : Task × List Task). r.0 ∷ r.1) is,
        sym (ap (λ (r : Task × List Task). ltb now r.0.due) is) ∙ d,
      )
]

module _ (t : Task) (ts : List Task) (s : Scheduler) (good : IsConsistent s)
    (head : s.queue ≡ t ∷ ts) where
  abbrev popped : Scheduler
  popped = record s { queue = ts }

  pub IsSorted-head : All (IsBefore t) ts × IsSorted ts
  IsSorted-head = subst IsSorted head good.sorted

  IsListed-head : IsListed s.by_owner t × All (IsListed s.by_owner) ts
  IsListed-head = subst (All (IsListed s.by_owner)) head good.listed

  pub head-IsAbsent : IsAbsent t.id ts
  head-IsAbsent = All-imp (λ u p. p.1) ts IsSorted-head.0

  pub IsConsistent-popped : IsConsistent popped
  IsConsistent-popped = record {
    sorted = IsSorted-head.1;
    listed = IsListed-head.1;
    distinct = good.distinct;
    known = good.known;
    counted = good.counted;
    none_closed = good.none_closed;
  }

  pub head_known : t.id ≤ s.next_id
  head_known = listed_known s.next_id t.owner t.id s.by_owner good.known IsListed-head.0

  pub due_head : (now : ℕ) → ltb now t.due ≡ false → count_due now ts + 1 ≡ count_due now s.queue
  unfolding count_due
  due_head now h = let q = ap (count_due now) head in ground arith

  pub Evolves-popped : Evolves 0 s popped
  unfolding count_due
  Evolves-popped =
      Evolves-shorter s popped refl refl (λ P h. (subst (All P) head h).1)
        (let q = ap (count_due s.now) head in ground arith)

pub retire-queue : (t : Task) (s : Scheduler) → (retire t s).queue ≡ s.queue
unfolding retire retire_one_shot_locked remove_registration_locked
retire-queue t s = ground arith

pub Evolves-retire : (t : Task) (s : Scheduler) → Evolves 0 s (retire t s)
unfolding retire retire_one_shot_locked remove_registration_locked
Evolves-retire t s = elim (Bool-cases (t.interval == 0)) [
  | inr e ↦ rw e (Evolves-refl 0 s)
  | inl e ↦ elim (Bool-cases (is_active t s)) [
    | inr d ↦ rw (e, d) (Evolves-refl 0 s)
    | inl d ↦ rw (e, d) (Evolves-registration s _ _)
  ]
]

pub IsConsistent-retire :
    (t : Task) (s : Scheduler) → IsConsistent s → IsAbsent t.id s.queue → IsConsistent (retire t s)
unfolding retire retire_one_shot_locked
IsConsistent-retire t s good absent = elim (Bool-cases (t.interval == 0)) [
  | inr e ↦ rw e good
  | inl e ↦ elim (Bool-cases (is_active t s)) [
    | inr d ↦ rw (e, d) good
    | inl d ↦ rw (e, d) (IsConsistent-remove_registration t s good d absent)
  ]
]

pub length-without : (i : ℕ) (ts : List Task) → length (without i ts) ≤ length ts
unfolding without
length-without i [] = omega arith
length-without i (t ∷ ts) = ground (arith, length-without i ts)

-- A skipped task only goes.
pub skip_lem :
    (t : Task) (s : Scheduler)
    → IsConsistent s
    → IsConsistent (skip t s)
      × Evolves 0 s (skip t s)
      × (length (skip t s).queue ≤ length s.queue)
      × ((P : Task → Type 0) → All P s.queue → All P (skip t s).queue)
unfolding skip cancel
skip_lem t s good = elim (Bool-cases (t.interval == 0)) [
  | inl e ↦ rw e (good, Evolves-refl 0 s, omega arith, λ P h. h)
  | inr e ↦ rw e (
    IsConsistent-cancel t s good,
    Evolves-cancel t s,
    elim (Bool-cases (is_active t s)) [
      | inr d ↦ rw d (omega arith)
      | inl d ↦ rw d (length-without t.id s.queue)
    ],
    λ P h. elim (Bool-cases (is_active t s)) [
      | inr d ↦ rw d h
      | inl d ↦ rw d (All-without P t.id s.queue h)
    ],
  )
]
