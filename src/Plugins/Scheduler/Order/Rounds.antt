-- ===== src/Plugins/Scheduler/Order/Rounds.antt =====
-- The task that a tick calls next.
use cyu_core.Base.{
  ℕ, zero, suc, ◌+◌, ◌≤◌, ◌<◌, ◌≡◌, refl, ap, sym, ◌∙◌, Bool, true, false, Option, none, some, List,
  [], ◌∷◌, arith, inl, inr, Bool-cases, Option-cases, All, length,
}
use cyu_core.Plugins.Scheduler.{Task, Scheduler}
use cyu_core.Plugins.Scheduler.Advance.{pop_due, retire, skip, next_task}
use cyu_core.Plugins.Scheduler.Queue.{IsBefore}
use cyu_core.Plugins.Scheduler.Consistent.{IsConsistent}
use cyu_core.Plugins.Scheduler.Order.{count_due, Evolves, Evolves-refl, Evolves-trans}
use mathlib.Core.Path.{subst}
use cyu_core.Plugins.Scheduler.Order.Popped.{
  due_head, head_known, Evolves-popped, pop_due-none, pop_due-some, retire-queue, Evolves-retire,
  IsConsistent-retire, skip_lem, IsSorted-head, head-IsAbsent, IsConsistent-popped,
}

-- What `next_task` has found when it ends.
abbrev pub Picked :
    (fuel now : ℕ) → (enabled : ℕ → Bool) → Scheduler → Option Task × Scheduler → Type 1
Picked fuel now enabled s (none, s') =
    IsConsistent s'
    × Evolves 0 s s'
    × (length s.queue ≤ fuel → All (λ (u : Task). now < u.due) s'.queue)
Picked fuel now enabled s (some t, s') =
    IsConsistent s'
    × Evolves 0 s s'
    × (t.due ≤ now)
    × (t.id ≤ s'.next_id)
    × All (IsBefore t) s'.queue
    × (enabled t.owner ≡ true)
    × (count_due now s'.queue + 1 ≤ count_due now s.queue)
    × ((P : Task → Type 0) → All P s.queue → P t)

Picked-later :
    (n m now : ℕ) (enabled : ℕ → Bool) (s s' : Scheduler) (r : Option Task × Scheduler)
    → s.now ≡ now
    → (length s.queue ≤ m → length s'.queue ≤ n)
    → ((P : Task → Type 0) → All P s.queue → All P s'.queue)
    → Evolves 0 s s'
    → Picked n now enabled s' r
    → Picked m now enabled s r
Picked-later n m now enabled s s' (none, r) at short k a (good, b, done) =
    (good, Evolves-trans 0 0 s s' r a b, λ h. done (short h))
Picked-later n m now enabled s s' (some t, r) at short k a
      (good, b, due, id, before, on, less', from) =
    (
      good,
      Evolves-trans 0 0 s s' r a b,
      due,
      id,
      before,
      on,
      (let d = a.no_more_due in
          let e = ap (λ n. count_due n s.queue) at in
          let f = ap (λ n. count_due n s'.queue) at in omega arith),
      λ P h. from P (k P h),
    )

module _ (now : ℕ) (enabled : ℕ → Bool) (n : ℕ) (s : Scheduler) where
  pub next_task-none : pop_due now s.queue ≡ none → next_task (suc n) now enabled s ≡ (none, s)
  unfolding next_task
  next_task-none e = rw (e, next_task) refl

  module _ (t : Task) (ts : List Task) (popped_is : pop_due now s.queue ≡ some (t, ts)) where
    pub next_task-found :
        enabled t.owner ≡ true
        → next_task (suc n) now enabled s ≡ (some t, retire t (record s { queue = ts }))
    unfolding next_task
    next_task-found d = rw (popped_is, d, next_task) refl

    pub next_task-skipped :
        enabled t.owner ≡ false
        → next_task (suc n) now enabled s
          ≡ next_task n now enabled (skip t (retire t (record s { queue = ts })))
    unfolding next_task
    next_task-skipped d = rw (popped_is, d, next_task) refl

short_empty : (now : ℕ) (ts : List Task) → length ts ≤ 0 → All (λ (u : Task). now < u.due) ts
short_empty now [] h = tt
short_empty now (t ∷ ts) h = absurd (omega arith)

pub next_task_lem :
    (fuel now : ℕ) (enabled : ℕ → Bool) (s : Scheduler)
    → IsConsistent s
    → s.now ≡ now
    → Picked fuel now enabled s (next_task fuel now enabled s)
unfolding next_task
next_task_lem zero now enabled s good at = (good, Evolves-refl 0 s, λ h. short_empty now s.queue h)
next_task_lem (suc n) now enabled s good at = elim (Option-cases (pop_due now s.queue)) [
  | inl e ↦
      subst (Picked (suc n) now enabled s) (sym (next_task-none now enabled n s e))
        (good, Evolves-refl 0 s, λ h. pop_due-none now s.queue good.sorted e)
  | inr ((t, ts), e) ↦
      let (head, d) = pop_due-some now s.queue t ts e in
      let s1 : Scheduler = record s { queue = ts } in
      let s2 = retire t s1 in
      let sorted = IsSorted-head t ts s good head in
      let good1 = IsConsistent-popped t ts s good head in
      let good2 = IsConsistent-retire t s1 good1 (head-IsAbsent t ts s good head) in
      let evolves =
        Evolves-trans 0 0 s s1 s2 (Evolves-popped t ts s good head) (Evolves-retire t s1) in
      let rest_queue = retire-queue t s1 in
      elim (Bool-cases (enabled t.owner)) [
        | inl on ↦
            subst (Picked (suc n) now enabled s) (sym (next_task-found now enabled n s t ts e on)) (
              good2,
              evolves,
              ground arith,
              omega (arith, head_known t ts s good head, evolves.ids_grow),
              subst (All (IsBefore t)) (sym rest_queue) sorted.0,
              on,
              (let c = due_head t ts s good head now d in
                  let c' = ap (count_due now) rest_queue in omega arith),
              λ P h. (subst (All P) head h).0,
            )
        | inr off ↦
            let s3 = skip t s2 in
            let (good3, evolves3, shorter, keeps3) = skip_lem t s2 good2 in
            let evolves' = Evolves-trans 0 0 s s2 s3 evolves evolves3 in
            let lengths : length s3.queue + 1 ≤ length s.queue =
              omega (arith, ap length head, ap length rest_queue, shorter) in
            subst (Picked (suc n) now enabled s)
              (sym (next_task-skipped now enabled n s t ts e off))
              (Picked-later n (suc n) now enabled s s3 (next_task n now enabled s3) at
                (λ h. omega arith)
                (λ P h. keeps3 P (subst (All P) (sym rest_queue) (subst (All P) head h).1)) evolves'
                (next_task_lem n now enabled s3 good3 (evolves'.same_now ∙ at)))
      ]
]
