-- ===== src/Plugins/Scheduler/Due.antt =====
-- What a tick does with a task that waits: it runs if it is due, and stays if it is not.
use cyu_core.Base.{
  ℕ, zero, suc, ◌+◌, ◌-◌, ◌^◌, ◌≤◌, ◌<◌, ◌==◌, ◌≡◌, refl, ap, sym, Bool, true, false, ltb, Option,
  none, some, List, arith, inl, inr, Bool-cases, Option-cases, All, length, ◌⊎◌, ◌&&◌,
}
use cyu_core.Plugins.Scheduler.{
  Task, Scheduler, is_active, state_of, is_open_state, remove_registration_locked,
}
use cyu_core.Plugins.Scheduler.Advance.{
  Call, Tick, pop_due, retire, skip, next_task, call_task, requeue, round, advance_loop, advance,
}
use cyu_core.Plugins.Scheduler.Queue.{IsBefore}
use cyu_core.Plugins.Scheduler.Consistent.{IsConsistent}
use cyu_core.Plugins.Scheduler.Order.{count_due}
use cyu_core.Plugins.Scheduler.Order.Popped.{
  skip_lem, retire-queue, IsSorted-head, IsConsistent-popped, head-IsAbsent, IsConsistent-retire,
  pop_due-some,
}
use cyu_core.Plugins.Scheduler.Order.Rounds.{
  Picked, next_task_lem, next_task-none, next_task-found, next_task-skipped,
}
use cyu_core.Plugins.Scheduler.Order.Ticks.{
  total, IsWithin, found_cases, loop_none, loop_some, after_round,
}
use cyu_core.Plugins.Scheduler.Reachable.{next_now, advance-Ran, IsConsistent-at}
use cyu_core.Plugins.Scheduler.Kept.{
  HasTask, Spares, has_all, HasTask-push, HasTask-cancel, HasTask-perform,
}
use mathlib.Core.Path.{subst}

module _ (t : Task) where
  -- Still queued, or the one that was picked.
  abbrev pub Kept : Option Task × Scheduler → Type 0
  Kept (none, s) = HasTask t s.queue
  Kept (some u, s) = (u ≡ t) ⊎ HasTask t s.queue

  skip_keeps :
      (u : Task) (s : Scheduler)
      → (u.id == t.id) ≡ false
      → HasTask t s.queue
      → HasTask t (skip u s).queue
  unfolding skip
  skip_keeps u s d h = elim (Bool-cases (u.interval == 0)) [
    | inl e ↦ rw e h
    | inr e ↦ rw e (HasTask-cancel t u s d h)
  ]

  before_differs :
      (u : Task) (us : List Task) → All (IsBefore u) us → HasTask t us → (u.id == t.id) ≡ false
  before_differs u us before h = let k = (has_all t (IsBefore u) us h before).1 in ground arith

  next_task_keeps :
      (fuel now : ℕ) (enabled : ℕ → Bool) (s : Scheduler)
      → IsConsistent s
      → enabled t.owner ≡ true
      → HasTask t s.queue
      → Kept (next_task fuel now enabled s)
  unfolding next_task
  next_task_keeps zero now enabled s good on h = h
  next_task_keeps (suc n) now enabled s good on h = elim (Option-cases (pop_due now s.queue)) [
    | inl e ↦ subst Kept (sym (next_task-none now enabled n s e)) h
    | inr ((u, us), e) ↦
        let (head, d) = pop_due-some now s.queue u us e in
        let s1 : Scheduler = record s { queue = us } in
        let s2 = retire u s1 in
        let queue2 = retire-queue u s1 in
        let sorted = IsSorted-head u us s good head in
        let good1 = IsConsistent-popped u us s good head in
        let good2 = IsConsistent-retire u s1 good1 (head-IsAbsent u us s good head) in
        elim (Bool-cases (enabled u.owner)) [
          | inl on' ↦
              subst Kept (sym (next_task-found now enabled n s u us e on'))
                (elim (subst (HasTask t) head h) [
                  | inl is ↦ inl is
                  | inr later ↦ inr (subst (HasTask t) (sym queue2) later)
                ])
          | inr off ↦
              let s3 = skip u s2 in
              let good3 = (skip_lem u s2 good2).0 in
              subst Kept (sym (next_task-skipped now enabled n s u us e off))
                (elim (subst (HasTask t) head h) [
                  | inl is ↦
                      let same = ap (λ (v : Task). enabled v.owner) is in absurd (ground arith)
                  | inr later ↦ next_task_keeps n now enabled s3 good3 on (
                      skip_keeps u s2 (before_differs u us sorted.0 later)
                        (subst (HasTask t) (sym queue2) later))
                ])
        ]
  ]

  requeue_keeps :
      (now : ℕ) (on : Bool) (u : Task) (s : Scheduler)
      → HasTask t s.queue
      → HasTask t (requeue now on u s).1.queue
  unfolding requeue remove_registration_locked
  requeue_keeps now on u s h =
      let pushed = HasTask-push t (record u { due = now + u.interval }) s.queue h in
      let is_open = is_open_state (state_of u.owner s.owners) in
      elim (Bool-cases (u.interval == 0)) [
        | inl e ↦ rw e h
        | inr e ↦ elim (Bool-cases (is_active u s)) [
          | inr d ↦ rw (e, d) h
          | inl d ↦ elim (Bool-cases (on && is_open)) [
            | inr f ↦ rw (e, d, f) h
            | inl f ↦ elim (Bool-cases (ltb (2 ^ 64 - 1 - now) u.interval)) [
              | inl g ↦ rw (e, d, f, g) h
              | inr g ↦ rw (e, d, f, g) pushed
            ]
          ]
        ]
      ]

  module _ (enabled : ℕ → ℕ → Bool) (plugin : ℕ → Task → Call) (budget : ℕ → ℕ)
      (within : IsWithin enabled plugin budget)
      (spared : (k : ℕ) (u : Task) → All (Spares t) (plugin k u).actions)
      (on : (k : ℕ) → enabled k t.owner ≡ true) where
    round_keeps :
        (now k : ℕ) (u : Task) (s : Scheduler)
        → IsConsistent s
        → s.next_id + length (plugin k u).actions < 2 ^ 64
        → HasTask t s.queue
        → HasTask t (round enabled plugin now k u s).2.queue
    unfolding round call_task
    round_keeps now k u s good small h =
        requeue_keeps now (enabled (suc k) u.owner) u (call_task (plugin k u) u s).1
          (HasTask-perform t (plugin k u).actions s good small (spared k u) h)

    abbrev RanOrKept : Tick → Type 0
    RanOrKept r = HasTask t r.ran ⊎ HasTask t r.scheduler.queue

    loop_keeps :
        (left now k : ℕ) (s : Scheduler)
        → IsConsistent s
        → s.now ≡ now
        → s.next_id + total budget left k < 2 ^ 64
        → HasTask t s.queue
        → RanOrKept (advance_loop enabled plugin left now k s)
    unfolding advance_loop total
    loop_keeps zero now k s good at small h = inr h
    loop_keeps (suc n) now k s good at small h =
        let picked = next_task_lem (length s.queue) now (enabled k) s good at in
        let kept = next_task_keeps (length s.queue) now (enabled k) s good (on k) h in
        elim (found_cases (next_task (length s.queue) now (enabled k) s)) [
          | inl (s', e) ↦
              subst RanOrKept (sym (loop_none enabled plugin budget n now k s s' e))
                (inr (subst Kept e kept))
          | inr (u, s', e) ↦
              let p = subst (Picked (length s.queue) now (enabled k) s) e picked in
              let evolves = p.1 in
              let s'' = (round enabled plugin now k u s').2 in
              let after = after_round enabled plugin budget within n now k s s' u at small p in
              subst RanOrKept (sym (loop_some enabled plugin budget n now k s u s' e))
                (elim (subst Kept e kept) [
                  | inl is ↦ inl (inl is)
                  | inr queued ↦
                      let still =
                        round_keeps now k u s' p.0 (omega (arith, evolves.ids_bound, within k u))
                          queued in
                      elim (loop_keeps n now (suc k) s'' after.0 after.1 after.2 still) [
                        | inl ran ↦ inl (inr ran)
                        | inr waits ↦ inr waits
                      ]
                ])
        ]

    module _ (limit : ℕ) where
      advance_keeps :
          (s : Scheduler)
          → IsConsistent s
          → s.next_id + total budget limit 0 < 2 ^ 64
          → HasTask t s.queue
          → RanOrKept (advance enabled plugin limit s)
      unfolding advance
      advance_keeps s good small h =
          loop_keeps limit (next_now s) 0 (record s { now = next_now s })
            (IsConsistent-at (next_now s) s good) refl small h

      pub due_runs :
          (s : Scheduler)
          → IsConsistent s
          → s.next_id + total budget limit 0 < 2 ^ 64
          → count_due (next_now s) s.queue ≤ limit
          → HasTask t s.queue
          → let r = advance enabled plugin limit s in
            (t.due ≤ next_now s → HasTask t r.ran)
            × (next_now s < t.due → HasTask t r.scheduler.queue)
      due_runs s good small room h =
          let r = advance enabled plugin limit s in
          let ran = advance-Ran enabled plugin budget within limit s good small in
          let later = ran.enough room in
          elim (advance_keeps s good small h) [
            | inl done ↦ (
              (λ due. done),
              (λ due.
                  absurd
                    (omega (arith, has_all t (λ u. u.due ≤ next_now s) r.ran done ran.all_due))),
            )
            | inr waits ↦ (
              (λ due. absurd (
                  omega
                    (arith, has_all t (λ u. next_now s < u.due) r.scheduler.queue waits later))),
              (λ due. waits),
            )
          ]
