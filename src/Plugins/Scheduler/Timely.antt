-- ===== src/Plugins/Scheduler/Timely.antt =====
-- When a task runs.
use cyu_core.Base.{
  ℕ, zero, suc, ◌+◌, ◌-◌, ◌%◌, ◌^◌, ◌≤◌, ◌<◌, ◌==◌, ◌≡◌, refl, ap, ◌∙◌, Bool, true, ltb, some, List,
  [], ◌∷◌, arith, inl, inr, Bool-cases, All, Outcome, ok, err,
}
use cyu_core.Plugins.Scheduler.{
  Task, Scheduler, less, ScheduleError, owner_state_locked, schedule_locked, schedule, add_task,
  push, state_of, is_open_state,
}
use cyu_core.Plugins.Scheduler.Advance.{schedules, perform, Call, advance}
use cyu_core.Plugins.Scheduler.Order.{count_due}
use cyu_core.Plugins.Scheduler.Order.Ticks.{total, IsWithin}
use cyu_core.Plugins.Scheduler.Reachable.{
  IsReachable, step, acted, ticked, IsConsistent-reached, next_now, advance-Ran,
}
use cyu_core.Plugins.Scheduler.Kept.{HasTask, Spares, has_all}
use mathlib.Core.Path.{subst}
use cyu_core.Plugins.Scheduler.Due.{due_runs}

-- The scheduler after some ticks.
module _ (enabled : ℕ → ℕ → Bool) (plugin : ℕ → Task → Call) (limit : ℕ) where
  unfoldable pub after_ticks_of : ℕ → Scheduler → Scheduler
  after_ticks_of zero s = s
  after_ticks_of (suc n) s = after_ticks_of n (advance enabled plugin limit s).scheduler

  IsReachable-after_ticks_of :
      (budget : ℕ → ℕ) (s : Scheduler)
      → IsReachable s
      → IsWithin enabled plugin budget
      → s.next_id + total budget limit 0 < 2 ^ 64
      → IsReachable (advance enabled plugin limit s).scheduler
  IsReachable-after_ticks_of budget s reached within small =
      step s _ reached (ticked enabled plugin budget limit within small)

  -- Before each of the next ticks there are ids left, and the tick has room for all that is due.
  abbrev pub HasRoom : (budget : ℕ → ℕ) → (n : ℕ) → Scheduler → Type 0
  HasRoom budget n s =
      (m : ℕ)
      → m ≤ n
      → let s' = after_ticks_of m s in
        (s'.next_id + total budget limit 0 < 2 ^ 64)
        × (count_due ((s'.now + 1) % 2 ^ 64) s'.queue ≤ limit)

  module _ (budget : ℕ → ℕ) (within : IsWithin enabled plugin budget) (t : Task)
      (spared : (k : ℕ) (u : Task) → All (Spares t) (plugin k u).actions)
      (on : (k : ℕ) → enabled k t.owner ≡ true) (small_due : t.due < 2 ^ 64) where
    runs_on_time :
        (n : ℕ) (s : Scheduler)
        → IsReachable s
        → HasTask t s.queue
        → t.due ≡ s.now + suc n
        → HasRoom budget n s
        → HasTask t (advance enabled plugin limit (after_ticks_of n s)).ran
    unfolding after_ticks_of
    runs_on_time zero s reached h due room =
        let good = IsConsistent-reached s reached in
        let (small, fits) = room 0 (omega arith) in
        (due_runs t enabled plugin budget within spared on limit s good small fits h).0
          (omega arith)
    runs_on_time (suc n) s reached h due room =
        let good = IsConsistent-reached s reached in
        let (small, fits) = room 0 (omega arith) in
        let s' = (advance enabled plugin limit s).scheduler in
        let ran = advance-Ran enabled plugin budget within limit s good small in
        let follows = ran.follows in
        let clock : s'.now ≡ next_now s = follows.same_now in
        let queued =
          (due_runs t enabled plugin budget within spared on limit s good small fits h).1
            (omega arith) in
        runs_on_time n s' (IsReachable-after_ticks_of budget s reached within small) queued
          (omega arith) (λ m low. room (suc m) (omega arith))

    not_before :
        (n m : ℕ) (s : Scheduler)
        → IsReachable s
        → t.due ≡ s.now + suc n
        → HasRoom budget n s
        → m < n
        → HasTask t (advance enabled plugin limit (after_ticks_of m s)).ran
        → ⊥
    unfolding after_ticks_of
    not_before n zero s reached due room low h =
        let (small, fits) = room 0 (omega arith) in
        let ran =
          advance-Ran enabled plugin budget within limit s (IsConsistent-reached s reached) small in
        omega (arith, has_all t (λ u. u.due ≤ next_now s) _ h ran.all_due)
    not_before zero (suc m) s reached due room low h = omega arith
    not_before (suc n) (suc m) s reached due room low h =
        let (small, fits) = room 0 (omega arith) in
        let ran =
          advance-Ran enabled plugin budget within limit s (IsConsistent-reached s reached) small in
        let follows = ran.follows in
        let clock : (advance enabled plugin limit s).scheduler.now ≡ next_now s =
          follows.same_now in
        not_before n m (advance enabled plugin limit s).scheduler
          (IsReachable-after_ticks_of budget s reached within small) (omega arith)
          (λ j j_low. room (suc j) (omega arith)) (omega arith) h

HasTask-push_new : (t : Task) (ts : List Task) → HasTask t (push t ts)
unfolding push
HasTask-push_new t [] = inl refl
HasTask-push_new t (u ∷ us) = elim (Bool-cases (less t u)) [
  | inl e ↦ rw e (inl refl)
  | inr e ↦ rw e (inr (HasTask-push_new t us))
]

-- What `schedule` has done when it returns a task.
abbrev IsMade : (owner delay : ℕ) → Outcome ScheduleError Task × Scheduler → Type 0
IsMade o d (err e, s') = Unit {0}
IsMade o d (ok t, s') = HasTask t s'.queue × (t.owner ≡ o) × (t.due ≡ s'.now + d) × (t.due < 2 ^ 64)

IsMade-schedule_locked :
    (o d i h : ℕ) (s : Scheduler) → 0 < d → IsMade o d (schedule_locked o d i h s)
unfolding schedule_locked add_task
IsMade-schedule_locked o d i h s positive =
    elim (Bool-cases (is_open_state (state_of o s.owners))) [
      | inr e ↦ rw e tt
      | inl e ↦ elim (Bool-cases (ltb (2 ^ 64 - 1 - s.now) d)) [
        | inl f ↦ rw (e, f) tt
        | inr f ↦ elim (Bool-cases ((s.next_id + 1) % 2 ^ 64 == 0)) [
          | inl g ↦ rw (e, f, g) tt
          | inr g ↦ rw (e, f, g) (HasTask-push_new _ s.queue, refl, refl, ground arith)
        ]
      ]
    ]

made :
    (o d i h : ℕ) (s s' : Scheduler) (t : Task)
    → schedule (some o) (suc d) i (some h) s ≡ (ok t, s')
    → IsMade o (suc d) (ok t, s')
unfolding schedule
made o d i h s s' t e =
    subst (IsMade o (suc d)) e
      (IsMade-schedule_locked o (suc d) i h (owner_state_locked o s) (omega arith))

-- A task that schedule returned for a delay of n + 1 ticks runs in the tick n + 1 after it and in
-- none before, if its owner stays enabled, no handler cancels it or closes its owner, and each of
-- these ticks has room in its limit for all that is due and in the counter for its ids.
pub scheduled_runs :
    (enabled : ℕ → ℕ → Bool) (plugin : ℕ → Task → Call) (budget : ℕ → ℕ) (limit o n i h : ℕ)
    (s s' : Scheduler) (t : Task)
    → IsReachable s
    → s.next_id + 1 < 2 ^ 64
    → schedule (some o) (suc n) i (some h) s ≡ (ok t, s')
    → IsWithin enabled plugin budget
    → ((k : ℕ) (u : Task) → All (Spares t) (plugin k u).actions)
    → ((k : ℕ) → enabled k o ≡ true)
    → HasRoom enabled plugin limit budget n s'
    → HasTask t (advance enabled plugin limit (after_ticks_of enabled plugin limit n s')).ran
      × ((m : ℕ)
          → m < n
          → HasTask t (advance enabled plugin limit (after_ticks_of enabled plugin limit m s')).ran
          → ⊥)
unfolding perform
scheduled_runs enabled plugin budget limit o n i h s s' t reached small e within spared on room =
    let (queued, owned, due, small_due) = made o n i h s s' t e in
    let reached' : IsReachable s' =
      subst IsReachable (ap (λ (r : Outcome ScheduleError Task × Scheduler). r.1) e)
        (step s _ reached (acted (schedules (some o) (suc n) i (some h) ∷ []) small)) in
    let on' : (k : ℕ) → enabled k t.owner ≡ true = λ k. ap (enabled k) owned ∙ on k in
    (
      runs_on_time enabled plugin limit budget within t spared on' small_due n s' reached' queued
          due room,
      λ m.
          not_before enabled plugin limit budget within t spared on' small_due n m s' reached' due
            room,
    )
