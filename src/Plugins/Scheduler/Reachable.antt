-- ===== src/Plugins/Scheduler/Reachable.antt =====
-- The scheduler through every sequence of its operations and ticks.
use cyu_core.Base.{
  ℕ, suc, ◌+◌, ◌%◌, ◌^◌, ◌≤◌, ◌<◌, ◌==◌, ◌≡◌, refl, ap, ◌∙◌, Bool, true, false, some, List, arith,
  inl, inr, Bool-cases, Option-cases, All, length, err,
}
use cyu_core.Plugins.Scheduler.{
  Task, Scheduler, new_task_scheduler, is_listed, state_of, is_open_state, close_owner,
  owner_state_locked, schedule_locked, schedule, closed, snapshot,
}
use cyu_core.Plugins.Scheduler.Advance.{Action, perform, Call, advance}
use cyu_core.Plugins.Scheduler.Queue.{IsSorted, All-imp, All-pair}
use cyu_core.Plugins.Scheduler.Owners.{count, count_zero, pending_of}
use cyu_core.Plugins.Scheduler.Consistent.{IsListed, IsConsistent, IsConsistent-new}
use cyu_core.Plugins.Scheduler.Consistent.Closed.{IsConsistent-close_owner, close_owner_closed}
use cyu_core.Plugins.Scheduler.Order.{perform_lem}
use cyu_core.Plugins.Scheduler.Order.Ticks.{total, IsWithin, Ran, advance_loop_lem}

pub IsConsistent-at :
    (now : ℕ) (s : Scheduler) → IsConsistent s → IsConsistent (record s { now = now })
IsConsistent-at now s good = record {
  sorted = good.sorted;
  listed = good.listed;
  distinct = good.distinct;
  known = good.known;
  counted = good.counted;
  none_closed = good.none_closed;
}

abbrev pub next_now : Scheduler → ℕ
next_now s = (s.now + 1) % 2 ^ 64

-- `budget k` bounds how much the k-th call of the tick does to the scheduler.
module _ (enabled : ℕ → ℕ → Bool) (plugin : ℕ → Task → Call) (budget : ℕ → ℕ)
    (within : IsWithin enabled plugin budget) (limit : ℕ) (s : Scheduler) (good : IsConsistent s)
    (small : s.next_id + total budget limit 0 < 2 ^ 64) where
  pub advance-Ran :
      Ran enabled plugin budget limit
        (next_now s)
        0
        (record s { now = next_now s })
        (advance enabled plugin limit s)
  unfolding advance
  advance-Ran =
      advance_loop_lem enabled plugin budget within limit (next_now s) 0
        (record s { now = next_now s }) (IsConsistent-at (next_now s) s good) refl small

-- One call of schedule, cancel, openOwner or closeOwner, or several, or one tick. While one runs, fewer
-- than 2 ^ 64 tasks have been made.
pub data Step (s : Scheduler) : Scheduler → Type 0 where
  acted : (as' : List Action) → s.next_id + length as' < 2 ^ 64 → Step s (perform as' s)
  ticked :
      (enabled : ℕ → ℕ → Bool) (plugin : ℕ → Task → Call) (budget : ℕ → ℕ) (limit : ℕ)
      → IsWithin enabled plugin budget
      → s.next_id + total budget limit 0 < 2 ^ 64
      → Step s (advance enabled plugin limit s).scheduler

pub data IsReachable : Scheduler → Type 0 where
  start : IsReachable new_task_scheduler
  step : (s s' : Scheduler) → IsReachable s → Step s s' → IsReachable s'

IsConsistent-Step : (s s' : Scheduler) → IsConsistent s → Step s s' → IsConsistent s'
IsConsistent-Step s _ good (acted as' small) = (perform_lem as' s good small).0
IsConsistent-Step s _ good (ticked enabled plugin budget limit within small) =
    let ran = advance-Ran enabled plugin budget within limit s good small in ran.good

-- Every scheduler that its operations and ticks reach, while fewer than 2 ^ 64 tasks were made, is
-- consistent: the queue is in order, each queued task is registered, the ids are told apart, the
-- pending counter of an owner is the number of its registered tasks modulo 2 ^ 64, and an owner
-- that is not open has none.
pub IsConsistent-reached : (s : Scheduler) → IsReachable s → IsConsistent s
IsConsistent-reached _ start = IsConsistent-new
IsConsistent-reached _ (step s s' before done) =
    IsConsistent-Step s s' (IsConsistent-reached s before) done

-- On every scheduler that its operations and ticks reach: a tick, whatever its handlers do and
-- return, runs each task at most once, in the order of due tick and id, only tasks that are due and
-- were registered when it began, and no more than the limit; if it runs fewer, every task that is
-- left is due later. The budget bounds what the handlers schedule, so that fewer than 2 ^ 64 tasks
-- are made.
pub advance_in_order :
    (enabled : ℕ → ℕ → Bool) (plugin : ℕ → Task → Call) (budget : ℕ → ℕ) (limit : ℕ) (s : Scheduler)
    → IsReachable s
    → IsWithin enabled plugin budget
    → s.next_id + total budget limit 0 < 2 ^ 64
    → let r = advance enabled plugin limit s in
      let now = (s.now + 1) % 2 ^ 64 in
      IsSorted r.ran
      × All (λ (t : Task). (t.due ≤ now) × (is_listed t.owner t.id s.by_owner ≡ true)) r.ran
      × (length r.ran ≤ limit)
      × (length r.ran < limit → All (λ (t : Task). now < t.due) r.scheduler.queue)
advance_in_order enabled plugin budget limit s reached within small =
    let good = IsConsistent-reached s reached in
    let ran = advance-Ran enabled plugin budget within limit s good small in
    (
      ran.in_order,
      All-pair _ _ (advance enabled plugin limit s).ran ran.all_due
          (ran.from_queue (IsListed s.by_owner) good.listed),
      ran.limited,
      ran.finished,
    )

not_own :
    (o : ℕ) (s : Scheduler) (u : Task)
    → count o s.by_owner ≡ 0
    → IsListed s.by_owner u
    → (u.owner == o) ≡ false
not_own o s u h k = elim (Bool-cases (u.owner == o)) [
  | inr e ↦ e
  | inl e ↦
      let is : u.owner ≡ o = ground arith in
      let k' = ap (λ p. is_listed p u.id s.by_owner) is in
      let none_listed = count_zero o u.id s.by_owner h in absurd (ground arith)
]

pub state_located :
    (o : ℕ) (s : Scheduler)
    → is_open_state (state_of o s.owners) ≡ false
    → is_open_state (state_of o (owner_state_locked o s).owners) ≡ false
unfolding owner_state_locked state_of is_open_state
state_located o s h = elim (Option-cases (state_of o s.owners)) [
  | inr (st, e) ↦ rw (e, owner_state_locked) h
  | inl e ↦ rw (e, owner_state_locked) (ground arith)
]

pub schedule_closed :
    (o d i h : ℕ) (s : Scheduler)
    → is_open_state (state_of o s.owners) ≡ false
    → (schedule (some o) (suc d) i (some h) s).0 ≡ err closed
unfolding schedule schedule_locked
schedule_closed o d i h s is = rw (state_located o s is) refl

snapshot_pending :
    (o : ℕ) (s : Scheduler) → (snapshot (some o) s).1 ≡ pending_of (state_of o s.owners)
unfolding snapshot
snapshot_pending o s = elim (Option-cases (state_of o s.owners)) [
  | inl e ↦ rw (e, snapshot) refl
  | inr (st, e) ↦ rw (e, snapshot) refl
]

-- On every scheduler that its operations and ticks reach, after closeOwner the owner has no pending
-- task, schedule for it fails with ErrClosed, and the next tick runs none of its tasks, whatever
-- the handlers in it do while they schedule fewer than 2 ^ 64 tasks.
pub close_owner_idle :
    (enabled : ℕ → ℕ → Bool) (plugin : ℕ → Task → Call) (budget : ℕ → ℕ) (limit : ℕ) (s : Scheduler)
    (o : ℕ)
    → IsReachable s
    → IsWithin enabled plugin budget
    → (close_owner (some o) s).next_id + total budget limit 0 < 2 ^ 64
    → let s' = close_owner (some o) s in
      ((snapshot (some o) s').1 ≡ 0)
      × ((d i h : ℕ) → (schedule (some o) (suc d) i (some h) s').0 ≡ err closed)
      × All (λ (t : Task). (t.owner == o) ≡ false) (advance enabled plugin limit s').ran
close_owner_idle enabled plugin budget limit s o reached within small =
    let s' = close_owner (some o) s in
    let good = IsConsistent-close_owner (some o) s (IsConsistent-reached s reached) in
    let is_closed = close_owner_closed o s (IsConsistent-reached s reached) in
    let none_left = good.none_closed o is_closed in
    let ran = advance-Ran enabled plugin budget within limit s' good small in
    (
      snapshot_pending o s' ∙ good.counted o ∙ rw none_left refl,
      (λ d i h. schedule_closed o d i h s' is_closed),
      ran.from_queue (λ t. (t.owner == o) ≡ false)
          (All-imp (λ u p. not_own o s' u none_left p) s'.queue good.listed),
    )
