-- ===== src/Plugins/Scheduler/Tests.antt =====
-- Runs of the scheduler on small inputs, and the theorems at inputs that meet their conditions.
use cyu_core.Base.{
  ℕ, zero, suc, ◌+◌, ◌^◌, ◌≡◌, ◌<◌, ◌≤◌, refl, Bool, true, false, some, [], ◌∷◌, arith, ok, err,
  ◌==◌, All, length,
}
use cyu_core.Plugins.Entry.{panicked, recover, record_call, panic_error, scheduler_phase, no_calls}
use cyu_core.Plugins.Scheduler.{
  Task, Scheduler, new_task_scheduler, invalid_delay, closed, less, push, without, is_listed,
  is_active, delete_task, delete_owner, state_of, modify, owner_state_locked, set_open, one_more,
  one_less, is_open_state, remove_registration_locked, cancel, remove_tasks, remove_owner_locked,
  open_owner, close_owner, add_task, schedule_locked, schedule, after_ticks, every_ticks, snapshot,
}
use cyu_core.Plugins.Scheduler.Advance.{
  opens, schedules, perform, Call, task_failed, retire_one_shot_locked, retire, skip, pop_due,
  next_task, record_task, call_task, requeue, round, advance_loop, advance,
}
use cyu_core.Plugins.Scheduler.Queue.{IsSorted}
use cyu_core.Plugins.Scheduler.Consistent.{IsConsistent}
use cyu_core.Plugins.Scheduler.Order.{count_due}
use cyu_core.Plugins.Scheduler.Order.Ticks.{total, IsWithin}
use cyu_core.Plugins.Scheduler.Reachable.{
  IsReachable, start, step, acted, IsConsistent-reached, advance_in_order, close_owner_idle,
}
use cyu_core.Plugins.Scheduler.Kept.{HasTask}
use cyu_core.Plugins.Scheduler.Timely.{after_ticks_of, HasRoom, scheduled_runs}

program : Unit {0}
unfolding recover record_call less push without is_listed is_active delete_task delete_owner
    state_of modify owner_state_locked set_open one_more one_less is_open_state
    remove_registration_locked cancel remove_tasks remove_owner_locked open_owner close_owner
    add_task schedule_locked schedule after_ticks every_ticks snapshot perform
    retire_one_shot_locked retire skip pop_due next_task record_task call_task requeue round
    advance_loop advance count_due total after_ticks_of
program = tt

abbrev opened : Scheduler
opened = record {
  now = 0;
  next_id = 0;
  queue = [];
  by_owner = [];
  owners = (7, record { is_open = true; counts = no_calls; pending = 0 }) ∷ [];
}

-- Due in the second tick.
abbrev once : Task
once = record { id = 1; owner = 7; due = 2; interval = 0; handler = 5 }

abbrev with_once : Scheduler
with_once = record {
  now = 0;
  next_id = 1;
  queue = once ∷ [];
  by_owner = (7, 1) ∷ [];
  owners = (7, record { is_open = true; counts = no_calls; pending = 1 }) ∷ [];
}

abbrev often : Task
often = record { id = 2; owner = 7; due = 1; interval = 1; handler = 6 }

abbrev with_both : Scheduler
with_both = record {
  now = 0;
  next_id = 2;
  queue = often ∷ once ∷ [];
  by_owner = (7, 2) ∷ (7, 1) ∷ [];
  owners = (7, record { is_open = true; counts = no_calls; pending = 2 }) ∷ [];
}

-- Every handler panics after 10 nanoseconds.
abbrev panics : ℕ → Task → Call
panics k t = record { actions = []; result = panicked 9; nanos = 10 }

abbrev all_enabled : ℕ → ℕ → Bool
all_enabled k o = true

abbrev no_budget : ℕ → ℕ
no_budget k = 0

panics-IsWithin : IsWithin all_enabled panics no_budget
panics-IsWithin k t = omega arith

open_seven : perform (opens (some 7) ∷ []) new_task_scheduler ≡ opened
unfolding program
open_seven = refl

schedule-once : schedule (some 7) 2 0 (some 5) opened ≡ (ok once, with_once)
unfolding program
schedule-once = refl

schedule_often : every_ticks (some 7) 1 (some 6) with_once ≡ (ok often, with_both)
unfolding program
schedule_often = refl

schedule_unopened : (after_ticks (some 8) 2 (some 5) opened).0 ≡ err closed
unfolding program
schedule_unopened = refl

schedule_no_delay : after_ticks (some 7) 0 (some 5) opened ≡ (err invalid_delay, opened)
unfolding program
schedule_no_delay = refl

-- The recurring task runs in every tick, the other one in the second.
first_tick : (advance all_enabled panics 3 with_both).ran ≡ often ∷ []
unfolding program
first_tick = refl

second_tick :
    (advance all_enabled panics 3 (after_ticks_of all_enabled panics 3 1 with_both)).ran
    ≡ once ∷ (record often { due = 2 }) ∷ []
unfolding program
second_tick = refl

-- A limit of one leaves the second due task for the next tick.
limited_tick :
    (advance all_enabled panics 1 (after_ticks_of all_enabled panics 1 1 with_both)).ran ≡ once ∷ []
unfolding program
limited_tick = refl

first_failures :
    (advance all_enabled panics 3 with_both).failures
    ≡ task_failed (panic_error 7 scheduler_phase 9) ∷ []
unfolding program
first_failures = refl

cancel_twice : let (done, s) = cancel once with_once in (done ≡ true) × ((cancel once s).0 ≡ false)
unfolding program
cancel_twice = (refl, refl)

opened_reached : IsReachable opened
unfolding program
opened_reached = step new_task_scheduler opened start (acted (opens (some 7) ∷ []) (omega arith))

both_reached : IsReachable with_both
unfolding program
both_reached =
    step opened with_both opened_reached
      (acted (schedules (some 7) 2 0 (some 5) ∷ schedules (some 7) 1 1 (some 6) ∷ []) (omega arith))

IsConsistent-reached_example : IsConsistent with_both
IsConsistent-reached_example = IsConsistent-reached with_both both_reached

small_total : 2 + total no_budget 3 0 < 2 ^ 64
unfolding program
small_total = omega arith

advance_in_order_example :
    let r = advance all_enabled panics 3 with_both in
    IsSorted r.ran
    × All (λ (t : Task). (t.due ≤ 1) × (is_listed t.owner t.id with_both.by_owner ≡ true)) r.ran
    × (length r.ran ≤ 3)
    × (length r.ran < 3 → All (λ (t : Task). 1 < t.due) r.scheduler.queue)
advance_in_order_example =
    advance_in_order all_enabled panics no_budget 3 with_both both_reached panics-IsWithin
      small_total

small_closed : (close_owner (some 7) with_both).next_id + total no_budget 3 0 < 2 ^ 64
unfolding program
small_closed = omega arith

close_owner_idle_example :
    let s' = close_owner (some 7) with_both in
    ((snapshot (some 7) s').1 ≡ 0)
    × ((d i h : ℕ) → (schedule (some 7) (suc d) i (some h) s').0 ≡ err closed)
    × All (λ (t : Task). (t.owner == 7) ≡ false) (advance all_enabled panics 3 s').ran
close_owner_idle_example =
    close_owner_idle all_enabled panics no_budget 3 with_both 7 both_reached panics-IsWithin
      small_closed

room : HasRoom all_enabled panics 3 no_budget 1 with_once
unfolding program
room zero low = (omega arith, omega arith)
room (suc zero) low = (omega arith, omega arith)
room (suc (suc m)) low = absurd (omega arith)

scheduled_runs_example :
    HasTask once
      (advance all_enabled panics 3 (after_ticks_of all_enabled panics 3 1 with_once)).ran
    × ((m : ℕ)
        → m < 1
        → HasTask once
            (advance all_enabled panics 3 (after_ticks_of all_enabled panics 3 m with_once)).ran
        → ⊥)
scheduled_runs_example =
    scheduled_runs all_enabled panics no_budget 3 7 1 0 5 opened with_once once opened_reached
      (omega arith) schedule-once panics-IsWithin (λ k u. tt) (λ k. refl) room
