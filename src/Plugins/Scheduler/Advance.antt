-- ===== src/Plugins/Scheduler/Advance.antt =====
-- One tick of the scheduler, `advance` of internal/pluginruntime/scheduler.go. What the handlers do,
-- and which plugins are enabled meanwhile, are parameters.
use cyu_core.Base.{
  ℕ, zero, suc, ◌+◌, ◌-◌, ◌%◌, ◌^◌, Bool, true, false, ◌&&◌, Option, none, some, List, [], ◌∷◌, ltb,
  ◌==◌, if◌then◌else◌, length,
}
use cyu_core.Plugins.Entry.{record_call, Returned, Failure, recover, scheduler_phase, has_failed}
use cyu_core.Plugins.Scheduler.{
  Task, OwnerState, Scheduler, push, is_active, state_of, modify, is_open_state,
  remove_registration_locked, cancel, open_owner, close_owner, schedule,
}

-- What runs on the scheduler while a handler does: the handler's own calls and the manager's.
pub data Action : Type 0 where
  schedules : (owner : Option ℕ) (delay interval : ℕ) (handler : Option ℕ) → Action
  cancels : Task → Action
  opens closes : (owner : Option ℕ) → Action

unfoldable pub perform : List Action → Scheduler → Scheduler
unfolding cancel open_owner close_owner schedule
perform [] s = s
perform (schedules owner delay interval handler ∷ as') s =
    perform as' (schedule owner delay interval handler s).1
perform (cancels t ∷ as') s = perform as' (cancel t s).1
perform (opens owner ∷ as') s = perform as' (open_owner owner s)
perform (closes owner ∷ as') s = perform as' (close_owner owner s)

pub record Call : Type 0 where
  pub actions : List Action
  pub result : Returned
  pub nanos : ℕ

pub data TaskFailure : Type 0 where
  task_failed : Failure → TaskFailure
  deadline_overflow : (owner id : ℕ) → TaskFailure

-- `ran` are the tasks whose handlers were called, in that order; the code does not return them.
pub record Tick : Type 0 where
  pub failures : List TaskFailure
  pub ran : List Task
  pub scheduler : Scheduler

unfoldable pub retire_one_shot_locked : Task → Scheduler → Scheduler
unfolding is_active remove_registration_locked
retire_one_shot_locked t s = if is_active t s then remove_registration_locked t s else s

-- What is done with the popped task before the lock is given back.
unfoldable pub retire : Task → Scheduler → Scheduler
unfolding retire_one_shot_locked
retire t s = if t.interval == 0 then retire_one_shot_locked t s else s

unfoldable pub skip : Task → Scheduler → Scheduler
unfolding cancel
skip t s = if t.interval == 0 then s else (cancel t s).1

-- The test of the queue and its `heap.Pop`; `none` is the `break`.
unfoldable pub pop_due : (now : ℕ) → List Task → Option (Task × List Task)
pop_due now [] = none
pop_due now (t ∷ ts) = if ltb now t.due then none else some (t, ts)

-- The rounds that end in `continue` before a call, and the `break`: the next task to call, `none`
-- when none is due. A round takes a task from the queue, whose length is the fuel.
unfoldable pub next_task :
    (fuel now : ℕ) → (enabled : ℕ → Bool) → Scheduler → Option Task × Scheduler
unfolding pop_due retire skip
next_task zero now enabled s = (none, s)
next_task (suc n) now enabled s = elim (pop_due now s.queue) [
  | none ↦ (none, s)
  | some (t, ts) ↦
      let s' = retire t (record s { queue = ts }) in
      let rest = next_task n now enabled (skip t s') in
      if enabled t.owner then (some t, s') else rest
]

unfoldable pub record_task : (nanos : ℕ) → (did_fail : Bool) → OwnerState → OwnerState
unfolding record_call
record_task nanos did_fail st = record st { counts = record_call nanos did_fail st.counts }

unfoldable pub call_task : Call → Task → Scheduler → Option Failure × Scheduler
unfolding perform recover modify record_task
call_task c t s =
    let s' = perform c.actions s in
    let failure = recover t.owner scheduler_phase c.result in
    (
      failure,
      record s' { owners = modify t.owner (record_task c.nanos (has_failed failure)) s'.owners },
    )

-- The end of a round: a task that recurs is queued again, or retired. The answer is whether its next
-- deadline overflows.
unfoldable pub requeue : (now : ℕ) → (is_enabled : Bool) → Task → Scheduler → Bool × Scheduler
unfolding push is_active state_of is_open_state remove_registration_locked
requeue now is_enabled t s =
    let retired = remove_registration_locked t s in
    if t.interval == 0
    then (false, s)
    else if is_active t s && is_enabled && is_open_state (state_of t.owner s.owners)
    then if ltb (2 ^ 64 - 1 - now) t.interval
      then (true, retired)
      else (false, record s { queue = push (record t { due = now + t.interval }) s.queue })
    else if is_active t s
    then (false, retired)
    else (false, s)

abbrev pub add_task_failure : Option Failure → List TaskFailure → List TaskFailure
add_task_failure none fs = fs
add_task_failure (some f) fs = task_failed f ∷ fs

abbrev pub add_overflow : Bool → Task → List TaskFailure → List TaskFailure
add_overflow b t fs = if b then deadline_overflow t.owner t.id ∷ fs else fs

-- `enabled k` are the flags of the plugins after k calls of this tick, and `plugin k t` is what the
-- call of the task t does if it is the k-th, from 0.
module _ (enabled : ℕ → ℕ → Bool) (plugin : ℕ → Task → Call) where
  -- The call of a task and the end of its round.
  unfoldable pub round : (now k : ℕ) → Task → Scheduler → Option Failure × Bool × Scheduler
  unfolding call_task requeue
  round now k t s =
      let (failure, s') = call_task (plugin k t) t s in
      let (overflows, s'') = requeue now (enabled (suc k) t.owner) t s' in (failure, overflows, s'')

  -- The loop with `left` calls left of the limit and k done.
  unfoldable pub advance_loop : (left now k : ℕ) → Scheduler → Tick
  unfolding next_task round
  advance_loop zero now k s = record { failures = []; ran = []; scheduler = s }
  advance_loop (suc n) now k s =
      let (found, s') = next_task (length s.queue) now (enabled k) s in
      elim found [
        | none ↦ record { failures = []; ran = []; scheduler = s' }
        | some t ↦
            let (failure, overflows, s'') = round now k t s' in
            let rest = advance_loop n now (suc k) s'' in
            record {
              failures = add_task_failure failure (add_overflow overflows t rest.failures);
              ran = t ∷ rest.ran;
              scheduler = rest.scheduler;
            }
      ]

  -- A limit below 0 does what 0 does.
  unfoldable pub advance : (limit : ℕ) → Scheduler → Tick
  unfolding advance_loop
  advance limit s =
      let now = (s.now + 1) % 2 ^ 64 in advance_loop limit now 0 (record s { now = now })
