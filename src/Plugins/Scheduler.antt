-- ===== src/Plugins/Scheduler.antt =====
-- internal/pluginruntime/scheduler.go: the tasks that plugins have run at a tick, with the errors of
-- api/scheduler. A pointer to a task is its record, told from others by its id, and a scheduler is
-- never the nil pointer.
pub mod Advance
pub mod Owners
pub mod Queue
pub mod Consistent
pub mod Order
pub mod Reachable
pub mod Kept
pub mod Due
pub mod Cleared
pub mod Timely
mod Tests
use cyu_core.Base.{
  ℕ, zero, suc, ◌+◌, ◌-◌, ◌%◌, ◌^◌, Bool, true, false, not, ◌&&◌, ◌||◌, Option, none, some, List,
  [], ◌∷◌, ltb, ◌==◌, if◌then◌else◌, Outcome, ok, err,
}
use cyu_core.Plugins.Entry.{Calls, no_calls}

pub record Task : Type 0 where
  pub id : ℕ
  pub owner : ℕ
  pub due : ℕ
  pub interval : ℕ
  pub handler : ℕ

-- `pending` is the pattern of an int64.
pub record OwnerState : Type 0 where
  pub is_open : Bool
  pub counts : Calls
  pub pending : ℕ

abbrev pub Owners : Type 0
Owners = List (ℕ × OwnerState)

-- The heap is the list of its tasks in the order of `Less`, the order in which `heap.Pop` takes them.
-- `by_owner` lists the owner and the id of the tasks in the map of maps: they are the active ones,
-- since under the lock the flag of a task goes on and off with its entry there.
pub record Scheduler : Type 0 where
  pub now : ℕ
  pub next_id : ℕ
  pub queue : List Task
  pub by_owner : List (ℕ × ℕ)
  pub owners : Owners

abbrev pub new_task_scheduler : Scheduler
new_task_scheduler = record { now = 0; next_id = 0; queue = []; by_owner = []; owners = [] }

pub data ScheduleError : Type 0 where
  nil_handler invalid_delay invalid_interval closed deadline_overflow id_overflow : ScheduleError

-- `Less`
unfoldable pub less : Task → Task → Bool
less t u = if t.due == u.due then ltb t.id u.id else ltb t.due u.due

-- `heap.Push`
unfoldable pub push : Task → List Task → List Task
unfolding less
push t [] = t ∷ []
push t (u ∷ us) = let rest = push t us in if less t u then t ∷ u ∷ us else u ∷ rest

-- `heap.Remove` at the index of the task of an id, which is below 0 for a task not in the queue.
unfoldable pub without : (id : ℕ) → List Task → List Task
without i [] = []
without i (t ∷ ts) = let rest = without i ts in if t.id == i then ts else t ∷ rest

unfoldable pub is_listed : (owner id : ℕ) → List (ℕ × ℕ) → Bool
is_listed owner id [] = false
is_listed owner id ((o, i) ∷ rs) = (o == owner && i == id) || is_listed owner id rs

unfoldable pub is_active : Task → Scheduler → Bool
unfolding is_listed
is_active t s = is_listed t.owner t.id s.by_owner

-- `delete(ownerTasks, task.id)`
unfoldable pub delete_task : (owner id : ℕ) → List (ℕ × ℕ) → List (ℕ × ℕ)
delete_task owner id [] = []
delete_task owner id ((o, i) ∷ rs) =
    let rest = delete_task owner id rs in if o == owner && i == id then rest else (o, i) ∷ rest

-- `delete(s.byOwner, owner)`
unfoldable pub delete_owner : (owner : ℕ) → List (ℕ × ℕ) → List (ℕ × ℕ)
delete_owner owner [] = []
delete_owner owner ((o, i) ∷ rs) =
    let rest = delete_owner owner rs in if o == owner then rest else (o, i) ∷ rest

unfoldable pub state_of : (owner : ℕ) → Owners → Option OwnerState
state_of owner [] = none
state_of owner ((o, st) ∷ os) = let rest = state_of owner os in if o == owner then some st else rest

-- A change through the pointer to the state of an owner.
unfoldable pub modify : (owner : ℕ) → (OwnerState → OwnerState) → Owners → Owners
modify owner f [] = []
modify owner f ((o, st) ∷ os) =
    let rest = modify owner f os in if o == owner then (o, f st) ∷ os else (o, st) ∷ rest

abbrev pub new_owner_state : OwnerState
new_owner_state = record { is_open = false; counts = no_calls; pending = 0 }

unfoldable pub owner_state_locked : (owner : ℕ) → Scheduler → Scheduler
unfolding state_of
owner_state_locked owner s = elim (state_of owner s.owners) [
  | none ↦ record s { owners = (owner, new_owner_state) ∷ s.owners }
  | some _ ↦ s
]

unfoldable pub set_open : Bool → OwnerState → OwnerState
set_open b st = record st { is_open = b }

-- `pending.Add(1)` and `pending.Add(-1)`
unfoldable pub one_more : OwnerState → OwnerState
one_more st = record st { pending = (st.pending + 1) % 2 ^ 64 }

unfoldable pub one_less : OwnerState → OwnerState
one_less st = record st { pending = (st.pending + (2 ^ 64 - 1)) % 2 ^ 64 }

unfoldable pub is_open_state : Option OwnerState → Bool
is_open_state none = false
is_open_state (some st) = st.is_open

unfoldable pub remove_registration_locked : Task → Scheduler → Scheduler
unfolding delete_task modify one_less
remove_registration_locked t s = record s {
  by_owner = delete_task t.owner t.id s.by_owner;
  owners = modify t.owner one_less s.owners;
}

unfoldable pub cancel : Task → Scheduler → Bool × Scheduler
unfolding is_active without remove_registration_locked
cancel t s =
    let removed = remove_registration_locked t (record s { queue = without t.id s.queue }) in
    if is_active t s then (true, removed) else (false, s)

-- The range over the tasks of an owner, among all of `byOwner`.
unfoldable pub remove_tasks : (owner : ℕ) → List (ℕ × ℕ) → Scheduler → Scheduler
unfolding without modify one_less
remove_tasks owner [] s = s
remove_tasks owner ((o, i) ∷ rs) s =
    let removed = record s { queue = without i s.queue; owners = modify owner one_less s.owners } in
    let rest = remove_tasks owner rs removed in
    let others = remove_tasks owner rs s in if o == owner then rest else others

unfoldable pub remove_owner_locked : (owner : ℕ) → Scheduler → Scheduler
unfolding remove_tasks delete_owner
remove_owner_locked owner s = record (remove_tasks owner s.by_owner s) {
  by_owner = delete_owner owner s.by_owner;
}

-- `none` as an owner is the nil pointer.
unfoldable pub open_owner : Option ℕ → Scheduler → Scheduler
unfolding owner_state_locked modify set_open
open_owner none s = s
open_owner (some owner) s =
    let s' = owner_state_locked owner s in
    record s' { owners = modify owner (set_open true) s'.owners }

unfoldable pub close_owner : Option ℕ → Scheduler → Scheduler
unfolding modify set_open remove_owner_locked
close_owner none s = s
close_owner (some owner) s =
    remove_owner_locked owner (record s { owners = modify owner (set_open false) s.owners })

-- The state after the checks of `schedule`, with the id of the task counted.
unfoldable pub add_task : Task → Scheduler → Scheduler
unfolding modify one_more push
add_task t s = record s {
  next_id = t.id;
  queue = push t s.queue;
  by_owner = (t.owner, t.id) ∷ s.by_owner;
  owners = modify t.owner one_more s.owners;
}

-- `schedule` under the lock, with the state of the owner in place.
unfoldable pub schedule_locked :
    (owner delay interval handler : ℕ) → Scheduler → Outcome ScheduleError Task × Scheduler
unfolding state_of is_open_state add_task
schedule_locked owner delay interval handler s =
    let id = (s.next_id + 1) % 2 ^ 64 in
    let task : Task = record {
      id = id;
      owner = owner;
      due = s.now + delay;
      interval = interval;
      handler = handler;
    } in
    if not (is_open_state (state_of owner s.owners))
    then (err closed, s)
    else if ltb (2 ^ 64 - 1 - s.now) delay
    then (err deadline_overflow, s)
    else if id == 0
    then (err id_overflow, record s { next_id = id })
    else (ok task, add_task task s)

-- `none` as a handler or as an owner is nil.
unfoldable pub schedule :
    (owner : Option ℕ) (delay interval : ℕ) (handler : Option ℕ)
    → Scheduler
    → Outcome ScheduleError Task × Scheduler
unfolding owner_state_locked schedule_locked
schedule owner delay interval none s = (err nil_handler, s)
schedule owner zero interval (some h) s =
    (err (if interval == 0 then invalid_delay else invalid_interval), s)
schedule none (suc d) interval (some h) s = (err closed, s)
schedule (some owner) (suc d) interval (some h) s =
    schedule_locked owner (suc d) interval h (owner_state_locked owner s)

-- The methods of scopedSchedulerRegistrar.
unfoldable pub after_ticks :
    (owner : Option ℕ) (delay : ℕ) (handler : Option ℕ)
    → Scheduler
    → Outcome ScheduleError Task × Scheduler
unfolding schedule
after_ticks owner delay handler s =
    if delay == 0 then (err invalid_delay, s) else schedule owner delay 0 handler s

unfoldable pub every_ticks :
    (owner : Option ℕ) (interval : ℕ) (handler : Option ℕ)
    → Scheduler
    → Outcome ScheduleError Task × Scheduler
unfolding schedule
every_ticks owner interval handler s =
    if interval == 0 then (err invalid_interval, s) else schedule owner interval interval handler s

-- The calls of a snapshot with the pending tasks.
unfoldable pub snapshot : Option ℕ → Scheduler → Calls × ℕ
unfolding state_of
snapshot none s = (no_calls, 0)
snapshot (some owner) s = elim (state_of owner s.owners) [
  | none ↦ (no_calls, 0)
  | some st ↦ (st.counts, st.pending)
]
