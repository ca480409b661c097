-- ===== src/Plugins/Scheduler/Order.antt =====
-- What the operations of the scheduler do to its queue: a task that they add is due after the current
-- tick and has a new id, and a task that they do not take out stays.
pub mod Popped
pub mod Rounds
pub mod Calls
pub mod Ticks
use cyu_core.Base.{
  ℕ, zero, suc, ◌+◌, ◌-◌, ◌%◌, ◌^◌, ◌≤◌, ◌<◌, ◌==◌, ◌≡◌, refl, ap, sym, ◌∙◌, Bool, true, false, not,
  ltb, Option, none, some, List, [], ◌∷◌, arith, inl, inr, Bool-cases, Option-cases, All,
  if◌then◌else◌, length,
}
use cyu_core.Plugins.Scheduler.{
  Task, OwnerState, Owners, Scheduler, less, push, without, is_active, state_of, modify, one_less,
  set_open, owner_state_locked, is_open_state, remove_registration_locked, cancel, remove_tasks,
  remove_owner_locked, open_owner, close_owner, add_task, schedule_locked, schedule,
}
use cyu_core.Plugins.Scheduler.Advance.{Action, schedules, cancels, opens, closes, perform}
use cyu_core.Plugins.Scheduler.Queue.{All-push, All-without}
use cyu_core.Plugins.Scheduler.Consistent.{IsConsistent, IsConsistent-cancel}
use cyu_core.Plugins.Scheduler.Consistent.Registered.{
  IsConsistent-open_owner, IsConsistent-schedule,
}
use cyu_core.Plugins.Scheduler.Consistent.Closed.{IsConsistent-close_owner}

-- How many tasks are due.
unfoldable pub count_due : (now : ℕ) → List Task → ℕ
count_due now [] = 0
count_due now (t ∷ ts) = let rest = count_due now ts in if ltb now t.due then rest else rest + 1

pub count_due-push :
    (now : ℕ) (t : Task) (ts : List Task)
    → now < t.due
    → count_due now (push t ts) ≡ count_due now ts
unfolding count_due push
count_due-push now t [] h = ground arith
count_due-push now t (u ∷ us) h = elim (Bool-cases (less t u)) [
  | inl e ↦ rw e (ground arith)
  | inr e ↦ rw e (ground (arith, count_due-push now t us h))
]

pub count_due-without :
    (now i : ℕ) (ts : List Task) → count_due now (without i ts) ≤ count_due now ts
unfolding count_due without
count_due-without now i [] = omega arith
count_due-without now i (t ∷ ts) = ground (arith, count_due-without now i ts)

-- From one state of a tick to a later one, at most `n` calls of `schedule` apart.
pub record Evolves (n : ℕ) (s s' : Scheduler) : Type 1 where
  pub same_now : s'.now ≡ s.now
  pub ids_grow : s.next_id ≤ s'.next_id
  pub ids_bound : s'.next_id ≤ s.next_id + n
  pub keeps :
      (P : Task → Type 0)
      → ((u : Task) → s.now < u.due → s.next_id < u.id → P u)
      → All P s.queue
      → All P s'.queue
  pub no_more_due : count_due s.now s'.queue ≤ count_due s.now s.queue

pub Evolves-refl : (n : ℕ) (s : Scheduler) → Evolves n s s
Evolves-refl n s = record {
  same_now = refl;
  ids_grow = omega arith;
  ids_bound = omega arith;
  keeps = λ P h hs. hs;
  no_more_due = omega arith;
}

pub Evolves-trans :
    (n m : ℕ) (r s t : Scheduler) → Evolves n r s → Evolves m s t → Evolves (n + m) r t
Evolves-trans n m r s t a b = record {
  same_now = b.same_now ∙ a.same_now;
  ids_grow = omega (arith, a.ids_grow, b.ids_grow);
  ids_bound = omega (arith, a.ids_bound, b.ids_bound);
  keeps = λ P h hs.
      b.keeps P (λ u due id. h u (omega (arith, a.same_now)) (omega (arith, a.ids_grow)))
        (a.keeps P h hs);
  no_more_due =
      let later = ap (λ now. count_due now t.queue) a.same_now in
      let sooner = ap (λ now. count_due now s.queue) a.same_now in
      omega (arith, a.no_more_due, b.no_more_due, later, sooner);
}

pub Evolves-widen : (n m : ℕ) (s t : Scheduler) → n ≤ m → Evolves n s t → Evolves m s t
Evolves-widen n m s t h a = record {
  same_now = a.same_now;
  ids_grow = a.ids_grow;
  ids_bound = omega (arith, a.ids_bound);
  keeps = a.keeps;
  no_more_due = a.no_more_due;
}

-- One action, then the others.
Evolves-action :
    (n m : ℕ) (r s t : Scheduler) → n ≤ 1 → Evolves n r s → Evolves m s t → Evolves (suc m) r t
Evolves-action n m r s t h a b =
    Evolves-widen (n + m) (suc m) r t (omega arith) (Evolves-trans n m r s t a b)

-- A change that only shortens the queue.
pub Evolves-shorter :
    (s s' : Scheduler)
    → s'.now ≡ s.now
    → s'.next_id ≡ s.next_id
    → ((P : Task → Type 0) → All P s.queue → All P s'.queue)
    → count_due s.now s'.queue ≤ count_due s.now s.queue
    → Evolves 0 s s'
Evolves-shorter s s' n i k d = record {
  same_now = n;
  ids_grow = omega arith;
  ids_bound = omega arith;
  keeps = λ P h. k P;
  no_more_due = d;
}

Evolves-without :
    (i : ℕ) (s : Scheduler) (rs : List (ℕ × ℕ)) (os : Owners)
    → Evolves 0 s (record s { queue = without i s.queue; by_owner = rs; owners = os })
Evolves-without i s rs os =
    Evolves-shorter s (record s { queue = without i s.queue; by_owner = rs; owners = os }) refl refl
      (λ P h. All-without P i s.queue h) (count_due-without s.now i s.queue)

pub Evolves-registration :
    (s : Scheduler) (rs : List (ℕ × ℕ)) (os : Owners)
    → Evolves 0 s (record s { by_owner = rs; owners = os })
Evolves-registration s rs os =
    Evolves-shorter s (record s { by_owner = rs; owners = os }) refl refl (λ P h. h) (omega arith)

pub Evolves-cancel : (t : Task) (s : Scheduler) → Evolves 0 s (cancel t s).1
unfolding cancel remove_registration_locked
Evolves-cancel t s = elim (Bool-cases (is_active t s)) [
  | inl e ↦ rw e (Evolves-without t.id s _ _)
  | inr e ↦ rw e (Evolves-refl 0 s)
]

Evolves-owner_state_locked : (o : ℕ) (s : Scheduler) → Evolves 0 s (owner_state_locked o s)
unfolding owner_state_locked
Evolves-owner_state_locked o s = elim (Option-cases (state_of o s.owners)) [
  | inl e ↦ rw (e, owner_state_locked) (Evolves-registration s s.by_owner _)
  | inr (st, e) ↦ rw (e, owner_state_locked) (Evolves-refl 0 s)
]

pub Evolves-open_owner : (owner : Option ℕ) (s : Scheduler) → Evolves 0 s (open_owner owner s)
unfolding open_owner
Evolves-open_owner none s = Evolves-refl 0 s
Evolves-open_owner (some o) s =
    let s' = owner_state_locked o s in
    Evolves-trans 0 0 s s' _ (Evolves-owner_state_locked o s)
      (Evolves-registration s' s'.by_owner (modify o (set_open true) s'.owners))

Evolves-remove_tasks :
    (o : ℕ) (rs : List (ℕ × ℕ)) (s : Scheduler) → Evolves 0 s (remove_tasks o rs s)
unfolding remove_tasks
Evolves-remove_tasks o [] s = Evolves-refl 0 s
Evolves-remove_tasks o ((p, i) ∷ rs) s = elim (Bool-cases (p == o)) [
  | inr e ↦ rw e (Evolves-remove_tasks o rs s)
  | inl e ↦
      let s' : Scheduler = record s {
        queue = without i s.queue;
        owners = modify o one_less s.owners;
      } in
      rw e (
        Evolves-trans 0 0 s s' (remove_tasks o rs s') (Evolves-without i s s.by_owner _)
          (Evolves-remove_tasks o rs s'))
]

pub Evolves-close_owner : (owner : Option ℕ) (s : Scheduler) → Evolves 0 s (close_owner owner s)
unfolding close_owner remove_owner_locked
Evolves-close_owner none s = Evolves-refl 0 s
Evolves-close_owner (some o) s =
    let closing : Scheduler = record s { owners = modify o (set_open false) s.owners } in
    let s' = remove_tasks o s.by_owner closing in
    Evolves-trans 0 0 s s' _
      (Evolves-trans 0 0 s closing s' (Evolves-registration s s.by_owner _)
        (Evolves-remove_tasks o s.by_owner closing))
      (Evolves-registration s' _ s'.owners)

Evolves-add_task :
    (t : Task) (s : Scheduler) → t.id ≡ suc s.next_id → s.now < t.due → Evolves 1 s (add_task t s)
unfolding add_task
Evolves-add_task t s next later = record {
  same_now = refl;
  ids_grow = omega arith;
  ids_bound = omega arith;
  keeps = λ P h hs. All-push P t s.queue (h t later (omega arith)) hs;
  no_more_due = omega (arith, count_due-push s.now t s.queue later);
}

Evolves-schedule_locked :
    (o delay interval handler : ℕ) (s : Scheduler)
    → 0 < delay
    → s.next_id + 1 < 2 ^ 64
    → Evolves 1 s (schedule_locked o delay interval handler s).1
unfolding schedule_locked
Evolves-schedule_locked o delay interval handler s positive small =
    let next : (s.next_id + 1) % 2 ^ 64 ≡ suc s.next_id = omega arith in
    let task : Task = record {
      id = (s.next_id + 1) % 2 ^ 64;
      owner = o;
      due = s.now + delay;
      interval = interval;
      handler = handler;
    } in
    let not_zero : ((s.next_id + 1) % 2 ^ 64 == 0) ≡ false = ground (arith, next) in
    elim (Bool-cases (is_open_state (state_of o s.owners))) [
      | inr e ↦ rw e (Evolves-refl 1 s)
      | inl e ↦ elim (Bool-cases (ltb (2 ^ 64 - 1 - s.now) delay)) [
        | inl d ↦ rw (e, d) (Evolves-refl 1 s)
        | inr d ↦ rw (e, d, not_zero) (Evolves-add_task task s next (omega arith))
      ]
    ]

pub Evolves-schedule :
    (owner : Option ℕ) (delay interval : ℕ) (handler : Option ℕ) (s : Scheduler)
    → s.next_id + 1 < 2 ^ 64
    → Evolves 1 s (schedule owner delay interval handler s).1
unfolding schedule
Evolves-schedule owner delay interval none s small = Evolves-refl 1 s
Evolves-schedule owner zero interval (some h) s small = Evolves-refl 1 s
Evolves-schedule none (suc d) interval (some h) s small = Evolves-refl 1 s
Evolves-schedule (some o) (suc d) interval (some h) s small =
    let located = Evolves-owner_state_locked o s in
    let s' = owner_state_locked o s in
    Evolves-trans 0 1 s s' _ located (
      Evolves-schedule_locked o (suc d) interval h s' (omega arith)
        (omega (arith, located.ids_bound)))

-- The actions of a call.
pub perform_lem :
    (as' : List Action) (s : Scheduler)
    → IsConsistent s
    → s.next_id + length as' < 2 ^ 64
    → IsConsistent (perform as' s) × Evolves (length as') s (perform as' s)
unfolding perform
perform_lem [] s good small = (good, Evolves-refl 0 s)
perform_lem (schedules o d i h ∷ as') s good small =
    let s' = (schedule o d i h s).1 in
    let once = Evolves-schedule o d i h s (omega arith) in
    let rest =
      perform_lem as' s' (IsConsistent-schedule o d i h s good (omega arith))
        (omega (arith, once.ids_bound)) in
    (rest.0, Evolves-action 1 (length as') s s' _ (omega arith) once rest.1)
perform_lem (cancels t ∷ as') s good small =
    let s' = (cancel t s).1 in
    let once = Evolves-cancel t s in
    let rest = perform_lem as' s' (IsConsistent-cancel t s good) (omega (arith, once.ids_bound)) in
    (rest.0, Evolves-action 0 (length as') s s' _ (omega arith) once rest.1)
perform_lem (opens o ∷ as') s good small =
    let s' = open_owner o s in
    let once = Evolves-open_owner o s in
    let rest =
      perform_lem as' s' (IsConsistent-open_owner o s good) (omega (arith, once.ids_bound)) in
    (rest.0, Evolves-action 0 (length as') s s' _ (omega arith) once rest.1)
perform_lem (closes o ∷ as') s good small =
    let s' = close_owner o s in
    let once = Evolves-close_owner o s in
    let rest =
      perform_lem as' s' (IsConsistent-close_owner o s good) (omega (arith, once.ids_bound)) in
    (rest.0, Evolves-action 0 (length as') s s' _ (omega arith) once rest.1)
