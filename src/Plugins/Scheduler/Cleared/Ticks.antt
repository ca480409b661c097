-- ===== src/Plugins/Scheduler/Cleared/Ticks.antt =====
-- A tick leaves an owner that is closed and has no task so.
use cyu_core.Base.{
  ℕ, zero, suc, ◌+◌, ◌-◌, ◌%◌, ◌^◌, ◌≡◌, refl, ap, ◌∙◌, Bool, true, false, ◌&&◌, Option, none, some,
  List, [], ◌∷◌, ltb, ◌==◌, inl, inr, Bool-cases, Option-cases, All, length,
}
use cyu_core.Plugins.Entry.{has_failed, recover, scheduler_phase}
use cyu_core.Plugins.Scheduler.{
  Task, OwnerState, Scheduler, push, state_of, is_open_state, is_active, remove_registration_locked,
  cancel, close_owner, schedule,
}
use cyu_core.Plugins.Scheduler.Advance.{
  Action, schedules, cancels, opens, closes, perform, Call, retire_one_shot_locked, retire, skip,
  pop_due, next_task, record_task, call_task, requeue, round, advance_loop, advance,
}
use cyu_core.Plugins.Scheduler.Owners.{state_of-modify_at, state_of-modify_else, change}
use cyu_core.Plugins.Scheduler.Order.Rounds.{next_task-none, next_task-found, next_task-skipped}
use cyu_core.Plugins.Scheduler.Order.Ticks.{loop_none, loop_some}
use cyu_core.Plugins.Scheduler.Cleared.{
  IsIdle, count-delete_task_none, IsClosed-one_less, IsIdle-close_owner, IsIdle-cancel,
  IsIdle-schedule,
}

unfoldable pub is_opening : Action → Bool
is_opening (schedules owner delay interval handler) = false
is_opening (cancels t) = false
is_opening (opens owner) = true
is_opening (closes owner) = false

-- No owner is opened meanwhile.
abbrev pub OpensNone : List Action → Type 0
OpensNone = All (λ a. is_opening a ≡ false)

module _ (p : ℕ) where
  IsIdle-schedule_nil :
      (delay interval : ℕ) (handler : Option ℕ) (s : Scheduler)
      → IsIdle p s
      → IsIdle p (schedule none delay interval handler s).1
  unfolding schedule
  IsIdle-schedule_nil delay interval none s idle = idle
  IsIdle-schedule_nil zero interval (some h) s idle = idle
  IsIdle-schedule_nil (suc d) interval (some h) s idle = idle

  IsIdle-perform :
      (as' : List Action) (s : Scheduler) → OpensNone as' → IsIdle p s → IsIdle p (perform as' s)
  unfolding perform schedule close_owner is_opening
  IsIdle-perform [] s h idle = idle
  IsIdle-perform (schedules (some o) d i hd ∷ as') s h idle =
      IsIdle-perform as' (schedule (some o) d i hd s).1 h.1 (IsIdle-schedule p o i s idle d hd)
  IsIdle-perform (schedules none d i hd ∷ as') s h idle =
      IsIdle-perform as' (schedule none d i hd s).1 h.1 (IsIdle-schedule_nil d i hd s idle)
  IsIdle-perform (cancels t ∷ as') s h idle =
      IsIdle-perform as' (cancel t s).1 h.1 (IsIdle-cancel p t s idle)
  IsIdle-perform (opens o ∷ as') s h idle = absurd (let never = h.0 in cc)
  IsIdle-perform (closes none ∷ as') s h idle = IsIdle-perform as' s h.1 idle
  IsIdle-perform (closes (some o) ∷ as') s h idle =
      IsIdle-perform as' (close_owner (some o) s) h.1 (IsIdle-close_owner p o s idle)

  IsIdle-remove_registration :
      (t : Task) (s : Scheduler) → IsIdle p s → IsIdle p (remove_registration_locked t s)
  unfolding remove_registration_locked
  IsIdle-remove_registration t s idle = record {
    is_closed = IsClosed-one_less p t.owner s.owners idle.is_closed;
    has_none = count-delete_task_none p t.owner t.id s.by_owner idle.has_none;
  }

  IsIdle-queue : (ts : List Task) (s : Scheduler) → IsIdle p s → IsIdle p (record s { queue = ts })
  IsIdle-queue ts s idle = record { is_closed = idle.is_closed; has_none = idle.has_none }

  IsIdle-now : (n : ℕ) (s : Scheduler) → IsIdle p s → IsIdle p (record s { now = n })
  IsIdle-now n s idle = record { is_closed = idle.is_closed; has_none = idle.has_none }

  IsIdle-retire : (t : Task) (s : Scheduler) → IsIdle p s → IsIdle p (retire t s)
  unfolding retire retire_one_shot_locked
  IsIdle-retire t s idle = elim (Bool-cases (t.interval == 0)) [
    | inr e ↦ rw e idle
    | inl e ↦ elim (Bool-cases (is_active t s)) [
      | inr f ↦ rw (e, f) idle
      | inl f ↦ rw (e, f) (IsIdle-remove_registration t s idle)
    ]
  ]

  IsIdle-skip : (t : Task) (s : Scheduler) → IsIdle p s → IsIdle p (skip t s)
  unfolding skip
  IsIdle-skip t s idle = elim (Bool-cases (t.interval == 0)) [
    | inl e ↦ rw e idle
    | inr e ↦ rw e (IsIdle-cancel p t s idle)
  ]

  IsIdle-next_task :
      (fuel now : ℕ) (enabled : ℕ → Bool) (s : Scheduler)
      → IsIdle p s
      → IsIdle p (next_task fuel now enabled s).1
  unfolding next_task
  IsIdle-next_task zero now enabled s idle = idle
  IsIdle-next_task (suc n) now enabled s idle = elim (Option-cases (pop_due now s.queue)) [
    | inl e ↦ rw (next_task-none now enabled n s e) idle
    | inr ((t, ts), e) ↦
        let popped = record s { queue = ts } in
        let retired = IsIdle-retire t popped (IsIdle-queue ts s idle) in
        elim (Bool-cases (enabled t.owner)) [
          | inl f ↦ rw (next_task-found now enabled n s t ts e f) retired
          | inr f ↦ rw (next_task-skipped now enabled n s t ts e f) (
              IsIdle-next_task n now enabled (skip t (retire t popped))
                (IsIdle-skip t (retire t popped) retired))
        ]
  ]

  record-is_open :
      (n : ℕ) (b : Bool) (st : Option OwnerState)
      → is_open_state (change (record_task n b) st) ≡ is_open_state st
  unfolding is_open_state record_task
  record-is_open n b none = refl
  record-is_open n b (some st) = refl

  IsIdle-call_task :
      (c : Call) (t : Task) (s : Scheduler)
      → OpensNone c.actions
      → IsIdle p s
      → IsIdle p (call_task c t s).1
  unfolding call_task
  IsIdle-call_task c t s h idle =
      let s' = perform c.actions s in
      let acted = IsIdle-perform c.actions s h idle in
      let mark = record_task c.nanos (has_failed (recover t.owner scheduler_phase c.result)) in
      record {
        is_closed = elim (Bool-cases (t.owner == p)) [
          | inr e ↦
              ap is_open_state (state_of-modify_else p t.owner mark s'.owners e) ∙ acted.is_closed
          | inl e ↦
              ap is_open_state (state_of-modify_at p t.owner mark s'.owners e)
              ∙ record-is_open c.nanos (has_failed (recover t.owner scheduler_phase c.result))
                  (state_of p s'.owners)
              ∙ acted.is_closed
        ];
        has_none = acted.has_none;
      }

  IsIdle-requeue :
      (now : ℕ) (is_enabled : Bool) (t : Task) (s : Scheduler)
      → IsIdle p s
      → IsIdle p (requeue now is_enabled t s).1
  unfolding requeue
  IsIdle-requeue now is_enabled t s idle =
      let less = IsIdle-remove_registration t s idle in
      let later = record t { due = now + t.interval } in
      let queued = IsIdle-queue (push later s.queue) s idle in
      let is_open = is_open_state (state_of t.owner s.owners) in
      elim (Bool-cases (t.interval == 0)) [
        | inl e ↦ rw e idle
        | inr e ↦ elim (Bool-cases (is_active t s)) [
          | inr d ↦ rw (e, d) idle
          | inl d ↦ elim (Bool-cases (is_enabled && is_open)) [
            | inr f ↦ rw (e, d, f) less
            | inl f ↦ elim (Bool-cases (ltb (2 ^ 64 - 1 - now) t.interval)) [
              | inl g ↦ rw (e, d, f, g) less
              | inr g ↦ rw (e, d, f, g) queued
            ]
          ]
        ]
      ]

  module _ (enabled : ℕ → ℕ → Bool) (plugin : ℕ → Task → Call)
      (quiet : (k : ℕ) (t : Task) → OpensNone (plugin k t).actions) where
    IsIdle-round :
        (now k : ℕ) (t : Task) (s : Scheduler)
        → IsIdle p s
        → IsIdle p (round enabled plugin now k t s).2
    unfolding round
    IsIdle-round now k t s idle =
        IsIdle-requeue now (enabled (suc k) t.owner) t (call_task (plugin k t) t s).1
          (IsIdle-call_task (plugin k t) t s (quiet k t) idle)

    IsIdle-advance_loop :
        (left now k : ℕ) (s : Scheduler)
        → IsIdle p s
        → IsIdle p (advance_loop enabled plugin left now k s).scheduler
    unfolding advance_loop
    IsIdle-advance_loop zero now k s idle = idle
    IsIdle-advance_loop (suc n) now k s idle =
        let r = next_task (length s.queue) now (enabled k) s in
        let after = IsIdle-next_task (length s.queue) now (enabled k) s idle in
        elim (Option-cases r.0) [
          | inl e ↦
              rw (loop_none enabled plugin (λ i. 0) n now k s r.1 (ap (λ t. (t, r.1)) e)) after
          | inr (t, e) ↦
              rw (loop_some enabled plugin (λ i. 0) n now k s t r.1 (ap (λ u. (u, r.1)) e)) (
                IsIdle-advance_loop n now (suc k) (round enabled plugin now k t r.1).2
                  (IsIdle-round now k t r.1 after))
        ]

    pub IsIdle-advance :
        (limit : ℕ) (s : Scheduler)
        → IsIdle p s
        → IsIdle p (advance enabled plugin limit s).scheduler
    unfolding advance
    IsIdle-advance limit s idle =
        let now = (s.now + 1) % 2 ^ 64 in
        IsIdle-advance_loop limit now 0 (record s { now = now }) (IsIdle-now now s idle)
