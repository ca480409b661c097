-- ===== src/Plugins/Scheduler/Order/Calls.antt =====
-- The call of a task and its place in the queue afterwards.
use cyu_core.Base.{
  ℕ, suc, ◌+◌, ◌-◌, ◌^◌, ◌≤◌, ◌<◌, ◌==◌, ◌≡◌, refl, ap, ◌∙◌, Bool, true, false, ltb, arith, inl,
  inr, Bool-cases, All, length, ◌&&◌,
}
use cyu_core.Plugins.Scheduler.{
  Task, Scheduler, push, is_active, state_of, is_open_state, remove_registration_locked,
}
use cyu_core.Plugins.Scheduler.Advance.{Call, record_task, call_task, requeue, round, perform}
use cyu_core.Plugins.Scheduler.Queue.{IsAbsent, IsSorted-push, All-push}
use cyu_core.Plugins.Scheduler.Consistent.{IsListed, IsConsistent, IsConsistent-remove_registration}
use cyu_core.Plugins.Scheduler.Consistent.Registered.{IsConsistent-modify}
use cyu_core.Plugins.Scheduler.Order.{
  count_due, count_due-push, Evolves, Evolves-refl, Evolves-trans, Evolves-widen,
  Evolves-registration, perform_lem,
}

-- From one state of a tick to a later one, where a task that recurs may be queued again under its id.
pub record Follows (n now : ℕ) (s s' : Scheduler) : Type 1 where
  pub same_now : s'.now ≡ s.now
  pub ids_bound : s'.next_id ≤ s.next_id + n
  pub keeps :
      (P : Task → Type 0) → ((u : Task) → now < u.due → P u) → All P s.queue → All P s'.queue
  pub no_more_due : count_due now s'.queue ≤ count_due now s.queue

pub Follows-Evolves :
    (n now : ℕ) (s s' : Scheduler) → s.now ≡ now → Evolves n s s' → Follows n now s s'
Follows-Evolves n now s s' at a = record {
  same_now = a.same_now;
  ids_bound = a.ids_bound;
  keeps = λ P h hs. a.keeps P (λ u d i. h u (omega arith)) hs;
  no_more_due =
      let d = ap (λ m. count_due m s.queue) at in
      let e = ap (λ m. count_due m s'.queue) at in omega (arith, a.no_more_due);
}

pub Follows-trans :
    (n m k now : ℕ) (r s t : Scheduler)
    → n + m ≤ k
    → Follows n now r s
    → Follows m now s t
    → Follows k now r t
Follows-trans n m k now r s t h a b = record {
  same_now = b.same_now ∙ a.same_now;
  ids_bound = omega (arith, a.ids_bound, b.ids_bound);
  keeps = λ P g hs. b.keeps P g (a.keeps P g hs);
  no_more_due = omega (arith, a.no_more_due, b.no_more_due);
}

call_task_lem :
    (c : Call) (t : Task) (s : Scheduler)
    → IsConsistent s
    → s.next_id + length c.actions < 2 ^ 64
    → let s' = (call_task c t s).1 in IsConsistent s' × Evolves (length c.actions) s s'
unfolding call_task record_task
call_task_lem c t s good small =
    let (good', evolves) = perform_lem c.actions s good small in
    let s' = perform c.actions s in
    let n = length c.actions in
    (
      IsConsistent-modify s' good' t.owner _ (λ st. refl) (λ st h. h),
      Evolves-widen (n + 0) n s _ (omega arith)
          (Evolves-trans n 0 s s' _ evolves (Evolves-registration s' s'.by_owner _)),
    )

module _ (now : ℕ) (t : Task) (s : Scheduler) (good : IsConsistent s) (at : s.now ≡ now)
    (absent : IsAbsent t.id s.queue) where
  abbrev again : Task
  again = record t { due = now + t.interval }

  abbrev queued_again : Scheduler
  queued_again = record s { queue = push again s.queue }

  IsConsistent-queued_again : is_active t s ≡ true → IsConsistent queued_again
  unfolding is_active
  IsConsistent-queued_again active = record {
    sorted = IsSorted-push again s.queue absent good.sorted;
    listed = All-push (IsListed s.by_owner) again s.queue active good.listed;
    distinct = good.distinct;
    known = good.known;
    counted = good.counted;
    none_closed = good.none_closed;
  }

  Follows-queued_again : now < now + t.interval → Follows 0 now s queued_again
  Follows-queued_again later = record {
    same_now = refl;
    ids_bound = omega arith;
    keeps = λ P h hs. All-push P again s.queue (h again later) hs;
    no_more_due = omega (arith, count_due-push now again s.queue later);
  }

  Follows-retired : Follows 0 now s (remove_registration_locked t s)
  unfolding remove_registration_locked
  Follows-retired = Follows-Evolves 0 now s _ at (Evolves-registration s _ _)

  requeue_lem :
      (on : Bool) → let s' = (requeue now on t s).1 in IsConsistent s' × Follows 0 now s s'
  unfolding requeue
  requeue_lem on =
      let same : Follows 0 now s s = Follows-Evolves 0 now s s at (Evolves-refl 0 s) in
      let is_open = is_open_state (state_of t.owner s.owners) in
      elim (Bool-cases (t.interval == 0)) [
        | inl e ↦ rw e (good, same)
        | inr e ↦ elim (Bool-cases (is_active t s)) [
          | inr d ↦ rw (e, d) (good, same)
          | inl d ↦
              let retired = IsConsistent-remove_registration t s good d absent in
              elim (Bool-cases (on && is_open)) [
                | inr f ↦ rw (e, d, f) (retired, Follows-retired)
                | inl f ↦ elim (Bool-cases (ltb (2 ^ 64 - 1 - now) t.interval)) [
                  | inl g ↦ rw (e, d, f, g) (retired, Follows-retired)
                  | inr g ↦
                      rw (e, d, f, g)
                        (IsConsistent-queued_again d, Follows-queued_again (ground arith))
                ]
              ]
        ]
      ]

-- A whole round.
pub round_lem :
    (enabled : ℕ → ℕ → Bool) (plugin : ℕ → Task → Call) (now k : ℕ) (t : Task) (s : Scheduler)
    → IsConsistent s
    → s.now ≡ now
    → t.id ≤ s.next_id
    → IsAbsent t.id s.queue
    → s.next_id + length (plugin k t).actions < 2 ^ 64
    → let (failure, overflows, s') = round enabled plugin now k t s in
      IsConsistent s' × Follows (length (plugin k t).actions) now s s'
unfolding round
round_lem enabled plugin now k t s good at known absent small =
    let n = length (plugin k t).actions in
    let s1 = (call_task (plugin k t) t s).1 in
    let (good1, evolves) = call_task_lem (plugin k t) t s good small in
    let absent1 = evolves.keeps (λ u. (u.id == t.id) ≡ false) (λ u due id. ground arith) absent in
    let at1 = evolves.same_now ∙ at in
    let (good2, follows) = requeue_lem now t s1 good1 at1 absent1 (enabled (suc k) t.owner) in
    (
      good2,
      Follows-trans n 0 n now s s1 _ (omega arith) (Follows-Evolves n now s s1 at evolves) follows,
    )
