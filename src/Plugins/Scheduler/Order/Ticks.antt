-- ===== src/Plugins/Scheduler/Order/Ticks.antt =====
-- A whole tick: which tasks it runs, in which order, and what it leaves.
use cyu_core.Base.{
  ℕ, zero, suc, ◌+◌, ◌^◌, ◌≤◌, ◌<◌, ◌≡◌, refl, ap, sym, ◌∙◌, Bool, ltb, Option, none, some, List,
  [], ◌∷◌, arith, inl, inr, Bool-cases, All, length, ◌⊎◌,
}
use cyu_core.Plugins.Scheduler.{Task, Scheduler}
use cyu_core.Plugins.Scheduler.Advance.{
  Call, Tick, next_task, round, add_task_failure, add_overflow, advance_loop,
}
use cyu_core.Plugins.Scheduler.Queue.{IsBefore, IsSorted, All-imp, All-pair}
use cyu_core.Plugins.Scheduler.Consistent.{IsConsistent}
use cyu_core.Plugins.Scheduler.Order.{count_due, Evolves-refl}
use cyu_core.Plugins.Scheduler.Order.Rounds.{Picked, next_task_lem}
use cyu_core.Plugins.Scheduler.Order.Calls.{Follows, Follows-Evolves, Follows-trans, round_lem}
use mathlib.Core.Path.{subst}

pub found_cases :
    (r : Option Task × Scheduler)
    → ((s : Scheduler) × (r ≡ (none, s))) ⊎ ((t : Task) × (s : Scheduler) × (r ≡ (some t, s)))
found_cases (none, s) = inl (s, refl)
found_cases (some t, s) = inr (t, s, refl)

count_due_none :
    (now : ℕ) (ts : List Task) → count_due now ts ≡ 0 → All (λ (u : Task). now < u.due) ts
unfolding count_due
count_due_none now [] h = tt
count_due_none now (t ∷ ts) h = elim (Bool-cases (ltb now t.due)) [
  | inl e ↦ (ground arith, count_due_none now ts (ground arith))
  | inr e ↦ absurd (ground arith)
]

-- How often the calls from the k-th on schedule a task, at most.
unfoldable pub total : (budget : ℕ → ℕ) → (left k : ℕ) → ℕ
total budget zero k = 0
total budget (suc n) k = budget k + total budget n (suc k)

module _ (enabled : ℕ → ℕ → Bool) (plugin : ℕ → Task → Call) (budget : ℕ → ℕ) where
  abbrev pub IsWithin : Type 0
  IsWithin = (k : ℕ) (t : Task) → length (plugin k t).actions ≤ budget k

  -- What the loop has done when it ends.
  pub record Ran (left now k : ℕ) (s : Scheduler) (r : Tick) : Type 1 where
    pub good : IsConsistent r.scheduler
    pub follows : Follows (total budget left k) now s r.scheduler
    pub in_order : IsSorted r.ran
    pub all_due : All (λ (u : Task). u.due ≤ now) r.ran
    pub from_queue : (P : Task → Type 0) → All P s.queue → All P r.ran
    pub limited : length r.ran ≤ left
    pub finished : length r.ran < left → All (λ (u : Task). now < u.due) r.scheduler.queue
    pub enough : count_due now s.queue ≤ left → All (λ (u : Task). now < u.due) r.scheduler.queue

  module _ (n now k : ℕ) (s : Scheduler) where
    -- The rounds from what `next_task` gives.
    abbrev loop_body : Option Task × Scheduler → Tick
    loop_body r =
        let (found, s') = r in
        elim found [
          | none ↦ record { failures = []; ran = []; scheduler = s' }
          | some t ↦
              let (failure, overflows, s'') = round enabled plugin now k t s' in
              let rest = advance_loop enabled plugin n now (suc k) s'' in
              record {
                failures = add_task_failure failure (add_overflow overflows t rest.failures);
                ran = t ∷ rest.ran;
                scheduler = rest.scheduler;
              }
        ]

    pub loop_none :
        (s' : Scheduler)
        → next_task (length s.queue) now (enabled k) s ≡ (none, s')
        → advance_loop enabled plugin (suc n) now k s
          ≡ record { failures = []; ran = []; scheduler = s' }
    unfolding advance_loop
    loop_none s' e = ap loop_body e

    pub loop_some :
        (t : Task) (s' : Scheduler)
        → next_task (length s.queue) now (enabled k) s ≡ (some t, s')
        → let (failure, overflows, s'') = round enabled plugin now k t s' in
          let rest = advance_loop enabled plugin n now (suc k) s'' in
          advance_loop enabled plugin (suc n) now k s ≡ record {
            failures = add_task_failure failure (add_overflow overflows t rest.failures);
            ran = t ∷ rest.ran;
            scheduler = rest.scheduler;
          }
    unfolding advance_loop
    loop_some t s' e = ap loop_body e

  -- What is due now satisfies P, if P held of all that was queued.
  abbrev WhenDue : ℕ → (Task → Type 0) → Task → Type 0
  WhenDue now P u = u.due ≤ now → P u

  Ran-none :
      (left now k : ℕ) (s s' : Scheduler)
      → s.now ≡ now
      → Picked (length s.queue) now (enabled k) s (none, s')
      → Ran left now k s (record { failures = []; ran = []; scheduler = s' })
  Ran-none left now k s s' at (good', evolves, done) = record {
    good = good';
    follows = widened (Follows-Evolves 0 now s s' at evolves);
    in_order = tt;
    all_due = tt;
    from_queue = λ P h. tt;
    limited = omega arith;
    finished = λ h. done (omega arith);
    enough = λ h. done (omega arith);
  }
    where
      widened : Follows 0 now s s' → Follows (total budget left k) now s s'
      widened a = record {
        same_now = a.same_now;
        ids_bound = omega (arith, a.ids_bound);
        keeps = a.keeps;
        no_more_due = a.no_more_due;
      }

  tail_from :
      (m n now k : ℕ) (s s' : Scheduler) (r : Tick) (P : Task → Type 0)
      → Follows m now s s'
      → Ran n now k s' r
      → All P s.queue
      → All P r.ran
  tail_from m n now k s s' r P follows rest h =
      let kept =
        follows.keeps (WhenDue now P) (λ u later due. absurd (omega arith))
          (All-imp (λ u p due. p) s.queue h) in
      All-imp (λ u p. p.1 p.0) r.ran
        (All-pair _ _ r.ran rest.all_due (rest.from_queue (WhenDue now P) kept))

  module _ (within : IsWithin) where
    pub after_round :
        (n now k : ℕ) (s s' : Scheduler) (t : Task)
        → s.now ≡ now
        → s.next_id + total budget (suc n) k < 2 ^ 64
        → Picked (length s.queue) now (enabled k) s (some t, s')
        → let s'' = (round enabled plugin now k t s').2 in
          IsConsistent s''
          × (s''.now ≡ now)
          × (s''.next_id + total budget n (suc k) < 2 ^ 64)
          × Follows (budget k) now s' s''
    unfolding total
    after_round n now k s s' t at small (good', evolves, due, id, before, on, less', from) =
        let s'' = (round enabled plugin now k t s').2 in
        let at' = evolves.same_now ∙ at in
        let (good'', follows) =
          round_lem enabled plugin now k t s' good' at' id (All-imp (λ u p. p.1) s'.queue before)
            (omega (arith, evolves.ids_bound, within k t)) in
        (
          good'',
          follows.same_now ∙ at',
          omega (arith, evolves.ids_bound, follows.ids_bound, within k t),
          record {
            same_now = follows.same_now;
            ids_bound = omega (arith, follows.ids_bound, within k t);
            keeps = follows.keeps;
            no_more_due = follows.no_more_due;
          },
        )

    Ran-some :
        (n now k : ℕ) (s s' : Scheduler) (t : Task) (r : Tick) (fs : List _)
        → s.now ≡ now
        → s.next_id + total budget (suc n) k < 2 ^ 64
        → Picked (length s.queue) now (enabled k) s (some t, s')
        → (let s'' = (round enabled plugin now k t s').2 in Ran n now (suc k) s'' r)
        → Ran (suc n) now k s (record { failures = fs; ran = t ∷ r.ran; scheduler = r.scheduler })
    unfolding total
    Ran-some n now k s s' t r fs at small (good', evolves, due, id, before, on, less', from) rest =
        let s'' = (round enabled plugin now k t s').2 in
        let (good'', at'', small'', follows) =
          after_round n now k s s' t at small (good', evolves, due, id, before, on, less', from) in
        let all =
          Follows-trans 0 (budget k) (budget k) now s s' s'' (omega arith)
            (Follows-Evolves 0 now s s' at evolves) follows in
        record {
          good = rest.good;
          follows =
              Follows-trans (budget k) (total budget n (suc k)) _ now s s'' r.scheduler
                (omega arith) all rest.follows;
          in_order =
              (tail_from _ n now (suc k) s' s'' r (IsBefore t) follows rest before, rest.in_order);
          all_due = (due, rest.all_due);
          from_queue = λ P h. (from P h, tail_from _ n now (suc k) s s'' r P all rest h);
          limited = omega (arith, rest.limited);
          finished = λ h. rest.finished (omega arith);
          enough = λ h. rest.enough (omega (arith, follows.no_more_due));
        }

    pub advance_loop_lem :
        (left now k : ℕ) (s : Scheduler)
        → IsConsistent s
        → s.now ≡ now
        → s.next_id + total budget left k < 2 ^ 64
        → Ran left now k s (advance_loop enabled plugin left now k s)
    unfolding advance_loop total
    advance_loop_lem zero now k s good at small = record {
      good = good;
      follows = Follows-Evolves 0 now s s at (Evolves-refl 0 s);
      in_order = tt;
      all_due = tt;
      from_queue = λ P h. tt;
      limited = omega arith;
      finished = λ h. absurd (omega arith);
      enough = λ h. count_due_none now s.queue (omega arith);
    }
    advance_loop_lem (suc n) now k s good at small =
        let picked = next_task_lem (length s.queue) now (enabled k) s good at in
        elim (found_cases (next_task (length s.queue) now (enabled k) s)) [
          | inl (s', e) ↦ subst (Ran (suc n) now k s) (sym (loop_none n now k s s' e)) (
              Ran-none (suc n) now k s s' at
                (subst (Picked (length s.queue) now (enabled k) s) e picked))
          | inr (t, s', e) ↦
              let p = subst (Picked (length s.queue) now (enabled k) s) e picked in
              let s'' = (round enabled plugin now k t s').2 in
              let after = after_round n now k s s' t at small p in
              subst (Ran (suc n) now k s) (sym (loop_some n now k s t s' e)) (
                Ran-some n now k s s' t (advance_loop enabled plugin n now (suc k) s'') _ at small p
                  (advance_loop_lem n now (suc k) s'' after.0 after.1 after.2))
        ]
