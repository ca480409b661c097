-- ===== src/Plugins/Scheduler/Consistent.antt =====
-- The invariant of the scheduler, and that each operation keeps it.
pub mod Registered
pub mod Closed
use cyu_core.Base.{
  ℕ, zero, suc, ◌+◌, ◌-◌, ◌%◌, ◌^◌, ◌≤◌, ◌<◌, ◌==◌, ◌≡◌, refl, ap, sym, ◌∙◌, Bool, true, false, not,
  Option, none, some, List, [], ◌∷◌, arith, inl, inr, Bool-cases, Option-cases, All, if◌then◌else◌,
}
use cyu_core.Plugins.Scheduler.{
  Task, OwnerState, Scheduler, new_task_scheduler, push, without, is_listed, is_active, delete_task,
  delete_owner, state_of, modify, one_less, is_open_state, remove_registration_locked, cancel,
}
use cyu_core.Plugins.Scheduler.Queue.{
  IsAbsent, IsSorted, All-imp, All-pair, All-without, IsSorted-without, IsAbsent-without,
}
use cyu_core.Plugins.Scheduler.Owners.{
  Registrations, count, AreDistinct, All-delete_task, AreDistinct-delete_task, listed-delete_task,
  count-delete_other, count-delete_task, state_of-modify_at, state_of-modify_else, change,
  pending_of,
}

abbrev pub IsListed : Registrations → Task → Type 0
IsListed rs t = is_listed t.owner t.id rs ≡ true

-- Every queued task is registered, the ids are told apart and were counted, `pending` counts the
-- registrations of its owner, and an owner that is not open has none.
pub record IsConsistent (s : Scheduler) : Type 0 where
  pub sorted : IsSorted s.queue
  pub listed : All (IsListed s.by_owner) s.queue
  pub distinct : AreDistinct s.by_owner
  pub known : All (λ (r : ℕ × ℕ). r.1 ≤ s.next_id) s.by_owner
  pub counted : (o : ℕ) → pending_of (state_of o s.owners) ≡ count o s.by_owner % 2 ^ 64
  pub none_closed : (o : ℕ) → is_open_state (state_of o s.owners) ≡ false → count o s.by_owner ≡ 0

pub IsConsistent-new : IsConsistent new_task_scheduler
unfolding state_of count
IsConsistent-new = record {
  sorted = tt;
  listed = tt;
  distinct = tt;
  known = tt;
  counted = λ o. refl;
  none_closed = λ o h. refl;
}

-- The queue may lose tasks.
pub IsConsistent-without :
    (i : ℕ) (s : Scheduler) → IsConsistent s → IsConsistent (record s { queue = without i s.queue })
IsConsistent-without i s good = record {
  sorted = IsSorted-without i s.queue good.sorted;
  listed = All-without (IsListed s.by_owner) i s.queue good.listed;
  distinct = good.distinct;
  known = good.known;
  counted = good.counted;
  none_closed = good.none_closed;
}

-- What counting down one registration of an owner makes of its state.
less_pending :
    (n : ℕ) (before : Option OwnerState)
    → pending_of before ≡ (n + 1) % 2 ^ 64
    → (is_open_state before ≡ false → n + 1 ≡ 0)
    → pending_of (change one_less before) ≡ n % 2 ^ 64
unfolding one_less is_open_state
less_pending n none h k = absurd (omega (arith, k refl))
less_pending n (some st) h k = omega arith

pub change-is_open :
    (before : Option OwnerState) → is_open_state (change one_less before) ≡ is_open_state before
unfolding one_less is_open_state
change-is_open none = refl
change-is_open (some st) = refl

module _ (t : Task) (s : Scheduler) (good : IsConsistent s) (active : is_active t s ≡ true) where
  one_less-count :
      (o : ℕ)
      → pending_of (state_of o (modify t.owner one_less s.owners))
        ≡ count o (delete_task t.owner t.id s.by_owner) % 2 ^ 64
  unfolding is_active
  one_less-count o =
      let counted = good.counted o in
      elim (Bool-cases (t.owner == o)) [
        | inr e ↦
            let same = count-delete_other o t.owner t.id s.by_owner e in
            ap pending_of (state_of-modify_else o t.owner one_less s.owners e)
            ∙ counted
            ∙ ap (λ n. n % 2 ^ 64) (sym same)
        | inl e ↦
            let is : t.owner ≡ o = ground arith in
            let n = count o (delete_task t.owner t.id s.by_owner) in
            let down : n + 1 ≡ count o s.by_owner =
              rw (sym is) (count-delete_task t.owner t.id s.by_owner good.distinct active) in
            ap pending_of (state_of-modify_at o t.owner one_less s.owners e)
            ∙ less_pending n (state_of o s.owners) (counted ∙ ap (λ m. m % 2 ^ 64) (sym down))
                (λ h. down ∙ good.none_closed o h)
      ]

  one_less-closed :
      (o : ℕ)
      → is_open_state (state_of o (modify t.owner one_less s.owners)) ≡ false
      → count o (delete_task t.owner t.id s.by_owner) ≡ 0
  unfolding is_active
  one_less-closed o h = elim (Bool-cases (t.owner == o)) [
    | inr e ↦
        count-delete_other o t.owner t.id s.by_owner e
        ∙ good.none_closed o
            (sym (ap is_open_state (state_of-modify_else o t.owner one_less s.owners e)) ∙ h)
    | inl e ↦
        let is : t.owner ≡ o = ground arith in
        let down = count-delete_task t.owner t.id s.by_owner good.distinct active in
        let none_left = good.none_closed o (
          sym (change-is_open (state_of o s.owners))
          ∙ sym (ap is_open_state (state_of-modify_at o t.owner one_less s.owners e))
          ∙ h) in
        absurd (omega (arith, down, ap (λ p. count p s.by_owner) is, none_left))
  ]

  pub IsConsistent-remove_registration :
      IsAbsent t.id s.queue → IsConsistent (remove_registration_locked t s)
  unfolding remove_registration_locked
  IsConsistent-remove_registration absent = record {
    sorted = good.sorted;
    listed =
        All-imp (λ u p. listed-delete_task t.owner t.id u.owner u.id s.by_owner p.1 p.0) s.queue
          (All-pair _ _ s.queue good.listed absent);
    distinct = AreDistinct-delete_task t.owner t.id s.by_owner good.distinct;
    known = All-delete_task _ t.owner t.id s.by_owner good.known;
    counted = one_less-count;
    none_closed = one_less-closed;
  }

pub IsConsistent-cancel : (t : Task) (s : Scheduler) → IsConsistent s → IsConsistent (cancel t s).1
unfolding cancel is_active
IsConsistent-cancel t s good = elim (Bool-cases (is_active t s)) [
  | inr e ↦ rw e good
  | inl e ↦ rw e (
      IsConsistent-remove_registration t (record s { queue = without t.id s.queue })
        (IsConsistent-without t.id s good) e (IsAbsent-without t.id s.queue good.sorted))
]
