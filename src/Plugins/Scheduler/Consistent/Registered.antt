-- ===== src/Plugins/Scheduler/Consistent/Registered.antt =====
-- Opening an owner and scheduling a task keep the invariant.
use cyu_core.Base.{
  ℕ, zero, suc, ◌+◌, ◌-◌, ◌%◌, ◌^◌, ◌≤◌, ◌<◌, ◌==◌, ◌≡◌, refl, ap, sym, ◌∙◌, true, false, ltb,
  Option, none, some, [], ◌∷◌, arith, inl, inr, Bool-cases, Option-cases, All,
}
use cyu_core.Plugins.Scheduler.{
  Task, OwnerState, Owners, Scheduler, push, is_listed, state_of, modify, new_owner_state,
  owner_state_locked, set_open, one_more, is_open_state, open_owner, add_task, schedule_locked,
  schedule,
}
use cyu_core.Plugins.Scheduler.Queue.{IsAbsent, IsSorted-push, All-imp, All-push}
use cyu_core.Plugins.Scheduler.Owners.{
  Registrations, count, state_of-modify_at, state_of-modify_else, change, pending_of,
}
use cyu_core.Plugins.Scheduler.Consistent.{IsListed, IsConsistent}

-- States that count the same, and are open where they were.
pub IsConsistent-owners :
    (s : Scheduler) (os : Owners)
    → IsConsistent s
    → ((o : ℕ) → pending_of (state_of o os) ≡ pending_of (state_of o s.owners))
    → ((o : ℕ)
        → is_open_state (state_of o os) ≡ false
        → is_open_state (state_of o s.owners) ≡ false)
    → IsConsistent (record s { owners = os })
IsConsistent-owners s os good same opened = record {
  sorted = good.sorted;
  listed = good.listed;
  distinct = good.distinct;
  known = good.known;
  counted = λ o. same o ∙ good.counted o;
  none_closed = λ o h. good.none_closed o (opened o h);
}

was_closed :
    (f : OwnerState → OwnerState)
    → ((st : OwnerState) → (f st).is_open ≡ false → st.is_open ≡ false)
    → (st : Option OwnerState) → is_open_state (change f st) ≡ false
    → is_open_state st ≡ false
unfolding is_open_state
was_closed f opened none h = h
was_closed f opened (some st) h = opened st h

-- A change of a state that leaves `pending` alone and does not close the owner.
module _ (s : Scheduler) (good : IsConsistent s) (p : ℕ) (f : OwnerState → OwnerState) where
  pub IsConsistent-modify :
      ((st : OwnerState) → (f st).pending ≡ st.pending)
      → ((st : OwnerState) → (f st).is_open ≡ false → st.is_open ≡ false)
      → IsConsistent (record s { owners = modify p f s.owners })
  IsConsistent-modify same opened =
      IsConsistent-owners s (modify p f s.owners) good
        (λ o. elim (Bool-cases (p == o)) [
          | inr e ↦ ap pending_of (state_of-modify_else o p f s.owners e)
          | inl e ↦
              ap pending_of (state_of-modify_at o p f s.owners e)
              ∙ pending_same (state_of o s.owners)
        ])
        (λ o h. elim (Bool-cases (p == o)) [
          | inr e ↦ sym (ap is_open_state (state_of-modify_else o p f s.owners e)) ∙ h
          | inl e ↦
              was_closed f opened (state_of o s.owners)
                (sym (ap is_open_state (state_of-modify_at o p f s.owners e)) ∙ h)
        ])
    where
      pending_same : (st : Option OwnerState) → pending_of (change f st) ≡ pending_of st
      pending_same none = refl
      pending_same (some st) = same st

IsConsistent-owner_state_locked :
    (o : ℕ) (s : Scheduler) → IsConsistent s → IsConsistent (owner_state_locked o s)
unfolding owner_state_locked state_of is_open_state
IsConsistent-owner_state_locked o s good = elim (Option-cases (state_of o s.owners)) [
  | inr (st, e) ↦ rw (e, owner_state_locked) good
  | inl e ↦
      rw (e, owner_state_locked)
        (IsConsistent-owners s ((o, new_owner_state) ∷ s.owners) good
          (λ p. elim (Bool-cases (o == p)) [
            | inr d ↦ rw d refl
            | inl d ↦ let is : o ≡ p = ground arith in rw (d, sym is) (rw e refl)
          ])
          (λ p. elim (Bool-cases (o == p)) [
            | inr d ↦ rw d (λ h. h)
            | inl d ↦ let is : o ≡ p = ground arith in rw (d, sym is) (rw e (λ h. h))
          ]))
]

pub IsConsistent-open_owner :
    (owner : Option ℕ) (s : Scheduler) → IsConsistent s → IsConsistent (open_owner owner s)
unfolding open_owner set_open
IsConsistent-open_owner none s good = good
IsConsistent-open_owner (some o) s good =
    IsConsistent-modify (owner_state_locked o s) (IsConsistent-owner_state_locked o s good) o
      (set_open true) (λ st. refl) (λ st h. absurd (ground arith))

pub listed_known :
    (n o i : ℕ) (rs : Registrations)
    → All (λ (r : ℕ × ℕ). r.1 ≤ n) rs
    → is_listed o i rs ≡ true
    → i ≤ n
unfolding is_listed
listed_known n o i [] h k = absurd (ground arith)
listed_known n o i ((q, l) ∷ rs) h k = ground (arith, listed_known n o i rs h.1)

above_differs : (n i : ℕ) → i ≤ n → (i == suc n) ≡ false
above_differs n i h = ground arith

above_id : (n i j : ℕ) → i ≤ n → j ≡ suc n → (i == j) ≡ false
above_id n i j h e = ground arith

more_pending :
    (n : ℕ) (before : Option OwnerState)
    → is_open_state before ≡ true
    → pending_of before ≡ n % 2 ^ 64
    → pending_of (change one_more before) ≡ (n + 1) % 2 ^ 64
unfolding one_more is_open_state
more_pending n none h k = absurd (ground arith)
more_pending n (some st) h k = omega arith

more_open :
    (before : Option OwnerState) → is_open_state (change one_more before) ≡ is_open_state before
unfolding one_more is_open_state
more_open none = refl
more_open (some st) = refl

module _ (t : Task) (s : Scheduler) (good : IsConsistent s) (next : t.id ≡ suc s.next_id)
    (opened : is_open_state (state_of t.owner s.owners) ≡ true) where
  queued-IsAbsent : IsAbsent t.id s.queue
  queued-IsAbsent =
      All-imp
        (λ u p.
          above_id s.next_id u.id t.id (listed_known s.next_id u.owner u.id s.by_owner good.known p)
            next)
        s.queue good.listed

  added-IsListed : All (IsListed ((t.owner, t.id) ∷ s.by_owner)) (push t s.queue)
  unfolding is_listed
  added-IsListed =
      All-push (IsListed ((t.owner, t.id) ∷ s.by_owner)) t s.queue (ground arith)
        (All-imp (λ u p. ground arith) s.queue good.listed)

  one_more-count :
      (o : ℕ)
      → pending_of (state_of o (modify t.owner one_more s.owners))
        ≡ count o ((t.owner, t.id) ∷ s.by_owner) % 2 ^ 64
  unfolding count
  one_more-count o = elim (Bool-cases (t.owner == o)) [
    | inr e ↦
        ap pending_of (state_of-modify_else o t.owner one_more s.owners e)
        ∙ good.counted o
        ∙ rw e refl
    | inl e ↦
        let is : t.owner ≡ o = ground arith in
        ap pending_of (state_of-modify_at o t.owner one_more s.owners e)
        ∙ more_pending (count o s.by_owner) (state_of o s.owners)
            (sym (ap (λ p. is_open_state (state_of p s.owners)) is) ∙ opened) (good.counted o)
        ∙ rw e refl
  ]

  one_more-closed :
      (o : ℕ)
      → is_open_state (state_of o (modify t.owner one_more s.owners)) ≡ false
      → count o ((t.owner, t.id) ∷ s.by_owner) ≡ 0
  unfolding count
  one_more-closed o h = elim (Bool-cases (t.owner == o)) [
    | inr e ↦ rw e (
        good.none_closed o
          (sym (ap is_open_state (state_of-modify_else o t.owner one_more s.owners e)) ∙ h))
    | inl e ↦
        let is : t.owner ≡ o = ground arith in
        let closed : is_open_state (state_of o s.owners) ≡ false =
          sym (more_open (state_of o s.owners))
          ∙ sym (ap is_open_state (state_of-modify_at o t.owner one_more s.owners e))
          ∙ h in
        let opened' = sym (ap (λ p. is_open_state (state_of p s.owners)) is) ∙ opened in
        absurd (ground arith)
  ]

  IsConsistent-add_task : IsConsistent (add_task t s)
  unfolding add_task
  IsConsistent-add_task = record {
    sorted = IsSorted-push t s.queue queued-IsAbsent good.sorted;
    listed = added-IsListed;
    distinct =
        (All-imp (λ r h. above_id s.next_id r.1 t.id h next) s.by_owner good.known, good.distinct);
    known = (omega arith, All-imp (λ r h. omega arith) s.by_owner good.known);
    counted = one_more-count;
    none_closed = one_more-closed;
  }

IsConsistent-schedule_locked :
    (o delay interval handler : ℕ) (s : Scheduler)
    → IsConsistent s
    → s.next_id + 1 < 2 ^ 64
    → IsConsistent (schedule_locked o delay interval handler s).1
unfolding schedule_locked
IsConsistent-schedule_locked o delay interval handler s good small =
    let next : (s.next_id + 1) % 2 ^ 64 ≡ suc s.next_id = omega arith in
    let task : Task = record {
      id = (s.next_id + 1) % 2 ^ 64;
      owner = o;
      due = s.now + delay;
      interval = interval;
      handler = handler;
    } in
    let not_zero : ((s.next_id + 1) % 2 ^ 64 == 0) ≡ false = ground (arith, next) in
    elim (Bool-cases (is_open_state (state_of o s.owners))) [
      | inr e ↦ rw e good
      | inl e ↦ elim (Bool-cases (ltb (2 ^ 64 - 1 - s.now) delay)) [
        | inl d ↦ rw (e, d) good
        | inr d ↦ rw (e, d, not_zero) (IsConsistent-add_task task s good next e)
      ]
    ]

owner_state-next_id : (o : ℕ) (s : Scheduler) → (owner_state_locked o s).next_id ≡ s.next_id
unfolding owner_state_locked
owner_state-next_id o s = elim (Option-cases (state_of o s.owners)) [
  | inl e ↦ rw (e, owner_state_locked) refl
  | inr (st, e) ↦ rw (e, owner_state_locked) refl
]

pub IsConsistent-schedule :
    (owner : Option ℕ) (delay interval : ℕ) (handler : Option ℕ) (s : Scheduler)
    → IsConsistent s
    → s.next_id + 1 < 2 ^ 64
    → IsConsistent (schedule owner delay interval handler s).1
unfolding schedule
IsConsistent-schedule owner delay interval none s good small = good
IsConsistent-schedule owner zero interval (some h) s good small = good
IsConsistent-schedule none (suc d) interval (some h) s good small = good
IsConsistent-schedule (some o) (suc d) interval (some h) s good small =
    IsConsistent-schedule_locked o (suc d) interval h (owner_state_locked o s)
      (IsConsistent-owner_state_locked o s good) (omega (arith, owner_state-next_id o s))
