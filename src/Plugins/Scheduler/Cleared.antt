-- ===== src/Plugins/Scheduler/Cleared.antt =====
-- The owners that are closed and have no task: which operations leave one so, and which makes it so.
pub mod Ticks
use cyu_core.Base.{
  ℕ, zero, suc, ◌+◌, ◌-◌, ◌%◌, ◌^◌, ◌≡◌, refl, ap, sym, ◌∙◌, true, false, Option, none, some, [],
  ◌∷◌, ltb, ◌==◌, arith, inl, inr, Bool-cases, Option-cases,
}
use cyu_core.Plugins.Scheduler.{
  Task, OwnerState, Owners, Scheduler, without, delete_task, delete_owner, state_of, modify,
  owner_state_locked, set_open, one_more, one_less, is_open_state, is_active,
  remove_registration_locked, cancel, remove_tasks, remove_owner_locked, open_owner, close_owner,
  add_task, schedule_locked, schedule, after_ticks, every_ticks,
}
use cyu_core.Plugins.Scheduler.Owners.{
  Registrations, count, state_of-modify_at, state_of-modify_else, change, count-delete_owner,
}
use cyu_core.Plugins.Scheduler.Consistent.{change-is_open}

abbrev pub IsClosed : ℕ → Owners → Type 0
IsClosed p os = is_open_state (state_of p os) ≡ false

pub record IsIdle (p : ℕ) (s : Scheduler) : Type 0 where
  pub is_closed : IsClosed p s.owners
  pub has_none : count p s.by_owner ≡ 0

pub count-delete_task_none :
    (p o i : ℕ) (rs : Registrations) → count p rs ≡ 0 → count p (delete_task o i rs) ≡ 0
unfolding count delete_task
count-delete_task_none p o i [] h = refl
count-delete_task_none p o i ((q, l) ∷ rs) h = ground (arith, count-delete_task_none p o i rs)

pub IsClosed-one_less : (p o : ℕ) (os : Owners) → IsClosed p os → IsClosed p (modify o one_less os)
IsClosed-one_less p o os h = elim (Bool-cases (o == p)) [
  | inr e ↦ ap is_open_state (state_of-modify_else p o one_less os e) ∙ h
  | inl e ↦
      ap is_open_state (state_of-modify_at p o one_less os e) ∙ change-is_open (state_of p os) ∙ h
]

pub IsClosed-other :
    (p o : ℕ) (f : OwnerState → OwnerState) (os : Owners)
    → (p == o) ≡ false
    → IsClosed p os
    → IsClosed p (modify o f os)
IsClosed-other p o f os d h =
    let apart : (o == p) ≡ false = ground arith in
    ap is_open_state (state_of-modify_else p o f os apart) ∙ h

change-set_open : (st : Option OwnerState) → is_open_state (change (set_open false) st) ≡ false
unfolding is_open_state set_open
change-set_open none = refl
change-set_open (some st) = refl

shut_now : (o : ℕ) (os : Owners) → IsClosed o (modify o (set_open false) os)
shut_now o os =
    ap is_open_state (state_of-modify_at o o (set_open false) os (ground arith))
    ∙ change-set_open (state_of o os)

IsClosed-modify :
    (p o : ℕ) (os : Owners) → IsClosed p os → IsClosed p (modify o (set_open false) os)
IsClosed-modify p o os h = elim (Bool-cases (o == p)) [
  | inr e ↦ ap is_open_state (state_of-modify_else p o (set_open false) os e) ∙ h
  | inl e ↦
      ap is_open_state (state_of-modify_at p o (set_open false) os e)
      ∙ change-set_open (state_of p os)
]

IsClosed-remove_tasks :
    (p o : ℕ) (rs : Registrations) (s : Scheduler)
    → IsClosed p s.owners
    → IsClosed p (remove_tasks o rs s).owners
unfolding remove_tasks
IsClosed-remove_tasks p o [] s h = h
IsClosed-remove_tasks p o ((q, i) ∷ rs) s h = elim (Bool-cases (q == o)) [
  | inl e ↦ rw e (
      IsClosed-remove_tasks p o rs
        (record s { queue = without i s.queue; owners = modify o one_less s.owners })
        (IsClosed-one_less p o s.owners h))
  | inr e ↦ rw e (IsClosed-remove_tasks p o rs s h)
]

IsIdle-owner_state_locked :
    (p o : ℕ) (s : Scheduler) → IsIdle p s → IsIdle p (owner_state_locked o s)
unfolding owner_state_locked state_of is_open_state
IsIdle-owner_state_locked p o s idle = elim (Option-cases (state_of o s.owners)) [
  | inr (st, e) ↦ rw (e, owner_state_locked) idle
  | inl e ↦
      rw (e, owner_state_locked)
        (record {
          is_closed = elim (Bool-cases (o == p)) [
            | inl d ↦ rw d refl
            | inr d ↦ rw d idle.is_closed
          ];
          has_none = idle.has_none;
        })
]

pub IsIdle-open_owner :
    (p o : ℕ) (s : Scheduler) → (p == o) ≡ false → IsIdle p s → IsIdle p (open_owner (some o) s)
unfolding open_owner
IsIdle-open_owner p o s d idle =
    let located = IsIdle-owner_state_locked p o s idle in
    record {
      is_closed =
          IsClosed-other p o (set_open true) (owner_state_locked o s).owners d located.is_closed;
      has_none = located.has_none;
    }

module _ (p o : ℕ) (s : Scheduler) where
  abbrev closing : Scheduler
  closing = record s { owners = modify o (set_open false) s.owners }

  none_deleted : count p s.by_owner ≡ 0 → count p (delete_owner o s.by_owner) ≡ 0
  none_deleted h = count-delete_owner p o s.by_owner ∙ ground arith

  pub IsIdle-close_owner : IsIdle p s → IsIdle p (close_owner (some o) s)
  unfolding close_owner remove_owner_locked
  IsIdle-close_owner idle = record {
    is_closed =
        IsClosed-remove_tasks p o s.by_owner closing (IsClosed-modify p o s.owners idle.is_closed);
    has_none = none_deleted idle.has_none;
  }

pub IsIdle-closed : (o : ℕ) (s : Scheduler) → IsIdle o (close_owner (some o) s)
unfolding close_owner remove_owner_locked
IsIdle-closed o s = record {
  is_closed = IsClosed-remove_tasks o o s.by_owner (closing o o s) (shut_now o s.owners);
  has_none = count-delete_owner o o s.by_owner ∙ ground arith;
}

pub IsIdle-cancel : (p : ℕ) (t : Task) (s : Scheduler) → IsIdle p s → IsIdle p (cancel t s).1
unfolding cancel is_active remove_registration_locked
IsIdle-cancel p t s idle = elim (Bool-cases (is_active t s)) [
  | inr e ↦ rw e idle
  | inl e ↦ rw e (record {
    is_closed = IsClosed-one_less p t.owner s.owners idle.is_closed;
    has_none = count-delete_task_none p t.owner t.id s.by_owner idle.has_none;
  })
]

IsIdle-add_task :
    (p : ℕ) (t : Task) (s : Scheduler)
    → (p == t.owner) ≡ false
    → IsIdle p s
    → IsIdle p (add_task t s)
unfolding add_task count
IsIdle-add_task p t s d idle = record {
  is_closed = IsClosed-other p t.owner one_more s.owners d idle.is_closed;
  has_none = let none_before = idle.has_none in ground arith;
}

IsIdle-next_id : (p n : ℕ) (s : Scheduler) → IsIdle p s → IsIdle p (record s { next_id = n })
IsIdle-next_id p n s idle = record { is_closed = idle.is_closed; has_none = idle.has_none }

IsIdle-schedule_locked :
    (p o delay interval h : ℕ) (s : Scheduler)
    → (p == o) ≡ false
    → IsIdle p s
    → IsIdle p (schedule_locked o delay interval h s).1
unfolding schedule_locked
IsIdle-schedule_locked p o delay interval h s d idle =
    let id = (s.next_id + 1) % 2 ^ 64 in
    elim (Bool-cases (is_open_state (state_of o s.owners))) [
      | inr e ↦ rw e idle
      | inl e ↦ elim (Bool-cases (ltb (2 ^ 64 - 1 - s.now) delay)) [
        | inl f ↦ rw (e, f) idle
        | inr f ↦ elim (Bool-cases (id == 0)) [
          | inl g ↦ rw (e, f, g) (IsIdle-next_id p id s idle)
          | inr g ↦
              rw (e, f, g)
                (IsIdle-add_task p
                  (record {
                    id = id;
                    owner = o;
                    due = s.now + delay;
                    interval = interval;
                    handler = h;
                  })
                  s d idle)
        ]
      ]
    ]

closed_schedule_locked :
    (o delay interval h : ℕ) (s : Scheduler)
    → IsClosed o s.owners
    → (schedule_locked o delay interval h s).1 ≡ s
unfolding schedule_locked
closed_schedule_locked o delay interval h s e = rw e refl

module _ (p o interval : ℕ) (s : Scheduler) (idle : IsIdle p s) where
  pub IsIdle-schedule :
      (delay : ℕ) (handler : Option ℕ) → IsIdle p (schedule (some o) delay interval handler s).1
  unfolding schedule
  IsIdle-schedule delay none = idle
  IsIdle-schedule zero (some h) = idle
  IsIdle-schedule (suc delay) (some h) =
      let located = IsIdle-owner_state_locked p o s idle in
      elim (Bool-cases (p == o)) [
        | inr d ↦
            IsIdle-schedule_locked p o (suc delay) interval h (owner_state_locked o s) d located
        | inl d ↦
            let is : p ≡ o = ground arith in
            let shut =
              ap (λ q. is_open_state (state_of q (owner_state_locked o s).owners)) (sym is)
              ∙ located.is_closed in
            rw (closed_schedule_locked o (suc delay) interval h (owner_state_locked o s) shut)
              located
      ]

module _ (p o : ℕ) (s : Scheduler) (idle : IsIdle p s) where
  pub IsIdle-after_ticks :
      (delay : ℕ) (handler : Option ℕ) → IsIdle p (after_ticks (some o) delay handler s).1
  unfolding after_ticks
  IsIdle-after_ticks delay handler = elim (Bool-cases (delay == 0)) [
    | inl e ↦ rw e idle
    | inr e ↦ rw e (IsIdle-schedule p o 0 s idle delay handler)
  ]

  pub IsIdle-every_ticks :
      (interval : ℕ) (handler : Option ℕ) → IsIdle p (every_ticks (some o) interval handler s).1
  unfolding every_ticks
  IsIdle-every_ticks interval handler = elim (Bool-cases (interval == 0)) [
    | inl e ↦ rw e idle
    | inr e ↦ rw e (IsIdle-schedule p o interval s idle interval handler)
  ]
