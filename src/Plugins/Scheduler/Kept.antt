-- ===== src/Plugins/Scheduler/Kept.antt =====
-- How long a queued task stays in the queue.
use cyu_core.Base.{
  ℕ, zero, suc, ◌+◌, ◌-◌, ◌%◌, ◌^◌, ◌<◌, ◌==◌, ◌≡◌, refl, ap, sym, true, false, ltb, Option, none,
  some, List, [], ◌∷◌, arith, inl, inr, Bool-cases, Option-cases, All, length, ◌⊎◌, ◌&&◌,
}
use cyu_core.Plugins.Scheduler.{
  Task, Scheduler, less, push, without, is_listed, is_active, state_of, modify, one_less, set_open,
  owner_state_locked, is_open_state, remove_registration_locked, cancel, remove_tasks,
  remove_owner_locked, open_owner, close_owner, add_task, schedule_locked, schedule,
}
use cyu_core.Plugins.Scheduler.Advance.{Action, schedules, cancels, opens, closes, perform}
use cyu_core.Plugins.Scheduler.Queue.{All-imp}
use cyu_core.Plugins.Scheduler.Owners.{AreDistinct, free_not_listed}
use cyu_core.Plugins.Scheduler.Consistent.{IsListed, IsConsistent, IsConsistent-cancel}
use cyu_core.Plugins.Scheduler.Consistent.Registered.{
  IsConsistent-open_owner, IsConsistent-schedule,
}
use cyu_core.Plugins.Scheduler.Consistent.Closed.{IsConsistent-close_owner}
use cyu_core.Plugins.Scheduler.Order.{
  Evolves-cancel, Evolves-open_owner, Evolves-close_owner, Evolves-schedule,
}
use mathlib.Core.Path.{subst}

abbrev pub HasTask : Task → List Task → Type 0
HasTask t [] = ⊥
HasTask t (u ∷ us) = (u ≡ t) ⊎ HasTask t us

-- An action that leaves a task alone.
abbrev pub Spares : Task → Action → Type 0
Spares t (schedules owner delay interval handler) = Unit {0}
Spares t (cancels u) = (u.id == t.id) ≡ false
Spares t (opens owner) = Unit {0}
Spares t (closes none) = Unit {0}
Spares t (closes (some o)) = (t.owner == o) ≡ false

module _ (t : Task) where
  pub has_all {κ} : (P : Task → Type κ) (ts : List Task) → HasTask t ts → All P ts → P t
  has_all P [] h hs = absurd h
  has_all P (u ∷ us) (inl e) hs = subst P e hs.0
  has_all P (u ∷ us) (inr h) hs = has_all P us h hs.1

  pub HasTask-push : (u : Task) (ts : List Task) → HasTask t ts → HasTask t (push u ts)
  unfolding push
  HasTask-push u [] h = absurd h
  HasTask-push u (v ∷ vs) h = elim (Bool-cases (less u v)) [
    | inl e ↦ rw e (inr h)
    | inr e ↦ rw e (elim h [ inl d ↦ inl d | inr k ↦ inr (HasTask-push u vs k) ])
  ]

  pub HasTask-without :
      (i : ℕ) (ts : List Task) → (t.id == i) ≡ false → HasTask t ts → HasTask t (without i ts)
  unfolding without
  HasTask-without i [] d h = absurd h
  HasTask-without i (u ∷ us) d h = elim (Bool-cases (u.id == i)) [
    | inl e ↦ rw e (elim h [
      | inl is ↦ let same = ap (λ (v : Task). v.id == i) is in absurd (ground arith)
      | inr k ↦ k
    ])
    | inr e ↦ rw e (elim h [ inl is ↦ inl is | inr k ↦ inr (HasTask-without i us d k) ])
  ]

  other_id : (i : ℕ) → (i == t.id) ≡ false → (t.id == i) ≡ false
  other_id i h = ground arith

  pub HasTask-cancel :
      (u : Task) (s : Scheduler)
      → (u.id == t.id) ≡ false
      → HasTask t s.queue
      → HasTask t (cancel u s).1.queue
  unfolding cancel remove_registration_locked
  HasTask-cancel u s d h = elim (Bool-cases (is_active u s)) [
    | inr e ↦ rw e h
    | inl e ↦ rw e (HasTask-without u.id s.queue (other_id u.id d) h)
  ]

  located_queue : (o : ℕ) (s : Scheduler) → (owner_state_locked o s).queue ≡ s.queue
  unfolding owner_state_locked
  located_queue o s = elim (Option-cases (state_of o s.owners)) [
    | inl e ↦ rw (e, owner_state_locked) refl
    | inr (st, e) ↦ rw (e, owner_state_locked) refl
  ]

  HasTask-located :
      (o : ℕ) (s : Scheduler) → HasTask t s.queue → HasTask t (owner_state_locked o s).queue
  HasTask-located o s h = subst (HasTask t) (sym (located_queue o s)) h

  HasTask-schedule_locked :
      (o d i h : ℕ) (s : Scheduler)
      → HasTask t s.queue
      → HasTask t (schedule_locked o d i h s).1.queue
  unfolding schedule_locked add_task
  HasTask-schedule_locked o d i h s k = elim (Bool-cases (is_open_state (state_of o s.owners))) [
    | inr e ↦ rw e k
    | inl e ↦ elim (Bool-cases (ltb (2 ^ 64 - 1 - s.now) d)) [
      | inl f ↦ rw (e, f) k
      | inr f ↦ elim (Bool-cases ((s.next_id + 1) % 2 ^ 64 == 0)) [
        | inl g ↦ rw (e, f, g) k
        | inr g ↦ rw (e, f, g) (HasTask-push _ s.queue k)
      ]
    ]
  ]

  HasTask-schedule :
      (owner : Option ℕ) (d i : ℕ) (handler : Option ℕ) (s : Scheduler)
      → HasTask t s.queue
      → HasTask t (schedule owner d i handler s).1.queue
  unfolding schedule
  HasTask-schedule owner d i none s k = k
  HasTask-schedule owner zero i (some h) s k = k
  HasTask-schedule none (suc d) i (some h) s k = k
  HasTask-schedule (some o) (suc d) i (some h) s k =
      HasTask-schedule_locked o (suc d) i h (owner_state_locked o s) (HasTask-located o s k)

  HasTask-open_owner :
      (owner : Option ℕ) (s : Scheduler) → HasTask t s.queue → HasTask t (open_owner owner s).queue
  unfolding open_owner
  HasTask-open_owner none s k = k
  HasTask-open_owner (some o) s k = HasTask-located o s k

  -- The registrations of another owner have other ids.
  abbrev Avoids : ℕ → List (ℕ × ℕ) → Type 0
  Avoids o rs = All (λ (r : ℕ × ℕ). (r.0 == o) ≡ true → (t.id == r.1) ≡ false) rs

  registered-Avoids :
      (o : ℕ) (rs : List (ℕ × ℕ))
      → AreDistinct rs
      → (t.owner == o) ≡ false
      → IsListed rs t
      → Avoids o rs
  unfolding is_listed
  registered-Avoids o [] h d k = tt
  registered-Avoids o ((p, i) ∷ rs) h d k = elim (Bool-cases (p == t.owner && i == t.id)) [
    | inl e ↦ (
      (λ at. absurd (ground arith)),
      All-imp (λ r f at. let same : i ≡ t.id = ground arith in ground arith) rs h.0,
    )
    | inr e ↦
        let later : is_listed t.owner t.id rs ≡ true = ground arith in
        (
          (λ at. elim (Bool-cases (t.id == i)) [
            | inr f ↦ f
            | inl f ↦
                let same : i ≡ t.id = ground arith in
                let free = free_not_listed t.owner i rs h.0 in
                let free' = ap (λ j. is_listed t.owner j rs) same in absurd (ground arith)
          ]),
          registered-Avoids o rs h.1 d later,
        )
  ]

  HasTask-remove_tasks :
      (o : ℕ) (rs : List (ℕ × ℕ)) (s : Scheduler)
      → Avoids o rs
      → HasTask t s.queue
      → HasTask t (remove_tasks o rs s).queue
  unfolding remove_tasks
  HasTask-remove_tasks o [] s h k = k
  HasTask-remove_tasks o ((p, i) ∷ rs) s h k = elim (Bool-cases (p == o)) [
    | inr e ↦ rw e (HasTask-remove_tasks o rs s h.1 k)
    | inl e ↦ rw e (
        HasTask-remove_tasks o rs
          (record s { queue = without i s.queue; owners = modify o one_less s.owners }) h.1
          (HasTask-without i s.queue (h.0 e) k))
  ]

  HasTask-close_owner :
      (o : ℕ) (s : Scheduler)
      → IsConsistent s
      → (t.owner == o) ≡ false
      → HasTask t s.queue
      → HasTask t (close_owner (some o) s).queue
  unfolding close_owner remove_owner_locked
  HasTask-close_owner o s good d k =
      HasTask-remove_tasks o s.by_owner (record s { owners = modify o (set_open false) s.owners })
        (registered-Avoids o s.by_owner good.distinct d
          (has_all (IsListed s.by_owner) s.queue k good.listed))
        k

  pub HasTask-perform :
      (as' : List Action) (s : Scheduler)
      → IsConsistent s
      → s.next_id + length as' < 2 ^ 64
      → All (Spares t) as'
      → HasTask t s.queue
      → HasTask t (perform as' s).queue
  unfolding perform
  HasTask-perform [] s good small h k = k
  HasTask-perform (schedules o d i f ∷ as') s good small h k =
      let once = Evolves-schedule o d i f s (omega arith) in
      HasTask-perform as' (schedule o d i f s).1
        (IsConsistent-schedule o d i f s good (omega arith)) (omega (arith, once.ids_bound)) h.1
        (HasTask-schedule o d i f s k)
  HasTask-perform (cancels u ∷ as') s good small h k =
      let once = Evolves-cancel u s in
      HasTask-perform as' (cancel u s).1 (IsConsistent-cancel u s good)
        (omega (arith, once.ids_bound)) h.1 (HasTask-cancel u s h.0 k)
  HasTask-perform (opens o ∷ as') s good small h k =
      let once = Evolves-open_owner o s in
      HasTask-perform as' (open_owner o s) (IsConsistent-open_owner o s good)
        (omega (arith, once.ids_bound)) h.1 (HasTask-open_owner o s k)
  HasTask-perform (closes none ∷ as') s good small h k =
      let once = Evolves-close_owner none s in
      HasTask-perform as' (close_owner none s) (IsConsistent-close_owner none s good)
        (omega (arith, once.ids_bound)) h.1 (kept_none s k)
    where
      kept_none : (s : Scheduler) → HasTask t s.queue → HasTask t (close_owner none s).queue
      kept_none s k = k
  HasTask-perform (closes (some o) ∷ as') s good small h k =
      let once = Evolves-close_owner (some o) s in
      HasTask-perform as' (close_owner (some o) s) (IsConsistent-close_owner (some o) s good)
        (omega (arith, once.ids_bound)) h.1 (HasTask-close_owner o s good h.0 k)
