-- ===== src/Plugins/Scheduler/Consistent/Closed.antt =====
-- Closing an owner keeps the invariant, and leaves none of its tasks.
use cyu_core.Base.{
  ℕ, ◌+◌, ◌%◌, ◌^◌, ◌≤◌, ◌==◌, ◌≡◌, refl, ap, sym, ◌∙◌, true, false, Option, none, some, List, [],
  ◌∷◌, arith, inl, inr, Bool-cases, Option-cases, All,
}
use cyu_core.Plugins.Scheduler.{
  Task, OwnerState, Scheduler, without, is_listed, delete_owner, state_of, modify, set_open,
  one_less, is_open_state, remove_tasks, remove_owner_locked, close_owner,
}
use cyu_core.Plugins.Scheduler.Queue.{
  IsSorted, All-imp, All-pair, All-without, IsSorted-without, IsAbsent-without,
}
use cyu_core.Plugins.Scheduler.Owners.{
  Registrations, count, state_of-modify_at, state_of-modify_else, change, pending_of,
  listed-delete_owner, All-delete_owner, AreDistinct-delete_owner, count-delete_owner,
}
use cyu_core.Plugins.Scheduler.Consistent.{IsListed, IsConsistent}

module _ (o : ℕ) where
  abbrev IsUnlisted : Registrations → Task → Type 0
  IsUnlisted rs u = is_listed o u.id rs ≡ false

  queue_kept {κ} :
      (P : Task → Type κ) (rs : Registrations) (s : Scheduler)
      → All P s.queue
      → All P (remove_tasks o rs s).queue
  unfolding remove_tasks
  queue_kept P [] s h = h
  queue_kept P ((p, i) ∷ rs) s h = elim (Bool-cases (p == o)) [
    | inr e ↦ rw e (queue_kept P rs s h)
    | inl e ↦ rw e (
        queue_kept P rs
          (record s { queue = without i s.queue; owners = modify o one_less s.owners })
          (All-without P i s.queue h))
  ]

  IsSorted-remove_tasks :
      (rs : Registrations) (s : Scheduler) → IsSorted s.queue → IsSorted (remove_tasks o rs s).queue
  unfolding remove_tasks
  IsSorted-remove_tasks [] s h = h
  IsSorted-remove_tasks ((p, i) ∷ rs) s h = elim (Bool-cases (p == o)) [
    | inr e ↦ rw e (IsSorted-remove_tasks rs s h)
    | inl e ↦ rw e (
        IsSorted-remove_tasks rs
          (record s { queue = without i s.queue; owners = modify o one_less s.owners })
          (IsSorted-without i s.queue h))
  ]

  still-IsUnlisted :
      (p i : ℕ) (rs : Registrations) (u : Task)
      → (p == o) ≡ false
      → IsUnlisted rs u
      → IsUnlisted ((p, i) ∷ rs) u
  unfolding is_listed
  still-IsUnlisted p i rs u e h = ground arith

  absent-IsUnlisted :
      (p i : ℕ) (rs : Registrations) (u : Task)
      → (u.id == i) ≡ false
      → IsUnlisted rs u
      → IsUnlisted ((p, i) ∷ rs) u
  unfolding is_listed
  absent-IsUnlisted p i rs u e h = ground arith

  All-IsUnlisted : (ts : List Task) → All (IsUnlisted []) ts
  unfolding is_listed
  All-IsUnlisted [] = tt
  All-IsUnlisted (t ∷ ts) = (refl, All-IsUnlisted ts)

  queue-IsUnlisted :
      (rs : Registrations) (s : Scheduler)
      → IsSorted s.queue
      → All (IsUnlisted rs) (remove_tasks o rs s).queue
  unfolding remove_tasks
  queue-IsUnlisted [] s h = All-IsUnlisted s.queue
  queue-IsUnlisted ((p, i) ∷ rs) s h = elim (Bool-cases (p == o)) [
    | inr e ↦ rw e (
        All-imp (λ u k. still-IsUnlisted p i rs u e k) (remove_tasks o rs s).queue
          (queue-IsUnlisted rs s h))
    | inl e ↦
        let s' : Scheduler = record s {
          queue = without i s.queue;
          owners = modify o one_less s.owners;
        } in
        rw e (
          All-imp (λ u k. absent-IsUnlisted p i rs u k.0 k.1) (remove_tasks o rs s').queue
            (All-pair _ _ (remove_tasks o rs s').queue
              (queue_kept (λ u. (u.id == i) ≡ false) rs s' (IsAbsent-without i s.queue h))
              (queue-IsUnlisted rs s' (IsSorted-without i s.queue h))))
  ]

  -- Other owners' states, and the owner's own: closed, with its registrations counted down.
  others_kept :
      (q : ℕ) (rs : Registrations) (s : Scheduler)
      → (o == q) ≡ false
      → state_of q (remove_tasks o rs s).owners ≡ state_of q s.owners
  unfolding remove_tasks
  others_kept q [] s h = refl
  others_kept q ((p, i) ∷ rs) s h = elim (Bool-cases (p == o)) [
    | inr e ↦ rw e (others_kept q rs s h)
    | inl e ↦ rw e (
        others_kept q rs
          (record s { queue = without i s.queue; owners = modify o one_less s.owners }) h
        ∙ state_of-modify_else q o one_less s.owners h)
  ]

  abbrev IsClosedWith : ℕ → Option OwnerState → Type 0
  IsClosedWith n before = (is_open_state before ≡ false) × (pending_of before ≡ n % 2 ^ 64)

  counted_down :
      (n : ℕ) (st : OwnerState)
      → IsClosedWith (n + 1) (some st)
      → IsClosedWith n (some (one_less st))
  unfolding one_less is_open_state
  counted_down n st h = (h.0, omega (arith, h.1))

  own_down :
      (q : ℕ) (rs : Registrations) (s : Scheduler) (st : OwnerState)
      → (o == q) ≡ true
      → state_of q s.owners ≡ some st
      → IsClosedWith (count o rs) (some st)
      → IsClosedWith 0 (state_of q (remove_tasks o rs s).owners)
  unfolding remove_tasks count
  own_down q [] s st at is h = rw is h
  own_down q ((p, i) ∷ rs) s st at is h = elim (Bool-cases (p == o)) [
    | inr e ↦ rw e (own_down q rs s st at is (rw e at h))
    | inl e ↦ rw e (
        own_down q rs (record s { queue = without i s.queue; owners = modify o one_less s.owners })
          (one_less st) at (state_of-modify_at q o one_less s.owners at ∙ ap (change one_less) is)
          (counted_down (count o rs) st (rw e at h)))
  ]

  none_down : (rs : Registrations) (s : Scheduler) → count o rs ≡ 0 → remove_tasks o rs s ≡ s
  unfolding remove_tasks count
  none_down [] s h = refl
  none_down ((p, i) ∷ rs) s h = elim (Bool-cases (p == o)) [
    | inr e ↦ rw e (none_down rs s (rw e at h))
    | inl e ↦ absurd (ground arith)
  ]

  next_id_kept : (rs : Registrations) (s : Scheduler) → (remove_tasks o rs s).next_id ≡ s.next_id
  unfolding remove_tasks
  next_id_kept [] s = refl
  next_id_kept ((p, i) ∷ rs) s = elim (Bool-cases (p == o)) [
    | inr e ↦ rw e (next_id_kept rs s)
    | inl e ↦ rw e (
        next_id_kept rs
          (record s { queue = without i s.queue; owners = modify o one_less s.owners }))
  ]

  IsListed-after :
      (rs : Registrations) (u : Task)
      → IsListed rs u
      → IsUnlisted rs u
      → IsListed (delete_owner o rs) u
  IsListed-after rs u h k = elim (Bool-cases (u.owner == o)) [
    | inr e ↦ listed-delete_owner o u.owner u.id rs e h
    | inl e ↦
        let is : u.owner ≡ o = ground arith in
        let k' = ap (λ p. is_listed p u.id rs) is in absurd (ground arith)
  ]

  module _ (s : Scheduler) (good : IsConsistent s) where
    abbrev closing : Scheduler
    closing = record s { owners = modify o (set_open false) s.owners }

    abbrev emptied : Scheduler
    emptied = remove_tasks o s.by_owner closing

    closed_state : (st : OwnerState) → is_open_state (some (set_open false st)) ≡ false
    unfolding is_open_state set_open
    closed_state st = refl

    closed_pending : (st : OwnerState) → (set_open false st).pending ≡ st.pending
    unfolding set_open
    closed_pending st = refl

    none_is_closed : is_open_state none ≡ false
    unfolding is_open_state
    none_is_closed = refl

    none_stateless : (q : ℕ) → state_of q s.owners ≡ none → count q s.by_owner ≡ 0
    none_stateless q e = good.none_closed q (ap is_open_state e ∙ none_is_closed)

    own_emptied : (q : ℕ) → (o == q) ≡ true → IsClosedWith 0 (state_of q emptied.owners)
    own_emptied q at =
        let is : o ≡ q = ground arith in
        let looked = state_of-modify_at q o (set_open false) s.owners at in
        elim (Option-cases (state_of q s.owners)) [
          | inl e ↦
              let none_left =
                none_down s.by_owner closing
                  (ap (λ p. count p s.by_owner) is ∙ none_stateless q e) in
              let same =
                ap (λ (t : Scheduler). state_of q t.owners) none_left
                ∙ looked
                ∙ ap (change (set_open false)) e in
              rw same (none_is_closed, refl)
          | inr (st, e) ↦
              own_down q s.by_owner closing (set_open false st) at
                (looked ∙ ap (change (set_open false)) e)
                (
                  closed_state st,
                  closed_pending st
                      ∙ sym (ap pending_of e)
                      ∙ good.counted q
                      ∙ ap (λ p. count p s.by_owner % 2 ^ 64) (sym is),
                )
        ]

    other_emptied : (q : ℕ) → (o == q) ≡ false → state_of q emptied.owners ≡ state_of q s.owners
    other_emptied q e =
        others_kept q s.by_owner closing e ∙ state_of-modify_else q o (set_open false) s.owners e

    other_count :
        (q : ℕ) → (o == q) ≡ false → count q (delete_owner o s.by_owner) ≡ count q s.by_owner
    other_count q e = count-delete_owner q o s.by_owner ∙ rw e refl

    own_count : (q : ℕ) → (o == q) ≡ true → count q (delete_owner o s.by_owner) ≡ 0
    own_count q e = count-delete_owner q o s.by_owner ∙ rw e refl

    IsConsistent-closed : IsConsistent (close_owner (some o) s)
    unfolding close_owner remove_owner_locked
    IsConsistent-closed = record {
      sorted = IsSorted-remove_tasks s.by_owner closing good.sorted;
      listed =
          All-imp (λ u p. IsListed-after s.by_owner u p.0 p.1) emptied.queue
            (All-pair _ _ emptied.queue
              (queue_kept (IsListed s.by_owner) s.by_owner closing good.listed)
              (queue-IsUnlisted s.by_owner closing good.sorted));
      distinct = AreDistinct-delete_owner o s.by_owner good.distinct;
      known =
          All-imp (λ r h. omega (arith, next_id_kept s.by_owner closing))
            (delete_owner o s.by_owner)
            (All-delete_owner (λ r. r.1 ≤ s.next_id) o s.by_owner good.known);
      counted = λ q. elim (Bool-cases (o == q)) [
        | inr e ↦
            ap pending_of (other_emptied q e)
            ∙ good.counted q
            ∙ ap (λ n. n % 2 ^ 64) (sym (other_count q e))
        | inl e ↦ (own_emptied q e).1 ∙ ap (λ n. n % 2 ^ 64) (sym (own_count q e))
      ];
      none_closed = λ q h. elim (Bool-cases (o == q)) [
        | inr e ↦
            other_count q e ∙ good.none_closed q (sym (ap is_open_state (other_emptied q e)) ∙ h)
        | inl e ↦ own_count q e
      ];
    }

pub IsConsistent-close_owner :
    (owner : Option ℕ) (s : Scheduler) → IsConsistent s → IsConsistent (close_owner owner s)
unfolding close_owner
IsConsistent-close_owner none s good = good
IsConsistent-close_owner (some o) s good = IsConsistent-closed o s good

pub close_owner_closed :
    (o : ℕ) (s : Scheduler)
    → IsConsistent s
    → is_open_state (state_of o (close_owner (some o) s).owners) ≡ false
unfolding close_owner remove_owner_locked
close_owner_closed o s good = (own_emptied o s good o (ground arith)).0
