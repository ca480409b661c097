-- ===== src/Plugins/Context/Cleaned.antt =====
-- What the code of the plugins leaves in the bus, the registry and the scheduler.
use cyu_core.Base.{
  ℕ, ◌+◌, ◌^◌, ◌≡◌, ◌⊎◌, refl, ap, sym, ◌∙◌, Bool, false, Option, some, List, [], ◌∷◌, ◌==◌, arith,
  inl, inr, ok, Outcome-cases,
}
use cyu_core.Plugins.Names.{Definition}
use cyu_core.Plugins.Events.{subscribe}
use cyu_core.Plugins.Events.Distinct.{IsDistinct}
use cyu_core.Plugins.Events.Cleared.{
  HasNoHandler, IsDistinct-subscribe, HasNoHandler-subscribe, IsDistinct-remove,
  HasNoHandler-remove, cancel-elim,
}
use cyu_core.Plugins.Commands.{Registry, add_command, register}
use cyu_core.Plugins.Commands.Consistent.{IsConsistent}
use cyu_core.Plugins.Commands.Reachable.{register_lem, IsConsistent-register, IsConsistent-remove}
use cyu_core.Plugins.Commands.Cleared.{
  HasNoCommand, HasNoCommand-register, HasNoCommand-remove, next_id-remove, unregister-elim,
}
use cyu_core.Plugins.Scheduler.Cleared.{
  IsIdle, IsIdle-cancel, IsIdle-after_ticks, IsIdle-every_ticks,
}
use cyu_core.Plugins.Context.{
  Shared, Act, subscribes, cancels, registers, unregisters, runs_after, runs_every, cancels_task,
  with_registry, subscribed, command_registered, act, act_all,
}
use mathlib.Core.Path.{subst}
use native.Mathlib.Nat.{mod-eq_of_lt}
use cyu_core.Plugins.Context.Good.{
  IsGood, HasNothing, IsGood-with_scheduler, IsGood-with_bus, IsGood-with_registry,
  HasNothing-with_scheduler, HasNothing-with_bus, HasNothing-with_registry,
}

module _ (s : Shared) (o : ℕ) (b : Bool) where
  -- A command that was registered counts.
  IsGood-registered :
      (d : Definition) (h : Option ℕ) (id : ℕ) (r : Registry)
      → register s.registry (some o) b b d h ≡ ok (id, r)
      → IsGood s
      → IsGood (with_registry s (s.made + 1) r)
  unfolding add_command
  IsGood-registered d h id r e good = record {
    distinct = good.distinct;
    consistent = λ small.
        IsConsistent-register s.registry r (some o) b b d h id (good.consistent (omega arith))
          (omega (arith, good.counted (omega arith))) e;
    counted = λ small.
        let (q, hd, owned, lets, is_id, is_r) = register_lem s.registry r (some o) b b d h id e in
        let n = s.registry.next_id in
        let same : n ≡ s.made = good.counted (omega arith) in
        ap (λ (t : Registry). t.next_id) is_r
        ∙ is_id
        ∙ mod-eq_of_lt {n = n + 1} {m = 2 ^ 64} (omega arith)
        ∙ ap (λ t. t + 1) same;
  }

  HasNothing-registered :
      (p : ℕ) (d : Definition) (h : Option ℕ) (id : ℕ) (r : Registry)
      → register s.registry (some o) b b d h ≡ ok (id, r)
      → (p == o) ≡ false
      → HasNothing p s
      → HasNothing p (with_registry s (s.made + 1) r)
  HasNothing-registered p d h id r e apart clean = record {
    no_handler = clean.no_handler;
    no_command = λ small.
        HasNoCommand-register p o s.registry r b b d h id e apart (clean.no_command (omega arith));
    idle = clean.idle;
  }

  IsGood-act : (a : Act) → IsGood s → IsGood (act o b a s)
  unfolding act subscribed command_registered
  IsGood-act (subscribes k h) good = elim (Outcome-cases (subscribe (some o) b b k h s.bus)) [
    | inl ((id, bus), e) ↦
        rw e
          (IsGood-with_bus s bus (IsDistinct-subscribe s.bus bus o b b k h id e good.distinct) good)
    | inr (x, e) ↦ rw e good
  ]
  IsGood-act (cancels c) good =
      IsGood-with_bus s _
        (cancel-elim (λ bus. IsDistinct bus.by_type) c s.bus good.distinct
          (IsDistinct-remove s.bus c.event_type c.id good.distinct))
        good
  IsGood-act (registers d h) good = elim (Outcome-cases (register s.registry (some o) b b d h)) [
    | inl ((id, r), e) ↦ rw e (IsGood-registered d h id r e good)
    | inr (x, e) ↦ rw e good
  ]
  IsGood-act (unregisters c) good =
      IsGood-with_registry s _
        (λ h. unregister-elim IsConsistent c s.registry h (IsConsistent-remove c.id s.registry h))
        (unregister-elim (λ r. r.next_id ≡ s.registry.next_id) c s.registry refl
          (next_id-remove c.id s.registry))
        good
  IsGood-act (runs_after n h) good = IsGood-with_scheduler s _ good
  IsGood-act (runs_every n h) good = IsGood-with_scheduler s _ good
  IsGood-act (cancels_task t) good = IsGood-with_scheduler s _ good

-- An owner that does not accept registrations gets none.
refused_handler :
    (s : Shared) (o : ℕ) (k : List ℕ) (h : Option ℕ) → act o false (subscribes k h) s ≡ s
unfolding act subscribed subscribe
refused_handler s o k h = refl

refused_command :
    (s : Shared) (o : ℕ) (d : Definition) (h : Option ℕ) → act o false (registers d h) s ≡ s
unfolding act command_registered register
refused_command s o d h = refl

module _ (s : Shared) (o p : ℕ) where
  abbrev MaySpare : Bool → Type 0
  MaySpare b = (b ≡ false) ⊎ ((p == o) ≡ false)

  HasNothing-subscribes :
      (b : Bool) (k : List ℕ) (h : Option ℕ)
      → (p == o) ≡ false
      → HasNothing p s
      → HasNothing p (act o b (subscribes k h) s)
  unfolding act subscribed
  HasNothing-subscribes b k h apart clean =
      elim (Outcome-cases (subscribe (some o) b b k h s.bus)) [
        | inl ((id, bus), e) ↦ rw e (
            HasNothing-with_bus s p bus
              (HasNoHandler-subscribe s.bus bus o b b k h id e p apart clean.no_handler) clean)
        | inr (x, e) ↦ rw e clean
      ]

  HasNothing-registers :
      (b : Bool) (d : Definition) (h : Option ℕ)
      → (p == o) ≡ false
      → HasNothing p s
      → HasNothing p (act o b (registers d h) s)
  unfolding act command_registered
  HasNothing-registers b d h apart clean =
      elim (Outcome-cases (register s.registry (some o) b b d h)) [
        | inl ((id, r), e) ↦ rw e (HasNothing-registered s o b p d h id r e apart clean)
        | inr (x, e) ↦ rw e clean
      ]

  HasNothing-act : (b : Bool) (a : Act) → MaySpare b → HasNothing p s → HasNothing p (act o b a s)
  unfolding act
  HasNothing-act b (subscribes k h) (inr apart) clean = HasNothing-subscribes b k h apart clean
  HasNothing-act b (subscribes k h) (inl e) clean =
      rw e (subst (HasNothing p) (sym (refused_handler s o k h)) clean)
  HasNothing-act b (registers d h) (inr apart) clean = HasNothing-registers b d h apart clean
  HasNothing-act b (registers d h) (inl e) clean =
      rw e (subst (HasNothing p) (sym (refused_command s o d h)) clean)
  HasNothing-act b (cancels c) may clean =
      HasNothing-with_bus s p _
        (cancel-elim (HasNoHandler p) c s.bus clean.no_handler
          (HasNoHandler-remove s.bus c.event_type c.id p clean.no_handler))
        clean
  HasNothing-act b (unregisters c) may clean =
      HasNothing-with_registry s p _
        (λ h.
          unregister-elim (HasNoCommand p) c s.registry h (HasNoCommand-remove p c.id s.registry h))
        clean
  HasNothing-act b (runs_after n h) may clean =
      HasNothing-with_scheduler s p _ (IsIdle-after_ticks p o s.scheduler clean.idle n h) clean
  HasNothing-act b (runs_every n h) may clean =
      HasNothing-with_scheduler s p _ (IsIdle-every_ticks p o s.scheduler clean.idle n h) clean
  HasNothing-act b (cancels_task t) may clean =
      HasNothing-with_scheduler s p _ (IsIdle-cancel p t s.scheduler clean.idle) clean

pub IsGood-act_all :
    (o : ℕ) (b : Bool) (as' : List Act) (s : Shared) → IsGood s → IsGood (act_all o b as' s)
unfolding act_all
IsGood-act_all o b [] s good = good
IsGood-act_all o b (a ∷ as') s good = IsGood-act_all o b as' (act o b a s) (IsGood-act s o b a good)

pub HasNothing-act_all :
    (o p : ℕ) (b : Bool) (as' : List Act) (s : Shared)
    → (b ≡ false) ⊎ ((p == o) ≡ false)
    → HasNothing p s
    → HasNothing p (act_all o b as' s)
unfolding act_all
HasNothing-act_all o p b [] s may clean = clean
HasNothing-act_all o p b (a ∷ as') s may clean =
    HasNothing-act_all o p b as' (act o b a s) may (HasNothing-act s o p b a may clean)

IsIdle-act :
    (o p : ℕ) (b : Bool) (a : Act) (s : Shared)
    → IsIdle p s.scheduler
    → IsIdle p (act o b a s).scheduler
unfolding act subscribed command_registered
IsIdle-act o p b (subscribes k h) s idle = elim (Outcome-cases (subscribe (some o) b b k h s.bus)) [
  | inl (r, e) ↦ rw e idle
  | inr (x, e) ↦ rw e idle
]
IsIdle-act o p b (cancels c) s idle = idle
IsIdle-act o p b (registers d h) s idle =
    elim (Outcome-cases (register s.registry (some o) b b d h)) [
      | inl (r, e) ↦ rw e idle
      | inr (x, e) ↦ rw e idle
    ]
IsIdle-act o p b (unregisters c) s idle = idle
IsIdle-act o p b (runs_after n h) s idle = IsIdle-after_ticks p o s.scheduler idle n h
IsIdle-act o p b (runs_every n h) s idle = IsIdle-every_ticks p o s.scheduler idle n h
IsIdle-act o p b (cancels_task t) s idle = IsIdle-cancel p t s.scheduler idle

pub IsIdle-act_all :
    (o p : ℕ) (b : Bool) (as' : List Act) (s : Shared)
    → IsIdle p s.scheduler
    → IsIdle p (act_all o b as' s).scheduler
unfolding act_all
IsIdle-act_all o p b [] s idle = idle
IsIdle-act_all o p b (a ∷ as') s idle =
    IsIdle-act_all o p b as' (act o b a s) (IsIdle-act o p b a s idle)
