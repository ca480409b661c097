-- ===== src/Plugins/Context/Left.antt =====
-- The manager with the services of the contexts: what is left of a plugin that is not enabled.
use cyu_core.Base.{ℕ, ◌^◌, ◌<◌, ◌≡◌, ◌⊎◌, refl, Bool, true, false, some, List, ◌==◌, inl, inr}
use cyu_core.Plugins.Events.{handlers_of, count_own}
use cyu_core.Plugins.Events.Cleared.{HasNoHandler-removed, HasNoHandler-remove_owner}
use cyu_core.Plugins.Events.Removal.{IsDistinct-remove_owner}
use cyu_core.Plugins.Commands.{Command, new_command_registry, find_id}
use cyu_core.Plugins.Commands.Reachable.{IsConsistent-remove_owner}
use cyu_core.Plugins.Commands.Cleared.{
  HasNoCommand-removed, HasNoCommand-remove_owner, next_id-remove_owner,
}
use cyu_core.Plugins.Scheduler.{Task, open_owner, close_owner, state_of, is_open_state}
use cyu_core.Plugins.Scheduler.Advance.{Call, advance}
use cyu_core.Plugins.Scheduler.Owners.{count}
use cyu_core.Plugins.Scheduler.Cleared.Ticks.{OpensNone, IsIdle-advance}
use cyu_core.Plugins.Scheduler.Cleared.{
  IsIdle, IsIdle-open_owner, IsIdle-close_owner, IsIdle-closed,
}
use cyu_core.Plugins.Lifecycle.{Services, Manager, is_enabled_state}
use cyu_core.Plugins.Lifecycle.Tidy.{Cleans, enabled_shared, disabled_shared}
use cyu_core.Plugins.Lifecycle.Runs.{IsRun, IsRun-IsTidy}
use cyu_core.Plugins.Context.{
  Shared, new_shared, Act, with_bus, with_registry, with_scheduler, act_all, Code, context_services,
}
use cyu_core.Plugins.Context.Good.{
  IsGood, HasNothing, IsGood-with_scheduler, IsGood-with_bus, IsGood-with_registry,
  HasNothing-with_scheduler, HasNothing-with_bus,
}
use cyu_core.Plugins.Context.Cleaned.{IsGood-act_all, HasNothing-act_all, IsIdle-act_all}

-- The steps of disableEntry on the services, once the code has run.
abbrev without_handlers : ℕ → Shared → Shared
without_handlers o s = with_bus s (cyu_core.Plugins.Events.remove_owner (some o) s.bus).1

abbrev without_commands : ℕ → Shared → Shared
without_commands o s =
    with_registry s s.made (cyu_core.Plugins.Commands.remove_owner (some o) s.registry).1

module _ (o : ℕ) (s : Shared) (good : IsGood s) where
  IsGood-without_handlers : IsGood (without_handlers o s)
  IsGood-without_handlers = IsGood-with_bus s _ (IsDistinct-remove_owner o s.bus good.distinct) good

  IsGood-without_commands : IsGood (without_commands o s)
  IsGood-without_commands =
      IsGood-with_registry s _ (IsConsistent-remove_owner (some o) s.registry)
        (next_id-remove_owner o s.registry) good

  HasNothing-without_handlers : (p : ℕ) → HasNothing p s → HasNothing p (without_handlers o s)
  HasNothing-without_handlers p clean =
      HasNothing-with_bus s p _ (HasNoHandler-remove_owner o s.bus good.distinct p clean.no_handler)
        clean

  HasNothing-without_commands : (p : ℕ) → HasNothing p s → HasNothing p (without_commands o s)
  HasNothing-without_commands p clean = record {
    no_handler = clean.no_handler;
    no_command = λ small.
        HasNoCommand-remove_owner o s.registry (good.consistent small) p (clean.no_command small);
    idle = clean.idle;
  }

-- The owner itself.
HasNothing-disabled :
    (o : ℕ) (s : Shared)
    → IsGood s
    → IsIdle o s.scheduler
    → HasNothing o (without_commands o (without_handlers o s))
HasNothing-disabled o s good idle = record {
  no_handler = HasNoHandler-removed o s.bus good.distinct;
  no_command = λ small. HasNoCommand-removed o s.registry (good.consistent small);
  idle = idle;
}

-- What happens between the operations on the manager: the code of a plugin calls its registrars, or
-- the scheduler runs a tick. What the handlers of a tick do to the bus and to the registry is a step of
-- its own.
pub data IsActing (o : ℕ) (accepting : Bool) (s : Shared) : Shared → Type 0 where
  acting : (as' : List Act) → IsActing o accepting s (act_all o accepting as' s)
  ticking :
      (enabled : ℕ → ℕ → Bool) (plugin : ℕ → Task → Call) (limit : ℕ)
      → ((k : ℕ) (t : Task) → OpensNone (plugin k t).actions)
      → IsActing o accepting s
          (with_scheduler s (advance enabled plugin limit s.scheduler).scheduler)

IsGood-IsActing : (o : ℕ) (b : Bool) (s s' : Shared) → IsActing o b s s' → IsGood s → IsGood s'
IsGood-IsActing o b s _ (acting as') good = IsGood-act_all o b as' s good
IsGood-IsActing o b s _ (ticking enabled plugin limit quiet) good = IsGood-with_scheduler s _ good

HasNothing-IsActing :
    (o p : ℕ) (b : Bool) (s s' : Shared)
    → IsActing o b s s'
    → (b ≡ false) ⊎ ((p == o) ≡ false)
    → HasNothing p s
    → HasNothing p s'
HasNothing-IsActing o p b s _ (acting as') may clean = HasNothing-act_all o p b as' s may clean
HasNothing-IsActing o p b s _ (ticking enabled plugin limit quiet) may clean =
    HasNothing-with_scheduler s p _
      (IsIdle-advance p enabled plugin quiet limit s.scheduler clean.idle) clean

module _ (enabling disabling : ℕ → Shared → Code) (reserved : List ℕ → Bool) where
  abbrev pub services : Services Shared
  services = context_services enabling disabling

  abbrev shut : ℕ → Shared → Shared
  shut o s = with_scheduler s (close_owner (some o) s.scheduler)

  abbrev stopped : ℕ → Shared → Shared
  stopped o s = act_all o false (disabling o (shut o s)).acts (shut o s)

  IsGood-stopped : (o : ℕ) (s : Shared) → IsGood s → IsGood (stopped o s)
  IsGood-stopped o s good = IsGood-act_all o false _ (shut o s) (IsGood-with_scheduler s _ good)

  IsGood-disabled_shared : (o : ℕ) (s : Shared) → IsGood s → IsGood (disabled_shared services o s)
  unfolding context_services
  IsGood-disabled_shared o s good =
      let stopped_good = IsGood-stopped o s good in
      IsGood-without_commands o (without_handlers o (stopped o s))
        (IsGood-without_handlers o (stopped o s) stopped_good)

  disable_spares :
      (o p : ℕ) (s : Shared)
      → IsGood s
      → HasNothing p s
      → HasNothing p (disabled_shared services o s)
  unfolding context_services
  disable_spares o p s good clean =
      let stopped_good = IsGood-stopped o s good in
      let stopped_clean =
        HasNothing-act_all o p false (disabling o (shut o s)).acts (shut o s) (inl refl)
          (HasNothing-with_scheduler s p _ (IsIdle-close_owner p o s.scheduler clean.idle) clean) in
      HasNothing-without_commands o (without_handlers o (stopped o s))
        (IsGood-without_handlers o (stopped o s) stopped_good) p
        (HasNothing-without_handlers o (stopped o s) stopped_good p stopped_clean)

  disable_cleans : (o : ℕ) (s : Shared) → IsGood s → HasNothing o (disabled_shared services o s)
  unfolding context_services
  disable_cleans o s good = HasNothing-disabled o (stopped o s) (IsGood-stopped o s good) (
      IsIdle-act_all o o false (disabling o (shut o s)).acts (shut o s)
        (IsIdle-closed o s.scheduler))

  IsGood-enabled_shared : (o : ℕ) (s : Shared) → IsGood s → IsGood (enabled_shared services o s)
  unfolding context_services
  IsGood-enabled_shared o s good =
      IsGood-act_all o true (enabling o (with_scheduler s (open_owner (some o) s.scheduler))).acts
        (with_scheduler s (open_owner (some o) s.scheduler)) (IsGood-with_scheduler s _ good)

  enable_spares :
      (o p : ℕ) (s : Shared)
      → (p == o) ≡ false
      → HasNothing p s
      → HasNothing p (enabled_shared services o s)
  unfolding context_services
  enable_spares o p s apart clean =
      HasNothing-act_all o p true
        (enabling o (with_scheduler s (open_owner (some o) s.scheduler))).acts
        (with_scheduler s (open_owner (some o) s.scheduler)) (inr apart)
        (HasNothing-with_scheduler s p _ (IsIdle-open_owner p o s.scheduler apart clean.idle) clean)

  IsGood-new : IsGood (new_shared reserved)
  unfolding find_id
  IsGood-new = record {
    distinct = tt;
    consistent = λ small. record {
      named = λ k c h. absurd cc;
      named_so = λ k c h. absurd cc;
      linked = λ i c k h m. absurd cc;
      found = tt;
      ids = tt;
      free = λ k c h. absurd cc;
    };
    counted = λ small. refl;
  }

  HasNothing-new : (p : ℕ) → HasNothing p (new_shared reserved)
  unfolding count_own handlers_of count state_of is_open_state
  HasNothing-new p = record {
    no_handler = λ k. refl;
    no_command = λ small k c h. absurd cc;
    idle = record { is_closed = refl; has_none = refl };
  }

  abbrev context_cleans : Cleans services
  context_cleans = record {
    IsClean = HasNothing;
    IsGood = IsGood;
    IsWork = IsActing;
    initial = new_shared reserved;
    good_initial = IsGood-new;
    clean_initial = HasNothing-new;
    good_enable = IsGood-enabled_shared;
    good_disable = IsGood-disabled_shared;
    good_work = IsGood-IsActing;
    enable_spares = enable_spares;
    disable_spares = disable_spares;
    disable_cleans = disable_cleans;
    work_spares = HasNothing-IsActing;
  }

  -- Whatever Register, EnableAll and DisableAll did, whatever the plugins' code did with its
  -- registrars in Enable, in Disable and between those operations, and whatever ticks of the
  -- scheduler ran there, while fewer than 2 ^ 64 commands were registered: a plugin that is not
  -- enabled has no handler of any event type, no command under any name and no registered task,
  -- and the scheduler has it closed.
  pub disabled_has_nothing :
      (m : Manager Shared) (p : ℕ)
      → IsRun services (new_shared reserved) IsActing m
      → m.shared.made < 2 ^ 64
      → is_enabled_state (m.entry_of p).state ≡ false
      → ((k : List ℕ) → count_own p (handlers_of k m.shared.bus.by_type) ≡ 0)
        × ((k : List ℕ) (c : Command)
            → m.shared.registry.by_name k ≡ some c
            → (c.owner == p) ≡ false)
        × (count p m.shared.scheduler.by_owner ≡ 0)
        × (is_open_state (state_of p m.shared.scheduler.owners) ≡ false)
  disabled_has_nothing m p run small off =
      let clean = (IsRun-IsTidy services context_cleans m run).1 p off in
      (clean.no_handler, clean.no_command small, clean.idle.has_none, clean.idle.is_closed)
