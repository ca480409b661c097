-- ===== src/Plugins/Context.antt =====
-- The registrars of internal/pluginruntime/manager.go's lifecycleContext: what the code of a plugin can
-- do with the bus, the registry and the scheduler, and the services that the manager then works on.
pub mod Good
pub mod Cleaned
pub mod Left
mod Tests
use cyu_core.Base.{ℕ, ◌+◌, Bool, true, false, Option, none, some, List, [], ◌∷◌, Outcome, ok, err}
use cyu_core.Plugins.Names.{Definition}
use cyu_core.Plugins.Entry.{Returned}
use cyu_core.Plugins.Events.{EventBus, new_event_bus, EventError, subscribe, Subscription}
use cyu_core.Plugins.Commands.{
  Registry, new_command_registry, CommandError, register, Registration, unregister,
}
use cyu_core.Plugins.Scheduler.{
  Task, Scheduler, new_task_scheduler, after_ticks, every_ticks, open_owner, close_owner,
}
use cyu_core.Plugins.Lifecycle.{Services}

-- `made` counts the commands that were registered, which the code keeps modulo 2 ^ 64 only.
pub record Shared : Type 0 where
  pub bus : EventBus
  pub registry : Registry
  pub scheduler : Scheduler
  pub made : ℕ

-- The literals of the commands that the host has are reserved before a plugin is enabled.
abbrev pub new_shared : (reserved : List ℕ → Bool) → Shared
new_shared reserved = record {
  bus = new_event_bus;
  registry = record new_command_registry { reserved = reserved };
  scheduler = new_task_scheduler;
  made = 0;
}

-- A call of Subscribe, Cancel, Register, Unregister, AfterTicks, EveryTicks or Cancel. The
-- subscriptions, registrations and tasks may be those of any plugin, current or not.
pub data Act : Type 0 where
  subscribes : (event_type : List ℕ) (handler : Option ℕ) → Act
  cancels : Subscription → Act
  registers : Definition → (handler : Option ℕ) → Act
  unregisters : Registration → Act
  runs_after runs_every : (ticks : ℕ) (handler : Option ℕ) → Act
  cancels_task : Task → Act

abbrev pub with_bus : Shared → EventBus → Shared
with_bus s bus = record { bus = bus; registry = s.registry; scheduler = s.scheduler; made = s.made }

abbrev pub with_registry : Shared → (made : ℕ) → Registry → Shared
with_registry s made r = record { bus = s.bus; registry = r; scheduler = s.scheduler; made = made }

abbrev pub with_scheduler : Shared → Scheduler → Shared
with_scheduler s t = record { bus = s.bus; registry = s.registry; scheduler = t; made = s.made }

-- A call that returns an error changes nothing.
unfoldable pub subscribed : Shared → Outcome EventError (ℕ × EventBus) → Shared
subscribed s (err e) = s
subscribed s (ok r) = with_bus s r.1

unfoldable pub command_registered : Shared → Outcome CommandError (ℕ × Registry) → Shared
command_registered s (err e) = s
command_registered s (ok r) = with_registry s (s.made + 1) r.1

-- The registrars hold the entry of the plugin `o`, in which acceptSubscriptions is `accepting`.
unfoldable pub act : (o : ℕ) → (accepting : Bool) → Act → Shared → Shared
unfolding subscribed command_registered subscribe register unregister after_ticks every_ticks
act o accepting (subscribes k h) s = subscribed s (subscribe (some o) accepting accepting k h s.bus)
act o accepting (cancels c) s = with_bus s (cyu_core.Plugins.Events.cancel c s.bus).2
act o accepting (registers d h) s =
    command_registered s (register s.registry (some o) accepting accepting d h)
act o accepting (unregisters c) s = with_registry s s.made (unregister c s.registry).2
act o accepting (runs_after n h) s = with_scheduler s (after_ticks (some o) n h s.scheduler).1
act o accepting (runs_every n h) s = with_scheduler s (every_ticks (some o) n h s.scheduler).1
act o accepting (cancels_task t) s =
    with_scheduler s (cyu_core.Plugins.Scheduler.cancel t s.scheduler).1

unfoldable pub act_all : (o : ℕ) → (accepting : Bool) → List Act → Shared → Shared
unfolding act
act_all o accepting [] s = s
act_all o accepting (a ∷ as') s = act_all o accepting as' (act o accepting a s)

-- A run of Enable or Disable: what it calls, what it returns, and the time it takes.
pub record Code : Type 0 where
  pub acts : List Act
  pub result : Returned
  pub nanos : ℕ

-- EnableAll sets acceptSubscriptions before it calls Enable, and disableEntry clears it before Disable.
unfoldable pub context_services : (enabling disabling : ℕ → Shared → Code) → Services Shared
unfolding act_all open_owner close_owner
context_services enabling disabling = record {
  open_owner = λ o s. with_scheduler s (open_owner (some o) s.scheduler);
  close_owner = λ o s. with_scheduler s (close_owner (some o) s.scheduler);
  remove_events = λ o s. with_bus s (cyu_core.Plugins.Events.remove_owner (some o) s.bus).1;
  remove_commands =
      λ o s. with_registry s s.made (cyu_core.Plugins.Commands.remove_owner (some o) s.registry).1;
  enable = λ o s. let code = enabling o s in (code.result, code.nanos, act_all o true code.acts s);
  disable =
      λ o s. let code = disabling o s in (code.result, code.nanos, act_all o false code.acts s);
}
