-- ===== src/Plugins/Context/Good.antt =====
-- The invariant of the services, and what it is to have nothing in them.
use cyu_core.Base.{ℕ, ◌^◌, ◌<◌, ◌≡◌, ◌∙◌}
use cyu_core.Plugins.Events.{EventBus}
use cyu_core.Plugins.Events.Distinct.{IsDistinct}
use cyu_core.Plugins.Events.Cleared.{HasNoHandler}
use cyu_core.Plugins.Commands.{Registry}
use cyu_core.Plugins.Commands.Consistent.{IsConsistent}
use cyu_core.Plugins.Commands.Cleared.{HasNoCommand}
use cyu_core.Plugins.Scheduler.{Scheduler}
use cyu_core.Plugins.Scheduler.Cleared.{IsIdle}
use cyu_core.Plugins.Context.{Shared, with_bus, with_registry, with_scheduler}

-- The invariant. The registry is consistent while no id of a command came twice.
pub record IsGood (s : Shared) : Type 0 where
  pub distinct : IsDistinct s.bus.by_type
  pub consistent : s.made < 2 ^ 64 → IsConsistent s.registry
  pub counted : s.made < 2 ^ 64 → s.registry.next_id ≡ s.made

-- Nothing of the plugin: no handler, no command, and no task; and it can schedule none.
pub record HasNothing (p : ℕ) (s : Shared) : Type 0 where
  pub no_handler : HasNoHandler p s.bus
  pub no_command : s.made < 2 ^ 64 → HasNoCommand p s.registry
  pub idle : IsIdle p s.scheduler

module _ (s : Shared) where
  pub IsGood-with_scheduler : (t : Scheduler) → IsGood s → IsGood (with_scheduler s t)
  IsGood-with_scheduler t good = record {
    distinct = good.distinct;
    consistent = good.consistent;
    counted = good.counted;
  }

  pub IsGood-with_bus :
      (bus : EventBus) → IsDistinct bus.by_type → IsGood s → IsGood (with_bus s bus)
  IsGood-with_bus bus d good = record {
    distinct = d;
    consistent = good.consistent;
    counted = good.counted;
  }

  pub IsGood-with_registry :
      (r : Registry)
      → (IsConsistent s.registry → IsConsistent r)
      → r.next_id ≡ s.registry.next_id
      → IsGood s
      → IsGood (with_registry s s.made r)
  IsGood-with_registry r kept same good = record {
    distinct = good.distinct;
    consistent = λ h. kept (good.consistent h);
    counted = λ h. same ∙ good.counted h;
  }

  module _ (p : ℕ) where
    pub HasNothing-with_scheduler :
        (t : Scheduler) → IsIdle p t → HasNothing p s → HasNothing p (with_scheduler s t)
    HasNothing-with_scheduler t idle clean = record {
      no_handler = clean.no_handler;
      no_command = clean.no_command;
      idle = idle;
    }

    pub HasNothing-with_bus :
        (bus : EventBus) → HasNoHandler p bus → HasNothing p s → HasNothing p (with_bus s bus)
    HasNothing-with_bus bus h clean = record {
      no_handler = h;
      no_command = clean.no_command;
      idle = clean.idle;
    }

    pub HasNothing-with_registry :
        (r : Registry)
        → (HasNoCommand p s.registry → HasNoCommand p r)
        → HasNothing p s
        → HasNothing p (with_registry s s.made r)
    HasNothing-with_registry r kept clean = record {
      no_handler = clean.no_handler;
      no_command = λ h. kept (clean.no_command h);
      idle = clean.idle;
    }
