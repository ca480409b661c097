-- ===== src/Plugins/Context/Tests.antt =====
-- Runs of the lifecycle with plugins that use their registrars, and the theorem at such a run.
use cyu_core.Base.{ℕ, ◌≡◌, refl, Bool, false, none, some, List, [], ◌∷◌, ◌==◌, arith, ok, true}
use cyu_core.Plugins.Entry.{returned, recover, on_success}
use cyu_core.Plugins.Names.{
  same, contains, check_name, parse_name, validate, check_aliases, Definition, find_colon,
  parse_type,
}
use cyu_core.Plugins.Events.{
  handlers_of, has_type, replace_handlers, set_handlers, delete_type, add_subscriber, subscribe,
  of_others, count_own,
}
use cyu_core.Plugins.Commands.{
  Command, all_free, link, add_command, register, delete_id, points_to, unlink, drop_command,
}
use cyu_core.Plugins.Scheduler.{
  push, without, state_of, modify, owner_state_locked, set_open, one_more, one_less, is_open_state,
  delete_owner, remove_tasks, remove_owner_locked, open_owner, close_owner, add_task,
  schedule_locked, schedule, after_ticks, every_ticks,
}
use cyu_core.Plugins.Scheduler.Advance.{Call, pop_due, next_task, advance_loop, advance}
use cyu_core.Plugins.Scheduler.Owners.{count}
use cyu_core.Plugins.Lifecycle.{
  Services, Manager, new_manager, is_registered, set_entry, set_last_error, set_active, set_shared,
  add_plugin, register_plugin, plan_step, is_enabled_state, reverse_order, enable_plan,
  disable_entry, rollback, enable_failed, enable_loop, enable_planned, enable_all, disable_loop,
  disable_all,
}
use cyu_core.Plugins.Lifecycle.Reachable.{plugin_registered, enabled_all, disabled_all}
use cyu_core.Plugins.Lifecycle.Runs.{IsRun, began, operated, worked}
use cyu_core.Plugins.Context.{
  Shared, new_shared, subscribes, registers, runs_after, subscribed, command_registered, act,
  act_all, Code, context_services, with_scheduler,
}
use cyu_core.Plugins.Context.Left.{IsActing, acting, ticking, disabled_has_nothing}

program : Unit {0}
unfolding recover on_success is_registered set_entry set_last_error set_active set_shared add_plugin
    register_plugin plan_step is_enabled_state reverse_order enable_plan disable_entry rollback
    enable_failed enable_loop enable_planned enable_all disable_loop disable_all same contains
    check_name parse_name validate check_aliases find_colon parse_type handlers_of has_type
    replace_handlers set_handlers delete_type add_subscriber subscribe of_others count_own all_free
    link add_command register delete_id points_to unlink drop_command push without state_of modify
    owner_state_locked set_open one_more one_less is_open_state delete_owner remove_tasks
    remove_owner_locked open_owner close_owner add_task schedule_locked schedule after_ticks
    every_ticks pop_due next_task advance_loop advance count subscribed command_registered act
    act_all context_services cyu_core.Plugins.Events.remove_owner_loop
    cyu_core.Plugins.Events.remove_owner cyu_core.Plugins.Commands.remove_owner_loop
    cyu_core.Plugins.Commands.remove_owner
program = tt

-- "a:b"
abbrev a_b : List ℕ
a_b = 0x61 ∷ 0x3a ∷ 0x62 ∷ []

abbrev tp : Definition
tp = record { name = 0x74 ∷ 0x70 ∷ []; aliases = []; description = [] }

-- Plugin 1 registers a handler, a command and a task, in Disable another task.
abbrev enabling : ℕ → Shared → Code
enabling o s = record {
  acts = subscribes a_b (some 5) ∷ registers tp (some 6) ∷ runs_after 3 (some 7) ∷ [];
  result = returned none;
  nanos = 10;
}

abbrev disabling : ℕ → Shared → Code
disabling o s = record {
  acts = subscribes a_b (some 8) ∷ runs_after 3 (some 9) ∷ [];
  result = returned none;
  nanos = 10;
}

abbrev idle_call : Call
idle_call = record { actions = []; result = returned none; nanos = 1 }

abbrev none_reserved : List ℕ → Bool
none_reserved n = false

abbrev lifecycle : Services Shared
lifecycle = context_services enabling disabling

abbrev empty : Manager Shared
empty = new_manager (new_shared none_reserved)

abbrev running : Manager Shared
running = (enable_all lifecycle (add_plugin 1 empty)).1

-- A tick in which no task is due, and a second handler of the plugin.
abbrev ticked : Shared
ticked =
    with_scheduler running.shared
      (advance (λ k o. true) (λ k t. idle_call) 10 running.shared.scheduler).scheduler

abbrev busy : Shared
busy = act_all 1 true (subscribes a_b (some 4) ∷ []) ticked

abbrev stopped : Manager Shared
stopped = (disable_all lifecycle (set_shared busy (set_shared ticked running))).1

has_handler : count_own 1 (handlers_of a_b running.shared.bus.by_type) ≡ 1
unfolding program
has_handler = refl

two_handlers : count_own 1 (handlers_of a_b busy.bus.by_type) ≡ 2
unfolding program
two_handlers = refl

has_task : count 1 running.shared.scheduler.by_owner ≡ 1
unfolding program
has_task = refl

has_command : running.shared.made ≡ 1
unfolding program
has_command = refl

register-one : register_plugin (ok 1) empty ≡ ok (add_plugin 1 empty)
unfolding program
register-one = refl

running_accepts : (running.entry_of 1).accepts_subscriptions ≡ true
unfolding program
running_accepts = refl

running-IsRun : IsRun lifecycle (new_shared none_reserved) IsActing running
running-IsRun =
    operated (add_plugin 1 empty) running
      (operated empty (add_plugin 1 empty) began
        (plugin_registered (add_plugin 1 empty) (ok 1) register-one))
      enabled_all

stopped-IsRun : IsRun lifecycle (new_shared none_reserved) IsActing stopped
unfolding set_shared
stopped-IsRun =
    operated (set_shared busy (set_shared ticked running)) stopped
      (worked (set_shared ticked running) 1 busy
        (worked running 1 ticked running-IsRun
          (ticking (λ k o. true) (λ k t. idle_call) 10 (λ k t. tt)))
        (rw running_accepts (acting (subscribes a_b (some 4) ∷ []))))
      disabled_all

stopped_made : stopped.shared.made ≡ 1
unfolding program
stopped_made = refl

stopped_off : is_enabled_state (stopped.entry_of 1).state ≡ false
unfolding program
stopped_off = refl

disabled_has_nothing_example :
    ((k : List ℕ) → count_own 1 (handlers_of k stopped.shared.bus.by_type) ≡ 0)
    × ((k : List ℕ) (c : Command)
        → stopped.shared.registry.by_name k ≡ some c
        → (c.owner == 1) ≡ false)
    × (count 1 stopped.shared.scheduler.by_owner ≡ 0)
    × (is_open_state (state_of 1 stopped.shared.scheduler.owners) ≡ false)
disabled_has_nothing_example =
    disabled_has_nothing enabling disabling none_reserved stopped 1 stopped-IsRun
      (omega (arith, stopped_made)) stopped_off
