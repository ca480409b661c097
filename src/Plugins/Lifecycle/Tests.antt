-- ===== src/Plugins/Lifecycle/Tests.antt =====
-- Runs of the lifecycle on small inputs, and the theorems at inputs that meet their conditions.
use cyu_core.Base.{
  ℕ, ◌≡◌, ◌⊎◌, refl, false, none, some, List, [], ◌∷◌, ◌==◌, if◌then◌else◌, ok, err,
}
use cyu_core.Plugins.Entry.{
  disabled, failed, returned, panicked, recover, on_success, plugin_error, panic_error,
  disable_phase,
}
use cyu_core.Plugins.Lifecycle.{
  Services, Manager, new_manager, duplicate_plugin, plugin_failed, failures, is_registered,
  set_entry, set_last_error, set_active, set_shared, add_plugin, register_plugin, plan_step,
  is_enabled_state, reverse_order, enable_plan, disable_entry, rollback, enable_failed, enable_loop,
  enable_planned, enable_all, disable_loop, disable_all,
}
use cyu_core.Plugins.Lifecycle.EnableAll.{AllOff, Enabled, RolledBack}
use cyu_core.Plugins.Lifecycle.Reachable.{
  IsReachable, start, step, plugin_registered, enabled_all, enable_all_or_none, disable_all_none,
}

program : Unit {0}
unfolding recover on_success is_registered set_entry set_last_error set_active set_shared add_plugin
    register_plugin plan_step is_enabled_state reverse_order enable_plan disable_entry rollback
    enable_failed enable_loop enable_planned enable_all disable_loop disable_all
program = tt

-- The services keep the calls of Disable, the last one first. Plugin 3 fails to start, and plugin 2
-- panics as it stops.
abbrev logging : Services (List ℕ)
logging = record {
  open_owner = λ o s. s;
  close_owner = λ o s. s;
  remove_events = λ o s. s;
  remove_commands = λ o s. s;
  enable = λ o s. (returned (if o == 3 then some 11 else none), 100, s);
  disable = λ o s. ((if o == 2 then panicked 12 else returned none), 50, o ∷ s);
}

abbrev two_plugins : Manager (List ℕ)
two_plugins = add_plugin 2 (add_plugin 1 (new_manager []))

abbrev three_plugins : Manager (List ℕ)
three_plugins = add_plugin 3 two_plugins

second_registered : register_plugin (ok 1) two_plugins ≡ err (duplicate_plugin 1)
unfolding program
second_registered = refl

-- The failed plugin is cleaned up first, then the others in reverse order.
rolled_back :
    (enable_all logging three_plugins).0
    ≡ err (failures (plugin_error 3 11 ∷ panic_error 2 disable_phase 12 ∷ []))
unfolding program
rolled_back = refl

disable_calls : (enable_all logging three_plugins).1.shared ≡ 1 ∷ 2 ∷ 3 ∷ []
unfolding program
disable_calls = refl

third_state : ((enable_all logging three_plugins).1.entry_of 3).state ≡ failed
unfolding program
third_state = refl

first_state : ((enable_all logging three_plugins).1.entry_of 1).state ≡ disabled
unfolding program
first_state = refl

not_again : (enable_all logging (enable_all logging three_plugins).1).0 ≡ err (plugin_failed 2)
unfolding program
not_again = refl

both_enabled : (enable_all logging two_plugins).0 ≡ ok tt
unfolding program
both_enabled = refl

register-two : register_plugin (ok 2) (add_plugin 1 (new_manager [])) ≡ ok two_plugins
unfolding program
register-two = refl

register-one :
    register_plugin {S = List ℕ} (ok 1) (new_manager []) ≡ ok (add_plugin 1 (new_manager []))
unfolding program
register-one = refl

register-three : register_plugin (ok 3) two_plugins ≡ ok three_plugins
unfolding program
register-three = refl

three_plugins-IsReachable : IsReachable logging three_plugins
three_plugins-IsReachable =
    step two_plugins three_plugins
      (step (add_plugin 1 (new_manager [])) two_plugins
        (step (new_manager []) (add_plugin 1 (new_manager [])) (start [])
          (plugin_registered (add_plugin 1 (new_manager [])) (ok 1) register-one))
        (plugin_registered two_plugins (ok 2) register-two))
      (plugin_registered three_plugins (ok 3) register-three)

three_inactive : three_plugins.active ≡ false
unfolding program
three_inactive = refl

enable_all_or_none_example :
    Enabled logging three_plugins.order [] (enable_all logging three_plugins)
    ⊎ RolledBack logging (enable_all logging three_plugins)
enable_all_or_none_example =
    enable_all_or_none logging three_plugins three_plugins-IsReachable three_inactive

disable_all_none_example :
    let m = (enable_all logging three_plugins).1 in
    ((disable_all logging m).1.active ≡ false) × AllOff (disable_all logging m).1
disable_all_none_example =
    disable_all_none logging (enable_all logging three_plugins).1 (
      step three_plugins (enable_all logging three_plugins).1 three_plugins-IsReachable enabled_all)
