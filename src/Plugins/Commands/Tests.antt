-- ===== src/Plugins/Commands/Tests.antt =====
-- Runs of the command registry on small inputs, and the theorems at inputs that meet their
-- conditions.
use cyu_core.Base.{ℕ, ◌≡◌, refl, true, false, none, some, List, [], ◌∷◌, arith, ok, err}
use cyu_core.Plugins.Entry.{panicked, recover, panic_error, command_phase, reported, fails}
use cyu_core.Plugins.Names.{
  same, contains, check_name, parse_name, validate, check_aliases, Definition,
  unsupported_character, must_be_alpha_numeric,
}
use cyu_core.Plugins.Commands.{
  Command, Registry, new_command_registry, conflict, reserved_command, validate_names,
  none_registered, mark_reserved, reserve, all_free, link, add_command, register, find_id,
  delete_id, points_to, unlink, drop_command, remove, remove_owner_loop, remove_owner,
}
use cyu_core.Plugins.Commands.Consistent.{IsConsistent}
use cyu_core.Plugins.Commands.Reachable.{
  IsReachable, start, step, registered, IsReachable-IsConsistent,
}
use cyu_core.Plugins.Commands.Removal.{of_others, remove_owner_exact, remove-register}
use cyu_core.Plugins.Commands.Execute.{Host, execute, run_command, execute-register, not_found, ran}

program : Unit {0}
unfolding same contains check_name parse_name validate check_aliases validate_names none_registered
    mark_reserved reserve all_free link add_command register find_id delete_id points_to unlink
    drop_command remove remove_owner_loop remove_owner execute run_command recover
program = tt

-- "tp" with the alias "t-p".
abbrev tp : Definition
tp = record { name = 0x74 ∷ 0x70 ∷ []; aliases = (0x74 ∷ 0x2d ∷ 0x70 ∷ []) ∷ []; description = [] }

abbrev tp_command : Command
tp_command = record {
  id = 1;
  owner = 7;
  definition = tp;
  handler = 3;
  literals = tp.name ∷ tp.aliases;
}

abbrev with_tp : Registry
with_tp = add_command new_command_registry 1 7 tp 3

register-tp : register new_command_registry (some 7) true true tp (some 3) ≡ ok (1, with_tp)
unfolding program
register-tp = refl

register_twice :
    register with_tp (some 8) true true tp (some 3) ≡ err (conflict (0x74 ∷ 0x70 ∷ []) 7)
unfolding program
register_twice = refl

upper_case_name : parse_name (0x54 ∷ []) ≡ err (unsupported_character 0x54)
unfolding program
upper_case_name = refl

final_dash : parse_name (0x74 ∷ 0x2d ∷ []) ≡ err (must_be_alpha_numeric 0x2d)
unfolding program
final_dash = refl

tp-IsReachable : IsReachable with_tp
unfolding program
tp-IsReachable =
    step new_command_registry with_tp start
      (registered with_tp (some 7) true true tp (some 3) 1 (omega arith) refl)

IsReachable-IsConsistent_example : IsConsistent with_tp
IsReachable-IsConsistent_example = IsReachable-IsConsistent with_tp tp-IsReachable

remove_owner_exact_example :
    let r' = (remove_owner (some 7) with_tp).1 in
    ((i : ℕ) → find_id i r'.by_id ≡ of_others 7 (find_id i with_tp.by_id))
    × ((k : List ℕ) → r'.by_name k ≡ of_others 7 (with_tp.by_name k))
    × IsConsistent r'
remove_owner_exact_example =
    remove_owner_exact 7 with_tp (IsReachable-IsConsistent with_tp tp-IsReachable)

new-IsConsistent : IsConsistent new_command_registry
new-IsConsistent = IsReachable-IsConsistent new_command_registry start

remove-register_example :
    let (removed, r'') = remove 1 with_tp in
    (removed ≡ true)
    × ((i : ℕ) → find_id i r''.by_id ≡ find_id i new_command_registry.by_id)
    × ((k : List ℕ) → r''.by_name k ≡ new_command_registry.by_name k)
remove-register_example =
    remove-register new_command_registry with_tp (some 7) true true tp (some 3) 1 new-IsConsistent
      (omega arith) register-tp

-- A host whose handlers panic.
abbrev panicking : Host Registry
panicking = record {
  commands = λ s. s;
  is_enabled = λ s o. true;
  record_command_call = λ o nanos did_fail s. s;
  invoke = λ h i s. (panicked 9, 100, s);
}

alias_panics :
    execute panicking (0x74 ∷ 0x2d ∷ 0x70 ∷ []) [] (some 0) with_tp
    ≡ (ran (some (panic_error 7 command_phase 9)), with_tp)
unfolding program
alias_panics = refl

alias_listed : contains (0x74 ∷ 0x2d ∷ 0x70 ∷ []) (tp.name ∷ tp.aliases) ≡ true
unfolding program
alias_listed = refl

unregistered_name :
    execute panicking (0x74 ∷ 0x2d ∷ 0x70 ∷ []) [] (some 0) new_command_registry
    ≡ (not_found, new_command_registry)
unfolding program
unregistered_name = refl

abbrev reserved_new : Registry
reserved_new = record {
  next_id = 0;
  by_name = λ n. none;
  by_id = [];
  reserved = mark_reserved ((0x74 ∷ 0x70 ∷ []) ∷ []) (λ n. false);
}

reserved_tp :
    register reserved_new (some 7) true true tp (some 3) ≡ err (reserved_command (0x74 ∷ 0x70 ∷ []))
unfolding program
reserved_tp = refl

execute-register_example : execute panicking (0x74 ∷ 0x2d ∷ 0x70 ∷ []) [] (some 0) with_tp ≡ (
    let (result, nanos, r) =
      panicking.invoke 3 (record { name = tp.name; args = []; source = 0 }) with_tp in
    (ran (reported 7 command_phase result), panicking.record_command_call 7 nanos (fails result) r))
execute-register_example =
    execute-register panicking new_command_registry with_tp 7 true true tp 3 1
      (0x74 ∷ 0x2d ∷ 0x70 ∷ []) [] 0 register-tp refl alias_listed
