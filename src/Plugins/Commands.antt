-- ===== src/Plugins/Commands.antt =====
-- internal/pluginruntime/command_registry.go: the commands of the plugins. A pointer to a record
-- is the record itself, told from others by its id, and the registry is never the nil pointer.
pub mod Tables
pub mod Consistent
pub mod Added
pub mod Reachable
pub mod Removal
pub mod Cleared
pub mod Execute
mod Tests
use cyu_core.Base.{
  ℕ, zero, suc, ◌+◌, ◌%◌, ◌^◌, Bool, true, false, not, ◌&&◌, ◌||◌, Option, none, some, List, [],
  ◌∷◌, ◌==◌, if◌then◌else◌, Outcome, ok, err, ◌>>=◌,
}
use cyu_core.Plugins.Names.{same, NameError, parse_name, Definition, validate}

pub record Command : Type 0 where
  pub id : ℕ
  pub owner : ℕ
  pub definition : Definition
  pub handler : ℕ
  pub literals : List (List ℕ)

-- A map is the function of its lookups where the code only looks keys up, and a list of its values
-- where the code also ranges over it.
pub record Registry : Type 0 where
  pub next_id : ℕ
  pub by_name : List ℕ → Option Command
  pub by_id : List Command
  pub reserved : List ℕ → Bool

abbrev pub new_command_registry : Registry
new_command_registry = record {
  next_id = 0;
  by_name = λ n. none;
  by_id = [];
  reserved = λ n. false;
}

pub data CommandError : Type 0 where
  registration_closed : CommandError
  invalid : NameError → CommandError
  nil_handler nil_source : CommandError
  reserved_command : List ℕ → CommandError
  conflict : (literal : List ℕ) → (owner : ℕ) → CommandError
  already_registered : (literal : List ℕ) → CommandError

-- The loop of `reserve` that validates.
unfoldable pub validate_names : List (List ℕ) → Outcome CommandError (List (List ℕ))
validate_names [] = ok []
validate_names (n ∷ ns) = elim (parse_name n) [
  | err e ↦ err (invalid e)
  | ok parsed ↦ do others ← validate_names ns; ok (parsed ∷ others)
]

unfoldable pub none_registered : Registry → List (List ℕ) → Outcome CommandError (Unit {0})
none_registered r [] = ok tt
none_registered r (n ∷ ns) = elim (r.by_name n) [
  | some c ↦ err (already_registered n)
  | none ↦ none_registered r ns
]

unfoldable pub mark_reserved : List (List ℕ) → (List ℕ → Bool) → List ℕ → Bool
mark_reserved [] marks = marks
mark_reserved (n ∷ ns) marks = mark_reserved ns (λ k. same n k || marks k)

-- An error leaves the registry as it is, here and in `register`.
unfoldable pub reserve : Registry → List (List ℕ) → Outcome CommandError Registry
reserve r names = do
  validated ← validate_names names
  _ ← none_registered r validated
  ok (record {
    next_id = r.next_id;
    by_name = r.by_name;
    by_id = r.by_id;
    reserved = mark_reserved validated r.reserved;
  })

-- The loop of `register` over the literals.
unfoldable pub all_free : Registry → List (List ℕ) → Outcome CommandError (Unit {0})
all_free r [] = ok tt
all_free r (n ∷ ns) =
    let others = all_free r ns in
    if r.reserved n
    then err (reserved_command n)
    else elim (r.by_name n) [ some c ↦ err (conflict n c.owner) | none ↦ others ]

unfoldable pub link : Command → List (List ℕ) → (List ℕ → Option Command) → List ℕ → Option Command
link c [] names = names
link c (n ∷ ns) names = link c ns (λ k. if same n k then some c else names k)

-- The state after the checks, under the next id.
unfoldable pub add_command : Registry → (id owner : ℕ) → Definition → (handler : ℕ) → Registry
add_command r id owner d handler =
    let literals = d.name ∷ d.aliases in
    let c : Command = record {
      id = id;
      owner = owner;
      definition = d;
      handler = handler;
      literals = literals;
    } in
    record {
      next_id = id;
      by_name = link c literals r.by_name;
      by_id = c ∷ r.by_id;
      reserved = r.reserved;
    }

-- `accepting` and `accepting_locked` are what acceptSubscriptions holds at the start and under the lock;
-- `none` as the owner or as the handler is the nil pointer. The id comes with the new registry.
unfoldable pub register :
    Registry
    → (owner : Option ℕ) → (accepting accepting_locked : Bool) → Definition
    → (handler : Option ℕ) → Outcome CommandError (ℕ × Registry)
register r none accepting accepting_locked d handler = err registration_closed
register r (some owner) accepting accepting_locked d handler =
    if not accepting then err registration_closed else elim (validate d) [
      | err e ↦ err (invalid e)
      | ok _ ↦ elim handler [
        | none ↦ err nil_handler
        | some h ↦ if not accepting_locked then err registration_closed else do
          _ ← all_free r (d.name ∷ d.aliases)
          let id = (r.next_id + 1) % 2 ^ 64
          ok (id, add_command r id owner d h)
      ]
    ]

unfoldable pub find_id : ℕ → List Command → Option Command
find_id i [] = none
find_id i (c ∷ cs) = let rest = find_id i cs in if c.id == i then some c else rest

unfoldable pub delete_id : ℕ → List Command → List Command
delete_id i [] = []
delete_id i (c ∷ cs) = let rest = delete_id i cs in if c.id == i then rest else c ∷ rest

-- `r.byName[literal] == record`
unfoldable pub points_to : Option Command → Command → Bool
points_to none c = false
points_to (some d) c = d.id == c.id

unfoldable pub unlink :
    Command → List (List ℕ) → (List ℕ → Option Command) → List ℕ → Option Command
unlink c [] names = names
unlink c (n ∷ ns) names =
    unlink c ns (if points_to (names n) c then (λ k. if same n k then none else names k) else names)

-- The record leaves both maps.
unfoldable pub drop_command : Command → Registry → Registry
drop_command c r = record {
  next_id = r.next_id;
  by_name = unlink c c.literals r.by_name;
  by_id = delete_id c.id r.by_id;
  reserved = r.reserved;
}

unfoldable pub remove : ℕ → Registry → Bool × Registry
remove zero r = (false, r)
remove (suc i) r = elim (find_id (suc i) r.by_id) [
  | none ↦ (false, r)
  | some c ↦ (true, drop_command c r)
]

-- The range over byID, whose values were `cs` when it began.
unfoldable pub remove_owner_loop : (owner : ℕ) → List Command → Registry → ℕ × Registry
remove_owner_loop owner [] r = (0, r)
remove_owner_loop owner (c ∷ cs) r =
    let (count, r') = remove_owner_loop owner cs (drop_command c r) in
    let others = remove_owner_loop owner cs r in
    if c.owner == owner then (count + 1, r') else others

unfoldable pub remove_owner : (owner : Option ℕ) → Registry → ℕ × Registry
remove_owner none r = (0, r)
remove_owner (some owner) r = remove_owner_loop owner r.by_id r

-- commandRegistration
pub record Registration : Type 0 where
  pub id : ℕ
  pub unregistered : Bool

unfoldable pub unregister : Registration → Registry → Bool × Registration × Registry
unfolding remove
unregister s r =
    let (removed, r') = remove s.id r in
    if s.unregistered
    then (false, s, r)
    else (removed, record { id = s.id; unregistered = true }, r')
