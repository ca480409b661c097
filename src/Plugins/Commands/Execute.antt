-- ===== src/Plugins/Commands/Execute.antt =====
-- Execution of a command, internal/pluginruntime/command_registry.go. The state of the runtime is a
-- parameter, since the handler, which is a plugin's, may do with it what its capabilities allow.
use cyu_core.Base.{
  ℕ, ◌≡◌, refl, ap, ◌∙◌, Bool, true, false, not, Option, none, some, List, [], ◌∷◌, arith,
  if◌then◌else◌, inl, inr, Bool-cases, ok, err, Outcome-cases,
}
use cyu_core.Plugins.Entry.{
  Returned, Failure, recover, command_phase, has_failed, reported, fails, recover-reported,
  has_failed-reported,
}
use cyu_core.Plugins.Names.{
  parse_name, Definition, validate, check_aliases, contains, same, eq_of_same,
}
use cyu_core.Plugins.Commands.{Command, Registry, register, all_free, add_command}
use cyu_core.Plugins.Commands.Tables.{link_lem}
use mathlib.Core.Path.{subst}

pub record Invocation : Type 0 where
  pub name : List ℕ
  pub args : List (List ℕ)
  pub source : ℕ

-- `execute` returns whether the command was found, and its error.
pub data Executed : Type 0 where
  not_found : Executed
  no_source : Executed
  ran : Option Failure → Executed

pub record Host (S : Type 0) : Type 0 where
  pub commands : S → Registry
  pub is_enabled : S → ℕ → Bool
  pub record_command_call : (owner nanos : ℕ) → (did_fail : Bool) → S → S
  -- The handler with the time that it takes.
  pub invoke : (handler : ℕ) → Invocation → S → Returned × ℕ × S

module _ {S : Type 0} (host : Host S) where
  open host use {commands, is_enabled, record_command_call, invoke}

  -- The call of the handler of a record that was found.
  unfoldable pub run_command : Command → (args : List (List ℕ)) → (source : ℕ) → S → Executed × S
  unfolding recover
  run_command c args source s =
      let invocation : Invocation = record {
        name = c.definition.name;
        args = args;
        source = source;
      } in
      let (result, nanos, s') = invoke c.handler invocation s in
      let failure = recover c.owner command_phase result in
      (ran failure, record_command_call c.owner nanos (has_failed failure) s')

  unfoldable pub execute :
      (name : List ℕ) → (args : List (List ℕ)) → (source : Option ℕ) → S → Executed × S
  unfolding run_command
  execute name args source s = elim (parse_name name) [
    | err e ↦ (not_found, s)
    | ok parsed ↦ elim ((commands s).by_name parsed) [
      | none ↦ (not_found, s)
      | some c ↦
          if not (is_enabled s c.owner)
          then (not_found, s)
          else elim source [ none ↦ (no_source, s) | some from ↦ run_command c args from s ]
    ]
  ]

parse_name_same : (n parsed : List ℕ) → parse_name n ≡ ok parsed → parsed ≡ n
unfolding parse_name
parse_name_same n parsed h = ground arith

-- A name that is the same as one that parses.
same_parses :
    (n k parsed : List ℕ) → parse_name n ≡ ok parsed → same n k ≡ true → parse_name k ≡ ok k
same_parses n k parsed h e =
    subst (λ t. parse_name t ≡ ok t) (eq_of_same n k e) (h ∙ ap ok (parse_name_same n parsed h))

-- Every literal of a definition that is valid is a valid name.
check_aliases-names :
    (seen aliases : List (List ℕ)) (k : List ℕ)
    → check_aliases seen aliases ≡ ok tt
    → contains k aliases ≡ true
    → parse_name k ≡ ok k
unfolding check_aliases contains
check_aliases-names seen [] k h m = absurd (ground arith)
check_aliases-names seen (a ∷ others) k h m = elim (Outcome-cases (parse_name a)) [
  | inr (e, f) ↦ absurd (ground arith)
  | inl (parsed, f) ↦ elim (Bool-cases (same a k)) [
    | inl e ↦ same_parses a k parsed f e
    | inr e ↦ check_aliases-names (a ∷ seen) others k (ground arith) (ground arith)
  ]
]

validate-names :
    (d : Definition) (k : List ℕ)
    → validate d ≡ ok tt
    → contains k (d.name ∷ d.aliases) ≡ true
    → parse_name k ≡ ok k
unfolding validate contains
validate-names d k h m = elim (Outcome-cases (parse_name d.name)) [
  | inr (e, f) ↦ absurd (ground arith)
  | inl (parsed, f) ↦ elim (Bool-cases (same d.name k)) [
    | inl e ↦ same_parses d.name k parsed f e
    | inr e ↦ check_aliases-names (d.name ∷ []) d.aliases k (ground arith) (ground arith)
  ]
]

-- What the call of `register` that succeeds has checked and stored.
register-some :
    (r r' : Registry) (o : ℕ) (a b : Bool) (d : Definition) (h id : ℕ)
    → register r (some o) a b d (some h) ≡ ok (id, r')
    → (validate d ≡ ok tt) × (r' ≡ add_command r id o d h)
unfolding register
register-some r r' o true true d h id e = elim (Outcome-cases (validate d)) [
  | inr (x, f) ↦ absurd (ground arith)
  | inl (tt, f) ↦ elim (Outcome-cases (all_free r (d.name ∷ d.aliases))) [
    | inr (x, g) ↦ absurd (ground arith)
    | inl (tt, g) ↦ (f, ground arith)
  ]
]
register-some r r' o false b d h id e = absurd (ground arith)
register-some r r' o true false d h id e = absurd (ground arith)

added_by_name :
    (r : Registry) (o : ℕ) (d : Definition) (h id : ℕ) (k : List ℕ)
    → contains k (d.name ∷ d.aliases) ≡ true
    → (add_command r id o d h).by_name k
      ≡ some (record {
        id = id;
        owner = o;
        definition = d;
        handler = h;
        literals = d.name ∷ d.aliases;
      })
unfolding add_command
added_by_name r o d h id k m =
    let c : Command = record {
      id = id;
      owner = o;
      definition = d;
      handler = h;
      literals = d.name ∷ d.aliases;
    } in
    link_lem c (d.name ∷ d.aliases) r.by_name k ∙ rw m refl

-- The call of a handler, its report, and its record.
unfoldable invocation_of :
    {S : Type 0}
    → Host S
    → (owner handler : ℕ) → (name : List ℕ) → (args : List (List ℕ)) → (source : ℕ) → S
    → Executed × S
unfolding reported fails
invocation_of host owner handler name args source s =
    let (result, nanos, s') =
      host.invoke handler (record { name = name; args = args; source = source }) s in
    (
      ran (reported owner command_phase result),
      host.record_command_call owner nanos (fails result) s',
    )

run_command_lem :
    {S : Type 0} (host : Host S) (c : Command) (args : List (List ℕ)) (source : ℕ) (s : S)
    → run_command host c args source s
      ≡ invocation_of host c.owner c.handler c.definition.name args source s
unfolding run_command invocation_of
run_command_lem host c args source s =
    let (result, nanos, s') =
      host.invoke c.handler (record { name = c.definition.name; args = args; source = source }) s in
    rw (recover-reported c.owner command_phase result)
      (rw (has_failed-reported c.owner command_phase result) refl)

-- Once register has succeeded and while the owner is enabled, executing the name or any alias of the
-- definition invokes its handler once, under the canonical name and with the arguments and the source
-- of the call, reports a panic or an error of it, and records the call with its time and whether it
-- failed.
pub execute-register :
    {S : Type 0} (host : Host S) (s s' : S) (o : ℕ) (a b : Bool) (d : Definition) (h id : ℕ)
    (k : List ℕ) (args : List (List ℕ)) (source : ℕ)
    → register (host.commands s) (some o) a b d (some h) ≡ ok (id, host.commands s')
    → host.is_enabled s' o ≡ true
    → contains k (d.name ∷ d.aliases) ≡ true
    → execute host k args (some source) s' ≡ (
        let (result, nanos, s'') =
          host.invoke h (record { name = d.name; args = args; source = source }) s' in
        (
          ran (reported o command_phase result),
          host.record_command_call o nanos (fails result) s'',
        ))
unfolding execute invocation_of
execute-register host s s' o a b d h id k args source e on m =
    let (valid, stored) = register-some (host.commands s) (host.commands s') o a b d h id e in
    let parses = validate-names d k valid m in
    let named = ap (λ t. t.by_name k) stored ∙ added_by_name (host.commands s) o d h id k m in
    let c : Command = record {
      id = id;
      owner = o;
      definition = d;
      handler = h;
      literals = d.name ∷ d.aliases;
    } in
    rw (parses, execute) (rw named (rw on (run_command_lem host c args source s')))
