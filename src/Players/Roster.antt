-- ===== src/Players/Roster.antt =====
-- AddPlayer, RemovePlayer and removePlayerOwned of server.go and Close of session.go, while the tick loop
-- runs. AddPlayer is four steps of the runtime owner, Close is two of any goroutine, and the others'
-- steps come between. Sessions are numbers; of the packets that are sent only the Close of a slow
-- client matters here, which is a step of its own.
pub mod Entries
pub mod Sound
pub mod Steps
pub mod Counted
mod Tests
use cyu_core.Base.{
  ℕ, zero, suc, ◌+◌, ◌-◌, ◌%◌, ◌^◌, Bool, true, false, not, ◌&&◌, ◌||◌, Option, none, some, List,
  [], ◌∷◌, ◌++◌, ◌==◌, if◌then◌else◌, same,
}

-- Where the owner is in AddPlayer: it has checked the state, set `registered`, stored the session.
pub data Owner : Type 0 where
  resting : Owner
  checked registering published : (session : ℕ) → Owner

-- `closing` is set while a Close has closed the session and not yet read `registered`; `removals` are the
-- critical events that wait in the mailbox.
pub record Roster : Type 0 where
  pub playing : ℕ → Bool
  pub close_once : ℕ → Bool
  pub closing : ℕ → Bool
  pub registered : ℕ → Bool
  pub players : List (List ℕ × ℕ)
  pub online_count : ℕ
  pub total_logins : ℕ
  pub removals : List ℕ
  pub owner : Owner

abbrev pub new_roster : Roster
new_roster = record {
  playing = λ i. false;
  close_once = λ i. false;
  closing = λ i. false;
  registered = λ i. false;
  players = [];
  online_count = 0;
  total_logins = 0;
  removals = [];
  owner = resting;
}

abbrev pub put : ℕ → Bool → (ℕ → Bool) → ℕ → Bool
put i b f j = if j == i then b else f j

-- `LoadOrStore`: the session that is there, if one is.
unfoldable pub load_player : (key : List ℕ) → List (List ℕ × ℕ) → Option ℕ
load_player k [] = none
load_player k ((k', j) ∷ ps) = let rest = load_player k ps in if same k' k then some j else rest

-- `CompareAndDelete`
unfoldable pub compare_and_delete :
    (key : List ℕ) (session : ℕ) → List (List ℕ × ℕ) → Bool × List (List ℕ × ℕ)
compare_and_delete k i [] = (false, [])
compare_and_delete k i ((k', j) ∷ ps) =
    let (deleted, rest) = compare_and_delete k i ps in
    if same k' k && (j == i) then (true, ps) else (deleted, (k', j) ∷ rest)

-- What Close does before it reads `registered`.
unfoldable pub shut_session : (session : ℕ) → Roster → Roster
shut_session i s = if s.close_once i then s else record s {
  playing = put i false s.playing;
  close_once = put i true s.close_once;
  closing = put i true s.closing;
}

-- The rest of Close, and RemovePlayer, whose event the mailbox takes.
unfoldable pub report_session : (session : ℕ) → Roster → Roster
report_session i s =
    if s.closing i
    then record s {
      closing = put i false s.closing;
      removals = if s.registered i then s.removals ++ (i ∷ []) else s.removals;
    }
    else s

-- `key` gives strings.ToLower of a session's name.
module _ (key : ℕ → List ℕ) where
  unfoldable pub check_player : (session : ℕ) → Roster → Roster
  check_player i s =
      if not (s.playing i) || s.close_once i then s else record s { owner = checked i }

  unfoldable pub register_player : (session : ℕ) → Roster → Roster
  register_player i s =
      if s.registered i
      then record s { owner = resting }
      else record s { registered = put i true s.registered; owner = registering i }

  -- The session of another player of the name is kept, and the new one closed.
  unfoldable pub publish_player : (session : ℕ) → Roster → Roster
  unfolding load_player
  publish_player i s =
      let refused : Roster = record s { registered = put i false s.registered; owner = resting } in
      elim (load_player (key i) s.players) [
        | none ↦ record s { players = (key i, i) ∷ s.players; owner = published i }
        | some j ↦ if j == i then refused else record refused {
          playing = put i false s.playing;
          close_once = put i true s.close_once;
        }
      ]

  unfoldable pub count_player : (session : ℕ) → Roster → Roster
  unfolding compare_and_delete
  count_player i s =
      if not (s.playing i) || s.close_once i
      then record s {
        players = (compare_and_delete (key i) i s.players).1;
        registered = put i false s.registered;
        owner = resting;
      }
      else record s {
        online_count = (s.online_count + 1) % 2 ^ 32;
        total_logins = (s.total_logins + 1) % 2 ^ 64;
        owner = resting;
      }

  unfoldable pub remove_player_owned : (session : ℕ) → Roster → Roster
  unfolding compare_and_delete
  remove_player_owned i s =
      let (deleted, rest) = compare_and_delete (key i) i s.players in
      let removed : Roster = record s { registered = put i false s.registered; players = rest } in
      if not (s.registered i)
      then s
      else if deleted
      then record removed { online_count = (s.online_count + (2 ^ 32 - 1)) % 2 ^ 32 }
      else removed

  -- The owner takes the next critical event from the mailbox.
  unfoldable pub remove_next : List ℕ → Roster → Roster
  unfolding remove_player_owned
  remove_next [] s = s
  remove_next (i ∷ is) s = remove_player_owned i (record s { removals = is })

  -- The owner goes on with AddPlayer.
  unfoldable pub next_add : Owner → Roster → Roster
  unfolding register_player publish_player count_player
  next_add resting s = s
  next_add (checked i) s = register_player i s
  next_add (registering i) s = publish_player i s
  next_add (published i) s = count_player i s

  -- What the owner begins, when it is in no AddPlayer.
  unfoldable pub begin_add : Owner → (session : ℕ) → Roster → Roster
  unfolding check_player
  begin_add resting i s = check_player i s
  begin_add (checked j) i s = s
  begin_add (registering j) i s = s
  begin_add (published j) i s = s

  unfoldable pub begin_removal : Owner → Roster → Roster
  unfolding remove_next
  begin_removal resting s = remove_next s.removals s
  begin_removal (checked j) s = s
  begin_removal (registering j) s = s
  begin_removal (published j) s = s

-- `enters` is the transition to Play, which a Close prevents.
pub data RosterEvent : Type 0 where
  enters adds shuts reports : (session : ℕ) → RosterEvent
  goes_on removes : RosterEvent

unfoldable pub happen : (key : ℕ → List ℕ) → RosterEvent → Roster → Roster
unfolding shut_session report_session begin_add next_add begin_removal
happen key (enters i) s = if s.close_once i then s else record s { playing = put i true s.playing }
happen key (adds i) s = begin_add key s.owner i s
happen key (shuts i) s = shut_session i s
happen key (reports i) s = report_session i s
happen key goes_on s = next_add key s.owner s
happen key removes s = begin_removal key s.owner s

unfoldable pub run_roster : (key : ℕ → List ℕ) → List RosterEvent → Roster → Roster
unfolding happen
run_roster key [] s = s
run_roster key (e ∷ es) s = run_roster key es (happen key e s)
