-- ===== src/Players/Roster/Tests.antt =====
-- Players that join and leave, and the races of Close with AddPlayer.
use cyu_core.Base.{
  ℕ, ◌%◌, ◌^◌, ◌≡◌, refl, true, false, not, ◌&&◌, ◌||◌, List, [], ◌∷◌, ◌++◌, length, same,
  if◌then◌else◌, ◌==◌,
}
use cyu_core.Players.Roster.{
  new_roster, resting, RosterEvent, enters, adds, shuts, reports, goes_on, removes, run_roster,
}
use cyu_core.Players.Roster.Entries.{is_stored, IsKeyed}
use cyu_core.Players.Roster.Sound.{is_waiting}
use cyu_core.Players.Roster.Counted.{players_counted}

program : Unit {0}
unfolding run_roster same
program = tt

-- Sessions 1 and 2 have the names "a" and "b", and all others have the name of session 1.
abbrev names : ℕ → List ℕ
names i = if i == 2 then 0x62 ∷ [] else 0x61 ∷ []

abbrev joins : (session : ℕ) → List RosterEvent
joins i = enters i ∷ adds i ∷ goes_on ∷ goes_on ∷ goes_on ∷ []

abbrev leaves : (session : ℕ) → List RosterEvent
leaves i = shuts i ∷ reports i ∷ removes ∷ []

-- The first two join, the first one leaves.
abbrev a_day : List RosterEvent
a_day = joins 1 ++ (joins 2 ++ leaves 1)

left : (run_roster names a_day new_roster).players ≡ (0x62 ∷ [], 2) ∷ []
unfolding program
left = refl

-- The name is taken.
refused : (run_roster names (joins 1 ++ joins 3) new_roster).online_count ≡ 1
unfolding program
refused = refl

refused_closed : (run_roster names (joins 1 ++ joins 3) new_roster).close_once 3 ≡ true
unfolding program
refused_closed = refl

-- A Close between the check of the state and `registered` finds nothing to remove, and the second check
-- takes the session out of the map.
abbrev a_race : List RosterEvent
a_race = enters 1 ∷ adds 1 ∷ shuts 1 ∷ reports 1 ∷ goes_on ∷ goes_on ∷ goes_on ∷ []

raced : (run_roster names a_race new_roster).players ≡ []
unfolding program
raced = refl

rests : (run_roster names a_day new_roster).owner ≡ resting
unfolding program
rests = refl

players_counted_example :
    let s = run_roster names a_day new_roster in
    IsKeyed names s.players
    × (s.online_count ≡ length s.players % 2 ^ 32)
    × (is_stored 2 s.players ≡ s.registered 2)
    × ((s.close_once 2 && s.registered 2) && not (s.closing 2 || is_waiting 2 s.removals) ≡ false)
players_counted_example = players_counted names 2 a_day rests
