-- ===== src/Players/Roster/Counted.antt =====
-- What holds of the player map, the counter and the sessions after any interleaving of the steps.
use cyu_core.Base.{
  ℕ, ◌%◌, ◌^◌, ◌≡◌, refl, sym, ◌∙◌, false, not, ◌&&◌, ◌||◌, List, [], ◌∷◌, length, arith, if-elim,
}
use mathlib.Core.Path.{subst}
use cyu_core.Players.Roster.{
  Owner, resting, checked, registering, published, Roster, new_roster, compare_and_delete,
  remove_player_owned, remove_next, next_add, begin_add, begin_removal, RosterEvent, enters, adds,
  shuts, reports, goes_on, removes, happen, run_roster,
}
use cyu_core.Players.Roster.Entries.{is_stored, IsKeyed}
use cyu_core.Players.Roster.Sound.{is_waiting, IsSoundAt, IsSound}
use cyu_core.Players.Roster.Steps.{
  IsSound-shut_session, IsSound-report_session, IsSound-enter, IsSound-check_player,
  IsSound-register_player, IsSound-publish_player, IsSound-count_player,
  IsSound-remove_player_owned,
}

module _ (key : ℕ → List ℕ) where
  IsSound-next_add :
      (o : Owner) (s : Roster) → s.owner ≡ o → IsSound key s → IsSound key (next_add key o s)
  unfolding next_add
  IsSound-next_add resting s at good = good
  IsSound-next_add (checked i) s at good =
      IsSound-register_player key i s (subst (λ o. IsSoundAt key o s) at good)
  IsSound-next_add (registering i) s at good =
      IsSound-publish_player key i s (subst (λ o. IsSoundAt key o s) at good)
  IsSound-next_add (published i) s at good =
      IsSound-count_player key i s (subst (λ o. IsSoundAt key o s) at good)

  IsSound-begin_add :
      (o : Owner) (i : ℕ) (s : Roster)
      → s.owner ≡ o
      → IsSound key s
      → IsSound key (begin_add key o i s)
  unfolding begin_add
  IsSound-begin_add resting i s at good = IsSound-check_player key i s at good
  IsSound-begin_add (checked k) i s at good = good
  IsSound-begin_add (registering k) i s at good = good
  IsSound-begin_add (published k) i s at good = good

  same_owner : (i : ℕ) (s : Roster) → (remove_player_owned key i s).owner ≡ s.owner
  unfolding remove_player_owned
  same_owner i s =
      if-elim (λ (r : Roster). r.owner ≡ s.owner) (not (s.registered i)) _ _ (λ e. refl)
        (λ e.
          if-elim (λ (r : Roster). r.owner ≡ s.owner) (compare_and_delete (key i) i s.players).0 _ _
            (λ d. refl) (λ d. refl))

  IsSound-remove_next :
      (is : List ℕ) (s : Roster)
      → s.removals ≡ is
      → s.owner ≡ resting
      → IsSound key s
      → IsSound key (remove_next key is s)
  unfolding remove_next
  IsSound-remove_next [] s waits at good = good
  IsSound-remove_next (i ∷ is) s waits at good =
      let t : Roster = record s { removals = is } in
      let r = remove_player_owned key i t in
      subst (λ o. IsSoundAt key o r) (sym (same_owner i t ∙ at))
        (IsSound-remove_player_owned key i is s waits (subst (λ o. IsSoundAt key o s) at good))

  IsSound-begin_removal :
      (o : Owner) (s : Roster) → s.owner ≡ o → IsSound key s → IsSound key (begin_removal key o s)
  unfolding begin_removal
  IsSound-begin_removal resting s at good = IsSound-remove_next s.removals s refl at good
  IsSound-begin_removal (checked k) s at good = good
  IsSound-begin_removal (registering k) s at good = good
  IsSound-begin_removal (published k) s at good = good

  IsSound-happen : (e : RosterEvent) (s : Roster) → IsSound key s → IsSound key (happen key e s)
  unfolding happen
  IsSound-happen (enters i) s good =
      if-elim (IsSound key) (s.close_once i) _ _ (λ e. good) (λ e. IsSound-enter key i s good)
  IsSound-happen (adds i) s good = IsSound-begin_add s.owner i s refl good
  IsSound-happen (shuts i) s good = IsSound-shut_session key i s good
  IsSound-happen (reports i) s good = IsSound-report_session key i s good
  IsSound-happen goes_on s good = IsSound-next_add s.owner s refl good
  IsSound-happen removes s good = IsSound-begin_removal s.owner s refl good

  IsSound-run_roster :
      (es : List RosterEvent) (s : Roster) → IsSound key s → IsSound key (run_roster key es s)
  unfolding run_roster
  IsSound-run_roster [] s good = good
  IsSound-run_roster (e ∷ es) s good =
      IsSound-run_roster es (happen key e s) (IsSound-happen e s good)

  IsSound-new_roster : IsSound key new_roster
  IsSound-new_roster = record {
    keyed = tt;
    bounded = omega arith;
    counted = refl;
    known = λ j. refl;
    seated = λ j. refl;
    reported = λ j. refl;
    admitted = λ j. refl;
  }

-- In every interleaving of the steps of AddPlayer, of Close and of the removals on a new server
-- whose tick loop runs, whenever the owner is in no AddPlayer: each player stands under its own key
-- and no key twice, the online count is the number of players modulo 2 ^ 32, a session is among
-- them exactly if it is registered, and if such a session is closed, its Close is under way or its
-- removal waits in the mailbox.
pub players_counted :
    (key : ℕ → List ℕ) (i : ℕ) (es : List RosterEvent)
    → let s = run_roster key es new_roster in
      s.owner ≡ resting
      → IsKeyed key s.players
        × (s.online_count ≡ length s.players % 2 ^ 32)
        × (is_stored i s.players ≡ s.registered i)
        × ((s.close_once i && s.registered i) && not (s.closing i || is_waiting i s.removals)
            ≡ false)
players_counted key i es at =
    let s = run_roster key es new_roster in
    let good =
      subst (λ o. IsSoundAt key o s) at
        (IsSound-run_roster key es new_roster (IsSound-new_roster key)) in
    (
      good.keyed,
      omega (arith, good.bounded, good.counted),
      ground (arith, good.known i, good.seated i),
      ground (arith, good.reported i),
    )
