-- ===== src/Players/Roster/Steps.antt =====
-- Each step keeps what holds of a roster.
use cyu_core.Base.{
  ℕ, ◌+◌, ◌≡◌, refl, ap, ◌∙◌, true, not, ◌||◌, List, ◌∷◌, ◌==◌, length, inl, inr, Bool-cases,
  Option-cases, arith, if-elim,
}
use mathlib.Core.Path.{subst}
use cyu_core.Players.Roster.{
  resting, checked, registering, published, Roster, put, load_player, compare_and_delete,
  shut_session, report_session, check_player, register_player, publish_player, count_player,
  remove_player_owned,
}
use cyu_core.Players.Roster.Entries.{
  is_stored, load_free, deleted_stored, length-deleted, one_if, IsKeyed-after, stored_cons,
  stored_after,
}
use cyu_core.Players.Roster.Sound.{
  IsSoundAt, IsSound, reported_after, without_one, one_less, open_reported, still_reported,
  others_reported, free_of_unregistered,
}

module _ (key : ℕ → List ℕ) where
  pub IsSound-shut_session : (i : ℕ) (s : Roster) → IsSound key s → IsSound key (shut_session i s)
  unfolding shut_session
  IsSound-shut_session i s good =
      if-elim (IsSound key) (s.close_once i) _ _ (λ e. good)
        (λ e. record {
          keyed = good.keyed;
          bounded = good.bounded;
          counted = good.counted;
          known = good.known;
          seated = good.seated;
          reported = λ j. ground (arith, good.reported j);
          admitted = good.admitted;
        })

  pub IsSound-report_session :
      (i : ℕ) (s : Roster) → IsSound key s → IsSound key (report_session i s)
  unfolding report_session
  IsSound-report_session i s good =
      if-elim (IsSound key) (s.closing i) _ _
        (λ e. record {
          keyed = good.keyed;
          bounded = good.bounded;
          counted = good.counted;
          known = good.known;
          seated = good.seated;
          reported = λ j. reported_after i j s e (good.reported j);
          admitted = good.admitted;
        })
        (λ e. good)

  pub IsSound-enter :
      (i : ℕ) (s : Roster)
      → IsSound key s
      → IsSound key (record s { playing = put i true s.playing })
  IsSound-enter i s good = record {
    keyed = good.keyed;
    bounded = good.bounded;
    counted = good.counted;
    known = good.known;
    seated = good.seated;
    reported = good.reported;
    admitted = good.admitted;
  }

  -- The owner rests as long as it is in no AddPlayer.
  pub IsSound-check_player :
      (i : ℕ) (s : Roster) → s.owner ≡ resting → IsSound key s → IsSound key (check_player key i s)
  unfolding check_player
  IsSound-check_player i s at good =
      let rests = subst (λ o. IsSoundAt key o s) at good in
      if-elim (IsSound key) (not (s.playing i) || s.close_once i) _ _ (λ e. good)
        (λ e. record {
          keyed = rests.keyed;
          bounded = rests.bounded;
          counted = rests.counted;
          known = rests.known;
          seated = rests.seated;
          reported = rests.reported;
          admitted = rests.admitted;
        })

  pub IsSound-register_player :
      (i : ℕ) (s : Roster) → IsSoundAt key (checked i) s → IsSound key (register_player key i s)
  unfolding register_player
  IsSound-register_player i s good =
      if-elim (IsSound key) (s.registered i) _ _
        (λ e. record {
          keyed = good.keyed;
          bounded = good.bounded;
          counted = good.counted;
          known = good.known;
          seated = good.seated;
          reported = good.reported;
          admitted = λ j. refl;
        })
        (λ e. record {
          keyed = good.keyed;
          bounded = good.bounded;
          counted = good.counted;
          known = λ j. ground (arith, good.known j);
          seated = λ j. ground (arith, good.seated j);
          reported = λ j. ground (arith, good.reported j);
          admitted = λ j. elim (Bool-cases (j == i)) [
            | inl d ↦ rw d (free_of_unregistered i j s d e (good.seated j))
            | inr d ↦ rw d refl
          ];
        })

  pub IsSound-publish_player :
      (i : ℕ) (s : Roster) → IsSoundAt key (registering i) s → IsSound key (publish_player key i s)
  unfolding publish_player
  IsSound-publish_player i s good = elim (Option-cases (load_player (key i) s.players)) [
    | inl free ↦
        rw (free, publish_player)
          (record {
            keyed = (refl, load_free (key i) s.players free, good.keyed);
            bounded = good.bounded;
            counted = ground (arith, good.counted);
            known = λ j. rw (stored_cons (key i) i j s.players) (ground (arith, good.known j));
            seated = λ j.
                rw (stored_cons (key i) i j s.players)
                  (ground (arith, good.seated j, good.admitted j));
            reported = good.reported;
            admitted = λ j. rw (stored_cons (key i) i j s.players) (ground arith);
          })
    | inr (k, d) ↦
        rw (d, publish_player)
          (if-elim (IsSound key) (k == i) _ _
            (λ e. record {
              keyed = good.keyed;
              bounded = good.bounded;
              counted = good.counted;
              known = λ j. ground (arith, good.known j);
              seated = λ j. ground (arith, good.seated j, good.admitted j);
              reported = λ j. ground (arith, good.reported j);
              admitted = λ j. refl;
            })
            (λ e. record {
              keyed = good.keyed;
              bounded = good.bounded;
              counted = good.counted;
              known = λ j. ground (arith, good.known j);
              seated = λ j. ground (arith, good.seated j, good.admitted j);
              reported = λ j. ground (arith, good.reported j);
              admitted = λ j. refl;
            }))
  ]

  pub IsSound-count_player :
      (i : ℕ) (s : Roster) → IsSoundAt key (published i) s → IsSound key (count_player key i s)
  unfolding count_player
  IsSound-count_player i s good =
      if-elim (IsSound key) (not (s.playing i) || s.close_once i) _ _
        (λ e. record {
          keyed = IsKeyed-after key (key i) i s.players good.keyed;
          bounded = good.bounded;
          counted =
              let there : is_stored i s.players ≡ true = ground (arith, good.admitted i) in
              let found = deleted_stored key i s.players good.keyed ∙ there in
              let less =
                length-deleted (key i) i s.players
                ∙ ap (λ b. length (compare_and_delete (key i) i s.players).1 + one_if b) found in
              without_one s.online_count _ _ less good.counted;
          known =
              λ j. rw (stored_after key i j s.players good.keyed) (ground (arith, good.known j));
          seated =
              λ j. rw (stored_after key i j s.players good.keyed) (ground (arith, good.seated j));
          reported = λ j. ground (arith, good.reported j);
          admitted = λ j. refl;
        })
        (λ e. record {
          keyed = good.keyed;
          bounded = omega arith;
          counted = omega (arith, good.counted);
          known = good.known;
          seated = good.seated;
          reported = λ j. open_reported i j s e (good.reported j);
          admitted = λ j. refl;
        })

  pub IsSound-remove_player_owned :
      (i : ℕ) (is : List ℕ) (s : Roster)
      → s.removals ≡ i ∷ is
      → IsSoundAt key resting s
      → IsSoundAt key resting (remove_player_owned key i (record s { removals = is }))
  unfolding remove_player_owned
  IsSound-remove_player_owned i is s at good =
      if-elim (IsSoundAt key resting) (not (s.registered i)) _ _
        (λ e. record {
          keyed = good.keyed;
          bounded = good.bounded;
          counted = good.counted;
          known = good.known;
          seated = good.seated;
          reported = λ j. still_reported i j is s at (ground (arith, e)) (good.reported j);
          admitted = λ j. refl;
        })
        (λ e.
          let found = deleted_stored key i s.players good.keyed in
          let there : is_stored i s.players ≡ true = ground (arith, e, good.known i) in
          let less =
            length-deleted (key i) i s.players
            ∙ ap (λ b. length (compare_and_delete (key i) i s.players).1 + one_if b)
                (found ∙ there) in
          if-elim (IsSoundAt key resting) (compare_and_delete (key i) i s.players).0 _ _
            (λ d. record {
              keyed = IsKeyed-after key (key i) i s.players good.keyed;
              bounded = omega arith;
              counted = one_less s.online_count _ _ less good.counted;
              known = λ j.
                  rw (stored_after key i j s.players good.keyed) (ground (arith, good.known j));
              seated = λ j.
                  rw (stored_after key i j s.players good.keyed) (ground (arith, good.seated j));
              reported = λ j. others_reported i j is s at (good.reported j);
              admitted = λ j. refl;
            })
            (λ d. absurd ground (arith, d, found, there)))
