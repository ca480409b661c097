-- ===== src/Sessions/Entered.antt =====
-- The handlers from the status to the game keep what holds of a session.
use cyu_core.Base.{
  ℕ, ◌≡◌, refl, ap, ◌∙◌, Bool, true, false, not, ◌||◌, Option, none, some, List, [], ◌∷◌, ◌++◌,
  arith, if-elim, inl, inr, Option-cases, Outcome-cases, ◌==◌, if◌then◌else◌, All,
}
use cyu_core.Sessions.{
  SessionState, handshake, status, login, config, play, closed, play_pending, is_state, PacketOut,
  Session, transition_state, close, send_packet, send_packets,
}
use cyu_core.Sessions.Play.{handle_play}
use cyu_core.Sessions.Login.{
  handle_status, handle_login_start, handle_login, registry_packets, send_configuration,
  handle_known_packs, handle_finish, handle_config, initial_play_packets, add_player, enter_play,
  post_play,
}
use cyu_core.Sessions.Handshake.{Environment}
use cyu_core.Sessions.Sound.{
  is_playing, was_queued, IsSafe, IsSafe-close, IsFinished-close, send_packet-Sent, MayQueueAll,
  send_packets-AllSent, first_may, rest_may,
}
use cyu_core.Sessions.Kept.{
  IsSound, IsSound-as, IsSound-close, IsSound-send_packet, IsSound-send_packets,
  IsSound-transition_state, transition-queued,
}

module _ (env : Environment) where
  pub IsSound-status :
      (id : ℕ) (payload : List ℕ) (s : Session)
      → IsSound s
      → IsSound (handle_status env id payload s)
  unfolding handle_status
  IsSound-status id payload s h =
      if-elim IsSound (id == 0) _ _ (λ e. IsSound-send_packet 0 _ s h (λ a. absurd cc))
        (λ e.
          if-elim IsSound (id == 1) _ _ (λ e. IsSound-send_packet 1 payload s h (λ a. absurd cc))
            (λ e. h))

  pub IsSound-login_start :
      (payload : List ℕ) (s : Session) → IsSound s → IsSound (handle_login_start env payload s)
  unfolding handle_login_start
  IsSound-login_start payload s h =
      IsSound-send_packet 2 _ _ (IsSound-as s _ refl refl (omega arith) refl refl h)
        (λ a. absurd cc)

  pub IsSound-login :
      (id : ℕ) (payload : List ℕ) (s : Session)
      → IsSound s
      → IsSound (handle_login env id payload s)
  unfolding handle_login
  IsSound-login id payload s h =
      let moved = IsSound-transition_state login config s refl refl (λ a b. absurd cc) h in
      if-elim IsSound (id == 0) _ _ (λ e. IsSound-login_start payload s h)
        (λ e.
          if-elim IsSound (id == 3) _ _
            (λ e.
              if-elim IsSound (transition_state login config s).0 _ _
                (λ e. IsSound-send_packet 0x0e _ _ moved (λ a. absurd cc)) (λ e. moved))
            (λ e. h))

  pub IsSound-post_play :
      (id : ℕ) (payload : List ℕ) (posted : Bool) (s : Session)
      → IsSound s
      → IsSound (post_play env id payload posted s)
  unfolding post_play
  IsSound-post_play id payload posted s h = elim (Outcome-cases (handle_play id payload)) [
    | inr (x, d) ↦ rw (d, post_play) h
    | inl (r, d) ↦
        rw (d, post_play)
          (if-elim IsSound (not (is_state s.state play)) s (if posted then s else close s) (λ e. h)
            (λ e. if-elim IsSound posted s (close s) (λ e. h) (λ e. IsSound-close s h)))
  ]

  pub IsSound-finish :
      (posted : Bool) (s : Session) → IsSound s → IsSound (handle_finish env posted s)
  unfolding handle_finish
  IsSound-finish posted s h =
      if-elim IsSound (not s.configuration_sent) _ _ (λ e. IsSound-close s h)
        (λ e.
          let moved =
            IsSound-transition_state config play_pending s refl refl (λ a b. ground arith) h in
          let s' = (transition_state config play_pending s).1 in
          if-elim IsSound (not (transition_state config play_pending s).0) _ _ (λ e. moved)
            (λ e. if-elim IsSound posted s' (close s') (λ e. moved) (λ e. IsSound-close s' moved)))

  -- Every packet of a list was queued, if sending them succeeded.
  pub each_queued :
      (ps : List PacketOut) (s : Session)
      → IsSafe s
      → MayQueueAll ps s
      → (send_packets ps s).0 ≡ true
      → All (λ (p : PacketOut). was_queued p.id (send_packets ps s).1.queued ≡ true) ps
  unfolding send_packets
  each_queued [] s good may h = tt
  each_queued (p ∷ ps) s good may succeeded =
      let r = send_packet p.id p.payload s in
      let one = send_packet-Sent p.id p.payload s good (first_may p ps s may) in
      let may' = rest_may p ps s r.1 one.keeps may in
      let rest = send_packets-AllSent ps r.1 one.safe may' in
      let kept = rest.keeps in
      if-elim
        (λ (o : Bool × Session).
          o.0 ≡ true → All (λ (q : PacketOut). was_queued q.id o.1.queued ≡ true) (p ∷ ps))
        r.0 (send_packets ps r.1) (false, r.1)
        (λ e h.
          let first = (one.taken e).0 in
          (kept.still_queued p.id first, each_queued ps r.1 one.safe may' h))
        (λ e h. absurd cc) succeeded

  pub no_play_login :
      (ps : List (List ℕ)) (tags : List ℕ)
      → All
          (λ (p : PacketOut). (p.id == 0x31) ≡ false)
          (registry_packets env ps
            ++ (record { id = 0x0d; payload = tags } ∷ record { id = 0x03; payload = [] } ∷ []))
  no_play_login [] tags = (refl, (refl, tt))
  no_play_login (p ∷ ps) tags = (refl, no_play_login ps tags)

  pub last_of :
      (P : PacketOut → Type 0) (ps : List PacketOut) (a b : PacketOut)
      → All P (ps ++ (a ∷ b ∷ []))
      → P b
  last_of P [] a b h = h.1.0
  last_of P (p ∷ ps) a b h = last_of P ps a b h.1

  -- Sending the configuration keeps the session safe, and queues all of it if it succeeds.
  abbrev pub IsSentConfiguration : Bool × Session → Type 0
  IsSentConfiguration r = IsSafe r.1 × (r.0 ≡ true → was_queued 0x03 r.1.queued ≡ true)

  pub send_configuration_lem :
      (s : Session) → IsSafe s → IsSentConfiguration (send_configuration env s)
  unfolding send_configuration
  send_configuration_lem s good = elim (Option-cases env.configuration) [
    | inl e ↦ rw (e, send_configuration) (good, λ h. absurd cc)
    | inr ((registry_data, tags), e) ↦
        let ps = registry_packets env registry_data in
        let update : PacketOut = record { id = 0x0d; payload = tags } in
        let finish : PacketOut = record { id = 0x03; payload = [] } in
        let all = ps ++ (update ∷ finish ∷ []) in
        let may : MayQueueAll all s = inr (no_play_login registry_data tags) in
        let sent = send_packets-AllSent all s good may in
        rw (e, send_configuration)
          (sent.safe, λ h. last_of _ ps update finish (each_queued all s good may h))
  ]

  pub IsSound-known_packs : (s : Session) → IsSound s → IsSound (handle_known_packs env s)
  unfolding handle_known_packs
  IsSound-known_packs s h =
      let good = h.0 in
      let asked : Session = record s { configuration_sent = true } in
      let safe : IsSafe asked = record {
        closed_once = good.closed_once;
        bounded = good.bounded;
        configured = λ e. refl;
        ordered = good.ordered;
      } in
      let sent = send_configuration_lem asked safe in
      let r = send_configuration env asked in
      if-elim IsSound s.configuration_sent _ _ (λ e. IsSound-close s h)
        (λ e.
          if-elim IsSound r.0 r.1 (close r.1) (λ d. (sent.0, λ a b. sent.1 d))
            (λ d. (IsSafe-close r.1 sent.0, IsFinished-close r.1)))

  pub IsSound-config :
      (id : ℕ) (posted : Bool) (s : Session) → IsSound s → IsSound (handle_config env id posted s)
  unfolding handle_config
  IsSound-config id posted s h =
      if-elim IsSound (id == 0x07) _ _ (λ e. IsSound-known_packs s h)
        (λ e. if-elim IsSound (id == 0x03) _ _ (λ e. IsSound-finish posted s h) (λ e. h))

  pub IsSound-add_player :
      (admitted : Option (List PacketOut)) (disconnect : List ℕ) (s : Session)
      → IsSound s
      → was_queued 0x03 s.queued ≡ true
      → IsSound (add_player env admitted disconnect s)
  unfolding add_player
  IsSound-add_player none disconnect s h q =
      IsSound-close _ (IsSound-send_packet 0x20 disconnect s h (λ e. q))
  IsSound-add_player (some packets) disconnect s h q =
      IsSound-send_packets packets (record s { registered = true })
        (IsSound-as s _ refl refl (omega arith) refl refl h) (inl q)

  pub pending_playing : (st : SessionState) → is_state st play_pending ≡ true → is_playing st ≡ true
  pending_playing handshake h = absurd cc
  pending_playing status h = absurd cc
  pending_playing login h = absurd cc
  pending_playing config h = absurd cc
  pending_playing play h = absurd cc
  pending_playing closed h = absurd cc
  pending_playing play_pending h = refl

  pub IsSound-enter_play :
      (admitted : Option (List PacketOut)) (disconnect : List ℕ) (s : Session)
      → IsSound s
      → IsSound (enter_play env admitted disconnect s)
  unfolding enter_play
  IsSound-enter_play admitted disconnect s h =
      let good = h.0 in
      let placed : Session = record s { game_mode = env.game_mode } in
      let h' = IsSound-as s placed refl refl (omega arith) refl refl h in
      let t = transition_state play_pending play placed in
      let moved =
        IsSound-transition_state play_pending play placed refl refl
          (λ a b. good.configured (pending_playing s.state a)) h' in
      let ps = initial_play_packets env t.1 in
      let r = send_packets ps t.1 in
      if-elim IsSound (not (is_state s.state play_pending) || s.close_once) s _ (λ e. h)
        (λ e.
          let pending : is_state s.state play_pending ≡ true = ground arith in
          let opened : s.close_once ≡ false = ground arith in
          let queued = h.1 (good.configured (pending_playing s.state pending)) opened in
          let queued' : was_queued 0x03 t.1.queued ≡ true =
            ap (was_queued 0x03) (transition-queued play_pending play placed) ∙ queued in
          let may : MayQueueAll ps t.1 = inl queued' in
          let sent = send_packets-AllSent ps t.1 (moved.0) may in
          let kept = sent.keeps in
          let sound = IsSound-send_packets ps t.1 moved may in
          if-elim IsSound (not t.0) t.1 _ (λ e. moved)
            (λ e.
              if-elim IsSound (not r.0) (close r.1) _ (λ e. IsSound-close r.1 sound)
                (λ e.
                  if-elim IsSound (not (is_state r.1.state play) || r.1.close_once) r.1 _
                    (λ e. sound)
                    (λ e.
                      IsSound-add_player admitted disconnect r.1 sound
                        (kept.still_queued 0x03 queued')))))
