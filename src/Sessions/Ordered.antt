-- ===== src/Sessions/Ordered.antt =====
-- Every step of a session keeps what holds of it.
use cyu_core.Base.{
  ℕ, ◌≤◌, ◌≡◌, refl, sym, ◌∙◌, Bool, true, Option, none, some, List, [], ◌∷◌, arith, if-elim,
  length, if◌then◌else◌,
}
use cyu_core.Sessions.{
  SessionState, handshake, status, login, config, play, closed, play_pending, is_state, PacketOut,
  Session, new_player_session, close, receive, write_step,
}
use cyu_core.Sessions.Login.{handle_packet, happen, run_session}
use cyu_core.Sessions.Handshake.{
  Environment, SessionEvent, reads, writes, enters, sends, removed, closes,
}
use cyu_core.Sessions.Sound.{is_playing, was_queued, IsOrdered}
use cyu_core.Sessions.Kept.{
  IsSound, IsSound-as, IsSound-close, IsSound-send_packet, open_state, IsSound-handshake,
}
use cyu_core.Sessions.Entered.{
  IsSound-status, IsSound-login, IsSound-post_play, IsSound-config, IsSound-enter_play,
}

module _ (env : Environment) where
  receive_bound : (ps : List PacketOut) → length (receive ps).1 ≤ length ps
  receive_bound [] = omega arith
  receive_bound (p ∷ ps) = omega arith

  IsSound-write_step : (written : Bool) (s : Session) → IsSound s → IsSound (write_step written s)
  unfolding write_step
  IsSound-write_step written s h =
      let taken : Session = record s { queue = (receive s.queue).1 } in
      let h' = IsSound-as s taken refl refl (receive_bound s.queue) refl refl h in
      if-elim IsSound s.close_once s _ (λ e. h)
        (λ e. received_as (receive s.queue).0 written s taken h h')
    where
      received_as :
          (p : Option PacketOut) (written : Bool) (s taken : Session)
          → IsSound s
          → IsSound taken
          → IsSound (elim p [ none ↦ s | some packet ↦ if written then taken else close taken ])
      received_as none written s taken h h' = h
      received_as (some packet) written s taken h h' =
          if-elim IsSound written taken (close taken) (λ e. h') (λ e. IsSound-close taken h')

  IsSound-packet :
      (st : SessionState) (id : ℕ) (payload : List ℕ) (posted : Bool) (s : Session)
      → IsSound s
      → IsSound (handle_packet env st id payload posted s)
  unfolding handle_packet
  IsSound-packet handshake id payload posted s h = IsSound-handshake id payload s h
  IsSound-packet status id payload posted s h = IsSound-status env id payload s h
  IsSound-packet login id payload posted s h = IsSound-login env id payload s h
  IsSound-packet config id payload posted s h = IsSound-config env id posted s h
  IsSound-packet play id payload posted s h = IsSound-post_play env id payload posted s h
  IsSound-packet play_pending id payload posted s h = h
  IsSound-packet closed id payload posted s h = IsSound-close s h

  play_playing : (st : SessionState) → is_state st play ≡ true → is_playing st ≡ true
  play_playing handshake h = absurd cc
  play_playing status h = absurd cc
  play_playing login h = absurd cc
  play_playing config h = absurd cc
  play_playing play h = refl
  play_playing closed h = absurd cc
  play_playing play_pending h = refl

  -- A session in the game has queued FinishConfiguration.
  playing_queued :
      (s : Session) → IsSound s → is_state s.state play ≡ true → was_queued 0x03 s.queued ≡ true
  playing_queued s (good, finished) at =
      finished (good.configured (play_playing s.state at))
        (sym good.closed_once ∙ open_state s.state play refl at)

  IsSound-happen : (e : SessionEvent) (s : Session) → IsSound s → IsSound (happen env e s)
  unfolding happen
  IsSound-happen (reads id payload posted) s h = IsSound-packet s.state id payload posted s h
  IsSound-happen (writes written) s h = IsSound-write_step written s h
  IsSound-happen (enters admitted disconnect) s h = IsSound-enter_play env admitted disconnect s h
  IsSound-happen (sends p) s h =
      if-elim IsSound (is_state s.state play) _ _
        (λ e. IsSound-send_packet p.id p.payload s h (λ d. playing_queued s h e)) (λ e. h)
  IsSound-happen removed s h = IsSound-as s _ refl refl (omega arith) refl refl h
  IsSound-happen closes s h = IsSound-close s h

  IsSound-run_session :
      (es : List SessionEvent) (s : Session) → IsSound s → IsSound (run_session env es s)
  unfolding run_session
  IsSound-run_session [] s h = h
  IsSound-run_session (e ∷ es) s h = IsSound-run_session es (happen env e s) (IsSound-happen e s h)

  IsSound-new_player_session : (entity_id : ℕ) → IsSound (new_player_session entity_id)
  IsSound-new_player_session entity_id = (
    record { closed_once = refl; bounded = omega arith; configured = λ h. absurd cc; ordered = tt },
    λ sent. absurd cc,
  )

-- In every sequence of packets, rounds of the write loop, events of the runtime owner and Close,
-- each a step, on a new session: at most 128 packets wait, the Play login packet is queued only
-- after FinishConfiguration, a session in the state Play has queued FinishConfiguration, and the
-- state is Closed exactly if Close has run.
pub run_session-IsOrdered :
    (env : Environment) (entity_id : ℕ) (es : List SessionEvent)
    → let s = run_session env es (new_player_session entity_id) in
      (length s.queue ≤ 128)
      × IsOrdered s.queued
      × (is_state s.state play ≡ true → was_queued 0x03 s.queued ≡ true)
      × (is_state s.state closed ≡ s.close_once)
run_session-IsOrdered env entity_id es =
    let s = run_session env es (new_player_session entity_id) in
    let sound =
      IsSound-run_session env es (new_player_session entity_id)
        (IsSound-new_player_session env entity_id) in
    let good = sound.0 in (good.bounded, good.ordered, playing_queued env s sound, good.closed_once)
