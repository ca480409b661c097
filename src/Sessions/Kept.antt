-- ===== src/Sessions/Kept.antt =====
-- What sending, closing and the transitions keep of a session.
use cyu_core.Base.{
  ℕ, ◌≤◌, ◌≡◌, refl, ap, sym, ◌∙◌, Bool, true, false, not, List, arith, if-elim, inl, inr,
  Outcome-cases, length, ◌==◌,
}
use cyu_core.Sessions.{
  SessionState, handshake, status, login, config, play, closed, play_pending, is_state, PacketOut,
  Session, transition_state, close, send_packet, send_packets,
}
use cyu_core.Sessions.Handshake.{decode_handshake, handle_handshake}
use cyu_core.Sessions.Sound.{
  is_playing, was_queued, IsOrdered, IsSafe, IsFinished, Keeps-IsFinished, IsSafe-close,
  IsFinished-close, MayQueue, send_packet-Sent, MayQueueAll, send_packets-AllSent,
}
use mathlib.Core.Path.{subst}

abbrev pub IsSound : Session → Type 0
IsSound s = IsSafe s × IsFinished s

-- The fields that the invariant does not read.
pub IsSound-as :
    (s s' : Session)
    → s'.state ≡ s.state
    → s'.close_once ≡ s.close_once
    → length s'.queue ≤ length s.queue
    → s'.configuration_sent ≡ s.configuration_sent
    → s'.queued ≡ s.queued
    → IsSound s
    → IsSound s'
IsSound-as s s' st c q cf l (good, finished) = (
  record {
    closed_once = ap (λ (t : SessionState). is_state t closed) st ∙ good.closed_once ∙ sym c;
    bounded = omega (arith, good.bounded);
    configured = λ h. cf ∙ good.configured (ap is_playing (sym st) ∙ h);
    ordered = subst IsOrdered (sym l) good.ordered;
  },
  λ sent opened. ap (was_queued 0x03) l ∙ finished (sym cf ∙ sent) (sym c ∙ opened),
)

pub IsSound-close : (s : Session) → IsSound s → IsSound (close s)
IsSound-close s h = (IsSafe-close s h.0, IsFinished-close s)

pub IsSound-send_packet :
    (id : ℕ) (payload : List ℕ) (s : Session)
    → IsSound s
    → MayQueue id s
    → IsSound (send_packet id payload s).1
IsSound-send_packet id payload s h may =
    let sent = send_packet-Sent id payload s h.0 may in
    (sent.safe, Keeps-IsFinished s _ sent.keeps h.1)

pub IsSound-send_packets :
    (ps : List PacketOut) (s : Session)
    → IsSound s
    → MayQueueAll ps s
    → IsSound (send_packets ps s).1
IsSound-send_packets ps s h may =
    let sent = send_packets-AllSent ps s h.0 may in (sent.safe, Keeps-IsFinished s _ sent.keeps h.1)

pub open_state :
    (a old : SessionState)
    → is_state old closed ≡ false
    → is_state a old ≡ true
    → is_state a closed ≡ false
open_state handshake old h k = refl
open_state status old h k = refl
open_state login old h k = refl
open_state config old h k = refl
open_state play old h k = refl
open_state play_pending old h k = refl
open_state closed handshake h k = absurd cc
open_state closed status h k = absurd cc
open_state closed login h k = absurd cc
open_state closed config h k = absurd cc
open_state closed play h k = absurd cc
open_state closed play_pending h k = absurd cc
open_state closed closed h k = absurd cc

pub IsSound-transition_state :
    (old next : SessionState) (s : Session)
    → is_state old closed ≡ false
    → is_state next closed ≡ false
    → (is_state s.state old ≡ true → is_playing next ≡ true → s.configuration_sent ≡ true)
    → IsSound s
    → IsSound (transition_state old next s).1
unfolding transition_state
IsSound-transition_state old next s o n cf (good, finished) =
    if-elim (λ (r : Bool × Session). IsSound r.1) (is_state s.state old)
      (true, record s { state = next }) (false, s)
      (λ e. (
        record {
          closed_once = n ∙ sym (open_state s.state old o e) ∙ good.closed_once;
          bounded = good.bounded;
          configured = cf e;
          ordered = good.ordered;
        },
        finished,
      ))
      (λ e. (good, finished))

pub transition-queued :
    (old next : SessionState) (s : Session) → (transition_state old next s).1.queued ≡ s.queued
unfolding transition_state
transition-queued old next s =
    if-elim (λ (r : Bool × Session). r.1.queued ≡ s.queued) (is_state s.state old) _ _ (λ e. refl)
      (λ e. refl)

pub IsSound-handshake :
    (id : ℕ) (payload : List ℕ) (s : Session) → IsSound s → IsSound (handle_handshake id payload s)
unfolding handle_handshake
IsSound-handshake id payload s h =
    if-elim IsSound (not (id == 0)) s _ (λ e. h)
      (λ e. elim (Outcome-cases (decode_handshake payload)) [
        | inr (x, d) ↦ rw d h
        | inl (((proto, next), rest), d) ↦
            let s' : Session = record s { client_proto = proto } in
            let h' = IsSound-as s s' refl refl (omega arith) refl refl h in
            rw d (
              if-elim IsSound (next == 1) _ _
                (λ e. IsSound-transition_state handshake status s' refl refl (λ a b. absurd cc) h')
                (λ e.
                  if-elim IsSound (next == 2) _ _
                    (λ e.
                      IsSound-transition_state handshake login s' refl refl (λ a b. absurd cc) h')
                    (λ e. h')))
      ])
