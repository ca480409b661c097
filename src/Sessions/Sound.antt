-- ===== src/Sessions/Sound.antt =====
-- What holds of a session whatever the client sends, in any interleaving with the write loop, the
-- runtime owner and Close.
use cyu_core.Base.{
  ℕ, ◌+◌, ◌≤◌, ◌<◌, ◌≡◌, refl, sym, ◌∙◌, Bool, true, false, ◌||◌, List, [], ◌∷◌, ◌++◌, arith,
  if-elim, inl, inr, ◌⊎◌, length, length-append, ltb, ◌==◌, if◌then◌else◌, All,
}
use cyu_core.Sessions.{
  SessionState, play, closed, play_pending, is_state, PacketOut, Session, close, enqueue,
  send_packet, send_packets,
}

abbrev pub is_playing : SessionState → Bool
is_playing st = is_state st play || is_state st play_pending

-- Whether a packet of the id was queued.
unfoldable pub was_queued : (id : ℕ) → List ℕ → Bool
was_queued id [] = false
was_queued id (i ∷ is) = (i == id) || was_queued id is

-- The Play login packet, 0x31, is queued only after FinishConfiguration, 0x03.
abbrev pub IsOrdered : List ℕ → Type 0
IsOrdered [] = Unit {0}
IsOrdered (i ∷ is) = ((i == 0x31) ≡ true → was_queued 0x03 is ≡ true) × IsOrdered is

-- All but that a session that has sent the configuration has queued all of it.
pub record IsSafe (s : Session) : Type 0 where
  pub closed_once : is_state s.state closed ≡ s.close_once
  pub bounded : length s.queue ≤ 128
  pub configured : is_playing s.state ≡ true → s.configuration_sent ≡ true
  pub ordered : IsOrdered s.queued

abbrev pub IsFinished : Session → Type 0
IsFinished s = s.configuration_sent ≡ true → s.close_once ≡ false → was_queued 0x03 s.queued ≡ true

-- What sending does to the rest: nothing, or it closes the session.
pub record Keeps (s s' : Session) : Type 0 where
  pub same_configuration : s'.configuration_sent ≡ s.configuration_sent
  pub still_queued : (id : ℕ) → was_queued id s.queued ≡ true → was_queued id s'.queued ≡ true
  pub still_open : s'.close_once ≡ false → s.close_once ≡ false

pub Keeps-refl : (s : Session) → Keeps s s
Keeps-refl s = record { same_configuration = refl; still_queued = λ id h. h; still_open = λ h. h }

pub Keeps-trans : (r s t : Session) → Keeps r s → Keeps s t → Keeps r t
Keeps-trans r s t a b = record {
  same_configuration = b.same_configuration ∙ a.same_configuration;
  still_queued = λ id h. b.still_queued id (a.still_queued id h);
  still_open = λ h. a.still_open (b.still_open h);
}

pub Keeps-IsFinished : (s s' : Session) → Keeps s s' → IsFinished s → IsFinished s'
Keeps-IsFinished s s' k h sent opened =
    k.still_queued 0x03 (h (sym k.same_configuration ∙ sent) (k.still_open opened))

-- The session as Close leaves it the first time.
abbrev shut : Session → Session
shut s = record s {
  state = closed;
  close_once = true;
  removals = if s.registered then s.removals + 1 else s.removals;
}

-- A property of a closed session, from the two cases.
pub close-elim :
    (P : Session → Type 0) (s : Session) → (s.close_once ≡ true → P s) → P (shut s) → P (close s)
unfolding close
close-elim P s again first = if-elim P s.close_once s (shut s) again (λ e. first)

pub IsSafe-close : (s : Session) → IsSafe s → IsSafe (close s)
IsSafe-close s good =
    close-elim IsSafe s (λ e. good)
      (record {
        closed_once = refl;
        bounded = good.bounded;
        configured = λ h. absurd cc;
        ordered = good.ordered;
      })

pub Keeps-close : (s : Session) → Keeps s (close s)
Keeps-close s =
    close-elim (Keeps s) s (λ e. Keeps-refl s)
      (record { same_configuration = refl; still_queued = λ id h. h; still_open = λ h. absurd cc })

close_closes : (s : Session) → (close s).close_once ≡ true
close_closes s = close-elim (λ t. t.close_once ≡ true) s (λ e. e) refl

pub IsFinished-close : (s : Session) → IsFinished (close s)
IsFinished-close s sent opened = absurd (let c = close_closes s in cc)

-- A packet of the id may be queued next.
abbrev pub MayQueue : ℕ → Session → Type 0
MayQueue id s = (id == 0x31) ≡ true → was_queued 0x03 s.queued ≡ true

-- Whether the packet was taken: the session stays as it was but for the queue, or it is closed.
pub record Sent (id : ℕ) (s : Session) (r : Bool × Session) : Type 0 where
  pub safe : IsSafe r.1
  pub keeps : Keeps s r.1
  pub taken : r.0 ≡ true → (was_queued id r.1.queued ≡ true) × (r.1.state ≡ s.state)
  pub state_kept : (r.1.state ≡ s.state) ⊎ (r.1.state ≡ closed)

append_bound :
    (ps : List PacketOut) (p : PacketOut) → length ps < 128 → length (ps ++ (p ∷ [])) ≤ 128
append_bound ps p h = omega (arith, length-append ps (p ∷ []))

enqueue-Sent :
    (id : ℕ) (payload : List ℕ) (s : Session)
    → IsSafe s
    → MayQueue id s
    → length s.queue < 128
    → Sent id s (true, enqueue (record { id = id; payload = payload }) s)
unfolding enqueue was_queued
enqueue-Sent id payload s good may room = record {
  safe = record {
    closed_once = good.closed_once;
    bounded = append_bound s.queue _ room;
    configured = good.configured;
    ordered = (may, good.ordered);
  };
  keeps = record {
    same_configuration = refl;
    still_queued = λ j h. ground arith;
    still_open = λ h. h;
  };
  taken = λ h. (ground arith, refl);
  state_kept = inl refl;
}

unsent-Sent :
    (id : ℕ) (s s' : Session)
    → IsSafe s'
    → Keeps s s'
    → (s'.state ≡ s.state) ⊎ (s'.state ≡ closed)
    → Sent id s (false, s')
unsent-Sent id s s' good keeps st = record {
  safe = good;
  keeps = keeps;
  taken = λ h. absurd cc;
  state_kept = st;
}

close_state : (s : Session) → ((close s).state ≡ s.state) ⊎ ((close s).state ≡ closed)
close_state s =
    close-elim (λ t. (t.state ≡ s.state) ⊎ (t.state ≡ closed)) s (λ e. inl refl) (inr refl)

pub send_packet-Sent :
    (id : ℕ) (payload : List ℕ) (s : Session)
    → IsSafe s
    → MayQueue id s
    → Sent id s (send_packet id payload s)
unfolding send_packet
send_packet-Sent id payload s good may =
    if-elim (Sent id s) (is_state s.state closed || s.close_once) (false, s) _
      (λ e. unsent-Sent id s s good (Keeps-refl s) (inl refl))
      (λ e.
        if-elim (Sent id s) (ltb (length s.queue) 128) _ (false, close s)
          (λ d. enqueue-Sent id payload s good may (ground arith))
          (λ d. unsent-Sent id s (close s) (IsSafe-close s good) (Keeps-close s) (close_state s)))

-- A list of packets, of which the last one has the id.
pub record AllSent (s : Session) (r : Bool × Session) : Type 0 where
  pub safe : IsSafe r.1
  pub keeps : Keeps s r.1
  pub state_kept : (r.1.state ≡ s.state) ⊎ (r.1.state ≡ closed)

-- The ids of the packets are allowed once FinishConfiguration was queued, or are not Play login.
abbrev pub MayQueueAll : List PacketOut → Session → Type 0
MayQueueAll ps s =
    (was_queued 0x03 s.queued ≡ true) ⊎ All (λ (p : PacketOut). (p.id == 0x31) ≡ false) ps

pub first_may :
    (p : PacketOut) (ps : List PacketOut) (s : Session) → MayQueueAll (p ∷ ps) s → MayQueue p.id s
first_may p ps s (inl h) e = h
first_may p ps s (inr h) e = absurd (let g = h.0 in cc)

pub rest_may :
    (p : PacketOut) (ps : List PacketOut) (s s' : Session)
    → Keeps s s'
    → MayQueueAll (p ∷ ps) s
    → MayQueueAll ps s'
rest_may p ps s s' keeps (inl h) = inl (keeps.still_queued 0x03 h)
rest_may p ps s s' keeps (inr h) = inr (h.1)

later_state :
    (a b c : SessionState)
    → (b ≡ a) ⊎ (b ≡ closed)
    → (c ≡ b) ⊎ (c ≡ closed)
    → (c ≡ a) ⊎ (c ≡ closed)
later_state a b c (inl h) (inl k) = inl (k ∙ h)
later_state a b c (inr h) (inl k) = inr (k ∙ h)
later_state a b c h (inr k) = inr k

pub send_packets-AllSent :
    (ps : List PacketOut) (s : Session)
    → IsSafe s
    → MayQueueAll ps s
    → AllSent s (send_packets ps s)
unfolding send_packets
send_packets-AllSent [] s good may = record {
  safe = good;
  keeps = Keeps-refl s;
  state_kept = inl refl;
}
send_packets-AllSent (p ∷ ps) s good may =
    let r = send_packet p.id p.payload s in
    let one = send_packet-Sent p.id p.payload s good (first_may p ps s may) in
    let rest = send_packets-AllSent ps r.1 one.safe (rest_may p ps s r.1 one.keeps may) in
    if-elim (AllSent s) r.0 (send_packets ps r.1) (false, r.1)
      (λ e. record {
        safe = rest.safe;
        keeps = Keeps-trans s r.1 _ one.keeps rest.keeps;
        state_kept = later_state s.state r.1.state _ one.state_kept rest.state_kept;
      })
      (λ e. record { safe = one.safe; keeps = one.keeps; state_kept = one.state_kept })
