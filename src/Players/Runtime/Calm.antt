-- ===== src/Players/Runtime/Calm.antt =====
-- What sending and closing leave as it is: the blocks, and that a session which is not active stays so.
use cyu_core.Base.{
  ℕ, ◌≡◌, refl, ap, sym, ◌∙◌, Bool, false, not, ◌&&◌, ◌||◌, List, [], ◌∷◌, ◌==◌, if-elim, arith,
  ltb, length,
}
use cyu_core.World.{World}
use cyu_core.Sessions.{
  Session, PacketOut, play, is_state, closed, close, enqueue, send_packet, outbound_queue_capacity,
}
use cyu_core.Players.Roster.{compare_and_delete}
use cyu_core.Players.Roster.Entries.{number_of_same}
use cyu_core.Sessions.Play.{Move}
use cyu_core.Players.Snapshot.{Snapshot}
use cyu_core.Players.Runtime.{
  publish_snapshot, teleport, apply_player_move, moved, place_player, rescue, show_move, below_void,
  quit_packets, quit_message_packet, announce_quit, remove_owned, unlist_player, one_fewer,
}
use cyu_core.Players.Runtime.Sent.{
  Runtime, Elsewhere, assign, runtime_player_active, update_session, send_to, send_each, disconnect,
  broadcast, everyone, all_but, entity_move, broadcast_entity_move,
}

-- The change keeps the blocks and makes no session active.
pub record Calm (r r' : Runtime) : Type 0 where
  pub same_blocks : r'.world.modified_blocks ≡ r.world.modified_blocks
  pub same_handled : r'.handled ≡ r.handled
  pub no_more_active :
      (i : ℕ) → runtime_player_active i r ≡ false → runtime_player_active i r' ≡ false

pub Calm-refl : (r : Runtime) → Calm r r
Calm-refl r = record { same_blocks = refl; same_handled = refl; no_more_active = λ i h. h }

pub Calm-trans : (p q r : Runtime) → Calm p q → Calm q r → Calm p r
Calm-trans p q r a b = record {
  same_blocks = b.same_blocks ∙ a.same_blocks;
  same_handled = b.same_handled ∙ a.same_handled;
  no_more_active = λ i h. b.no_more_active i (a.no_more_active i h);
}

abbrev pub is_session_active : Session → Bool
is_session_active s = is_state s.state play && s.registered

inactive_close : (s : Session) → is_session_active s ≡ false → is_session_active (close s) ≡ false
unfolding close
inactive_close s h =
    if-elim (λ (s' : Session). is_session_active s' ≡ false) s.close_once _ _ (λ e. h) (λ e. refl)

inactive_send :
    (id : ℕ) (payload : List ℕ) (s : Session)
    → is_session_active s ≡ false
    → is_session_active (send_packet id payload s).1 ≡ false
unfolding send_packet enqueue
inactive_send id payload s h =
    if-elim (λ (r : Bool × Session). is_session_active r.1 ≡ false)
      (is_state s.state closed || s.close_once) _ _ (λ e. h)
      (λ e.
        if-elim (λ (r : Bool × Session). is_session_active r.1 ≡ false)
          (ltb (length s.queue) outbound_queue_capacity) _ _ (λ d. h) (λ d. inactive_close s h))

assigned_inactive :
    (i j : ℕ) (s' : Session) (r : Runtime)
    → (runtime_player_active i r ≡ false → is_session_active s' ≡ false)
    → runtime_player_active j r ≡ false
    → is_session_active (assign i s' r.session j) ≡ false
assigned_inactive i j s' r h d =
    if-elim (λ (t : Session). is_session_active t ≡ false) (j == i) s' (r.session j)
      (λ e. h (ap (λ k. runtime_player_active k r) (sym (number_of_same j i e)) ∙ d)) (λ e. d)

-- A session that is not active is replaced by one that is not.
pub Calm-update_session :
    (i : ℕ) (s' : Session) (r : Runtime)
    → (runtime_player_active i r ≡ false → is_session_active s' ≡ false)
    → Calm r (update_session i s' r)
unfolding update_session
Calm-update_session i s' r h =
    if-elim (Calm r) ((s'.close_once && not (r.session i).close_once) && (r.session i).registered) _
      _
      (λ e. record {
        same_blocks = refl;
        same_handled = refl;
        no_more_active = λ j. assigned_inactive i j s' r h;
      })
      (λ e. record {
        same_blocks = refl;
        same_handled = refl;
        no_more_active = λ j. assigned_inactive i j s' r h;
      })

pub Calm-send_to : (i id : ℕ) (payload : List ℕ) (r : Runtime) → Calm r (send_to i id payload r)
unfolding send_to
Calm-send_to i id payload r = Calm-update_session i _ r (inactive_send id payload (r.session i))

pub Calm-disconnect : (i : ℕ) (r : Runtime) → Calm r (disconnect i r)
unfolding disconnect
Calm-disconnect i r = Calm-update_session i _ r (inactive_close (r.session i))

Calm-send_each : (i : ℕ) (ps : List PacketOut) (r : Runtime) → Calm r (send_each i ps r)
unfolding send_each
Calm-send_each i [] r = Calm-refl r
Calm-send_each i (p ∷ ps) r =
    Calm-trans _ _ _ (Calm-send_to i p.id p.payload r)
      (Calm-send_each i ps (send_to i p.id p.payload r))

pub Calm-broadcast :
    (to : ℕ → Bool) (packets : List PacketOut) (ps : List (List ℕ × ℕ)) (r : Runtime)
    → Calm r (broadcast to packets ps r)
unfolding broadcast
Calm-broadcast to packets [] r = Calm-refl r
Calm-broadcast to packets ((k, j) ∷ ps) r =
    Calm-trans _ _ _
      (if-elim (Calm r) (to j && is_state (r.session j).state play) (send_each j packets r) r
        (λ e. Calm-send_each j packets r) (λ e. Calm-refl r))
      (Calm-broadcast to packets ps _)

Calm-broadcast_entity_move : (i : ℕ) (r : Runtime) → Calm r (broadcast_entity_move i r)
unfolding broadcast_entity_move
Calm-broadcast_entity_move i r = Calm-broadcast (all_but i) (entity_move i r) r.players r

-- The fields that nothing here reads.
Calm-posed :
    (r r' : Runtime)
    → r'.world ≡ r.world
    → r'.handled ≡ r.handled
    → r'.session ≡ r.session
    → Calm r r'
Calm-posed r r' w h s = record {
  same_blocks = ap (λ (v : World). v.modified_blocks) w;
  same_handled = h;
  no_more_active = λ i e. ap (λ (f : ℕ → Session). is_session_active (f i)) s ∙ e;
}

Calm-teleport : (i x y z yaw pitch : ℕ) (r : Runtime) → Calm r (teleport i x y z yaw pitch r)
unfolding teleport publish_snapshot
Calm-teleport i x y z yaw pitch r =
    Calm-trans _ _ _ (Calm-posed r _ refl refl refl)
      (Calm-trans _ _ _ (Calm-send_to i 0x48 _ _) (Calm-broadcast_entity_move i _))

Calm-rescue : (i : ℕ) (p : Snapshot) (r : Runtime) → Calm r (rescue i p r)
unfolding rescue
Calm-rescue i p r =
    Calm-trans _ _ _
      (Calm-teleport i r.world.spawn_x r.world.spawn_y r.world.spawn_z p.yaw p.pitch r)
      (Calm-send_to i 0x79 _ _)

Calm-show_move : (i : ℕ) (r : Runtime) → Calm r (show_move i r)
unfolding show_move publish_snapshot
Calm-show_move i r =
    Calm-trans _ _ _ (Calm-posed r (publish_snapshot i r) refl refl refl)
      (Calm-broadcast_entity_move i _)

pub Calm-apply_player_move : (i : ℕ) (m : Move) (r : Runtime) → Calm r (apply_player_move i m r)
unfolding apply_player_move
Calm-apply_player_move i m r =
    let p = moved m (r.pose i) in
    let there = place_player i p r in
    Calm-trans _ _ _ (Calm-posed r there refl refl refl) (
      if-elim (Calm there) (below_void p.y) (rescue i p there) (show_move i there)
        (λ e. Calm-rescue i p there) (λ e. Calm-show_move i there))

unregistered_inactive : (s : Session) → is_session_active (record s { registered = false }) ≡ false
unregistered_inactive s = ground arith

Calm-unlist_player :
    (i : ℕ) (r r' : Runtime)
    → r'.world ≡ r.world
    → r'.handled ≡ r.handled
    → r'.session ≡ assign i (record (r.session i) { registered = false }) r.session
    → Calm r r'
Calm-unlist_player i r r' w h s = record {
  same_blocks = ap (λ (v : World). v.modified_blocks) w;
  same_handled = h;
  no_more_active = λ j d.
      ap (λ (f : ℕ → Session). is_session_active (f j)) s
      ∙ assigned_inactive i j _ r (λ e. unregistered_inactive (r.session i)) d;
}

-- What the model leaves open: chat and the plugins.
pub record IsCalm (other : Elsewhere) : Type 0 where
  pub calm_chat : (i : ℕ) (text : List ℕ) (r : Runtime) → Calm r (other.handle_chat i text r)
  pub calm_quit : (i : ℕ) (r : Runtime) → Calm r (other.player_quit i r)

module _ (other : Elsewhere) (calm : IsCalm other) where
  Calm-announce_quit : (i : ℕ) (r : Runtime) → Calm r (announce_quit other i r)
  unfolding announce_quit
  Calm-announce_quit i r =
      let s = r.session i in
      let unlisted = broadcast everyone (quit_packets s) r.players r in
      let told = other.player_quit i unlisted in
      Calm-trans _ _ _ (Calm-broadcast everyone (quit_packets s) r.players r) (
        Calm-trans _ _ _ (calm.calm_quit i unlisted)
          (Calm-broadcast everyone (quit_message_packet other s) told.players told))

  pub Calm-remove_owned : (i : ℕ) (r : Runtime) → Calm r (remove_owned other i r)
  unfolding remove_owned
  Calm-remove_owned i r =
      let name = other.lower (r.session i).username in
      let removed = unlist_player i (compare_and_delete name i r.players).1 r in
      let gone = Calm-unlist_player i r removed refl refl refl in
      let fewer = Calm-unlist_player i r (one_fewer removed) refl refl refl in
      if-elim (Calm r) (not (r.session i).registered) _ _ (λ e. Calm-refl r)
        (λ e.
          if-elim (Calm r) (compare_and_delete name i r.players).0
            (announce_quit other i (one_fewer removed)) removed
            (λ d.
              Calm-trans r (one_fewer removed) _ fewer (Calm-announce_quit i (one_fewer removed)))
            (λ d. gone))
