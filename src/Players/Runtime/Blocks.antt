-- ===== src/Players/Runtime/Blocks.antt =====
-- The blocks of the world through drains of the mailbox, posts and closings in any order.
use cyu_core.Base.{
  ℕ, zero, suc, ◌≡◌, refl, ap, sym, ◌∙◌, Bool, true, false, not, Option, none, some, List, [], ◌∷◌,
  if◌then◌else◌, if-elim, inl, inr, Bool-cases, Option-cases, leb, ◌^◌,
}
use cyu_core.World.{BlockPos, block_air, set_block, same_pos, store}
use mathlib.Core.Path.{subst}
use cyu_core.Mailbox.{Queue, try_post, try_pop}
use cyu_core.Sessions.{Session, play, is_state}
use cyu_core.Sessions.Play.{
  PlayerEvent, player_move, player_chat, player_animation, break_block, place_block,
}
use cyu_core.Players.Runtime.{
  change_block, apply_active, apply_runtime_event, drain_runtime_events, post_player_event,
  Happening, drains, posts, closes, happen, run_runtime, block_packet, animation_packet,
}
use cyu_core.Players.Runtime.Sent.{
  RuntimeEvent, player_event, remove_player, Runtime, Elsewhere, runtime_player_active, broadcast,
  everyone, all_but,
}
use cyu_core.Players.Runtime.Calm.{
  Calm, Calm-trans, IsCalm, Calm-broadcast, Calm-send_to, Calm-disconnect, Calm-apply_player_move,
  Calm-remove_owned, is_session_active,
}

-- The block that an event asks for at a position, and the session that asks.
abbrev pub asked_at : BlockPos → (session x y z block : ℕ) → Option (ℕ × ℕ)
asked_at p i x y z block =
    if same_pos (record { x = x; y = y; z = z }) p then some (i, block) else none

abbrev pub asked : BlockPos → RuntimeEvent → Option (ℕ × ℕ)
asked p (remove_player i) = none
asked p (player_event i (player_move m)) = none
asked p (player_event i (player_chat text)) = none
asked p (player_event i (player_animation a)) = none
asked p (player_event i (break_block x y z seq)) = asked_at p i x y z block_air
asked p (player_event i (place_block x y z block seq)) = asked_at p i x y z block

abbrev pub newer : Option (ℕ × ℕ) → Option (ℕ × ℕ) → Option (ℕ × ℕ)
newer none older = older
newer (some c) older = some c

-- What the newest event that asks for a block at a position asks for.
unfoldable pub last_asked : BlockPos → List RuntimeEvent → Option (ℕ × ℕ)
last_asked p [] = none
last_asked p (e ∷ es) = newer (asked p e) (last_asked p es)

-- Whether the session that asked last is still active.
abbrev pub is_trusted : Option (ℕ × ℕ) → (session : ℕ → Session) → Bool
is_trusted none session = true
is_trusted (some (i, block)) session = is_session_active (session i)

abbrev pub block_of : Option (ℕ × ℕ) → (old : Option ℕ) → Option ℕ
block_of none old = old
block_of (some (i, block)) old = some block

abbrev IsKeptAs : Option (ℕ × ℕ) → BlockPos → (old : Option ℕ) → Runtime → Type 0
IsKeptAs last p old r =
    is_trusted last r.session ≡ true → r.world.modified_blocks p ≡ block_of last old

-- The block at a position is what was asked for last, if that player is still there, else the old one.
abbrev IsKept : BlockPos → (old : Option ℕ) → Runtime → Type 0
IsKept p old r = IsKeptAs (last_asked p r.handled) p old r

trusted_before :
    (last : Option (ℕ × ℕ)) (r r' : Runtime)
    → Calm r r'
    → is_trusted last r'.session ≡ true
    → is_trusted last r.session ≡ true
trusted_before none r r' c h = refl
trusted_before (some (i, block)) r r' c h = elim (Bool-cases (runtime_player_active i r)) [
  | inl e ↦ e
  | inr e ↦ absurd cc (c.no_more_active i e, h)
]

IsKept-Calm :
    (p : BlockPos) (old : Option ℕ) (r r' : Runtime) → Calm r r' → IsKept p old r → IsKept p old r'
IsKept-Calm p old r r' c k =
    subst (λ (es : List RuntimeEvent). IsKeptAs (last_asked p es) p old r') (sym c.same_handled)
      (λ h. ap (λ (f : BlockPos → Option ℕ). f p) c.same_blocks ∙ k (trusted_before _ r r' c h))

-- An event has been taken from the mailbox.
abbrev take_event : RuntimeEvent → Option (Queue RuntimeEvent) → Runtime → Runtime
take_event e q r = record r { mailbox = q; handled = e ∷ r.handled }

Calm-change_block :
    (i x y z block seq : ℕ) (r : Runtime)
    → Calm (record r { world = set_block x y z block r.world }) (change_block i x y z block seq r)
unfolding change_block
Calm-change_block i x y z block seq r =
    let r' : Runtime = record r { world = set_block x y z block r.world } in
    let packet = block_packet x y z block in
    let told = broadcast everyone packet r'.players r' in
    let calm = Calm-broadcast everyone packet r'.players r' in
    if-elim (Calm r') (leb (2 ^ 63) seq) told _ (λ e. calm)
      (λ e. Calm-trans r' told _ calm (Calm-send_to i 0x04 _ told))

-- The newest event asks for a block at one position: the block is there.
IsKept-change :
    (p : BlockPos) (old : Option ℕ) (i x y z block : ℕ) (older : Option (ℕ × ℕ)) (r : Runtime)
    → IsKeptAs older p old r
    → IsKeptAs
        (newer (asked_at p i x y z block) older)
        p
        old
        (record r { world = set_block x y z block r.world })
unfolding set_block store
IsKept-change p old i x y z block older r k =
    elim (Bool-cases (same_pos (record { x = x; y = y; z = z }) p)) [
      | inl d ↦ rw d (λ h. refl)
      | inr d ↦ rw d k
    ]

-- Or it comes from a player who is gone.
IsKept-gone :
    (p : BlockPos) (old : Option ℕ) (i x y z block : ℕ) (older : Option (ℕ × ℕ)) (r : Runtime)
    → runtime_player_active i r ≡ false
    → IsKeptAs older p old r
    → IsKeptAs (newer (asked_at p i x y z block) older) p old r
IsKept-gone p old i x y z block older r gone k =
    elim (Bool-cases (same_pos (record { x = x; y = y; z = z }) p)) [
      | inl d ↦ rw d (λ h. absurd cc (gone, h))
      | inr d ↦ rw d k
    ]

module _ (p : BlockPos) (old : Option ℕ) (other : Elsewhere) (calm : IsCalm other) where
  IsKept-active :
      (i : ℕ) (e : PlayerEvent) (q : Option (Queue RuntimeEvent)) (r : Runtime)
      → IsKept p old r
      → IsKept p old (apply_active other i e (take_event (player_event i e) q r))
  unfolding apply_active last_asked
  IsKept-active i (player_move m) q r k =
      IsKept-Calm p old (take_event (player_event i (player_move m)) q r) _
        (Calm-apply_player_move i m _) k
  IsKept-active i (player_chat text) q r k =
      IsKept-Calm p old (take_event (player_event i (player_chat text)) q r) _
        (calm.calm_chat i text _) k
  IsKept-active i (player_animation a) q r k =
      let taken = take_event (player_event i (player_animation a)) q r in
      IsKept-Calm p old taken _
        (Calm-broadcast (all_but i) (animation_packet i a taken) taken.players taken) k
  IsKept-active i (break_block x y z seq) q r k =
      IsKept-Calm p old _ _
        (Calm-change_block i x y z block_air seq
          (take_event (player_event i (break_block x y z seq)) q r))
        (IsKept-change p old i x y z block_air (last_asked p r.handled)
          (take_event (player_event i (break_block x y z seq)) q r) k)
  IsKept-active i (place_block x y z block seq) q r k =
      IsKept-Calm p old _ _
        (Calm-change_block i x y z block seq
          (take_event (player_event i (place_block x y z block seq)) q r))
        (IsKept-change p old i x y z block (last_asked p r.handled)
          (take_event (player_event i (place_block x y z block seq)) q r) k)

  IsKept-inactive :
      (i : ℕ) (e : PlayerEvent) (q : Option (Queue RuntimeEvent)) (r : Runtime)
      → runtime_player_active i r ≡ false
      → IsKept p old r
      → IsKept p old (take_event (player_event i e) q r)
  unfolding last_asked
  IsKept-inactive i (player_move m) q r gone k = k
  IsKept-inactive i (player_chat text) q r gone k = k
  IsKept-inactive i (player_animation a) q r gone k = k
  IsKept-inactive i (break_block x y z seq) q r gone k =
      IsKept-gone p old i x y z block_air (last_asked p r.handled) r gone k
  IsKept-inactive i (place_block x y z block seq) q r gone k =
      IsKept-gone p old i x y z block (last_asked p r.handled) r gone k

  IsKept-apply_runtime_event :
      (e : RuntimeEvent) (q : Option (Queue RuntimeEvent)) (r : Runtime)
      → IsKept p old r
      → IsKept p old (apply_runtime_event other e (take_event e q r))
  unfolding apply_runtime_event last_asked
  IsKept-apply_runtime_event (remove_player i) q r k =
      let taken = take_event (remove_player i) q r in
      IsKept-Calm p old taken _ (Calm-remove_owned other calm i taken) k
  IsKept-apply_runtime_event (player_event i e) q r k =
      if-elim (IsKept p old) (runtime_player_active i r) _ _ (λ d. IsKept-active i e q r k)
        (λ d. IsKept-inactive i e q r d k)

  IsKept-drain_runtime_events :
      (limit : ℕ) (r : Runtime) → IsKept p old r → IsKept p old (drain_runtime_events other limit r)
  unfolding drain_runtime_events
  IsKept-drain_runtime_events zero r k = k
  IsKept-drain_runtime_events (suc n) r k = elim (Option-cases (try_pop r.mailbox).0) [
    | inl d ↦ rw (d, drain_runtime_events) k
    | inr (e, d) ↦
        rw (d, drain_runtime_events)
          (IsKept-drain_runtime_events n _ (IsKept-apply_runtime_event e (try_pop r.mailbox).1 r k))
  ]

  IsKept-post_player_event :
      (i : ℕ) (e : PlayerEvent) (r : Runtime)
      → IsKept p old r
      → IsKept p old (post_player_event other i e r)
  unfolding post_player_event
  IsKept-post_player_event i e r k =
      if-elim (IsKept p old) (not (is_state (r.session i).state play)) _ _ (λ d. k)
        (λ d.
          if-elim (IsKept p old) (try_post r.mailbox (player_event i e)).0 _ _ (λ d. k)
            (λ d. IsKept-Calm p old r _ (Calm-disconnect i r) k))

  IsKept-happen : (h : Happening) (r : Runtime) → IsKept p old r → IsKept p old (happen other h r)
  unfolding happen
  IsKept-happen (drains limit) r k = IsKept-drain_runtime_events limit r k
  IsKept-happen (posts i e) r k = IsKept-post_player_event i e r k
  IsKept-happen (closes i) r k = IsKept-Calm p old r _ (Calm-disconnect i r) k

  IsKept-run_runtime :
      (hs : List Happening) (r : Runtime) → IsKept p old r → IsKept p old (run_runtime other hs r)
  unfolding run_runtime
  IsKept-run_runtime [] r k = k
  IsKept-run_runtime (h ∷ hs) r k = IsKept-run_runtime hs (happen other h r) (IsKept-happen h r k)

-- In every sequence of drains of the mailbox, posts of player events and closings of sessions, in
-- which neither chat nor the plugins change blocks, the list of handled events or bring a session
-- into the game: the block at a position is the one that the last handled event on it asked for, if
-- its player is still active at the end, and the one before if no handled event was on it.
pub blocks_kept :
    (other : Elsewhere) (p : BlockPos) (hs : List Happening) (start : Runtime)
    → IsCalm other
    → start.handled ≡ []
    → let r = run_runtime other hs start in
      is_trusted (last_asked p r.handled) r.session ≡ true
      → r.world.modified_blocks p
        ≡ block_of (last_asked p r.handled) (start.world.modified_blocks p)
unfolding last_asked
blocks_kept other p hs start calm fresh trusted =
    let old = start.world.modified_blocks p in
    IsKept-run_runtime p old other calm hs start
      (subst (λ (es : List RuntimeEvent). IsKeptAs (last_asked p es) p old start) (sym fresh)
        (λ h. refl))
      trusted
