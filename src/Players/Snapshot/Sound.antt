-- ===== src/Players/Snapshot/Sound.antt =====
-- What holds between two steps of a writer and a reader.
use cyu_core.Base.{
  ℕ, zero, suc, ◌%◌, ◌^◌, ◌<◌, ◌≤◌, ◌≡◌, refl, sym, ◌&&◌, arith, inl, inr, ltb, ◌==◌, Bool-cases,
}
use cyu_core.Players.Snapshot.{
  Snapshot, get_field, set_field, Writer, idle, storing, Reader, waiting, loading, returned, State,
  begin_store, next_store, next_load,
}
use mathlib.Core.Path.{subst}

-- The first k values of two snapshots are the same.
abbrev pub Agree : ℕ → Snapshot → Snapshot → Type 0
Agree zero a b = Unit {0}
Agree (suc zero) a b = (a.game_mode ≡ b.game_mode)
Agree (suc (suc zero)) a b = (a.game_mode ≡ b.game_mode) × (a.x ≡ b.x)
Agree (suc (suc (suc zero))) a b = (a.game_mode ≡ b.game_mode) × (a.x ≡ b.x) × (a.y ≡ b.y)
Agree (suc (suc (suc (suc zero)))) a b =
    (a.game_mode ≡ b.game_mode) × (a.x ≡ b.x) × (a.y ≡ b.y) × (a.z ≡ b.z)
Agree (suc (suc (suc (suc (suc zero))))) a b =
    (a.game_mode ≡ b.game_mode) × (a.x ≡ b.x) × (a.y ≡ b.y) × (a.z ≡ b.z) × (a.yaw ≡ b.yaw)
Agree (suc (suc (suc (suc (suc (suc zero)))))) a b =
    (a.game_mode ≡ b.game_mode)
    × (a.x ≡ b.x)
    × (a.y ≡ b.y)
    × (a.z ≡ b.z)
    × (a.yaw ≡ b.yaw)
    × (a.pitch ≡ b.pitch)
Agree (suc (suc (suc (suc (suc (suc (suc k))))))) a b =
    (a.game_mode ≡ b.game_mode)
    × (a.x ≡ b.x)
    × (a.y ≡ b.y)
    × (a.z ≡ b.z)
    × (a.yaw ≡ b.yaw)
    × (a.pitch ≡ b.pitch)
    × (a.on_ground ≡ b.on_ground)

-- One more value is copied.
pub copy_step :
    (k : ℕ) (copy p : Snapshot)
    → k < 7
    → Agree k copy p
    → Agree (suc k) (set_field k (get_field k p) copy) p
copy_step zero copy p low h = refl
copy_step (suc zero) copy p low h = (h, refl)
copy_step (suc (suc zero)) copy p low h = (h.0, h.1, refl)
copy_step (suc (suc (suc zero))) copy p low h = (h.0, h.1, h.2, refl)
copy_step (suc (suc (suc (suc zero)))) copy p low h = (h.0, h.1, h.2, h.3, refl)
copy_step (suc (suc (suc (suc (suc zero))))) copy p low h = (h.0, h.1, h.2, h.3, h.4, refl)
copy_step (suc (suc (suc (suc (suc (suc zero)))))) copy p low h =
    (h.0, h.1, h.2, h.3, h.4, h.5, refl)
copy_step (suc (suc (suc (suc (suc (suc (suc k))))))) copy p low h = absurd (omega arith)

pub Agree-all : (a b : Snapshot) → Agree 7 a b → a ≡ b
Agree-all a b (g, x, y, z, w, p, o) = cc

abbrev pub IsEven : ℕ → Type 0
IsEven n = n % 2 ≡ 0

-- When no Store runs, the sequence is even and the memory is what was published.
abbrev pub IsWriting : Writer → State → Type 0
IsWriting idle s = IsEven s.sequence × (s.memory ≡ s.published)
IsWriting (storing target k) s = (s.sequence % 2 ≡ 1) × (k ≤ 7) × Agree k s.memory target

-- As long as the sequence is where Load found it, its copy agrees with what was published.
abbrev pub IsReading : Reader → State → Type 0
IsReading waiting s = Unit {0}
IsReading (loading start k copy) s =
    IsEven start × (start ≤ s.sequence) × (k ≤ 7) × (start ≡ s.sequence → Agree k copy s.published)
IsReading (returned copy) s = Unit {0}

pub record IsSound (s : State) : Type 0 where
  pub writing : IsWriting s.writer s
  pub reading : IsReading s.reader s

pub IsReading-same :
    (r : Reader) (s s' : State)
    → s'.sequence ≡ s.sequence
    → s'.published ≡ s.published
    → IsReading r s
    → IsReading r s'
IsReading-same waiting s s' n p h = tt
IsReading-same (returned copy) s s' n p h = tt
IsReading-same (loading start k copy) s s' n p (even, low, bound, agree) =
    (even, omega arith, bound, λ at. subst (Agree k copy) (sym p) (agree (omega arith)))

-- The writer has moved on.
pub IsReading-stale :
    (r : Reader) (s s' : State)
    → s.sequence ≤ s'.sequence
    → ((start : ℕ) → IsEven start → start ≤ s.sequence → start ≡ s'.sequence → ⊥)
    → IsReading r s
    → IsReading r s'
IsReading-stale waiting s s' up never h = tt
IsReading-stale (returned copy) s s' up never h = tt
IsReading-stale (loading start k copy) s s' up never (even, low, bound, agree) =
    (even, omega arith, bound, λ at. absurd (never start even low at))

pub IsSound-begin_store :
    (w : Writer) (target : Snapshot) (s : State)
    → s.writer ≡ w
    → IsWriting w s
    → IsReading s.reader s
    → IsSound (begin_store w target s)
unfolding begin_store
IsSound-begin_store idle target s is h r = record {
  writing = (omega arith, omega arith, tt);
  reading = IsReading-stale s.reader s _ (omega arith) (λ start e low at. omega arith) r;
}
IsSound-begin_store (storing old k) target s is h r = record {
  writing = subst (λ w. IsWriting w s) (sym is) h;
  reading = r;
}

pub IsSound-next_store :
    (w : Writer) (s : State)
    → s.writer ≡ w
    → IsWriting w s
    → IsReading s.reader s
    → IsSound (next_store w s)
unfolding next_store
IsSound-next_store idle s is h r = record {
  writing = subst (λ w. IsWriting w s) (sym is) h;
  reading = r;
}
IsSound-next_store (storing target k) s is (odd, bound, agree) r = elim (Bool-cases (ltb k 7)) [
  | inl e ↦
      let low : k < 7 = ground arith in
      rw e (record {
        writing = (odd, omega arith, copy_step k s.memory target low agree);
        reading = IsReading-same s.reader s _ refl refl r;
      })
  | inr e ↦
      let all : k ≡ 7 = ground arith in
      rw e (record {
        writing = (
          omega arith,
          Agree-all s.memory target (subst (λ n. Agree n s.memory target) all agree),
        );
        reading = IsReading-stale s.reader s _ (omega arith) (λ start v low at. omega arith) r;
      })
]

-- With an even sequence no Store runs.
pub unwritten :
    (w : Writer) (s : State) → IsWriting w s → IsEven s.sequence → s.memory ≡ s.published
unwritten idle s h even = h.1
unwritten (storing target k) s h even = absurd (omega (arith, h.0))

pub IsWriting-kept :
    (w : Writer) (s : State) → IsWriting w s → (r : Reader) → IsWriting w (record s { reader = r })
IsWriting-kept idle s h r = h
IsWriting-kept (storing target k) s h r = h

pub IsSound-next_load :
    (r : Reader) (s : State)
    → s.sequence < 2 ^ 64
    → s.reader ≡ r
    → IsWriting s.writer s
    → IsReading r s
    → IsSound (next_load r s)
unfolding next_load
IsSound-next_load waiting s small is w h =
    let kept = IsWriting-kept s.writer s w in
    elim (Bool-cases (s.sequence % 2 ^ 64 % 2 == 0)) [
      | inl e ↦
          let even : IsEven s.sequence = ground arith in
          rw e (record {
            writing = kept _;
            reading = (omega arith, omega arith, omega arith, λ at. tt);
          })
      | inr e ↦ rw e (record { writing = w; reading = subst (λ r. IsReading r s) (sym is) tt })
    ]
IsSound-next_load (returned copy) s small is w h = record {
  writing = IsWriting-kept s.writer s w _;
  reading = tt;
}
IsSound-next_load (loading start k copy) s small is w (even, low, bound, agree) =
    let kept = IsWriting-kept s.writer s w in
    elim (Bool-cases (ltb k 7)) [
      | inl e ↦
          let short : k < 7 = ground arith in
          rw e (record {
            writing = kept _;
            reading = (
              even,
              low,
              omega arith,
              λ at.
                  let same = unwritten s.writer s w (omega arith) in
                  subst
                    (λ (m : Snapshot). Agree (suc k) (set_field k (get_field k m) copy) s.published)
                    (sym same) (copy_step k copy s.published short (agree at)),
            );
          })
      | inr e ↦
          elim (Bool-cases ((start == s.sequence % 2 ^ 64) && (s.sequence % 2 ^ 64 % 2 == 0))) [
            | inl d ↦ rw (e, d) (record { writing = kept _; reading = tt })
            | inr d ↦ rw (e, d) (record { writing = kept _; reading = tt })
          ]
    ]
