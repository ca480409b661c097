-- ===== src/Players/Snapshot/Coherent.antt =====
-- What a load returns, and when it ends.
use cyu_core.Base.{
  ℕ, ◌%◌, ◌^◌, ◌<◌, ◌≤◌, ◌≡◌, refl, ap, sym, ◌∙◌, true, ◌&&◌, List, [], ◌∷◌, arith, inl, inr, ltb,
  ◌==◌, Bool-cases,
}
use cyu_core.Players.Snapshot.{
  Snapshot, zero_snapshot, Writer, idle, storing, Reader, waiting, loading, returned, State,
  new_store, begin_store, next_store, next_load, Event, begins, stores, loads, run,
}
use mathlib.Core.Path.{subst}
use cyu_core.Players.Snapshot.Sound.{
  Agree, Agree-all, IsWriting, IsReading, IsSound, IsSound-begin_store, IsSound-next_store,
  IsSound-next_load,
}

begin_grows :
    (w : Writer) (target : Snapshot) (s : State) → s.sequence ≤ (begin_store w target s).sequence
unfolding begin_store
begin_grows idle target s = omega arith
begin_grows (storing old k) target s = omega arith

store_grows : (w : Writer) (s : State) → s.sequence ≤ (next_store w s).sequence
unfolding next_store
store_grows idle s = omega arith
store_grows (storing target k) s = ground arith

load_keeps : (r : Reader) (s : State) → (next_load r s).sequence ≡ s.sequence
unfolding next_load
load_keeps waiting s = ground arith
load_keeps (loading start k copy) s = ground arith
load_keeps (returned copy) s = refl

sequence_grows : (es : List Event) (s : State) → s.sequence ≤ (run es s).sequence
unfolding run
sequence_grows [] s = omega arith
sequence_grows (begins target ∷ es) s =
    omega (arith, sequence_grows es (begin_store s.writer target s), begin_grows s.writer target s)
sequence_grows (stores ∷ es) s =
    omega (arith, sequence_grows es (next_store s.writer s), store_grows s.writer s)
sequence_grows (loads ∷ es) s =
    omega (arith, sequence_grows es (next_load s.reader s), load_keeps s.reader s)

IsSound-run :
    (es : List Event) (s : State) → IsSound s → (run es s).sequence < 2 ^ 64 → IsSound (run es s)
unfolding run
IsSound-run [] s good small = good
IsSound-run (begins target ∷ es) s good small =
    IsSound-run es (begin_store s.writer target s)
      (IsSound-begin_store s.writer target s refl good.writing good.reading) small
IsSound-run (stores ∷ es) s good small =
    IsSound-run es (next_store s.writer s)
      (IsSound-next_store s.writer s refl good.writing good.reading) small
IsSound-run (loads ∷ es) s good small =
    let low = sequence_grows es (next_load s.reader s) in
    IsSound-run es (next_load s.reader s)
      (IsSound-next_load s.reader s (omega (arith, load_keeps s.reader s)) refl good.writing
        good.reading)
      small

IsSound-new : IsSound new_store
IsSound-new = record { writing = (refl, refl); reading = tt }

-- The copy of a Load that returns.
returns_published :
    (start k : ℕ) (copy out : Snapshot) (s : State)
    → s.sequence < 2 ^ 64
    → IsReading (loading start k copy) s
    → (next_load (loading start k copy) s).reader ≡ returned out
    → out ≡ s.published
unfolding next_load
returns_published start k copy out s small (even, low, bound, agree) h =
    elim (Bool-cases (ltb k 7)) [
      | inl e ↦ absurd (ground (arith, e))
      | inr e ↦
          let all : k ≡ 7 = ground arith in
          elim (Bool-cases ((start == s.sequence % 2 ^ 64) && (s.sequence % 2 ^ 64 % 2 == 0))) [
            | inr d ↦ absurd (ground (arith, e, d))
            | inl d ↦
                let is : copy ≡ out = ground (arith, e, d) in
                let at : start ≡ s.sequence = ground arith in
                sym is
                ∙ Agree-all copy s.published (subst (λ n. Agree n copy s.published) all (agree at))
          ]
    ]

-- In every interleaving of one writer with a reader, in which the sequence has not wrapped: what
-- Load returns is the snapshot of the last Store that had returned by then, never a mixture of two.
pub load_coherent :
    (es : List Event) (start k : ℕ) (copy out : Snapshot)
    → let s = run es new_store in
      s.sequence < 2 ^ 64
      → s.reader ≡ loading start k copy
      → (next_load s.reader s).reader ≡ returned out
      → out ≡ s.published
load_coherent es start k copy out small is h =
    let s = run es new_store in
    let good = IsSound-run es new_store IsSound-new small in
    returns_published start k copy out s small (subst (λ r. IsReading r s) is good.reading)
      (sym (ap (λ r. (next_load r s).reader) is) ∙ h)

-- The steps of one Load: the sequence, seven values, and the sequence again.
abbrev after_first : List Event
after_first = loads ∷ loads ∷ loads ∷ loads ∷ loads ∷ loads ∷ loads ∷ loads ∷ []

abbrev pub one_load : List Event
one_load = loads ∷ after_first

same_number : (n : ℕ) → (n == n) ≡ true
same_number n = ground arith

starts_load :
    (s : State)
    → (s.sequence % 2 ^ 64 % 2 == 0) ≡ true
    → next_load waiting s ≡ record s { reader = loading (s.sequence % 2 ^ 64) 0 zero_snapshot }
unfolding next_load
starts_load s even = rw (even, next_load) refl

copies_memory :
    (s : State)
    → (s.sequence % 2 ^ 64 % 2 == 0) ≡ true
    → (run after_first (record s { reader = loading (s.sequence % 2 ^ 64) 0 zero_snapshot })).reader
      ≡ returned s.memory
unfolding run next_load
copies_memory s even = rw (same_number (s.sequence % 2 ^ 64), even) refl

loads_memory :
    (s : State)
    → (s.sequence % 2 ^ 64 % 2 == 0) ≡ true
    → s.reader ≡ waiting
    → (run one_load s).reader ≡ returned s.memory
unfolding run
loads_memory s even is =
    ap (λ (r : Reader). (run after_first (next_load r s)).reader) is
    ∙ ap (λ (t : State). (run after_first t).reader) (starts_load s even)
    ∙ copies_memory s even

-- After every interleaving of one writer with a reader, in which the sequence has not wrapped: when
-- no Store runs, a Load that begins ends after nine steps with the published snapshot, if no Store
-- begins meanwhile.
pub load_ends :
    (es : List Event)
    → let s = run es new_store in
      s.sequence < 2 ^ 64
      → s.writer ≡ idle
      → s.reader ≡ waiting
      → (run one_load s).reader ≡ returned s.published
load_ends es small is at =
    let s = run es new_store in
    let good = IsSound-run es new_store IsSound-new small in
    let written = subst (λ w. IsWriting w s) is good.writing in
    loads_memory s (ground (arith, written.0)) at ∙ ap returned written.1
