-- ===== src/Protocol/WriteAll.antt =====
-- writeAll and WritePacket against any writer.
use cyu_core.Base.{
  ℕ, zero, suc, ◌≤◌, ◌≡◌, refl, sym, ap, ◌∙◌, ◌≢◌, ltb, false, Bool-cases, ◌==◌, inl, inr, Option,
  none, some, List, [], ◌∷◌, ◌++◌, arith, length, take, drop, length-drop, take-append-drop,
  Outcome, ok, err,
}
use cyu_core.Protocol.{
  Error, Writer, write_all_loop, after_write, write_all, stuck, writer, short_write,
  slice_out_of_range,
}
use mathlib.Core.List.{append_assoc, append-nil}

no_panic : (n m : ℕ) → n ≤ m → ltb m n ≡ false
no_panic n m h = ground arith

module _ (w : Writer) where
  open w use {State, write, written, count-le, written-write}

  -- What a call leaves in the writer: all of `bs` if it succeeded, and a first part of `bs` always.
  pub record Wrote (s : State) (bs : List ℕ) (r : Outcome Error (Unit {0}) × State) : Type 0 where
    pub took : List ℕ
    pub left : List ℕ
    pub split : bs ≡ took ++ left
    pub result : written r.1 ≡ written s ++ took
    pub complete : r.0 ≡ ok tt → left ≡ []
    pub ends : r.0 ≢ err stuck
    pub in_range : r.0 ≢ err slice_out_of_range

  -- A round that stops with an error has written what w.Write took.
  stopped :
      (s s' : State) (bs : List ℕ) (n : ℕ) (e : Error)
      → written s' ≡ written s ++ take n bs
      → e ≢ stuck
      → e ≢ slice_out_of_range
      → Wrote s bs (err e, s')
  stopped s s' bs n e took end range = record {
    took = take n bs;
    left = drop n bs;
    split = sym (take-append-drop n bs);
    result = took;
    complete = λ h. cc;
    ends = λ h. end (cc);
    in_range = λ h. range (cc);
  }

  went_on :
      (s s' : State) (bs : List ℕ) (n : ℕ) (r : Outcome Error (Unit {0}) × State)
      → written s' ≡ written s ++ take n bs
      → Wrote s' (drop n bs) r
      → Wrote s bs r
  went_on s s' bs n r took more = record {
    took = take n bs ++ more.took;
    left = more.left;
    split =
        sym (take-append-drop n bs)
        ∙ ap (◌++◌ (take n bs)) more.split
        ∙ sym (append_assoc (take n bs) more.took more.left);
    result =
        more.result
        ∙ ap (λ t. t ++ more.took) took
        ∙ append_assoc (written s) (take n bs) more.took;
    complete = more.complete;
    ends = more.ends;
    in_range = more.in_range;
  }

  after_write-Wrote :
      (s s' : State) (bs : List ℕ) (n : ℕ) (e : Option ℕ) (more : Outcome Error (Unit {0}) × State)
      → n ≤ length bs
      → written s' ≡ written s ++ take n bs
      → (n ≢ 0 → Wrote s' (drop n bs) more)
      → Wrote s bs (after_write w bs n e s' more)
  unfolding after_write
  after_write-Wrote s s' bs n (some x) more le took rest =
      rw (no_panic n (length bs) le) (stopped s s' bs n (writer x) took (λ h. cc) (λ h. cc))
  after_write-Wrote s s' bs n none more le took rest =
      rw (no_panic n (length bs) le) (elim (Bool-cases (n == 0)) [
        | inl e ↦ rw e (stopped s s' bs n short_write took (λ h. cc) (λ h. cc))
        | inr e ↦ rw e (went_on s s' bs n more took (rest (λ z. ground arith)))
      ])

  write_all_loop-Wrote :
      (fuel : ℕ) (s : State) (bs : List ℕ)
      → length bs ≤ fuel
      → Wrote s bs (write_all_loop w fuel s bs)
  unfolding write_all_loop
  write_all_loop-Wrote fuel s [] h = record {
    took = [];
    left = [];
    split = refl;
    result = sym (append-nil _);
    complete = λ e. refl;
    ends = λ e. cc;
    in_range = λ e. cc;
  }
  write_all_loop-Wrote zero s (b ∷ bs) h = absurd (omega arith)
  write_all_loop-Wrote (suc fuel) s (b ∷ bs) h =
      after_write-Wrote s _ (b ∷ bs) _ _ _ (count-le s (b ∷ bs)) (written-write s (b ∷ bs)) λ more.
        write_all_loop-Wrote fuel (write s (b ∷ bs)).2 (drop (write s (b ∷ bs)).0 (b ∷ bs))
          (omega (arith, length-drop (write s (b ∷ bs)).0 (b ∷ bs)))

  -- writeAll ends on every writer that keeps to the documentation of io.Writer: it never slices out
  -- of range, it has written a first part of the bytes, and all of them if it returns nil.
  pub write_all-Wrote : (s : State) (bs : List ℕ) → Wrote s bs (write_all w s bs)
  unfolding write_all
  write_all-Wrote s bs = write_all_loop-Wrote (length bs) s bs (omega arith)
