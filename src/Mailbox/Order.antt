-- ===== src/Mailbox/Order.antt =====
-- The sequences of calls of a mailbox and, within TryPop, of its two steps, with what they accept and
-- deliver.
use cyu_core.Base.{
  ℕ, zero, suc, ◌≤◌, ◌<◌, ◌≡◌, refl, ap, sym, ◌∙◌, Bool, true, false, not, Option, none, some, List,
  [], ◌∷◌, ◌++◌, arith, ltb, if◌then◌else◌, length, length-append, All, All-append, inl, inr,
  Bool-cases,
}
use cyu_core.Mailbox.{
  Queue, new, try_post, post_critical, pop_critical, pop_value, try_pop, len, cap,
}
use mathlib.Core.List.{append_assoc, append-nil}

-- What a producer or the consumer does: TryPost, PostCritical, TryPop without a call in between, or
-- one of the two steps of TryPop, popCritical and the receive.
pub data Op {ℓ} (A : Type ℓ) : Type ℓ where
  post urgent_post : A → Op A
  pop urgent_pop receive : Op A

-- The values that were accepted and those that were delivered, oldest first.
pub record Seen {ℓ} (A : Type ℓ) : Type ℓ where
  pub accepted : List A
  pub popped : List A

module _ {ℓ} {A : Type ℓ} where
  abbrev pub nothing_seen : Seen A
  nothing_seen = record { accepted = []; popped = [] }

  unfoldable pub accept : A → Bool → Seen A → Seen A
  accept a true seen = record { accepted = seen.accepted ++ (a ∷ []); popped = seen.popped }
  accept a false seen = seen

  unfoldable pub deliver : Option A → Seen A → Seen A
  deliver none seen = seen
  deliver (some a) seen = record { accepted = seen.accepted; popped = seen.popped ++ (a ∷ []) }

  unfoldable pub run_op : Op A → Option (Queue A) × Seen A → Option (Queue A) × Seen A
  run_op (post a) (q, seen) = let (taken, q') = try_post q a in (q', accept a taken seen)
  run_op (urgent_post a) (q, seen) =
      let (taken, q') = post_critical q a in (q', accept a taken seen)
  run_op pop (q, seen) = let (a, q') = try_pop q in (q', deliver a seen)
  run_op urgent_pop (none, seen) = (none, seen)
  run_op urgent_pop (some q, seen) = let (a, q') = pop_critical q in (some q', deliver a seen)
  run_op receive (none, seen) = (none, seen)
  run_op receive (some q, seen) = let (a, q') = pop_value q in (some q', deliver a seen)

  unfoldable pub run : List (Op A) → Option (Queue A) × Seen A → Option (Queue A) × Seen A
  run [] s = s
  run (o ∷ os) s = run os (run_op o s)

module _ {ℓ} {A : Type ℓ} (urgent : A → Bool) where
  -- The values of one kind.
  unfoldable pub of_kind : Bool → List A → List A
  of_kind b [] = []
  of_kind b (a ∷ xs) =
      let rest = of_kind b xs in
      if urgent a then (if b then a ∷ rest else rest) else (if b then rest else a ∷ rest)

  of_kind-append : (b : Bool) (xs ys : List A) → of_kind b (xs ++ ys) ≡ of_kind b xs ++ of_kind b ys
  unfolding of_kind
  of_kind-append b [] ys = refl
  of_kind-append b (a ∷ xs) ys = ground (arith, of_kind-append b xs ys)

  -- Each value is posted by the call of its kind.
  abbrev pub Sorted : Op A → Type 0
  Sorted (post a) = urgent a ≡ false
  Sorted (urgent_post a) = urgent a ≡ true
  Sorted pop = Unit {0}
  Sorted urgent_pop = Unit {0}
  Sorted receive = Unit {0}

  record Kept (q : Queue A) (seen : Seen A) : Type ℓ where
    urgent_kept : of_kind true seen.accepted ≡ of_kind true seen.popped ++ q.critical
    ordinary_kept : of_kind false seen.accepted ≡ of_kind false seen.popped ++ q.values
    critical_kind : All (λ a. urgent a ≡ true) q.critical
    values_kind : All (λ a. urgent a ≡ false) q.values
    bounded : length q.values ≤ q.capacity

  abbrev Holds : Option (Queue A) × Seen A → Type ℓ
  Holds (none, seen) = (seen.accepted ≡ []) × (seen.popped ≡ [])
  Holds (some q, seen) = Kept q seen

  of_kind-same : (b : Bool) (a : A) → urgent a ≡ b → of_kind b (a ∷ []) ≡ a ∷ []
  unfolding of_kind
  of_kind-same true a h = ground arith
  of_kind-same false a h = ground arith

  of_kind-other : (b : Bool) (a : A) → urgent a ≡ not b → of_kind b (a ∷ []) ≡ []
  unfolding of_kind
  of_kind-other true a h = ground arith
  of_kind-other false a h = ground arith

  -- A value joins its kind at the end.
  joins :
      (b : Bool) (a : A) (xs ys zs : List A)
      → urgent a ≡ b
      → of_kind b xs ≡ of_kind b ys ++ zs
      → of_kind b (xs ++ (a ∷ [])) ≡ of_kind b ys ++ (zs ++ (a ∷ []))
  joins b a xs ys zs kind h =
      rw (of_kind-append b xs (a ∷ []), of_kind-same b a kind, h)
        (append_assoc (of_kind b ys) zs (a ∷ []))

  stays_apart :
      (b : Bool) (a : A) (xs : List A)
      → urgent a ≡ not b
      → of_kind b (xs ++ (a ∷ [])) ≡ of_kind b xs
  stays_apart b a xs kind = rw (of_kind-append b xs (a ∷ []), of_kind-other b a kind) (append-nil _)

  -- The oldest value of its kind is delivered.
  leaves :
      (b : Bool) (a : A) (xs ys zs : List A)
      → urgent a ≡ b
      → of_kind b xs ≡ of_kind b ys ++ (a ∷ zs)
      → of_kind b xs ≡ of_kind b (ys ++ (a ∷ [])) ++ zs
  leaves b a xs ys zs kind h =
      rw (of_kind-append b ys (a ∷ []), of_kind-same b a kind, h)
        (sym (append_assoc (of_kind b ys) (a ∷ []) zs))

  -- A queue by its fields.
  abbrev queue : (values : List A) → (capacity : ℕ) → (critical : List A) → Queue A
  queue vs n cs = record { values = vs; capacity = n; critical = cs }

  Kept-post :
      (vs cs : List A) (n : ℕ) (seen : Seen A) (a : A)
      → urgent a ≡ false
      → length vs < n
      → Kept (queue vs n cs) seen
      → Kept (queue (vs ++ (a ∷ [])) n cs) (accept a true seen)
  unfolding accept
  Kept-post vs cs n seen a kind fits h = record {
    urgent_kept = stays_apart true a seen.accepted kind ∙ h.urgent_kept;
    ordinary_kept = joins false a seen.accepted seen.popped vs kind h.ordinary_kept;
    critical_kind = h.critical_kind;
    values_kind = All-append (λ x. urgent x ≡ false) vs (a ∷ []) h.values_kind (kind, tt);
    bounded = omega (arith, length-append vs (a ∷ []));
  }

  Kept-urgent_post :
      (vs cs : List A) (n : ℕ) (seen : Seen A) (a : A)
      → urgent a ≡ true
      → Kept (queue vs n cs) seen
      → Kept (queue vs n (cs ++ (a ∷ []))) (accept a true seen)
  unfolding accept
  Kept-urgent_post vs cs n seen a kind h = record {
    urgent_kept = joins true a seen.accepted seen.popped cs kind h.urgent_kept;
    ordinary_kept = stays_apart false a seen.accepted kind ∙ h.ordinary_kept;
    critical_kind = All-append (λ x. urgent x ≡ true) cs (a ∷ []) h.critical_kind (kind, tt);
    values_kind = h.values_kind;
    bounded = h.bounded;
  }

  Kept-pop_critical :
      (vs cs : List A) (n : ℕ) (seen : Seen A) (c : A)
      → Kept (queue vs n (c ∷ cs)) seen
      → Kept (queue vs n cs) (deliver (some c) seen)
  unfolding deliver
  Kept-pop_critical vs cs n seen c h = record {
    urgent_kept = leaves true c seen.accepted seen.popped cs h.critical_kind.0 h.urgent_kept;
    ordinary_kept =
        h.ordinary_kept
        ∙ ap (λ t. t ++ vs) (sym (stays_apart false c seen.popped h.critical_kind.0));
    critical_kind = h.critical_kind.1;
    values_kind = h.values_kind;
    bounded = h.bounded;
  }

  Kept-pop_value :
      (v : A) (vs cs : List A) (n : ℕ) (seen : Seen A)
      → Kept (queue (v ∷ vs) n cs) seen
      → Kept (queue vs n cs) (deliver (some v) seen)
  unfolding deliver
  Kept-pop_value v vs cs n seen h = record {
    urgent_kept =
        h.urgent_kept ∙ ap (λ t. t ++ cs) (sym (stays_apart true v seen.popped h.values_kind.0));
    ordinary_kept = leaves false v seen.accepted seen.popped vs h.values_kind.0 h.ordinary_kept;
    critical_kind = h.critical_kind;
    values_kind = h.values_kind.1;
    bounded = omega (arith, h.bounded);
  }

  Holds-pop :
      (vs cs : List A) (n : ℕ) (seen : Seen A)
      → Kept (queue vs n cs) seen
      → Holds (run_op pop (some (queue vs n cs), seen))
  unfolding run_op deliver try_pop pop_critical pop_value
  Holds-pop vs (c ∷ cs) n seen h = Kept-pop_critical vs cs n seen c h
  Holds-pop (v ∷ vs) [] n seen h = Kept-pop_value v vs [] n seen h
  Holds-pop [] [] n seen h = h

  Holds-urgent_pop :
      (vs cs : List A) (n : ℕ) (seen : Seen A)
      → Kept (queue vs n cs) seen
      → Holds (run_op urgent_pop (some (queue vs n cs), seen))
  unfolding run_op deliver pop_critical
  Holds-urgent_pop vs (c ∷ cs) n seen h = Kept-pop_critical vs cs n seen c h
  Holds-urgent_pop vs [] n seen h = h

  Holds-receive :
      (vs cs : List A) (n : ℕ) (seen : Seen A)
      → Kept (queue vs n cs) seen
      → Holds (run_op receive (some (queue vs n cs), seen))
  unfolding run_op deliver pop_value
  Holds-receive (v ∷ vs) cs n seen h = Kept-pop_value v vs cs n seen h
  Holds-receive [] cs n seen h = h

  Holds-run_op :
      (o : Op A) (s : Option (Queue A) × Seen A) → Sorted o → Holds s → Holds (run_op o s)
  unfolding run_op accept deliver try_post post_critical try_pop
  Holds-run_op (post a) (none, seen) kind h = h
  Holds-run_op (post a) (some q, seen) kind h =
      elim (Bool-cases (ltb (length q.values) q.capacity)) [
        | inl fits ↦ rw fits (Kept-post q.values q.critical q.capacity seen a kind (ground arith) h)
        | inr full ↦ rw full h
      ]
  Holds-run_op (urgent_post a) (none, seen) kind h = h
  Holds-run_op (urgent_post a) (some q, seen) kind h =
      Kept-urgent_post q.values q.critical q.capacity seen a kind h
  Holds-run_op pop (none, seen) kind h = h
  Holds-run_op pop (some q, seen) kind h = Holds-pop q.values q.critical q.capacity seen h
  Holds-run_op urgent_pop (none, seen) kind h = h
  Holds-run_op urgent_pop (some q, seen) kind h =
      Holds-urgent_pop q.values q.critical q.capacity seen h
  Holds-run_op receive (none, seen) kind h = h
  Holds-run_op receive (some q, seen) kind h = Holds-receive q.values q.critical q.capacity seen h

  Holds-run :
      (os : List (Op A)) (s : Option (Queue A) × Seen A)
      → All Sorted os
      → Holds s
      → Holds (run os s)
  unfolding run
  Holds-run [] s kinds h = h
  Holds-run (o ∷ os) s kinds h = Holds-run os (run_op o s) kinds.1 (Holds-run_op o s kinds.0 h)

  Holds-new : (n : ℕ) → Holds (new n, nothing_seen)
  unfolding new of_kind
  Holds-new zero = (refl, refl)
  Holds-new (suc n) = record {
    urgent_kept = refl;
    ordinary_kept = refl;
    critical_kind = tt;
    values_kind = tt;
    bounded = omega arith;
  }

  -- What is waiting in the queue, by its kind.
  abbrev waiting : Bool → Option (Queue A) → List A
  waiting b none = []
  waiting true (some q) = q.critical
  waiting false (some q) = q.values

  -- Every accepted value is delivered or waiting, once, in the order of acceptance of its kind.
  abbrev pub DeliveredInOrder : Option (Queue A) × Seen A → Type ℓ
  DeliveredInOrder (q, seen) =
      (b : Bool) → of_kind b seen.accepted ≡ of_kind b seen.popped ++ waiting b q

  kind_order : (s : Option (Queue A) × Seen A) → Holds s → DeliveredInOrder s
  unfolding of_kind
  kind_order (none, seen) h b = rw (h.0, h.1) refl
  kind_order (some q, seen) h true = h.urgent_kept
  kind_order (some q, seen) h false = h.ordinary_kept

  within_capacity : (s : Option (Queue A) × Seen A) → Holds s → len s.0 ≤ cap s.0
  unfolding len cap
  within_capacity (none, seen) h = omega arith
  within_capacity (some q, seen) h = h.bounded

  -- For every sequence of calls on a new mailbox, in which TryPop may be one step or come apart into
  -- its two, the critical values by PostCritical and the others by TryPost: the accepted values of each
  -- kind are those that were delivered, in the order of acceptance, followed by those that wait, and the
  -- ordinary ones that wait are within the capacity.
  pub run_in_order :
      (os : List (Op A)) (n : ℕ)
      → All Sorted os
      → let s = run os (new n, nothing_seen) in DeliveredInOrder s × (len s.0 ≤ cap s.0)
  run_in_order os n kinds =
      let s = run os (new n, nothing_seen) in
      let h = Holds-run os (new n, nothing_seen) kinds (Holds-new n) in
      (kind_order s h, within_capacity s h)
