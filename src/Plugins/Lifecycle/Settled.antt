-- ===== src/Plugins/Lifecycle/Settled.antt =====
-- The states of a plugin between two operations.
use cyu_core.Base.{
  ℕ, ◌≡◌, ◌⊎◌, refl, Bool, true, false, Option, List, [], ◌∷◌, ◌==◌, arith, inl, inr, Bool-cases,
}
use cyu_core.Plugins.Entry.{
  State, registered, enabling, enabled, disabling, disabled, failed, Failure, recover,
  on_success-elim, disable_phase,
}
use cyu_core.Plugins.Lifecycle.{
  Entry, Services, Manager, is_registered, set_entry, set_shared, set_last_error, disable_entry,
  rollback, with_error,
}

-- The plugin is off: none of its handlers runs, and it may register nothing.
unfoldable pub is_resting : State → Bool
is_resting registered = true
is_resting disabled = true
is_resting failed = true
is_resting enabling = false
is_resting enabled = false
is_resting disabling = false

pub record IsOff (e : Entry) : Type 0 where
  pub not_enabled : e.is_enabled ≡ false
  pub refuses : e.accepts_subscriptions ≡ false
  pub rests : is_resting e.state ≡ true

pub record IsOn (e : Entry) : Type 0 where
  pub now_enabled : e.is_enabled ≡ true
  pub accepts : e.accepts_subscriptions ≡ true
  pub state_enabled : e.state ≡ enabled

abbrev pub IsSettled : Entry → Type 0
IsSettled e = IsOff e ⊎ IsOn e

module _ {S : Type 0} where
  pub entry_of-set_entry :
      (P : Entry → Type 0) (o p : ℕ) (e : Entry) (m : Manager S)
      → P e
      → ((p == o) ≡ false → P (m.entry_of p))
      → P ((set_entry o e m).entry_of p)
  unfolding set_entry
  entry_of-set_entry P o p e m new old = elim (Bool-cases (p == o)) [
    | inl h ↦ rw h new
    | inr h ↦ rw h (old h)
  ]

module _ {S : Type 0} where
  pub set_last_error_off :
      (o p : ℕ) (errors : List Failure) (m : Manager S)
      → IsOff (m.entry_of o)
      → IsOff (m.entry_of p)
      → IsOff ((set_last_error o errors m).entry_of p)
  unfolding set_last_error
  set_last_error_off o p errors m off others =
      entry_of-set_entry IsOff o p (with_error (m.entry_of o) errors) m
        (record { not_enabled = off.not_enabled; refuses = off.refuses; rests = off.rests })
        (λ h. others)

abbrev pub is_off :
    (e : Entry)
    → e.is_enabled ≡ false
    → e.accepts_subscriptions ≡ false
    → is_resting e.state ≡ true
    → IsOff e
is_off e a b c = record { not_enabled = a; refuses = b; rests = c }

module _ {S : Type 0} (services : Services S) where
  -- The plugin is off after disableEntry, whatever its Disable did.
  pub disable_entry_elim :
      (P : Entry → Type 0) (o : ℕ) (success : State) (m : Manager S) (p : ℕ)
      → is_resting success ≡ true
      → ((e : Entry) → IsOff e → P e)
      → ((p == o) ≡ false → P (m.entry_of p))
      → P ((disable_entry services o success m).1.entry_of p)
  unfolding disable_entry set_entry set_shared is_resting
  disable_entry_elim P o success m p rests off others =
      let ran = services.disable o (services.close_owner o m.shared) in
      on_success-elim (λ (t : Option Failure × Manager S). P (t.1.entry_of p))
        (recover o disable_phase ran.0) _ _
        (λ e. elim (Bool-cases (p == o)) [
          | inl h ↦ rw h (off _ (is_off _ refl refl rests))
          | inr h ↦ rw h (others h)
        ])
        (λ f e. elim (Bool-cases (p == o)) [
          | inl h ↦ rw h (off _ (is_off _ refl refl refl))
          | inr h ↦ rw h (others h)
        ])

  pub disable_entry-order :
      (o : ℕ) (success : State) (m : Manager S)
      → (disable_entry services o success m).1.order ≡ m.order
  unfolding disable_entry set_entry set_shared
  disable_entry-order o success m =
      let ran = services.disable o (services.close_owner o m.shared) in
      on_success-elim (λ (t : Option Failure × Manager S). t.1.order ≡ m.order)
        (recover o disable_phase ran.0) _ _ (λ e. refl) (λ f e. refl)

  -- Every plugin that was enabled is off after the rollback, and one that was off stays off.
  pub rollback_off :
      (started : List ℕ) (m : Manager S) (p : ℕ)
      → (is_registered p started ≡ false → IsOff (m.entry_of p))
      → IsOff ((rollback services started m).1.entry_of p)
  unfolding rollback is_registered is_resting
  rollback_off [] m p h = h refl
  rollback_off (o ∷ os) m p h = rollback_off os (disable_entry services o disabled m).1 p (λ later.
      disable_entry_elim IsOff o disabled m p refl (λ e off. off) (λ other. h (ground arith)))
