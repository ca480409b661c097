-- ===== src/Mailbox.antt =====
-- internal/runtime/mailbox/queue.go: the queue between the producers and the runtime owner. TryPost
-- and PostCritical are one step each, since the channel and the mutex make them atomic. TryPop is two:
-- popCritical under the mutex and, if that finds nothing, a receive from the channel, before which a
-- producer may post. `try_pop` is TryPop with no such post. `none` is the nil pointer.
pub mod Order
mod Tests
use cyu_core.Base.{
  ℕ, zero, suc, Bool, true, false, Option, none, some, List, [], ◌∷◌, ◌++◌, ltb, if◌then◌else◌,
  length,
}

-- `values` is what the buffered channel holds, of at most `capacity` values.
pub record Queue {ℓ} (A : Type ℓ) : Type ℓ where
  pub values : List A
  pub capacity : ℕ
  pub critical : List A

module _ {ℓ} {A : Type ℓ} where
  -- `none` is the panic. A capacity below 0 is refused as 0 is.
  unfoldable pub new : (capacity : ℕ) → Option (Queue A)
  new zero = none
  new (suc n) = some (record { values = []; capacity = suc n; critical = [] })

  unfoldable pub try_post : Option (Queue A) → A → Bool × Option (Queue A)
  try_post none a = (false, none)
  try_post (some q) a =
      if ltb (length q.values) q.capacity
      then (
        true,
        some (record {
          values = q.values ++ (a ∷ []);
          capacity = q.capacity;
          critical = q.critical;
        }),
      )
      else (false, some q)

  unfoldable pub post_critical : Option (Queue A) → A → Bool × Option (Queue A)
  post_critical none a = (false, none)
  post_critical (some q) a = (
    true,
    some (record { values = q.values; capacity = q.capacity; critical = q.critical ++ (a ∷ []) }),
  )

  -- `none` is Go's zero value with false.
  unfoldable pub pop_critical : Queue A → Option A × Queue A
  pop_critical q = elim q.critical [
    | [] ↦ (none, q)
    | a ∷ rest ↦ (some a, record { values = q.values; capacity = q.capacity; critical = rest })
  ]

  -- The `select` of TryPop, its receive from the channel.
  unfoldable pub pop_value : Queue A → Option A × Queue A
  pop_value q = elim q.values [
    | [] ↦ (none, q)
    | a ∷ rest ↦ (some a, record { values = rest; capacity = q.capacity; critical = q.critical })
  ]

  unfoldable pub try_pop : Option (Queue A) → Option A × Option (Queue A)
  unfolding pop_critical pop_value
  try_pop none = (none, none)
  try_pop (some q) =
      let (urgent, q') = pop_critical q in
      let (ordinary, q'') = pop_value q' in
      elim urgent [ some a ↦ (some a, some q') | none ↦ (ordinary, some q'') ]

  unfoldable pub len : Option (Queue A) → ℕ
  len none = 0
  len (some q) = length q.values

  unfoldable pub critical_len : Option (Queue A) → ℕ
  critical_len none = 0
  critical_len (some q) = length q.critical

  unfoldable pub cap : Option (Queue A) → ℕ
  cap none = 0
  cap (some q) = q.capacity
