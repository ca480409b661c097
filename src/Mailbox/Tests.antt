-- ===== src/Mailbox/Tests.antt =====
-- Runs of the mailbox on small inputs, and the theorem at one of them.
use cyu_core.Base.{ℕ, ◌≡◌, refl, ◌≤◌, Bool, none, List, [], ◌∷◌, leb}
use cyu_core.Mailbox.{new, try_post, post_critical, pop_critical, pop_value, try_pop, len, cap}
use cyu_core.Mailbox.Order.{
  Op, post, urgent_post, pop, urgent_pop, receive, accept, deliver, run_op, run, of_kind,
  run_in_order, DeliveredInOrder, nothing_seen,
}

program : Unit {0}
unfolding new try_post post_critical pop_critical pop_value try_pop len cap accept deliver run_op
    run of_kind
program = tt

abbrev is_urgent : ℕ → Bool
is_urgent n = leb 100 n

-- The third ordinary value finds the channel full.
abbrev calls : List (Op ℕ)
calls = post 1 ∷ post 2 ∷ post 3 ∷ urgent_post 100 ∷ pop ∷ pop ∷ post 4 ∷ []

calls_accepted : (run calls (new 2, nothing_seen)).1.accepted ≡ 1 ∷ 2 ∷ 100 ∷ 4 ∷ []
unfolding program
calls_accepted = refl

calls_popped : (run calls (new 2, nothing_seen)).1.popped ≡ 100 ∷ 1 ∷ []
unfolding program
calls_popped = refl

-- A critical value that comes between the two steps of TryPop waits for the next one.
abbrev split_calls : List (Op ℕ)
split_calls = post 1 ∷ urgent_pop ∷ urgent_post 100 ∷ receive ∷ pop ∷ []

split_popped : (run split_calls (new 2, nothing_seen)).1.popped ≡ 1 ∷ 100 ∷ []
unfolding program
split_popped = refl

no_capacity : new {A = ℕ} 0 ≡ none
unfolding program
no_capacity = refl

run_in_order_example :
    DeliveredInOrder is_urgent (run split_calls (new 2, nothing_seen))
    × (len (run split_calls (new 2, nothing_seen)).0
        ≤ cap (run split_calls (new 2, nothing_seen)).0)
run_in_order_example = run_in_order is_urgent split_calls 2 (refl, (tt, (refl, (tt, (tt, tt)))))
