-- ===== src/RateLimit/Tests.antt =====
-- The limiter at concrete inputs: the runs of the source's own tests, and the theorems applied.
use aqua_matrix_connector.RateLimit.{
  RateLimiter, over_budget, panicked, new, queue, set_queue, trim, try_acquire, release,
  pop_expired, refused,
}
use aqua_matrix_connector.RateLimit.Queue.{is_acquired}
use aqua_matrix_connector.RateLimit.Calls.{reserve, give_back, granted, calls_from, call, within}
use aqua_matrix_connector.RateLimit.Window.{window_holds_budget}
use aqua_matrix_connector.RateLimit.Slots.{wait_exact, panics-iff-no_budget}
use aqua_matrix_connector.Common.Text.{Text, codes, to_lower}
use aqua_matrix_connector.Common.Assoc.{lookup, insert}
use aqua_matrix_connector.Common.{count, ◌≡◌, leb, ◌∷◌, ◌+◌, ◌↔◌, refl, [], arith, true, ◌≤◌}

abbrev alice : Text
alice = codes "@a:x"

abbrev alice_upper : Text
alice_upper = codes "@A:x"

abbrev bob : Text
bob = codes "@b:x"

-- Two reservations under both spellings of one key.
abbrev full : RateLimiter
full = record { budget = 2; window = 10; sends = (codes "@a:x", 0 ∷ 1 ∷ []) ∷ [] }

two_reservations : (try_acquire (try_acquire (new 2 10) alice 0).0 alice_upper 1).0 ≡ full
unfolding try_acquire trim queue set_queue lookup insert pop_expired new to_lower
two_reservations = refl

third_refused : (try_acquire full alice 2).1 ≡ over_budget 8
unfolding try_acquire trim queue set_queue lookup insert pop_expired refused to_lower
third_refused = refl

granted_run :
    granted 1 10 alice
      (reserve alice 0 ∷ reserve bob 3 ∷ reserve alice 5 ∷ reserve alice_upper 10 ∷ [])
    ≡ 0 ∷ 10 ∷ []
unfolding granted calls_from call try_acquire trim queue set_queue lookup insert pop_expired refused
    new to_lower release
granted_run = refl

window_holds_budget_example :
    count
      (within 5 10)
      (granted 1 10 alice (reserve alice 0 ∷ give_back alice ∷ reserve alice 7 ∷ []))
    ≤ 1
window_holds_budget_example =
    window_holds_budget 1 10 alice (reserve alice 0 ∷ give_back alice ∷ reserve alice 7 ∷ [])
      (omega arith) 5

wait_exact_example :
    is_acquired (try_acquire (try_acquire full alice 2).0 alice 10).1 ≡ leb (2 + 8) 10
unfolding queue lookup to_lower
wait_exact_example =
    wait_exact full alice 2 10 8 (omega arith) (omega arith) third_refused (omega arith)

first_for_bob : is_acquired (try_acquire full bob 2).1 ≡ true
unfolding try_acquire trim queue set_queue lookup insert pop_expired to_lower
first_for_bob = refl

panics-iff-no_budget_example :
    ((try_acquire (new 0 10) alice 0).1 ≡ panicked) ↔ ((new 0 10).budget ≡ 0)
unfolding queue lookup new
panics-iff-no_budget_example = panics-iff-no_budget (new 0 10) alice 0 (omega arith)
