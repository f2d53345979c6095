-- ===== src/RateLimit/Window.antt =====
-- The guarantee of the limiter: whatever the calls, no window of the configured length holds more
-- reservations of one key than the budget.
use aqua_matrix_connector.RateLimit.Queue.{
  same_key, budget-release, queue-release, drop_last-All, length-drop_last-le,
}
use aqua_matrix_connector.RateLimit.{RateLimiter, new, queue, release}
use aqua_matrix_connector.Common.{
  ◌≤◌, ◌≡◌, ◌<◌, true, count, length, ◌&&◌, false, ltb, drop_last, arith, ℕ, List, ◌∷◌, [], ◌∙◌,
  Bool-cases, refl, inl, ltb→lt, inr, and_parts,
}
use aqua_matrix_connector.Common.Text.{Text}
use aqua_matrix_connector.Common.Assoc.{lookup}
use aqua_matrix_connector.RateLimit.Calls.{
  IsBounded, call, calls_from, granted, give_back, Call, drop_last-append_ne, Monotone,
  count-drop_last-le, within, reserve,
}
use aqua_matrix_connector.RateLimit.Reserve.{reserve-IsBounded}

module _ (k j : Text) (budget window now : ℕ) (rl : RateLimiter) (log : List ℕ)
    (b : IsBounded k budget window now rl log) where
  give_back-own :
      same_key j k ≡ true
      → 0 < length (queue rl k)
      → let s = call k (give_back j) (rl, log) in IsBounded k budget window now s.0 s.1
  unfolding call
  give_back-own same some_held = record {
    same_budget = (budget-release rl j).0 ∙ b.same_budget;
    same_window = (budget-release rl j).1 ∙ b.same_window;
    older = b.older;
    splits = ground (
      arith,
      same,
      some_held,
      queue-release rl j k,
      b.splits,
      drop_last-append_ne b.older (queue rl k),
    );
    gone = b.gone;
    past =
        ground
          (arith, same, queue-release rl j k, drop_last-All (λ t. t ≤ now) (queue rl k) b.past);
    few = ground (arith, same, queue-release rl j k, length-drop_last-le (queue rl k), b.few);
    fits = λ a. ground (arith, same, some_held, b.fits a, count-drop_last-le (within a window) log);
  }

  give_back-none :
      (same_key j k && ltb 0 (length (queue rl k))) ≡ false
      → let s = call k (give_back j) (rl, log) in IsBounded k budget window now s.0 s.1
  unfolding call
  give_back-none nothing = record {
    same_budget = (budget-release rl j).0 ∙ b.same_budget;
    same_window = (budget-release rl j).1 ∙ b.same_window;
    older = b.older;
    splits = rw unchanged (rw nothing b.splits);
    gone = b.gone;
    past = rw unchanged b.past;
    few = rw unchanged b.few;
    fits = λ a. rw nothing (b.fits a);
  }
    where
      drop_none : (q : List ℕ) → ltb 0 (length q) ≡ false → drop_last q ≡ q
      drop_none [] h = refl
      drop_none (t ∷ q) h = ground arith

      unchanged : queue (release rl j) k ≡ queue rl k
      unchanged = ground (arith, nothing, queue-release rl j k, drop_none (queue rl k))

  give_back-IsBounded :
      let s = call k (give_back j) (rl, log) in IsBounded k budget window now s.0 s.1
  give_back-IsBounded = elim (Bool-cases (same_key j k && ltb 0 (length (queue rl k)))) [
    | inl h ↦
        give_back-own (and_parts (same_key j k) _ h).0
          (ltb→lt 0 (length (queue rl k)) (and_parts (same_key j k) _ h).1)
    | inr h ↦ give_back-none h
  ]

calls_from-fits :
    (k : Text) (budget window now : ℕ) (calls : List Call) (rl : RateLimiter) (log : List ℕ)
    → Monotone now calls
    → IsBounded k budget window now rl log
    → (a : ℕ) → count (within a window) (calls_from k calls (rl, log)).1 ≤ budget
unfolding calls_from
calls_from-fits k budget window now [] rl log m b a = b.fits a
calls_from-fits k budget window now (reserve j t ∷ calls) rl log m b a =
    let s = call k (reserve j t) (rl, log) in
    calls_from-fits k budget window t calls s.0 s.1 m.1
      (reserve-IsBounded k j budget window now t rl log m.0 b) a
calls_from-fits k budget window now (give_back j ∷ calls) rl log m b a =
    let s = call k (give_back j) (rl, log) in
    calls_from-fits k budget window now calls s.0 s.1 m
      (give_back-IsBounded k j budget window now rl log b) a

new-IsBounded : (k : Text) (budget window : ℕ) → IsBounded k budget window 0 (new budget window) []
unfolding new queue lookup
new-IsBounded k budget window = record {
  same_budget = refl;
  same_window = refl;
  older = [];
  splits = refl;
  gone = tt;
  past = tt;
  few = omega arith;
  fits = λ a. omega arith;
}

-- Whatever reservations and releases callers make, under any keys, with a clock that does not run
-- backwards: of the reservations of one key that were granted and not given back (a release gives
-- back the most recent one), no interval
-- `[a, a + window)` holds more than the budget.
pub window_holds_budget :
    (budget window : ℕ) (k : Text) (calls : List Call)
    → Monotone 0 calls
    → (a : ℕ) → count (within a window) (granted budget window k calls) ≤ budget
unfolding granted
window_holds_budget budget window k calls m a =
    calls_from-fits k budget window 0 calls (new budget window) [] m (new-IsBounded k budget window)
      a
