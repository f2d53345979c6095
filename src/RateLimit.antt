-- ===== src/RateLimit.antt =====
-- crates/aqua-messenger/src/ratelimit.rs: the per-recipient sliding-window send limit.
-- Instants and durations are nanoseconds; `duration_since` gives 0 for a later instant.
pub mod Queue
pub mod Calls
pub mod Reserve
pub mod Window
pub mod Slots
pub mod Keys
mod Tests
use aqua_matrix_connector.Common.{
  ℕ, ◌-◌, ◌+◌, List, [], ◌∷◌, ◌++◌, Option, none, some, leb, if◌then◌else◌, unwrap_or, length,
  drop_last,
}
use aqua_matrix_connector.Common.Text.{Text, to_ascii_lowercase}
use aqua_matrix_connector.Common.Assoc.{Assoc, lookup, insert}

pub record RateLimiter : Type 0 where
  pub budget : ℕ
  pub window : ℕ
  pub sends : Assoc (List ℕ)

unfoldable pub new : ℕ → ℕ → RateLimiter
new budget window = record { budget = budget; window = window; sends = [] }

-- The loop of `trim`: pop the front while it has left the window.
unfoldable pub pop_expired : ℕ → ℕ → List ℕ → List ℕ
pop_expired window now [] = []
pop_expired window now (t ∷ q) = if leb window (now - t) then pop_expired window now q else t ∷ q

-- The reservations held under a key; a missing entry is an empty queue.
unfoldable pub queue : RateLimiter → Text → List ℕ
queue rl key = unwrap_or (lookup (to_ascii_lowercase key) rl.sends) []

unfoldable pub set_queue : RateLimiter → Text → List ℕ → RateLimiter
set_queue rl key q = record rl { sends = insert (to_ascii_lowercase key) q rl.sends }

-- The new state and the trimmed queue, which stands in the map.
unfoldable pub trim : RateLimiter → Text → ℕ → RateLimiter × List ℕ
trim rl key now = let q = pop_expired rl.window now (queue rl key) in (set_queue rl key q, q)

-- `Ok(())`, `Err(wait)`, and the panic of `expect` on an empty queue.
pub data Acquire : Type 0 where
  acquired : Acquire
  over_budget : ℕ → Acquire
  panicked : Acquire

unfoldable pub refused : RateLimiter → ℕ → List ℕ → Acquire
refused rl now [] = panicked
refused rl now (oldest ∷ q) = over_budget (rl.window - (now - oldest))

unfoldable pub try_acquire : RateLimiter → Text → ℕ → RateLimiter × Acquire
unfolding refused
try_acquire rl key now =
    let (rl', q) = trim rl key now in
    if leb rl.budget (length q)
    then (rl', refused rl now q)
    else (set_queue rl' key (q ++ now ∷ []), acquired)

-- Nothing happens under a key that has no entry.
unfoldable pub release : RateLimiter → Text → RateLimiter
release rl key = elim (lookup (to_ascii_lowercase key) rl.sends) [
  | none ↦ rl
  | some q ↦ set_queue rl key (drop_last q)
]

unfoldable pub remaining : RateLimiter → Text → ℕ → RateLimiter × ℕ
remaining rl key now = let (rl', q) = trim rl key now in (rl', rl.budget - length q)
