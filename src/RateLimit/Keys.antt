-- ===== src/RateLimit/Keys.antt =====
-- Keys of the limiter: the ASCII case of a key does not matter, and keys do not disturb each other.
use aqua_matrix_connector.RateLimit.{
  RateLimiter, queue, set_queue, trim, try_acquire, remaining, release, pop_expired, refused,
}
use aqua_matrix_connector.RateLimit.Queue.{
  same_key, queue-try_acquire, queue-release, budget-try_acquire, budget-release,
}
use aqua_matrix_connector.RateLimit.Slots.{result-try_acquire}
use aqua_matrix_connector.Common.Text.{Text, text_eq_sound, to_ascii_lowercase}
use aqua_matrix_connector.Common.{ℕ, ◌≡◌, List, false, true, [], ◌⊎◌, ◌∷◌, inl, inr, arith, refl}

result_of_queue :
    (r s : RateLimiter) (k : Text) (now : ℕ)
    → r.budget ≡ s.budget
    → r.window ≡ s.window
    → queue r k ≡ queue s k
    → (try_acquire r k now).1 ≡ (try_acquire s k now).1
unfolding refused
result_of_queue r s k now b w q = elim (List-cases (pop_expired s.window now (queue s k))) [
  | inl e ↦ ground (arith, e, b, w, q, result-try_acquire r k now, result-try_acquire s k now)
  | inr (t, rest, e) ↦
      ground (arith, e, b, w, q, result-try_acquire r k now, result-try_acquire s k now)
]
  where
    List-cases : (xs : List ℕ) → (xs ≡ []) ⊎ ((t : ℕ) × (rest : List ℕ) × (xs ≡ t ∷ rest))
    List-cases [] = inl refl
    List-cases (x ∷ xs) = inr (x, xs, refl)

-- A reservation or a release under one key changes neither the outcome nor the queue of any key
-- that differs from it beyond ASCII case.
pub other_keys_unmoved :
    (rl : RateLimiter) (j k : Text) (earlier now : ℕ)
    → same_key j k ≡ false
    → ((try_acquire (try_acquire rl j earlier).0 k now).1 ≡ (try_acquire rl k now).1)
      × ((try_acquire (release rl j) k now).1 ≡ (try_acquire rl k now).1)
      × (queue (try_acquire rl j earlier).0 k ≡ queue rl k)
      × (queue (release rl j) k ≡ queue rl k)
other_keys_unmoved rl j k earlier now other = (
  result_of_queue (try_acquire rl j earlier).0 rl k now (budget-try_acquire rl j earlier).0
      (budget-try_acquire rl j earlier).1 after_reserve,
  result_of_queue (release rl j) rl k now (budget-release rl j).0 (budget-release rl j).1
      after_release,
  after_reserve,
  after_release,
)
  where
    after_reserve : queue (try_acquire rl j earlier).0 k ≡ queue rl k
    after_reserve = rw queue-try_acquire (rw other)

    after_release : queue (release rl j) k ≡ queue rl k
    after_release = rw queue-release (rw other)

-- Spellings of a key that differ only in ASCII case are one key for every operation.
pub key_case_ignored :
    (rl : RateLimiter) (j k : Text) (now : ℕ)
    → same_key j k ≡ true
    → (try_acquire rl j now ≡ try_acquire rl k now)
      × (release rl j ≡ release rl k)
      × (remaining rl j now ≡ remaining rl k now)
unfolding try_acquire release remaining trim queue set_queue
key_case_ignored rl j k now same =
    let e = text_eq_sound (to_ascii_lowercase j) (to_ascii_lowercase k) same in
    (rw e, ground (arith, e), rw e)
