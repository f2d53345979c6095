-- ===== src/RateLimit/Slots.antt =====
-- Slots of one key: how long a refused caller waits, what a release gives back, and the panic.
use aqua_matrix_connector.RateLimit.{
  RateLimiter, acquired, queue, trim, try_acquire, pop_expired, refused, remaining, panicked,
  over_budget, release,
}
use aqua_matrix_connector.RateLimit.Queue.{
  queue-try_acquire, after_acquire, same_key, length-pop_expired-le, is_acquired,
  acquired-try_acquire, budget-try_acquire, pop_expired-All, queue-release, budget-release,
}
use aqua_matrix_connector.Common.Text.{Text, text_eq_refl, to_ascii_lowercase}
use aqua_matrix_connector.Common.{
  ℕ, List, ◌≡◌, true, if◌then◌else◌, ◌≤◌, ◌∷◌, leb, suc, ltb, length, ◌-◌, arith, ◌+◌, Bool-cases,
  inl, inr, [], All, refl, ◌↔◌, ◌<◌, drop_last-append, length-append, ◌++◌, false,
}

pub result-try_acquire :
    (rl : RateLimiter) (k : Text) (now : ℕ)
    → let q = pop_expired rl.window now (queue rl k) in
      (try_acquire rl k now).1 ≡ (if leb rl.budget (length q) then refused rl now q else acquired)
unfolding try_acquire trim
result-try_acquire rl k now = ground arith

own_key : (k : Text) → same_key k k ≡ true
own_key k = text_eq_refl (to_ascii_lowercase k)

own_queue :
    (rl : RateLimiter) (k : Text) (now : ℕ)
    → queue (try_acquire rl k now).0 k ≡ after_acquire rl (queue rl k) now
own_queue rl k now = rw (queue-try_acquire, own_key k)

-- A caller refused with its oldest reservation at `oldest`, asking again later.
ask_again :
    (budget window now later oldest : ℕ) (rest : List ℕ)
    → oldest ≤ now
    → now ≤ later
    → suc (length rest) ≡ budget
    → ltb (now - oldest) window ≡ true
    → ltb (length (pop_expired window later (oldest ∷ rest))) budget
      ≡ leb (now + (window - (now - oldest))) later
unfolding pop_expired
ask_again budget window now later oldest rest past after full young =
    ground (arith, length-pop_expired-le window later rest)

-- What `trim` leaves in front is younger than the window.
pop_expired_front :
    (window now : ℕ) (q : List ℕ) {t : ℕ} {rest : List ℕ}
    → pop_expired window now q ≡ t ∷ rest
    → ltb (now - t) window ≡ true
unfolding pop_expired
pop_expired_front window now [] e = ground arith
pop_expired_front window now (u ∷ q) e = elim (Bool-cases (leb window (now - u))) [
  | inl old ↦ pop_expired_front window now q (rw old at e)
  | inr young ↦ ground (arith, young)
]

module _ (rl : RateLimiter) (k : Text) (now later wait : ℕ) (past : All (λ t. t ≤ now) (queue rl k))
    (few : length (queue rl k) ≤ rl.budget) (refusal : (try_acquire rl k now).1 ≡ over_budget wait)
    (after : now ≤ later) where
  wait_cases :
      (q : List ℕ)
      → pop_expired rl.window now (queue rl k) ≡ q
      → is_acquired (try_acquire (try_acquire rl k now).0 k later).1 ≡ leb (now + wait) later
  unfolding refused after_acquire
  wait_cases [] e = ground (arith, e, result-try_acquire rl k now)
  wait_cases (oldest ∷ rest) e = ground (
    arith,
    e,
    refusal,
    result-try_acquire rl k now,
    acquired-try_acquire (try_acquire rl k now).0 k later,
    own_queue rl k now,
    budget-try_acquire rl k now,
    length-pop_expired-le rl.window now (queue rl k),
    pop_expired_front rl.window now (queue rl k) e,
    pop_expired-All (λ t. t ≤ now) rl.window now (queue rl k) past,
    ask_again rl.budget rl.window now later oldest rest,
  )

  -- A refused caller learns exactly how long to wait: asking again, with no other call of this key
  -- between, is granted from that moment on and refused before it.
  pub wait_exact :
      is_acquired (try_acquire (try_acquire rl k now).0 k later).1 ≡ leb (now + wait) later
  wait_exact = wait_cases (pop_expired rl.window now (queue rl k)) refl

pop_expired_idem :
    (window now : ℕ) (q : List ℕ)
    → pop_expired window now (pop_expired window now q) ≡ pop_expired window now q
unfolding pop_expired
pop_expired_idem window now [] = refl
pop_expired_idem window now (t ∷ q) = elim (Bool-cases (leb window (now - t))) [
  | inl old ↦ rw old (pop_expired_idem window now q)
  | inr young ↦ ground (arith, young)
]

remaining_lem :
    (rl : RateLimiter) (k : Text) (now : ℕ)
    → (remaining rl k now).1 ≡ rl.budget - length (pop_expired rl.window now (queue rl k))
unfolding remaining trim
remaining_lem rl k now = refl

-- A reservation made now is not trimmed now.
pop_expired-snoc :
    (window now : ℕ) (q : List ℕ)
    → 0 < window
    → pop_expired window now (pop_expired window now q ++ now ∷ [])
      ≡ pop_expired window now q ++ now ∷ []
unfolding pop_expired
pop_expired-snoc window now [] h = ground arith
pop_expired-snoc window now (t ∷ q) h = elim (Bool-cases (leb window (now - t))) [
  | inl old ↦ rw old (pop_expired-snoc window now q h)
  | inr young ↦ ground (arith, young)
]

queue_after_release :
    (rl : RateLimiter) (k : Text) (now : ℕ)
    → is_acquired (try_acquire rl k now).1 ≡ true
    → queue (release (try_acquire rl k now).0 k) k ≡ pop_expired rl.window now (queue rl k)
unfolding after_acquire
queue_after_release rl k now granted = ground (
  arith,
  granted,
  acquired-try_acquire rl k now,
  own_key k,
  own_queue rl k now,
  queue-release (try_acquire rl k now).0 k k,
  drop_last-append (pop_expired rl.window now (queue rl k)) now,
)

-- A reservation that is not granted takes no slot.
pub slots_kept :
    (rl : RateLimiter) (k : Text) (now : ℕ)
    → is_acquired (try_acquire rl k now).1 ≡ false
    → (remaining (try_acquire rl k now).0 k now).1 ≡ (remaining rl k now).1
unfolding after_acquire
slots_kept rl k now refusal = ground (
  arith,
  refusal,
  remaining_lem rl k now,
  remaining_lem (try_acquire rl k now).0 k now,
  own_queue rl k now,
  acquired-try_acquire rl k now,
  budget-try_acquire rl k now,
  pop_expired_idem rl.window now (queue rl k),
)

-- For a window that is not empty: a granted reservation takes exactly one slot, and giving it back
-- at once restores the number of slots that were left.
pub slots_left :
    (rl : RateLimiter) (k : Text) (now : ℕ)
    → 0 < rl.window
    → is_acquired (try_acquire rl k now).1 ≡ true
    → let rl' = (try_acquire rl k now).0 in
      ((remaining rl k now).1 ≡ (remaining rl' k now).1 + 1)
      × ((remaining (release rl' k) k now).1 ≡ (remaining rl k now).1)
unfolding after_acquire
slots_left rl k now h granted = (takes, restores)
  where
    rl' : RateLimiter
    rl' = (try_acquire rl k now).0

    takes : (remaining rl k now).1 ≡ (remaining rl' k now).1 + 1
    takes = ground (
      arith,
      granted,
      remaining_lem rl k now,
      remaining_lem rl' k now,
      own_queue rl k now,
      acquired-try_acquire rl k now,
      budget-try_acquire rl k now,
      pop_expired-snoc rl.window now (queue rl k),
      length-append (pop_expired rl.window now (queue rl k)) (now ∷ []),
    )

    restores : (remaining (release rl' k) k now).1 ≡ (remaining rl k now).1
    restores = ground (
      arith,
      granted,
      remaining_lem rl k now,
      remaining_lem (release rl' k) k now,
      queue_after_release rl k now,
      budget-try_acquire rl k now,
      budget-release rl' k,
      pop_expired_idem rl.window now (queue rl k),
    )

module _ (rl : RateLimiter) (k : Text) (now : ℕ) (few : length (queue rl k) ≤ rl.budget) where
  panic_cases :
      (q : List ℕ)
      → pop_expired rl.window now (queue rl k) ≡ q
      → ((try_acquire rl k now).1 ≡ panicked) ↔ (rl.budget ≡ 0)
  unfolding refused
  panic_cases [] e = (
    λ h. ground (arith, e, h, result-try_acquire rl k now),
    λ h. ground (arith, e, h, result-try_acquire rl k now),
  )
  panic_cases (t ∷ q) e = (
    λ h. ground (arith, e, h, result-try_acquire rl k now),
    λ h. ground (arith, e, h, few, length-pop_expired-le rl.window now (queue rl k)),
  )

  -- A reservation panics exactly when the budget is 0, for a key that holds no more reservations
  -- than the budget.
  pub panics-iff-no_budget : ((try_acquire rl k now).1 ≡ panicked) ↔ (rl.budget ≡ 0)
  panics-iff-no_budget = panic_cases (pop_expired rl.window now (queue rl k)) refl
