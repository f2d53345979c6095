-- ===== src/RateLimit/Reserve.antt =====
-- A reservation under any key keeps the window's bound.
use aqua_matrix_connector.RateLimit.Queue.{
  same_key, is_acquired, queue-try_acquire, after_acquire, pop_expired-Trims, acquired-try_acquire,
  budget-try_acquire, length-pop_expired-le, pop_expired-All, Trims, queue_congr,
}
use mathlib.Core.List.{append_assoc}
use aqua_matrix_connector.RateLimit.{RateLimiter, queue, try_acquire, pop_expired}
use aqua_matrix_connector.Common.{
  ◌≤◌, if◌then◌else◌, ◌≡◌, true, leb, length, ◌++◌, ◌+◌, false, ltb, All, length-append, arith, ap,
  ℕ, List, ◌∷◌, [], All-mono, All-append, ◌∙◌, Bool-cases, subst, inl, inr, sym,
}
use aqua_matrix_connector.Common.Text.{Text}
use aqua_matrix_connector.RateLimit.Calls.{
  IsBounded, out_of_window, call, past_split, reserve, count-snoc-le,
}

module _ (k j : Text) (budget window last now : ℕ) (rl : RateLimiter) (log : List ℕ)
    (later : last ≤ now) (b : IsBounded k budget window last rl log) where
  young : List ℕ
  young = pop_expired window now (queue rl k)

  trims : Trims window now (queue rl k)
  trims = pop_expired-Trims window now (queue rl k)

  expired : List ℕ
  expired = b.older ++ trims.dropped

  still_past : All (λ t. t ≤ now) (queue rl k)
  still_past = All-mono (λ t h. omega arith) (queue rl k) b.past

  still_gone : All (λ t. t + window ≤ now) expired
  unfolding expired
  still_gone =
      All-append (λ t. t + window ≤ now) b.older trims.dropped
        (All-mono (λ t h. omega arith) b.older b.gone)
        (out_of_window window now trims.dropped trims.gone (
          past_split now trims.dropped (pop_expired window now (queue rl k))
            (subst (All (λ t. t ≤ now)) trims.splits still_past)))

  log_splits : log ≡ expired ++ young
  unfolding expired young
  log_splits =
      b.splits
      ∙ ap (◌++◌ b.older) trims.splits
      ∙ sym (append_assoc b.older trims.dropped (pop_expired window now (queue rl k)))

  own_queue :
      (same : same_key j k ≡ true)
      → queue (try_acquire rl j now).0 k
        ≡ (if leb budget (length young) then young else young ++ now ∷ [])
  unfolding young after_acquire
  own_queue same = ground (arith, same, b.same_window, b.same_budget, queue-try_acquire rl j k now)

  own_grant :
      (same : same_key j k ≡ true)
      → is_acquired (try_acquire rl j now).1 ≡ ltb (length young) budget
  unfolding young
  own_grant same = ground (
    arith,
    same,
    b.same_window,
    b.same_budget,
    acquired-try_acquire rl j now,
    queue_congr rl j k same,
  )

  young-past : All (λ t. t ≤ now) young
  unfolding young
  young-past = pop_expired-All (λ t. t ≤ now) window now (queue rl k) still_past

  length-young-le : length young ≤ budget
  unfolding young
  length-young-le = omega (arith, length-pop_expired-le window now (queue rl k), b.few)

  reserve-other :
      same_key j k ≡ false
      → let s = call k (reserve j now) (rl, log) in IsBounded k budget window now s.0 s.1
  unfolding call
  reserve-other other = record {
    same_budget = (budget-try_acquire rl j now).0 ∙ b.same_budget;
    same_window = (budget-try_acquire rl j now).1 ∙ b.same_window;
    older = b.older;
    splits = ground (arith, other, queue-try_acquire rl j k now, b.splits);
    gone = All-mono (λ t h. omega arith) b.older b.gone;
    past = ground (arith, other, queue-try_acquire rl j k now, still_past);
    few = ground (arith, other, queue-try_acquire rl j k now, b.few);
    fits = λ a. ground (arith, other, b.fits a);
  }

  reserve-refused :
      same_key j k ≡ true
      → leb budget (length young) ≡ true
      → let s = call k (reserve j now) (rl, log) in IsBounded k budget window now s.0 s.1
  unfolding call
  reserve-refused same full = record {
    same_budget = (budget-try_acquire rl j now).0 ∙ b.same_budget;
    same_window = (budget-try_acquire rl j now).1 ∙ b.same_window;
    older = expired;
    splits = ground (arith, same, full, own_queue same, own_grant same, log_splits);
    gone = still_gone;
    past = ground (arith, full, own_queue same, young-past);
    few = ground (arith, full, own_queue same, length-young-le);
    fits = λ a. ground (arith, same, full, own_grant same, b.fits a);
  }

  reserve-granted :
      same_key j k ≡ true
      → leb budget (length young) ≡ false
      → let s = call k (reserve j now) (rl, log) in IsBounded k budget window now s.0 s.1
  unfolding call
  reserve-granted same room = record {
    same_budget = (budget-try_acquire rl j now).0 ∙ b.same_budget;
    same_window = (budget-try_acquire rl j now).1 ∙ b.same_window;
    older = expired;
    splits = ground (
      arith,
      same,
      room,
      own_queue same,
      own_grant same,
      log_splits,
      append_assoc expired young (now ∷ []),
    );
    gone = still_gone;
    past = ground (
      arith,
      room,
      own_queue same,
      All-append (λ t. t ≤ now) young (now ∷ []) young-past (omega arith),
    );
    few = ground (arith, room, own_queue same, length-append young (now ∷ []));
    fits = λ a. ground (
      arith,
      same,
      room,
      own_grant same,
      log_splits,
      b.fits a,
      count-snoc-le a window now budget expired young still_gone (ground (arith, room)),
    );
  }

  pub reserve-IsBounded :
      let s = call k (reserve j now) (rl, log) in IsBounded k budget window now s.0 s.1
  reserve-IsBounded = elim (Bool-cases (same_key j k)) [
    | inl same ↦ elim (Bool-cases (leb budget (length young))) [
      | inl full ↦ reserve-refused same full
      | inr room ↦ reserve-granted same room
    ]
    | inr other ↦ reserve-other other
  ]
