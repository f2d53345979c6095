-- ===== src/Retry/Attempts.antt =====
-- crates/aqua-matrix-agent/src/net_retry.rs: the loop of `connect_with_outage_retry`.
-- What the loop meets is a list of rounds: how the raced attempt ends and at which instant, the
-- jitter of the delay, and whether the shutdown resolves during the sleep.
use aqua_matrix_connector.Common.{
  ℕ, List, Bool, Option, All, ◌<◌, none, ◌≡◌, ◌∷◌, arith, false, ◌-◌, some, if◌then◌else◌, ◌++◌, [],
  leb, refl, ◌+◌, ◌⊎◌, ◌∙◌, inl, inr, ap, Bool-cases, true, sym, if_false,
}
use aqua_matrix_connector.Retry.{
  OutageTracker, default_tracker, on_transient_failure, fatal_retry_delay,
}
use aqua_matrix_connector.Retry.Classify.{
  Cause, classify_connect_error, transient, fatal, ConnectErrorClass,
}

pub data Attempt : Type 0 where
  shut_down : Attempt
  connects : Attempt
  fails : List Cause → Attempt

pub record Round : Type 0 where
  pub attempt : Attempt
  pub now : ℕ
  pub jitter : ℕ → ℕ
  pub sleep_shut_down : Bool

pub data ConnectOutcome : Type 0 where
  connected : ConnectOutcome
  shutdown : ConnectOutcome
  gave_up : List Cause → ConnectOutcome

-- A round returns, or goes on with the tracker and the count of fatal failures after a delay.
pub data Next : Type 0 where
  returns : ConnectOutcome → Next
  sleeps : OutageTracker → ℕ → ℕ → Next

unfoldable pub one_attempt : ℕ → OutageTracker → ℕ → Round → Next
one_attempt max_fatal t n r = elim r.attempt [
  | shut_down ↦ returns shutdown
  | connects ↦ returns connected
  | fails e ↦ elim (classify_connect_error e) [
    | transient ↦ let (t', log, delay) = on_transient_failure r.jitter t r.now in sleeps t' n delay
    | fatal ↦
        if leb max_fatal (n + 1) then returns (gave_up e) else sleeps t (n + 1) fatal_retry_delay
  ]
]

-- `none`: the rounds are over and the loop is still waiting.
unfoldable pub connect_loop : ℕ → OutageTracker → ℕ → List Round → Option ConnectOutcome
connect_loop max_fatal t n [] = none
connect_loop max_fatal t n (r ∷ rounds) = elim (one_attempt max_fatal t n r) [
  | returns outcome ↦ some outcome
  | sleeps t' n' delay ↦
      if r.sleep_shut_down then some shutdown else connect_loop max_fatal t' n' rounds
]

unfoldable pub connect_with_outage_retry : ℕ → List Round → Option ConnectOutcome
connect_with_outage_retry max_fatal rounds = connect_loop max_fatal default_tracker 0 rounds

-- The specification, without tracker or delays: the first round that shuts down or connects decides,
-- unless `left` fatal failures come first; transient failures do not count.
abbrev pub decided : ℕ → List Round → Option ConnectOutcome
decided left [] = none
decided left (r ∷ rounds) = elim r.attempt [
  | shut_down ↦ some shutdown
  | connects ↦ some connected
  | fails e ↦ elim (classify_connect_error e) [
    | transient ↦ if r.sleep_shut_down then some shutdown else decided left rounds
    | fatal ↦
        if leb left 1
        then some (gave_up e)
        else if r.sleep_shut_down
        then some shutdown
        else decided (left - 1) rounds
  ]
]

module _ (max_fatal : ℕ) (t : OutageTracker) (n : ℕ) (r : Round) (rest : List Round) where
  loop_shut_down : r.attempt ≡ shut_down → connect_loop max_fatal t n (r ∷ rest) ≡ some shutdown
  unfolding connect_loop one_attempt
  loop_shut_down a = rw a refl

  loop_connects : r.attempt ≡ connects → connect_loop max_fatal t n (r ∷ rest) ≡ some connected
  unfolding connect_loop one_attempt
  loop_connects a = rw a refl

  module _ (e : List Cause) (a : r.attempt ≡ fails e) where
    loop_waits :
        classify_connect_error e ≡ transient
        → connect_loop max_fatal t n (r ∷ rest) ≡ (
            if r.sleep_shut_down
            then some shutdown
            else connect_loop max_fatal (on_transient_failure r.jitter t r.now).0 n rest)
    unfolding connect_loop one_attempt
    loop_waits c = rw (a, connect_loop, one_attempt) (rw (c, connect_loop, one_attempt) refl)

    loop_gives_up :
        classify_connect_error e ≡ fatal
        → leb max_fatal (n + 1) ≡ true
        → connect_loop max_fatal t n (r ∷ rest) ≡ some (gave_up e)
    unfolding connect_loop one_attempt
    loop_gives_up c last =
        rw (a, connect_loop, one_attempt)
          (rw (c, connect_loop, one_attempt) (rw (last, connect_loop, one_attempt) refl))

    loop_retries :
        classify_connect_error e ≡ fatal
        → leb max_fatal (n + 1) ≡ false
        → connect_loop max_fatal t n (r ∷ rest)
          ≡ (if r.sleep_shut_down then some shutdown else connect_loop max_fatal t (n + 1) rest)
    unfolding connect_loop one_attempt
    loop_retries c more =
        rw (a, connect_loop, one_attempt)
          (rw (c, connect_loop, one_attempt) (rw (more, connect_loop, one_attempt) refl))

Attempt-cases :
    (a : Attempt) → (a ≡ shut_down) ⊎ (a ≡ connects) ⊎ ((e : List Cause) × (a ≡ fails e))
Attempt-cases shut_down = inl refl
Attempt-cases connects = inr (inl refl)
Attempt-cases (fails e) = inr (inr (e, refl))

class_cases : (c : ConnectErrorClass) → (c ≡ transient) ⊎ (c ≡ fatal)
class_cases transient = inl refl
class_cases fatal = inr refl

-- The specification, round by round.
module _ (left : ℕ) (r : Round) (rounds : List Round) (x : List Cause)
    (a : r.attempt ≡ fails x) where
  decided_waits :
      classify_connect_error x ≡ transient
      → decided left (r ∷ rounds)
        ≡ (if r.sleep_shut_down then some shutdown else decided left rounds)
  decided_waits c = rw a (rw c refl)

  decided_gives_up :
      classify_connect_error x ≡ fatal
      → leb left 1 ≡ true
      → decided left (r ∷ rounds) ≡ some (gave_up x)
  decided_gives_up c last = rw a (rw c (rw last refl))

  decided_retries :
      classify_connect_error x ≡ fatal
      → leb left 1 ≡ false
      → decided left (r ∷ rounds)
        ≡ (if r.sleep_shut_down then some shutdown else decided (left - 1) rounds)
  decided_retries c more = rw a (rw c (rw more refl))

decided_ends :
    (left : ℕ) (r : Round) (rounds : List Round)
    → (r.attempt ≡ shut_down → decided left (r ∷ rounds) ≡ some shutdown)
      × (r.attempt ≡ connects → decided left (r ∷ rounds) ≡ some connected)
decided_ends left r rounds = (λ a. rw a refl, λ a. rw a refl)

loop_decided :
    (rounds : List Round) (max_fatal n left : ℕ) (t : OutageTracker)
    → n < max_fatal
    → left ≡ max_fatal - n
    → connect_loop max_fatal t n rounds ≡ decided left rounds
unfolding connect_loop
loop_decided [] max_fatal n left t h e = refl
loop_decided (r ∷ rounds) max_fatal n left t h e = elim (Attempt-cases r.attempt) [
  | inl a ↦ loop_shut_down max_fatal t n r rounds a ∙ sym ((decided_ends left r rounds).0 a)
  | inr (inl a) ↦ loop_connects max_fatal t n r rounds a ∙ sym ((decided_ends left r rounds).1 a)
  | inr (inr (x, a)) ↦ elim (class_cases (classify_connect_error x)) [
    | inl c ↦
        loop_waits max_fatal t n r rounds x a c
        ∙ ap (λ o. if r.sleep_shut_down then some shutdown else o)
            (loop_decided rounds max_fatal n left (on_transient_failure r.jitter t r.now).0 h e)
        ∙ sym (decided_waits left r rounds x a c)
    | inr c ↦ elim (Bool-cases (leb left 1)) [
      | inl last ↦
          loop_gives_up max_fatal t n r rounds x a c (ground (arith, last, e))
          ∙ sym (decided_gives_up left r rounds x a c last)
      | inr more ↦
          let below : leb max_fatal (n + 1) ≡ false = ground (arith, more, e) in
          loop_retries max_fatal t n r rounds x a c below
          ∙ ap (λ o. if r.sleep_shut_down then some shutdown else o)
              (loop_decided rounds max_fatal (n + 1) (left - 1) t (ground (arith, below))
                (omega arith))
          ∙ sym (decided_retries left r rounds x a c more)
    ]
  ]
]

-- The loop returns what the rounds decide: connected or shut down at the first round that says so,
-- during an attempt or a sleep, and given up at the fatal failure that makes `max_fatal` of them. It
-- goes on after every transient failure, however many there are, and these neither add to the count
-- of fatal ones nor reset it.
pub connect-decided :
    (max_fatal : ℕ) (rounds : List Round)
    → 0 < max_fatal
    → connect_with_outage_retry max_fatal rounds ≡ decided max_fatal rounds
unfolding connect_with_outage_retry
connect-decided max_fatal rounds h =
    loop_decided rounds max_fatal 0 max_fatal default_tracker h (omega arith)

-- A round whose attempt fails for the network and whose sleep ends by itself.
abbrev pub IsOutage : Round → Type 0
IsOutage q =
    (e : List Cause) × (q.attempt ≡ fails e)
    × (classify_connect_error e ≡ transient)
    × (q.sleep_shut_down ≡ false)

-- However long an outage lasts, the loop waits it out: after any number of transient failures without
-- a shutdown, the next attempt that succeeds is returned as connected, whatever `max_fatal` is.
pub outage_waited_out :
    (max_fatal : ℕ) (outage rest : List Round) (r : Round)
    → All IsOutage outage
    → r.attempt ≡ connects
    → connect_with_outage_retry max_fatal (outage ++ r ∷ rest) ≡ some connected
unfolding connect_with_outage_retry
outage_waited_out max_fatal outage rest r h k = waits outage default_tracker 0 h
  where
    waits :
        (outage : List Round) (t : OutageTracker) (n : ℕ)
        → All IsOutage outage
        → connect_loop max_fatal t n (outage ++ r ∷ rest) ≡ some connected
    waits [] t n h = loop_connects max_fatal t n r rest k
    waits (q ∷ qs) t n ((e, at, soft, awake), more) =
        let t' = (on_transient_failure q.jitter t q.now).0 in
        loop_waits max_fatal t n q (qs ++ r ∷ rest) e at soft
        ∙ if_false _ _ awake
        ∙ waits qs t' n more
