-- ===== src/Retry/Outage.antt =====
-- One outage: what it reports at its end, and how often it warns.
use aqua_matrix_connector.Common.{
  ℕ, List, ◌≡◌, ◌<◌, ◌+◌, some, length, arith, ◌≤◌, ◌∷◌, Bool-cases, ◌-◌, [], none, leb, refl, inl,
  inr, subst, ◌∙◌, ap,
}
use aqua_matrix_connector.Retry.{
  OutageTracker, on_transient_failure, on_success, OutageLog, reset, due, new_tracker, u32_max,
  Backoff, entered, quiet, reminder,
}

-- The transient failures at these instants, each with its jitter.
unfoldable pub fail_at : OutageTracker → List ((ℕ → ℕ) × ℕ) → OutageTracker
fail_at t [] = t
fail_at t ((jitter, now) ∷ more) = fail_at (on_transient_failure jitter t now).0 more

unfoldable pub logs_at : OutageTracker → List ((ℕ → ℕ) × ℕ) → List (ℕ × OutageLog)
logs_at t [] = []
logs_at t ((jitter, now) ∷ more) =
    let (t', log, delay) = on_transient_failure jitter t now in (now, log) ∷ logs_at t' more

-- In an outage since `start`, with `n` failures of the backoff's own count.
record During (t : OutageTracker) (start n : ℕ) : Type 0 where
  pub since : t.started ≡ some start
  pub counted : t.failures ≡ n

fail-During :
    (jitter : ℕ → ℕ) (t : OutageTracker) (now start n : ℕ)
    → n < u32_max
    → During t start n
    → During (on_transient_failure jitter t now).0 start (n + 1)
unfolding on_transient_failure
fail-During jitter t now start n h d = record {
  since = ground (arith, d.since);
  counted = ground (arith, d.since, d.counted);
}

fail_at-During :
    (more : List ((ℕ → ℕ) × ℕ)) (t : OutageTracker) (start n : ℕ)
    → n + length more ≤ u32_max
    → During t start n
    → During (fail_at t more) start (n + length more)
unfolding fail_at
fail_at-During [] t start n h d = subst (During t start) (omega arith) d
fail_at-During ((jitter, now) ∷ more) t start n h d =
    subst (During (fail_at (on_transient_failure jitter t now).0 more) start) (omega arith) (
      fail_at-During more (on_transient_failure jitter t now).0 start (n + 1) (omega arith)
        (fail-During jitter t now start n (omega arith) d))

on_success-During :
    (t : OutageTracker) (start n now : ℕ)
    → n < u32_max
    → During t start n
    → let (t', report) = on_success t now in
      (report ≡ some (now - start, n + 1))
      × (t'.started ≡ none)
      × (t'.failures ≡ 0)
      × (t'.last_warn ≡ none)
      × (t'.backoff.attempt ≡ 0)
unfolding on_success reset
on_success-During t start n now h d = rw (d.since, d.counted) (ground arith, refl, refl, refl, refl)

-- After an outage of transient failures that began from a fresh tracker, a success reports the time
-- since the first failure and the number of attempts, the successful one included, and leaves a
-- tracker that is not in an outage, has counted nothing, and starts the backoff over.
pub success_reports_outage :
    (b : Backoff) (every : ℕ) (jitter : ℕ → ℕ) (first now : ℕ) (more : List ((ℕ → ℕ) × ℕ))
    → length more + 2 ≤ u32_max
    → let (t, report) = on_success (fail_at (new_tracker b every) ((jitter, first) ∷ more)) now in
      (report ≡ some (now - first, length more + 2))
      × (t.started ≡ none)
      × (t.failures ≡ 0)
      × (t.last_warn ≡ none)
      × (t.backoff.attempt ≡ 0)
unfolding fail_at on_transient_failure new_tracker
success_reports_outage b every jitter first now more h =
    let t = (on_transient_failure jitter (new_tracker b every) first).0 in
    let over =
      on_success-During (fail_at t more) first (1 + length more) now (omega arith)
        (fail_at-During more t first 1 (omega arith) (record { since = refl; counted = refl })) in
    (over.0 ∙ ap (λ n. some (now - first, n)) (omega arith), over.1, over.2, over.3, over.4)

-- Warnings are at least `every` apart: `last` is the instant of the last one.
abbrev pub Spaced : ℕ → ℕ → List (ℕ × OutageLog) → Type 0
Spaced every last [] = Unit
Spaced every last ((now, quiet) ∷ logs) = (now - last < every) × Spaced every last logs
Spaced every last ((now, reminder) ∷ logs) = (every ≤ now - last) × Spaced every now logs
Spaced every last ((now, entered) ∷ logs) = ⊥

logs_at-Spaced :
    (more : List ((ℕ → ℕ) × ℕ)) (t : OutageTracker) (start last : ℕ)
    → t.started ≡ some start
    → t.last_warn ≡ some last
    → Spaced t.reminder_every last (logs_at t more)
unfolding logs_at on_transient_failure due
logs_at-Spaced [] t start last s l = tt
logs_at-Spaced ((jitter, now) ∷ more) t start last s l =
    elim (Bool-cases (leb t.reminder_every (now - last))) [
      | inl late ↦
          rw s (rw l (rw late (ground (arith, late), logs_at-Spaced more _ start now refl refl)))
      | inr soon ↦
          rw s (rw l (rw soon (ground (arith, soon), logs_at-Spaced more _ start last refl refl)))
    ]

-- Of the transient failures of one outage the first warns; after that a failure warns exactly when
-- the last warning is at least the reminder interval ago.
pub warnings-Spaced :
    (b : Backoff) (every : ℕ) (jitter : ℕ → ℕ) (first : ℕ) (more : List ((ℕ → ℕ) × ℕ))
    → (rest : List (ℕ × OutageLog)) × (logs_at (new_tracker b every) ((jitter, first) ∷ more)
        ≡ (first, entered) ∷ rest)
      × Spaced every first rest
unfolding logs_at on_transient_failure new_tracker
warnings-Spaced b every jitter first more = (
  logs_at (on_transient_failure jitter (new_tracker b every) first).0 more,
  refl,
  logs_at-Spaced more _ first first refl refl,
)
