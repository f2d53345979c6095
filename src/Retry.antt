-- ===== src/Retry.antt =====
-- crates/aqua-matrix-agent/src/net_retry.rs: waiting out network outages.
-- Durations and instants are nanoseconds. The jitter is computed on floats from a random number: it
-- is an argument here, a function of the nominal delay.
pub mod Classify
pub mod Context
pub mod Schedule
pub mod Outage
pub mod Attempts
mod Tests
use aqua_matrix_connector.Common.{
  ℕ, min, Option, none, Bool, ◌^◌, ◌*◌, is_some, false, ◌-◌, ◌+◌, some, leb, if◌then◌else◌,
}

-- `Duration::MAX` and `u32::MAX`.
abbrev pub duration_max : ℕ
duration_max = 2 ^ 64 * 1000000000 - 1

abbrev pub u32_max : ℕ
u32_max = 2 ^ 32 - 1

abbrev pub seconds : ℕ → ℕ
seconds n = n * 1000000000

abbrev pub backoff_base : ℕ
backoff_base = seconds 2

abbrev pub backoff_cap : ℕ
backoff_cap = seconds 60

abbrev pub outage_reminder_every : ℕ
outage_reminder_every = seconds 300

abbrev pub fatal_retry_delay : ℕ
fatal_retry_delay = seconds 10

pub record Backoff : Type 0 where
  pub base : ℕ
  pub ceiling : ℕ
  pub attempt : ℕ

pub new_backoff : ℕ → ℕ → Backoff
new_backoff base ceiling = record { base = base; ceiling = ceiling; attempt = 0 }

pub nominal : Backoff → ℕ → ℕ
nominal b attempt = min (min duration_max (b.base * 2 ^ min attempt 16)) b.ceiling

pub next_delay : (ℕ → ℕ) → Backoff → Backoff × ℕ
next_delay jitter b =
    (record b { attempt = min u32_max (b.attempt + 1) }, jitter (nominal b b.attempt))

pub reset : Backoff → Backoff
reset b = record b { attempt = 0 }

pub default_backoff : Backoff
unfolding new_backoff
default_backoff = new_backoff backoff_base backoff_cap

pub data OutageLog : Type 0 where
  entered reminder quiet : OutageLog

pub record OutageTracker : Type 0 where
  pub started : Option ℕ
  pub failures : ℕ
  pub last_warn : Option ℕ
  pub reminder_every : ℕ
  pub backoff : Backoff

pub new_tracker : Backoff → ℕ → OutageTracker
new_tracker b every = record {
  started = none;
  failures = 0;
  last_warn = none;
  reminder_every = every;
  backoff = b;
}

pub default_tracker : OutageTracker
default_tracker = new_tracker default_backoff outage_reminder_every

pub in_outage : OutageTracker → Bool
in_outage t = is_some t.started

pub elapsed : OutageTracker → ℕ → ℕ
elapsed t now = elim t.started [ none ↦ 0 | some s ↦ now - s ]

-- Whether the last warning is old enough for a reminder.
pub due : OutageTracker → ℕ → Bool
due t now = elim t.last_warn [ none ↦ false | some last ↦ leb t.reminder_every (now - last) ]

pub on_transient_failure : (ℕ → ℕ) → OutageTracker → ℕ → OutageTracker × OutageLog × ℕ
on_transient_failure jitter t now =
    let (b, delay) = next_delay jitter t.backoff in
    let t' = record t { failures = min u32_max (t.failures + 1); backoff = b } in
    elim t.started [
      | none ↦ (record t' { started = some now; last_warn = some now }, entered, delay)
      | some s ↦
          if due t now
          then (record t' { last_warn = some now }, reminder, delay)
          else (t', quiet, delay)
    ]

-- The length of the outage and its number of attempts, if there was one.
pub on_success : OutageTracker → ℕ → OutageTracker × Option (ℕ × ℕ)
on_success t now = elim t.started [
  | none ↦ (t, none)
  | some s ↦ (
    record t { started = none; failures = 0; last_warn = none; backoff = reset t.backoff },
    some (now - s, min u32_max (t.failures + 1)),
  )
]
