-- ===== src/Retry/Tests.antt =====
-- Waiting out outages at concrete inputs: short runs, and the theorems applied.
use aqua_matrix_connector.Common.{
  ℕ, List, if◌then◌else◌, ◌∷◌, some, none, false, [], ◌≡◌, min, ◌++◌, refl, arith, ◌⊎◌, ◌*◌, true,
  ◌^◌, ◌≤◌,
}
use aqua_matrix_connector.Retry.{entered, nominal, default_backoff, OutageLog, new_tracker, seconds}
use aqua_matrix_connector.Retry.Classify.{
  transient, fatal, Cause, classify_connect_error, connection_refused, joined, out_of_files,
  holds_text, typed_transient,
}
use aqua_matrix_connector.Retry.Attempts.{
  connects, fails, connected, Attempt, connect_with_outage_retry, Round, decided, connect-decided,
  outage_waited_out,
}
use aqua_matrix_connector.Common.Text.{codes, to_lower}
use aqua_matrix_connector.Retry.Context.{fatal_evidence, network_evidence, classify_in_context}
use aqua_matrix_connector.Retry.Outage.{logs_at, Spaced, warnings-Spaced}
use aqua_matrix_connector.Retry.Schedule.{nominal-exact}

abbrev keep : ℕ → ℕ
keep d = d

abbrev connection_failed : Cause
connection_failed = record {
  rendered = codes "Connection connection_failed";
  io = some (record { raw_os_error = some 111; kind = connection_refused });
}

abbrev unauthorized : Cause
unauthorized = record { rendered = codes "whoami returned 401 Unauthorized"; io = none }

abbrev context : Cause
context = record { rendered = codes "connecting"; io = none }

abbrev round : Attempt → Round
round a = record { attempt = a; now = 0; jitter = keep; sleep_shut_down = false }

refused_is_network : classify_connect_error (context ∷ connection_failed ∷ []) ≡ transient
unfolding classify_connect_error joined out_of_files holds_text typed_transient to_lower
refused_is_network = refl

rejected_is_fatal : classify_connect_error (connection_failed ∷ unauthorized ∷ []) ≡ fatal
unfolding classify_connect_error joined out_of_files holds_text to_lower
rejected_is_fatal = refl

alone_is_network : classify_connect_error (connection_failed ∷ []) ≡ transient
unfolding classify_connect_error joined out_of_files holds_text typed_transient to_lower
alone_is_network = refl

seventh_delay : nominal default_backoff 6 ≡ seconds 60
unfolding default_backoff nominal
seventh_delay = refl

classify_in_context_example :
    (if fatal_evidence (unauthorized ∷ [])
      then classify_connect_error (context ∷ unauthorized ∷ []) ≡ fatal
      else if network_evidence (unauthorized ∷ [])
      then (classify_connect_error (context ∷ unauthorized ∷ []) ≡ transient)
        ⊎ (fatal_evidence (context ∷ unauthorized ∷ []) ≡ true)
      else classify_connect_error (unauthorized ∷ []) ≡ fatal)
classify_in_context_example = classify_in_context context (unauthorized ∷ [])

nominal-exact_example :
    (nominal default_backoff 3 ≡ min (default_backoff.base * 2 ^ 3) default_backoff.ceiling)
    × (nominal default_backoff 3 ≤ nominal default_backoff 4)
    × (nominal default_backoff 3 ≤ default_backoff.ceiling)
unfolding default_backoff
nominal-exact_example = nominal-exact default_backoff 3 (omega arith) (omega arith)

warnings-Spaced_example :
    (rest : List (ℕ × OutageLog)) × (logs_at
        (new_tracker default_backoff 300)
        ((keep, 0) ∷ (keep, 100) ∷ (keep, 310) ∷ [])
      ≡ (0, entered) ∷ rest)
    × Spaced 300 0 rest
warnings-Spaced_example =
    warnings-Spaced default_backoff 300 keep 0 ((keep, 100) ∷ (keep, 310) ∷ [])

connect-decided_example :
    connect_with_outage_retry 2 (
      round (fails (unauthorized ∷ []))
      ∷ round (fails (connection_failed ∷ []))
      ∷ round (fails (unauthorized ∷ []))
      ∷ [])
    ≡ decided 2 (
        round (fails (unauthorized ∷ []))
        ∷ round (fails (connection_failed ∷ []))
        ∷ round (fails (unauthorized ∷ []))
        ∷ [])
connect-decided_example =
    connect-decided 2
      (round (fails (unauthorized ∷ []))
        ∷ round (fails (connection_failed ∷ []))
        ∷ round (fails (unauthorized ∷ []))
        ∷ [])
      (omega arith)

outage_waited_out_example :
    connect_with_outage_retry 1
      ((round (fails (connection_failed ∷ [])) ∷ []) ++ round connects ∷ [])
    ≡ some connected
outage_waited_out_example =
    outage_waited_out 1 (round (fails (connection_failed ∷ [])) ∷ []) [] (round connects)
      ((connection_failed ∷ [], refl, alone_is_network, refl), tt) refl
