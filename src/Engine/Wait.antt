-- ===== src/Engine/Wait.antt =====
-- crates/aqua-messenger/src/engine.rs: `wait_for_reply`. The loop looks into the inbox, then sleeps
-- until the next arrival or the deadline; the arrivals before the deadline are given.
use aqua_matrix_connector.Common.{ℕ, some, none, max, Option, min, List, ◌∷◌, map, []}
use aqua_matrix_connector.Inbox.{enforce_at, high_water, Fault, Query}
use aqua_matrix_connector.Engine.Inbound.{ingest}
use aqua_matrix_connector.Engine.Reads.{entry_seqs}
use aqua_matrix_connector.Inbox.Entry.{new, InboxEntry, Actor, public}
use aqua_matrix_connector.Engine.Types.{
  Engine, World, FromFilter, WaitAnswer, Outcome, Arrival, replied, timed_out,
}
use aqua_matrix_connector.Common.Text.{Text}
use aqua_matrix_connector.Engine.Resolve.{apply_from, resolve_from}
use aqua_matrix_connector.Inbox.Reads.{query}
use aqua_matrix_connector.Inbox.Marks.{mark_seen}
use aqua_matrix_connector.AllowList.Parse.{ok, err}

-- `u64::clamp`, for `low ≤ high`; otherwise it panics.
abbrev pub clamp : ℕ → ℕ → ℕ → ℕ
clamp n low high = max low (min n high)

unfoldable pub wait_query : Option ℕ → FromFilter → Query
wait_query after_seq filter =
    apply_from
      (record {
        sender = none;
        room_id = none;
        since_seq = after_seq;
        since_ts_ms = none;
        states = some (new ∷ []);
        limit = none;
      })
      (some filter)

module _ {Json : Type 0} where
  unfoldable pub wait_answer : Json → Engine Json → List (InboxEntry Json) → ℕ → WaitAnswer Json
  wait_answer null e entries secs = record {
    entries = map (public null) entries;
    waited_s = secs;
    high_water = high_water e.inbox;
    track_processed = e.inbox.policy.track_processed;
  }

  -- One look: the state after enforcing, and what fits.
  unfoldable pub look : Fault → ℕ → Engine Json → Query → Engine Json × List (InboxEntry Json)
  look fault now e q =
      let i = (enforce_at fault e.inbox now).0 in (record e { inbox = i }, query i q)

  unfoldable pub mark_found :
      Json → World Json → Engine Json → List (InboxEntry Json) → Actor → ℕ → Outcome Json
  unfolding wait_answer
  mark_found null w e entries who secs =
      let e' = record e {
        inbox = mark_seen w.mark_fault e.inbox (entry_seqs entries) who w.mark_ms;
      } in
      (e', ok (replied (wait_answer null e' entries secs)))

  -- What fits is handed out; otherwise the wait goes on.
  unfoldable pub if_found :
      Json
      → World Json
      → Engine Json
      → List (InboxEntry Json)
      → Actor
      → ℕ
      → Outcome Json
      → Outcome Json
  unfolding mark_found
  if_found null w e [] who secs otherwise = otherwise
  if_found null w e (x ∷ xs) who secs otherwise = mark_found null w e (x ∷ xs) who secs

  unfoldable pub wait_loop :
      Json → World Json → ℕ → Engine Json → Query → Actor → ℕ → List (Arrival Json) → Outcome Json
  unfolding look if_found
  wait_loop null w now e q who secs [] =
      let (e', found) = look w.enforce_fault now e q in
      if_found null w e' found who secs (e', ok (timed_out secs))
  wait_loop null w now e q who secs (a ∷ later) =
      let (e', found) = look w.enforce_fault now e q in
      if_found null w e' found who secs
        (wait_loop null w a.now (ingest a.fault a.now e' a.entry).0 q who secs later)

  unfoldable pub wait_for_reply :
      Json → World Json → Engine Json → Text → ℕ → Option ℕ → Actor → Outcome Json
  unfolding wait_loop wait_query
  wait_for_reply null w e from timeout_s after_seq who =
      let (e', filter) = resolve_from w.list e from in
      elim filter [
        | err why ↦ (e', err why)
        | ok filter ↦
            wait_loop null w w.enforce_ms e' (wait_query after_seq filter) who
              (clamp timeout_s 1 e'.profile.limits.max_wait_secs) w.arrivals
      ]
