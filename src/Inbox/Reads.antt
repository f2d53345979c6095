-- ===== src/Inbox/Reads.antt =====
-- crates/aqua-messenger/src/inbox.rs: `query`, `get` and `get_by_event_id`.
use aqua_matrix_connector.Inbox.Entry.{state_eq, InboxEntry, state}
use aqua_matrix_connector.Inbox.{Inbox, Query}
use aqua_matrix_connector.Common.{
  Bool, Option, List, ℕ, is_none_or, leb, find, some, is_none, filter, if◌then◌else◌, ◌==◌, ltb,
  ◌&&◌, length, any, drop, ◌-◌, none,
}
use aqua_matrix_connector.Common.Text.{Text, text_eq, eq_ignore_ascii_case}
use aqua_matrix_connector.Common.Sort.{sort}

module _ {Json : Type 0} where
  -- The chain of filters.
  unfoldable pub fits : Query → InboxEntry Json → Bool
  fits q e =
      is_none_or (λ s. is_none e.room && eq_ignore_ascii_case e.sender s) q.sender
      && is_none_or (λ r. text_eq e.room_id r) q.room_id
      && is_none_or (λ s. ltb s e.seq) q.since_seq
      && is_none_or (λ t. ltb t e.ts_ms) q.since_ts_ms
      && is_none_or (λ s. any (state_eq (state e)) s) q.states

  abbrev pub seq_le : InboxEntry Json → InboxEntry Json → Bool
  seq_le e f = leb e.seq f.seq

  -- `out.drain(..out.len() - limit)` where it is longer.
  unfoldable pub newest : Option ℕ → List (InboxEntry Json) → List (InboxEntry Json)
  newest none out = out
  newest (some limit) out = if ltb limit (length out) then drop (length out - limit) out else out

  unfoldable pub query : Inbox Json → Query → List (InboxEntry Json)
  unfolding fits newest
  query i q = newest q.limit (sort seq_le (filter (fits q) i.entries))

  unfoldable pub get_by_event_id : Inbox Json → Text → Option (InboxEntry Json)
  get_by_event_id i id = find (λ e. text_eq e.event_id id) i.entries

  unfoldable pub get : Inbox Json → ℕ → Option (InboxEntry Json)
  get i seq = find (λ e. e.seq == seq) i.entries
