-- ===== src/Engine/Reads.antt =====
-- crates/aqua-messenger/src/engine.rs: the requests that read and mark the inbox, and the two that
-- report.
use aqua_matrix_connector.Common.{
  ℕ, some, none, List, Option, map, Bool, length, [], ◌∷◌, if◌then◌else◌, ◌/◌, not, filter, count,
  leb, ◌&&◌, is_some, is_none, ◌++◌,
}
use aqua_matrix_connector.Inbox.{
  high_water, unread_count, open_count, count_state, enforce_at, Inbox, Query,
}
use aqua_matrix_connector.Inbox.Entry.{new, seen, processed, InboxEntry, Actor, open_states, public}
use aqua_matrix_connector.Inbox.Marks
use aqua_matrix_connector.Engine.Types.{
  World, Engine, SeenRoom, Outcome, StatusAnswer, ReadAnswer, FromFilter, PersonRow,
  processing_not_tracked, RoomRow, nothing_open, recipients_listed, inbox_processed, entries_read,
  marked, empty_note, from_without_up_to,
}
use aqua_matrix_connector.RateLimit.{RateLimiter, remaining}
use aqua_matrix_connector.Common.Assoc.{Assoc, lookup}
use aqua_matrix_connector.AllowList.{Recipient, RoomEntry}
use aqua_matrix_connector.Common.Text.{Text}
use aqua_matrix_connector.AllowList.Parse.{err, ok}
use aqua_matrix_connector.Engine.Resolve.{allow_current, resolve_optional_from, audit, apply_from}
use aqua_matrix_connector.Inbox.Reads.{query}
use aqua_matrix_connector.Inbox.Marks.{mark_seen}
use aqua_matrix_connector.Format.{sanitize_note}
use aqua_matrix_connector.AllowList.Targets.{is_listed_room, error_text}

unfoldable pub person_rows : ℕ → RateLimiter → List Recipient → RateLimiter × List PersonRow
person_rows now rate [] = (rate, [])
person_rows now rate (r ∷ rs) =
    let (rate', left) = remaining rate r.mxid now in
    let (rate'', rows) = person_rows now rate' rs in
    (rate'', record { recipient = r; sends_left = left } ∷ rows)

unfoldable pub room_rows :
    ℕ → Assoc SeenRoom → RateLimiter → List RoomEntry → RateLimiter × List RoomRow
room_rows now joined rate [] = (rate, [])
room_rows now joined rate (r ∷ rs) =
    let (rate', left) = remaining rate r.room_id now in
    let (rate'', rows) = room_rows now joined rate' rs in
    (rate'', record { entry = r; seen = lookup r.room_id joined; sends_left = left } ∷ rows)

module _ {Json : Type 0} where
  abbrev pub entry_seqs : List (InboxEntry Json) → List ℕ
  entry_seqs = map λ x. x.seq

  -- The policy is enforced, what is found is marked where that is asked for, and copies without the
  -- media source are handed out, in the state that they had when read.
  unfoldable pub read_entries :
      Json → World Json → Engine Json → Query → Bool → Actor → Engine Json × List (InboxEntry Json)
  read_entries null w e q mark_read who =
      let i = (enforce_at w.enforce_fault e.inbox w.enforce_ms).0 in
      let entries = query i q in
      let i' =
        if mark_read then mark_seen w.mark_fault i (entry_seqs entries) who w.mark_ms else i in
      (record e { inbox = i' }, map (public null) entries)

  unfoldable pub read_answer : Engine Json → List (InboxEntry Json) → ReadAnswer Json
  read_answer e entries = record {
    entries = entries;
    high_water = high_water e.inbox;
    unread_remaining = unread_count e.inbox;
    open_remaining = open_count e.inbox;
    track_processed = e.inbox.policy.track_processed;
  }

  unfoldable pub read_inbox :
      Json
      → World Json
      → Engine Json
      → Option Text
      → Option ℕ
      → Option ℕ
      → Bool
      → Bool
      → Option ℕ
      → Actor
      → Outcome Json
  unfolding read_entries read_answer
  read_inbox null w e from since_seq since_ts_ms unread_only mark_read limit who =
      let (e', filter) = resolve_optional_from w.list e from in
      elim filter [
        | err why ↦ (e', err why)
        | ok filter ↦
            let q : Query = record {
              sender = none;
              room_id = none;
              since_seq = since_seq;
              since_ts_ms = since_ts_ms;
              states = if unread_only then some (open_states e'.inbox.policy) else none;
              limit = limit;
            } in
            let (e'', entries) = read_entries null w e' (apply_from q filter) mark_read who in
            (e'', ok (entries_read (read_answer e'' entries)))
      ]

  -- The open entries up to a number.
  unfoldable pub open_up_to : Inbox Json → Option FromFilter → Option ℕ → List ℕ
  open_up_to i from none = []
  open_up_to i from (some up_to) =
      let q : Query = record {
        sender = none;
        room_id = none;
        since_seq = none;
        since_ts_ms = none;
        states = some (open_states i.policy);
        limit = none;
      } in
      filter (λ s. leb s up_to) (entry_seqs (query i (apply_from q from)))

  unfoldable pub mark_answer : Engine Json → Actor → Inbox Json × Marks.Answer → Outcome Json
  mark_answer e who (i, Marks.not_tracked) = (record e { inbox = i }, err processing_not_tracked)
  mark_answer e who (i, Marks.done r) =
      (audit (inbox_processed r.marked who) (record e { inbox = i }), ok (marked r (open_count i)))

  -- The policy is enforced.
  unfoldable pub mark_targets : World Json → Engine Json → List ℕ → Actor → Text → Outcome Json
  unfolding mark_answer
  mark_targets w e [] who note = (e, ok (nothing_open (open_count e.inbox)))
  mark_targets w e (n ∷ ns) who note =
      mark_answer e who (Marks.mark_processed w.mark_fault e.inbox (n ∷ ns) who note w.mark_ms)

  unfoldable pub mark_processed :
      World Json → Engine Json → List ℕ → Option ℕ → Option Text → Text → Actor → Outcome Json
  unfolding open_up_to mark_targets
  mark_processed w e seqs up_to_seq from note who =
      if not e.profile.inbox.track_processed
      then (e, err processing_not_tracked)
      else elim (sanitize_note note) [
        | none ↦ (e, err empty_note)
        | some note ↦
            if is_some from && is_none up_to_seq
            then (e, err from_without_up_to)
            else let (e', filter) = resolve_optional_from w.list e from in
              elim filter [
                | err why ↦ (e', err why)
                | ok filter ↦
                    let i = (enforce_at w.enforce_fault e'.inbox w.enforce_ms).0 in
                    mark_targets w (record e' { inbox = i }) (seqs ++ open_up_to i filter up_to_seq)
                      who note
              ]
      ]

  unfoldable pub list_recipients : World Json → Engine Json → Outcome Json
  unfolding person_rows room_rows
  list_recipients w e =
      let e1 = allow_current w.list e in
      let (rate, people) = person_rows w.clock e1.rate e1.allow.recipients in
      let (rate', rooms) = room_rows w.clock e1.joined_rooms rate e1.allow.rooms in
      (
        record e1 { rate = rate' },
        ok (
            recipients_listed (record {
              recipients = people;
              rooms = rooms;
              unlisted_non_dm_rooms_joined =
                  count (λ s. not s.1.is_direct && not (is_listed_room e1.allow s.0))
                    e1.joined_rooms;
              allowlist_error = error_text e1.allow;
            })),
      )

  unfoldable pub status_of : Engine Json → StatusAnswer
  status_of e = record {
    status = e.status;
    inbox_entries = length e.inbox.entries;
    policy = e.inbox.policy;
    inbox_max_age_hours = elim e.inbox.policy.max_age [
      | none ↦ none
      | some a ↦ some (a / 1000 / 3600)
    ];
    inbox_unread = unread_count e.inbox;
    inbox_new = count_state e.inbox new;
    inbox_seen = count_state e.inbox seen;
    inbox_processed = count_state e.inbox processed;
    inbox_high_water = high_water e.inbox;
  }
