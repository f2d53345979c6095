-- ===== src/Engine/Handled.antt =====
-- Whatever is requested, the transport is asked only for what the allow-list permits.
use aqua_matrix_connector.Common.{
  ℕ, some, none, Option, ◌≡◌, Bool-cases, any, not, List, ◌&&◌, inl, inr, ◌∷◌, refl, [],
  Option-cases, ◌∙◌, Bool, is_some, ◌⊎◌, is_none, ◌++◌,
}
use aqua_matrix_connector.Attachments.Store.{Fetched, Bytes}
use aqua_matrix_connector.Inbox.Marks
use aqua_matrix_connector.Engine.Handle.{handle}
use aqua_matrix_connector.Engine.Inbound.{ingest, drop_once, note_once}
use aqua_matrix_connector.Engine.Wait.{wait_for_reply, wait_loop, look, mark_found, if_found}
use aqua_matrix_connector.Engine.Reads.{
  read_inbox, mark_processed, list_recipients, read_entries, mark_targets, mark_answer,
}
use aqua_matrix_connector.Engine.Requests.{if_enabled}
use aqua_matrix_connector.Engine.Permitted.{IsPermitted, Grew}
use aqua_matrix_connector.Engine.Types.{
  ask_status, ask_describe, ask_list_recipients, Engine, FilePath, World, Outcome, AuditRow,
  Arrival, TransportCall, ListFile, Request, ask_send_message, ask_send_file, ask_read_inbox,
  ask_mark_processed, ask_edit_message, ask_wait_for_reply, ask_fetch_attachment,
}
use aqua_matrix_connector.Inbox.{Fault, Query, Inbox}
use aqua_matrix_connector.Engine.Resolve.{
  audit, resolve_from, resolve_optional_from, allow_current, find_from, actor,
}
use aqua_matrix_connector.Inbox.Entry.{NewEntry, Actor, is_media_kind, InboxEntry}
use aqua_matrix_connector.Common.Text.{Text, text_eq}
use aqua_matrix_connector.Profile.{has_tool}
use aqua_matrix_connector.AllowList.Observers.{Result-cases}
use aqua_matrix_connector.Format.{sanitize_note}
use aqua_matrix_connector.Profile.Tools.{
  t_send_message, t_send_file, t_read_inbox, t_wait_for_reply, t_fetch_attachment,
}
use aqua_matrix_connector.Engine.Sends.{send_message-Grew, send_file-Grew, edit_message-Grew}
use aqua_matrix_connector.Engine.Fetches.{fetch_attachment-Grew}

module _ {Json : Type 0} where
  if_enabled-Grew :
      (home : Option FilePath) (e : Engine Json) (tool : Text) (rest : Outcome Json)
      → Grew home e.calls rest.0
      → Grew home e.calls (if_enabled e tool rest).0
  unfolding if_enabled
  if_enabled-Grew home e tool rest g = elim (Bool-cases (has_tool e.profile tool)) [
    | inl offered ↦ rw (offered, if_enabled) g
    | inr other ↦ rw (other, if_enabled) (inl refl)
  ]

  drop_once-calls :
      (key : Text) (row : AuditRow) (e : Engine Json) → (drop_once key row e).calls ≡ e.calls
  unfolding drop_once note_once audit
  drop_once-calls key row e = elim (Bool-cases (any (text_eq key) e.dropped)) [
    | inl known ↦ rw (known, drop_once) refl
    | inr fresh ↦ rw (fresh, drop_once) refl
  ]

  ingest-calls :
      (fault : Fault) (now : ℕ) (e : Engine Json) (n : NewEntry Json)
      → (ingest fault now e n).0.calls ≡ e.calls
  unfolding ingest
  ingest-calls fault now e n =
      elim (Bool-cases (not e.profile.inbox.accept_media && is_media_kind n.kind)) [
        | inl refused ↦ rw (refused, ingest) (drop_once-calls n.event_id _ e)
        | inr fine ↦ rw (fine, ingest) refl
      ]

  if_found-calls :
      (null : Json) (w : World Json) (calls : List (TransportCall Json)) (e : Engine Json)
      (found : List (InboxEntry Json)) (who : Actor) (secs : ℕ) (otherwise : Outcome Json)
      → e.calls ≡ calls
      → otherwise.0.calls ≡ calls
      → (if_found null w e found who secs otherwise).0.calls ≡ calls
  unfolding if_found mark_found
  if_found-calls null w calls e [] who secs otherwise h k = k
  if_found-calls null w calls e (x ∷ xs) who secs otherwise h k = h

  wait_loop-calls :
      (null : Json) (w : World Json) (now : ℕ) (e : Engine Json) (q : Query) (who : Actor)
      (secs : ℕ) (later : List (Arrival Json))
      → (wait_loop null w now e q who secs later).0.calls ≡ e.calls
  unfolding wait_loop look
  wait_loop-calls null w now e q who secs [] =
      if_found-calls null w e.calls _ _ who secs _ refl refl
  wait_loop-calls null w now e q who secs (a ∷ later) =
      if_found-calls null w e.calls _ _ who secs _ refl (
        wait_loop-calls null w a.now
          (ingest a.fault a.now (look w.enforce_fault now e q).0 a.entry).0 q who secs later
        ∙ ingest-calls a.fault a.now (look w.enforce_fault now e q).0 a.entry)

  wait_for_reply-calls :
      (null : Json) (w : World Json) (e : Engine Json) (from : Text) (timeout_s : ℕ)
      (after_seq : Option ℕ) (who : Actor)
      → (wait_for_reply null w e from timeout_s after_seq who).0.calls ≡ e.calls
  unfolding wait_for_reply resolve_from allow_current
  wait_for_reply-calls null w e from timeout_s after_seq who =
      let e' = allow_current w.list e in
      elim (Result-cases (find_from e' from)) [
        | inl (why, bad) ↦ rw (bad, wait_for_reply) refl
        | inr (filter, good) ↦
            rw (good, wait_for_reply) (wait_loop-calls null w w.enforce_ms e' _ who _ w.arrivals)
      ]

  resolve_optional_from-calls :
      (f : ListFile) (e : Engine Json) (from : Option Text)
      → (resolve_optional_from f e from).0.calls ≡ e.calls
  unfolding resolve_optional_from allow_current
  resolve_optional_from-calls f e none = refl
  resolve_optional_from-calls f e (some from) = refl

  read_inbox-calls :
      (null : Json) (w : World Json) (e : Engine Json) (from : Option Text)
      (since_seq since_ts_ms : Option ℕ) (unread_only mark_read : Bool) (limit : Option ℕ)
      (who : Actor)
      → (read_inbox null w e from since_seq since_ts_ms unread_only mark_read limit who).0.calls
        ≡ e.calls
  unfolding read_inbox read_entries
  read_inbox-calls null w e from since_seq since_ts_ms unread_only mark_read limit who =
      elim (Result-cases (resolve_optional_from w.list e from).1) [
        | inl (why, bad) ↦ rw (bad, read_inbox) (resolve_optional_from-calls w.list e from)
        | inr (filter, good) ↦ rw (good, read_inbox) (resolve_optional_from-calls w.list e from)
      ]

  mark_targets-calls :
      (w : World Json) (e : Engine Json) (ns : List ℕ) (who : Actor) (note : Text)
      → (mark_targets w e ns who note).0.calls ≡ e.calls
  unfolding mark_targets mark_answer audit
  mark_targets-calls w e [] who note = refl
  mark_targets-calls w e (n ∷ ns) who note =
      answered (Marks.mark_processed w.mark_fault e.inbox (n ∷ ns) who note w.mark_ms)
    where
      answered : (r : Inbox Json × Marks.Answer) → (mark_answer e who r).0.calls ≡ e.calls
      answered (i, Marks.not_tracked) = refl
      answered (i, Marks.done r) = refl

  mark_processed-calls :
      (w : World Json) (e : Engine Json) (seqs : List ℕ) (up_to_seq : Option ℕ) (from : Option Text)
      (note : Text) (who : Actor)
      → (mark_processed w e seqs up_to_seq from note who).0.calls ≡ e.calls
  unfolding mark_processed
  mark_processed-calls w e seqs up_to_seq from note who =
      elim (Bool-cases e.profile.inbox.track_processed) [
        | inr untracked ↦ rw (untracked, mark_processed) refl
        | inl tracked ↦
            rw (tracked, mark_processed)
              (elim (Option-cases (sanitize_note note)) [
                | inl blank ↦ rw blank refl
                | inr (note', given) ↦
                    rw given (elim (Bool-cases (is_some from && is_none up_to_seq)) [
                      | inl alone ↦ rw alone refl
                      | inr fine ↦
                          rw fine (elim (Result-cases (resolve_optional_from w.list e from).1) [
                            | inl (why, bad) ↦ rw bad (resolve_optional_from-calls w.list e from)
                            | inr (filter, good) ↦ rw good (
                                mark_targets-calls w _ _ who note'
                                ∙ resolve_optional_from-calls w.list e from)
                          ])
                    ])
              ])
      ]

  list_recipients-calls :
      (w : World Json) (e : Engine Json) → (list_recipients w e).0.calls ≡ e.calls
  unfolding list_recipients allow_current
  list_recipients-calls w e = refl

  module _ (sha256_hex : Bytes → Text) (encode : Fetched → Option Bytes)
      (decode : Bytes → Option Fetched) (null : Json) where
    -- Whatever one request asks for, in whatever state: the transport gets at most one call more. A send
    -- goes to a person or room on the list in force; a reply is bare, for an event that is not in the
    -- inbox, or answers an entry of the same conversation; a file has no sensitive path; and a
    -- download is of an inbox entry with an attachment, from a listed room or a listed sender, while
    -- the list is loaded without a failure.
    pub handle-Grew :
        (w : World Json) (e : Engine Json) (req : Request)
        → let e' = (handle sha256_hex encode decode null w e req).0 in
          (e'.calls ≡ e.calls)
          ⊎ ((c : TransportCall Json) × (e'.calls ≡ e.calls ++ c ∷ [])
              × IsPermitted w.home e'.state_dir e'.allow e'.inbox c)
    unfolding handle
    handle-Grew w e ask_describe = inl refl
    handle-Grew w e (ask_send_message to markdown origin reply_to mention) =
        if_enabled-Grew w.home e t_send_message _
          (send_message-Grew w e to markdown origin reply_to mention)
    handle-Grew w e (ask_send_file to path caption origin reply_to) =
        if_enabled-Grew w.home e t_send_file _ (send_file-Grew w e to path caption origin reply_to)
    handle-Grew w e ask_list_recipients = inl (list_recipients-calls w e)
    handle-Grew w e
          (ask_read_inbox from since_seq since_ts_ms unread_only mark_read limit by session) =
        if_enabled-Grew w.home e t_read_inbox _ (
          inl (
            read_inbox-calls null w e from since_seq since_ts_ms unread_only mark_read limit
              (actor by session)))
    handle-Grew w e (ask_mark_processed seqs up_to_seq from note by session) =
        inl (mark_processed-calls w e seqs up_to_seq from note (actor by session))
    handle-Grew w e (ask_edit_message to event_id markdown origin mention) =
        edit_message-Grew w e to event_id markdown origin mention
    handle-Grew w e (ask_wait_for_reply from timeout_s after_seq by session) =
        if_enabled-Grew w.home e t_wait_for_reply _
          (inl (wait_for_reply-calls null w e from timeout_s after_seq (actor by session)))
    handle-Grew w e (ask_fetch_attachment inbox_seq) =
        if_enabled-Grew w.home e t_fetch_attachment _
          (fetch_attachment-Grew w sha256_hex encode decode e inbox_seq)
    handle-Grew w e ask_status = inl refl
