-- ===== src/Engine/Fetch.antt =====
-- crates/aqua-messenger/src/engine.rs: `fetch_attachment`. Hashing and `serde_json` are parameters.
use aqua_matrix_connector.Common.{
  ℕ, some, none, Option, unwrap_or, ◌>>=◌, if◌then◌else◌, not, ◌||◌, is_some, false, true, ◌++◌,
  ◌∷◌, [],
}
use aqua_matrix_connector.Inbox.Entry.{has_attachment, InboxEntry}
use aqua_matrix_connector.Attachments.Store.{Fetched, store, Bytes, StoreError, find_cached}
use aqua_matrix_connector.Engine.Inbound.{prune_attachments}
use aqua_matrix_connector.Engine.Types.{
  Engine, ListFile, FetchRequest, Failure, World, allowlist_broken, Outcome, Download, fetched_row,
  fetch_failed, fetch_too_large, attachment, not_an_attachment, media_refused, not_fetched,
  declared_too_large, fetch_not_allowed, not_stored, entry_not_found, fetch_not_permitted,
  call_fetch,
}
use aqua_matrix_connector.Common.Text.{Text}
use aqua_matrix_connector.AllowList.Parse.{Result, ok, err}
use aqua_matrix_connector.Engine.Resolve.{allow_current, audit}
use aqua_matrix_connector.AllowList.Targets.{is_listed_room, by_mxid}
use aqua_matrix_connector.Attachments.{check_size}
use aqua_matrix_connector.Inbox.Reads.{get}

module _ {Json : Type 0} where
  -- On the list in force.
  unfoldable pub fetch_refusal : Engine Json → InboxEntry Json → Option Failure
  fetch_refusal e entry = elim e.allow.load_error [
    | some why ↦ some (allowlist_broken why)
    | none ↦
        if is_listed_room e.allow entry.room_id || is_some (by_mxid e.allow entry.sender)
        then none
        else some (fetch_not_permitted entry.seq entry.sender)
  ]

  unfoldable pub fetch_permitted :
      ListFile → Engine Json → InboxEntry Json → Engine Json × Option Failure
  unfolding fetch_refusal
  fetch_permitted f e entry = let e' = allow_current f e in (e', fetch_refusal e' entry)

  abbrev pub raw_name : InboxEntry Json → Text
  raw_name entry = unwrap_or entry.filename entry.body

  -- The size that the sender declared, where it is above the cap.
  unfoldable pub declared_excess : Engine Json → InboxEntry Json → Option ℕ
  declared_excess e entry = entry.media >>= λ m.
      m.size >>= λ n. if check_size e.profile.attachments n then none else some n

  unfoldable pub fetch_request : Engine Json → InboxEntry Json → FetchRequest Json
  fetch_request e entry = record {
    event_id = entry.event_id;
    room_id = entry.room_id;
    media = entry.media;
    max_bytes = e.profile.attachments.max_bytes;
  }

  abbrev pub mimetype_of : InboxEntry Json → Option Text → Option Text
  mimetype_of entry (some t) = some t
  mimetype_of entry none = entry.media >>= λ m. m.mimetype

  -- The result of storing, after the pruning that follows it.
  unfoldable pub stored_answer : Engine Json → ℕ → Result StoreError Fetched → Outcome Json
  stored_answer e inbox_seq (ok f) =
      (audit (fetched_row inbox_seq f.size f.sha256) e, ok (attachment inbox_seq f false))
  stored_answer e inbox_seq (err why) =
      (audit (fetch_failed inbox_seq) e, err (not_stored inbox_seq why))

  module _ (sha256_hex : Bytes → Text) (encode : Fetched → Option Bytes) where
    unfoldable pub take_download :
        World Json → Engine Json → InboxEntry Json → ℕ → Result Text Download → Outcome Json
    unfolding stored_answer
    take_download w e entry inbox_seq (err why) =
        (audit (fetch_failed inbox_seq) e, err (not_fetched inbox_seq why))
    take_download w e entry inbox_seq (ok d) =
        let (files, result) =
          store sha256_hex encode e.store_dir e.profile.attachments inbox_seq entry.event_id
            (raw_name entry) (mimetype_of entry d.mimetype) d.bytes w.store_s w.store_fault
            e.files in
        stored_answer (prune_attachments w.store_s w.removable (record e { files = files })).0
          inbox_seq result

    -- Not in the cache.
    unfoldable pub download_entry : World Json → Engine Json → InboxEntry Json → ℕ → Outcome Json
    unfolding take_download declared_excess fetch_request
    download_entry w e entry inbox_seq = elim (declared_excess e entry) [
      | some n ↦ (audit (fetch_too_large inbox_seq n) e, err (declared_too_large n))
      | none ↦
          let request = fetch_request e entry in
          take_download w (record e { calls = e.calls ++ call_fetch request ∷ [] }) entry inbox_seq
            (w.download request)
    ]

    module _ (decode : Bytes → Option Fetched) where
      -- Permitted; the list is current.
      unfoldable pub serve : World Json → Engine Json → InboxEntry Json → ℕ → Outcome Json
      unfolding download_entry
      serve w e entry inbox_seq =
          elim (find_cached sha256_hex decode e.store_dir e.files inbox_seq entry.event_id
            (raw_name entry)) [
              | some f ↦ (e, ok (attachment inbox_seq f true))
              | none ↦ download_entry w e entry inbox_seq
            ]

      unfoldable pub fetch_entry : World Json → Engine Json → InboxEntry Json → ℕ → Outcome Json
      unfolding serve
      fetch_entry w e entry inbox_seq =
          if not (has_attachment entry)
          then (e, err (not_an_attachment inbox_seq entry.kind))
          else let (e', refused) = fetch_permitted w.list e entry in
            elim refused [
              | some why ↦
                  (audit (fetch_not_allowed inbox_seq entry.sender entry.room_id) e', err why)
              | none ↦ serve w e' entry inbox_seq
            ]

      unfoldable pub fetch_attachment : World Json → Engine Json → ℕ → Outcome Json
      unfolding fetch_entry
      fetch_attachment w e inbox_seq =
          if not e.profile.inbox.accept_media
          then (e, err media_refused)
          else elim (get e.inbox inbox_seq) [
            | none ↦ (e, err (entry_not_found inbox_seq))
            | some entry ↦ fetch_entry w e entry inbox_seq
          ]
