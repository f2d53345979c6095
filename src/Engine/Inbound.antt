-- ===== src/Engine/Inbound.antt =====
-- crates/aqua-messenger/src/engine.rs: what the Matrix side tells the engine.
use aqua_matrix_connector.Common.{
  ℕ, some, none, Bool, Option, if◌then◌else◌, ◌++◌, any, not, is_none, ◌&&◌, false, ◌*◌, ◌∷◌, ◌^◌,
  true, [],
}
use aqua_matrix_connector.RateLimit.{new}
use aqua_matrix_connector.Attachments.Store.{prune, Files}
use aqua_matrix_connector.Common.Assoc.{lookup, insert, Assoc}
use aqua_matrix_connector.Engine.Types.{
  Accepted, Engine, ListFile, AuditRow, SeenRoom, FilePath, inbound_dropped_unlisted_room,
  inbound_dropped, inbound_dropped_media,
}
use aqua_matrix_connector.Common.Text.{Text, codes, eq_ignore_ascii_case, text_eq}
use aqua_matrix_connector.Inbox.{Fault, enforce_at, contains, Inbox, ingest_at}
use aqua_matrix_connector.Profile.{Profile}
use aqua_matrix_connector.Inbox.Entry.{NewEntry, is_media_kind}
use aqua_matrix_connector.AllowList.Targets.{room_by_id, by_mxid}
use aqua_matrix_connector.AllowList.Reload.{AllowList}
use aqua_matrix_connector.Engine.Resolve.{audit, allow_current}
use aqua_matrix_connector.AllowList.{RoomEntry, Recipient}

abbrev pub room_name_of : Option RoomEntry → Option Text
room_name_of none = none
room_name_of (some r) = some r.name

abbrev pub person_name_of : Option Recipient → Option Text
person_name_of none = none
person_name_of (some r) = some r.name

-- What becomes of a message of someone else.
pub data Verdict : Type 0 where
  drop_for_room : Verdict
  drop_for_sender : Verdict
  accept_as : Accepted → Verdict

unfoldable pub verdict_on : AllowList → Text → Text → Bool → Verdict
verdict_on a sender room_id group =
    let room_name = room_name_of (room_by_id a room_id) in
    let sender_name = person_name_of (by_mxid a sender) in
    if is_none room_name && group
    then drop_for_room
    else if is_none room_name && is_none sender_name
    then drop_for_sender
    else accept_as (record { room_name = room_name; sender_name = sender_name })

unfoldable pub room_key : Text → Text
room_key room_id = codes "room:" ++ room_id

module _ {Json : Type 0} where
  -- `HashSet::insert` on the keys already logged: the new state, and whether the key is new.
  unfoldable pub note_once : Text → Engine Json → Engine Json × Bool
  note_once key e =
      if any (text_eq key) e.dropped
      then (e, false)
      else (record e { dropped = key ∷ e.dropped }, true)

  -- The row is written the first time the key is seen.
  unfoldable pub drop_once : Text → AuditRow → Engine Json → Engine Json
  unfolding note_once
  drop_once key row e = let (e', first) = note_once key e in if first then audit row e' else e'

  -- What the verdict on a message does.
  unfoldable pub act : Text → Text → Text → Verdict → Engine Json → Engine Json × Option Accepted
  unfolding drop_once
  act sender room_id event_id drop_for_room e =
      (drop_once (room_key room_id) (inbound_dropped_unlisted_room room_id) e, none)
  act sender room_id event_id drop_for_sender e =
      (drop_once event_id (inbound_dropped sender room_id event_id) e, none)
  act sender room_id event_id (accept_as a) e = (e, some a)

  unfoldable pub classify_inbound :
      ListFile → Engine Json → Text → Text → Text → Text → Bool → Engine Json × Option Accepted
  unfolding act verdict_on
  classify_inbound f e own sender room_id event_id group =
      if eq_ignore_ascii_case sender own
      then (e, none)
      else let e' = allow_current f e in
        act sender room_id event_id (verdict_on e'.allow sender room_id group) e'

  -- `Engine::ingest`: the clock and a failing write are the inbox's.
  unfoldable pub ingest : Fault → ℕ → Engine Json → NewEntry Json → Engine Json × Option ℕ
  unfolding drop_once
  ingest fault now e n =
      if not e.profile.inbox.accept_media && is_media_kind n.kind
      then (
        drop_once n.event_id (inbound_dropped_media n.sender n.room_id n.event_id n.kind) e,
        none,
      )
      else let (i, seq) = ingest_at fault e.inbox n now in (record e { inbox = i }, seq)

  abbrev pub has_event : Engine Json → Text → Bool
  has_event e event_id = contains e.inbox event_id

  -- The new snapshot, and the previous one.
  unfoldable pub set_joined_rooms : Assoc SeenRoom → Engine Json → Engine Json × Assoc SeenRoom
  set_joined_rooms rooms e = (record e { joined_rooms = rooms }, e.joined_rooms)

  unfoldable pub note_joined_room : Text → SeenRoom → Engine Json → Engine Json
  note_joined_room room_id seen e = record e { joined_rooms = insert room_id seen e.joined_rooms }

  unfoldable pub snapshot_members : Engine Json → Text → Option ℕ
  snapshot_members e room_id = elim (lookup room_id e.joined_rooms) [
    | none ↦ none
    | some s ↦ some s.joined_members
  ]

  unfoldable pub enforce_inbox : Fault → ℕ → Engine Json → Engine Json
  enforce_inbox fault now e = record e { inbox = (enforce_at fault e.inbox now).0 }

  -- The new state, and how many files were deleted.
  unfoldable pub prune_attachments : ℕ → (Text → Bool) → Engine Json → Engine Json × ℕ
  prune_attachments now removable e =
      let (files, n) = prune e.profile.attachments.retention_days now removable e.files in
      (record e { files = files }, n)

-- A profile's engine over an allow-list, an inbox as it was loaded, and the files of its store.
unfoldable pub new_engine :
    {Json : Type 0} → Profile → FilePath → Text → AllowList → Inbox Json → Files → Engine Json
new_engine profile state_dir store_dir allow inbox files = record {
  profile = profile;
  state_dir = state_dir;
  allow = allow;
  inbox = inbox;
  rate = new profile.limits.rate_count (profile.limits.rate_window_secs * 10 ^ 9);
  status = record {
    connected = false;
    did = none;
    user_id = none;
    device_id = none;
    last_error = none;
  };
  dropped = [];
  joined_rooms = [];
  store_dir = store_dir;
  files = files;
  audits = [];
  calls = [];
}
