-- ===== src/Engine/Types.antt =====
-- crates/aqua-messenger/src/engine.rs and proto.rs: requests, answers and the engine's state.
-- Errors and audit rows are data: what they say, without the wording. `Json` is the type of a media
-- source.
use aqua_matrix_connector.Common.{ℕ, Bool, Option, List}
use aqua_matrix_connector.Attachments.Store.{Fetched, Bytes, StoreFault, StoreError, Files}
use aqua_matrix_connector.Common.Text.{Text}
use aqua_matrix_connector.AllowList.Reload.{Audit, AllowList, Reading}
use aqua_matrix_connector.AllowList.{Recipient, RoomEntry}
use aqua_matrix_connector.Inbox.Entry.{InboxPolicy, NewEntry, MediaRef, Actor, InboxEntry}
use aqua_matrix_connector.Profile.{Profile}
use aqua_matrix_connector.AllowList.Parse.{Result, Reason}
use aqua_matrix_connector.Inbox.{Fault, Inbox}
use aqua_matrix_connector.Inbox.Marks.{Processed}
use aqua_matrix_connector.RateLimit.{RateLimiter}
use aqua_matrix_connector.Common.Assoc.{Assoc}

pub data Dest : Type 0 where
  to_person : Text → Dest
  to_room : Text → Dest

pub record Mention : Type 0 where
  pub mxid : Text
  pub display : Text

pub record ReplyRef : Type 0 where
  pub event_id : Text
  pub sender : Option Text
  pub room_id : Option Text
  pub thread_root : Option Text

pub record Sent : Type 0 where
  pub event_id : Text
  pub thread_root : Option Text

pub record FetchRequest (Json : Type 0) : Type 0 where
  pub event_id : Text
  pub room_id : Text
  pub media : Option (MediaRef Json)
  pub max_bytes : ℕ

-- `Fetched` of the transport.
pub record Download : Type 0 where
  pub bytes : Bytes
  pub mimetype : Option Text

pub record Status : Type 0 where
  pub connected : Bool
  pub did : Option Text
  pub user_id : Option Text
  pub device_id : Option Text
  pub last_error : Option Text

pub record SeenRoom : Type 0 where
  pub display_name : Option Text
  pub joined_members : ℕ
  pub is_direct : Bool

pub record Accepted : Type 0 where
  pub room_name : Option Text
  pub sender_name : Option Text

pub record Resolved : Type 0 where
  pub name : Text
  pub id : Text
  pub dest : Dest

pub data FromFilter : Type 0 where
  from_sender : Text → FromFilter
  from_room : Text → FromFilter

-- The components of a canonical path.
abbrev pub FilePath : Type 0
FilePath = List Text

pub data Outgoing : Type 0 where
  out_text : Text → Outgoing
  out_mention : Text → Mention → Outgoing
  out_file : FilePath → Text → Outgoing
  out_edit : Text → Text → Option Mention → Outgoing

-- The calls of `Transport`.
pub data TransportCall (Json : Type 0) : Type 0 where
  call_text : Dest → Text → Option ReplyRef → TransportCall Json
  call_file : Dest → FilePath → Text → Option ReplyRef → TransportCall Json
  call_mention : Dest → Text → Mention → TransportCall Json
  call_edit : Dest → Text → Text → Option Mention → TransportCall Json
  call_fetch : FetchRequest Json → TransportCall Json

-- `info` of a send, merged into its audit row.
pub record Info : Type 0 where
  pub kind : Text
  pub bytes : ℕ
  pub mention : Option Text
  pub filename : Option Text
  pub replaces : Option Text

pub data AuditRow : Type 0 where
  allowlist_rejected : Audit → AuditRow
  inbound_dropped_unlisted_room : Text → AuditRow
  inbound_dropped : Text → Text → Text → AuditRow
  inbound_dropped_media : Text → Text → Text → Text → AuditRow
  send_refused : Text → Text → Text → AuditRow
  sensitive_path_refused : FilePath → AuditRow
  sent_row : Text → Bool → Text → Text → Option Text → Info → AuditRow
  send_failed : Text → Text → Text → Info → AuditRow
  inbox_processed : List ℕ → Actor → AuditRow
  fetch_not_allowed : ℕ → Text → Text → AuditRow
  fetch_too_large : ℕ → ℕ → AuditRow
  fetch_failed : ℕ → AuditRow
  fetched_row : ℕ → ℕ → Text → AuditRow

-- Why a request is not done. `limiter_panicked` is the panic of the limiter.
pub data Failure : Type 0 where
  tool_disabled : Text → Failure
  needs_to : Text → Failure
  empty_markdown : Failure
  message_too_long : ℕ → Failure
  mention_is_room : Text → Failure
  mention_not_listed : Text → Failure
  mention_and_reply : Failure
  mention_too_long : ℕ → Failure
  cannot_open : Text → Failure
  sensitive_file : Text → Failure
  cannot_stat : Failure
  not_regular : Failure
  file_too_large : ℕ → Failure
  not_allowlisted : Text → Failure
  unlisted_room : Text → Failure
  bad_from : Text → Failure
  bad_reply_to : Text → Failure
  reply_not_found : ℕ → Failure
  reply_elsewhere : ℕ → Text → Failure
  rate_limited : ℕ → Failure
  limiter_panicked : Failure
  not_delivered : Text → Text → Failure
  bad_event_id : Text → Failure
  processing_not_tracked : Failure
  empty_note : Failure
  from_without_up_to : Failure
  media_refused : Failure
  entry_not_found : ℕ → Failure
  not_an_attachment : ℕ → Text → Failure
  allowlist_broken : Reason → Failure
  fetch_not_permitted : ℕ → Text → Failure
  declared_too_large : ℕ → Failure
  not_fetched : ℕ → Text → Failure
  not_stored : ℕ → StoreError → Failure

pub record SentAnswer : Type 0 where
  pub event_id : Text
  pub target : Resolved
  pub inbox_seq : ℕ
  pub reply_to : Option Text
  pub thread_root : Option Text

pub record PersonRow : Type 0 where
  pub recipient : Recipient
  pub sends_left : ℕ

pub record RoomRow : Type 0 where
  pub entry : RoomEntry
  pub seen : Option SeenRoom
  pub sends_left : ℕ

-- The constants of the profile and the list's path, which the answer repeats, are left out.
pub record RecipientsAnswer : Type 0 where
  pub recipients : List PersonRow
  pub rooms : List RoomRow
  pub unlisted_non_dm_rooms_joined : ℕ
  pub allowlist_error : Option Reason

pub record ReadAnswer (Json : Type 0) : Type 0 where
  pub entries : List (InboxEntry Json)
  pub high_water : ℕ
  pub unread_remaining : ℕ
  pub open_remaining : ℕ
  pub track_processed : Bool

pub record WaitAnswer (Json : Type 0) : Type 0 where
  pub entries : List (InboxEntry Json)
  pub waited_s : ℕ
  pub high_water : ℕ
  pub track_processed : Bool

pub record StatusAnswer : Type 0 where
  pub status : Status
  pub inbox_entries : ℕ
  pub policy : InboxPolicy
  pub inbox_max_age_hours : Option ℕ
  pub inbox_unread : ℕ
  pub inbox_new : ℕ
  pub inbox_seen : ℕ
  pub inbox_processed : ℕ
  pub inbox_high_water : ℕ

-- The data of an `ok` response; a fetched attachment comes with its number and whether it was cached.
pub data Answer (Json : Type 0) : Type 0 where
  described : Profile → Answer Json
  delivered : SentAnswer → Answer Json
  edited : Text → Text → Answer Json
  recipients_listed : RecipientsAnswer → Answer Json
  entries_read : ReadAnswer Json → Answer Json
  replied : WaitAnswer Json → Answer Json
  timed_out : ℕ → Answer Json
  nothing_open : ℕ → Answer Json
  marked : Processed → ℕ → Answer Json
  attachment : ℕ → Fetched → Bool → Answer Json
  status_report : StatusAnswer → Answer Json

abbrev pub Response : Type 0 → Type 0
Response Json = Result Failure (Answer Json)

pub data Request : Type 0 where
  ask_describe : Request
  ask_send_message : Text → Text → Text → Option Text → Option Text → Request
  ask_send_file : Text → Text → Option Text → Text → Option Text → Request
  ask_list_recipients : Request
  ask_read_inbox :
      Option Text
      → Option ℕ
      → Option ℕ
      → Bool
      → Bool
      → Option ℕ
      → Option Text
      → Option Text
      → Request
  ask_mark_processed : List ℕ → Option ℕ → Option Text → Text → Option Text → Option Text → Request
  ask_edit_message : Text → Text → Text → Text → Option Text → Request
  ask_wait_for_reply : Text → ℕ → Option ℕ → Option Text → Option Text → Request
  ask_fetch_attachment : ℕ → Request
  ask_status : Request

-- The paths are canonical. `audits` is what was appended to `audit.jsonl`, and `calls` what the transport was asked for, each in
-- order.
pub record Engine (Json : Type 0) : Type 0 where
  pub profile : Profile
  pub state_dir : FilePath
  pub allow : AllowList
  pub inbox : Inbox Json
  pub rate : RateLimiter
  pub status : Status
  pub dropped : List Text
  pub joined_rooms : Assoc SeenRoom
  pub store_dir : Text
  pub files : Files
  pub audits : List AuditRow
  pub calls : List (TransportCall Json)

-- What a reload of the allow-list finds.
pub record ListFile : Type 0 where
  pub mtime : Option ℕ
  pub reading : Reading

pub record Metadata : Type 0 where
  pub is_file : Bool
  pub len : ℕ

-- A message that arrives while a request waits.
pub record Arrival (Json : Type 0) : Type 0 where
  pub entry : NewEntry Json
  pub fault : Fault
  pub now : ℕ

-- What one request meets: the files, the clocks, failing writes, the transport's answers, and the
-- messages that arrive before the deadline of a wait. Each look
-- at the allow-list's file may find another state.
pub record World (Json : Type 0) : Type 0 where
  pub mention_list : ListFile
  pub list : ListFile
  pub clock : ℕ
  pub enforce_ms : ℕ
  pub enforce_fault : Fault
  pub mark_ms : ℕ
  pub mark_fault : Fault
  pub home : Option FilePath
  pub canonicalize : Text → Option FilePath
  pub metadata : FilePath → Option Metadata
  pub transport : TransportCall Json → Result Text Sent
  pub download : FetchRequest Json → Result Text Download
  pub store_s : ℕ
  pub store_fault : StoreFault
  pub removable : Text → Bool
  pub arrivals : List (Arrival Json)

-- The engine after a request, and the response.
abbrev pub Outcome : Type 0 → Type 0
Outcome Json = Engine Json × Response Json
