-- ===== src/Inbox/Entry.antt =====
use aqua_matrix_connector.Common.{
  Bool, ℕ, none, List, Option, if◌then◌else◌, true, false, any, is_some, ◌∷◌, some, [], ◌||◌,
}
use aqua_matrix_connector.Common.Text.{Text, codes, text_eq}

-- crates/aqua-messenger/src/inbox.rs: policies, states, marks and entries.
-- `Json` is the type of `serde_json::Value`, which the inbox only stores and clears.

pub data State : Type 0 where
  new seen processed : State

unfoldable pub state_eq : State → State → Bool
state_eq new new = true
state_eq seen seen = true
state_eq processed processed = true
state_eq s t = false

-- The age bound is in milliseconds.
pub record InboxPolicy : Type 0 where
  pub max_entries : ℕ
  pub max_age : Option ℕ
  pub hard_cap : Bool
  pub accept_media : Bool
  pub track_processed : Bool

abbrev pub max_entries_default : ℕ
max_entries_default = 5000

abbrev pub default_policy : InboxPolicy
default_policy = record {
  max_entries = max_entries_default;
  max_age = none;
  hard_cap = false;
  accept_media = true;
  track_processed = false;
}

unfoldable pub open_states : InboxPolicy → List State
open_states p = if p.track_processed then new ∷ seen ∷ [] else new ∷ []

pub record Mark : Type 0 where
  pub by : Text
  pub session : Option Text
  pub at_ms : ℕ
  pub note : Option Text

pub record Actor : Type 0 where
  pub by : Text
  pub session : Option Text

unfoldable pub mark : Actor → ℕ → Option Text → Mark
mark who at note = record { by = who.by; session = who.session; at_ms = at; note = note }

pub record MediaRef (Json : Type 0) : Type 0 where
  pub source : Json
  pub mimetype : Option Text
  pub size : Option ℕ

pub record InboxEntry (Json : Type 0) : Type 0 where
  pub seq : ℕ
  pub event_id : Text
  pub room_id : Text
  pub sender : Text
  pub sender_name : Option Text
  pub room : Option Text
  pub ts_ms : ℕ
  pub kind : Text
  pub body : Text
  pub filename : Option Text
  pub media : Option (MediaRef Json)
  pub in_reply_to : Option Text
  pub thread_root : Option Text
  pub read : Bool
  pub seen_by : Option Mark
  pub processed_by : Option Mark

pub record NewEntry (Json : Type 0) : Type 0 where
  pub event_id : Text
  pub room_id : Text
  pub sender : Text
  pub sender_name : Option Text
  pub room : Option Text
  pub ts_ms : ℕ
  pub kind : Text
  pub body : Text
  pub filename : Option Text
  pub media : Option (MediaRef Json)
  pub in_reply_to : Option Text
  pub thread_root : Option Text

-- `attachments::MEDIA_KINDS`
abbrev pub media_kinds : List Text
media_kinds = codes "file" ∷ codes "image" ∷ codes "audio" ∷ codes "video" ∷ []

unfoldable pub is_media_kind : Text → Bool
is_media_kind kind = any (text_eq kind) media_kinds

module _ {Json : Type 0} where
  unfoldable pub has_attachment : InboxEntry Json → Bool
  has_attachment e = any (text_eq e.kind) media_kinds

  unfoldable pub state : InboxEntry Json → State
  state e =
      if is_some e.processed_by
      then processed
      else if e.read || is_some e.seen_by
      then seen
      else new

  -- A copy for a session: the source, and so the file key, is replaced by `null`.
  unfoldable pub public : Json → InboxEntry Json → InboxEntry Json
  public null e = record e {
    media = elim e.media [ none ↦ none | some m ↦ some (record m { source = null }) ];
  }

  -- The entry that `ingest_at` pushes.
  unfoldable pub entry_of : NewEntry Json → ℕ → InboxEntry Json
  entry_of n seq = record {
    seq = seq;
    event_id = n.event_id;
    room_id = n.room_id;
    sender = n.sender;
    sender_name = n.sender_name;
    room = n.room;
    ts_ms = n.ts_ms;
    kind = n.kind;
    body = n.body;
    filename = n.filename;
    media = n.media;
    in_reply_to = n.in_reply_to;
    thread_root = n.thread_root;
    read = false;
    seen_by = none;
    processed_by = none;
  }

  unfoldable pub is_new : InboxEntry Json → Bool
  unfolding state state_eq
  is_new e = state_eq (state e) new
