-- ===== src/Engine/Resolve.antt =====
-- crates/aqua-messenger/src/engine.rs: whom and what the arguments of a request name.
use aqua_matrix_connector.Common.{
  ℕ, some, none, Option, ◌++◌, Bool, ◌∷◌, if◌then◌else◌, unwrap_or, [], false, not, map, is_none,
  ◌&&◌, ltb, leb, any, ◌||◌,
}
use aqua_matrix_connector.Common.Decimal.{parse_u64}
use aqua_matrix_connector.Common.Text.{
  trim, Text, is_empty, text_eq, eq_ignore_ascii_case, len, starts_with, is_whitespace,
}
use aqua_matrix_connector.AllowList.Targets.{person, room, Target, take_audit, resolve_target}
use aqua_matrix_connector.Engine.Types.{
  AuditRow, ListFile, Resolved, Engine, to_person, Failure, Dest, ReplyRef, FromFilter, to_room,
  Mention, from_sender, from_room, mention_not_listed, reply_elsewhere, reply_not_found, needs_to,
  allowlist_rejected, bad_from, mention_is_room, unlisted_room, not_allowlisted, bad_reply_to,
}
use aqua_matrix_connector.Inbox.Entry.{InboxEntry, Actor}
use aqua_matrix_connector.Inbox.{Inbox, Query}
use aqua_matrix_connector.AllowList.Parse.{Result, ok, err}
use aqua_matrix_connector.Format.Origin.{sanitize_origin}
use aqua_matrix_connector.AllowList.Reload.{reload}
use aqua_matrix_connector.Inbox.Reads.{get, get_by_event_id}
use aqua_matrix_connector.AllowList.{is_valid_room_id, is_valid_mxid}
use aqua_matrix_connector.Format.{sanitize_session, is_control}
use aqua_matrix_connector.Common.Assoc.{contains_key}

pub data ReplyArg : Type 0 where
  by_seq : ℕ → ReplyArg
  by_event_id : Text → ReplyArg

abbrev pub dollar : ℕ
dollar = 36

-- The argument is trimmed.
unfoldable pub parse_trimmed : Text → Result Failure ReplyArg
parse_trimmed s = elim (parse_u64 s) [
  | some n ↦ ok (by_seq n)
  | none ↦
      if ltb 1 (len s)
        && leb (len s) 255
        && starts_with dollar s
        && not (any (λ c. is_whitespace c || is_control c) s)
      then ok (by_event_id s)
      else err (bad_reply_to s)
]

unfoldable pub parse_reply_to : Text → Result Failure ReplyArg
unfolding parse_trimmed
parse_reply_to s = parse_trimmed (trim s)

-- The session behind a read or `mark_processed`.
unfoldable pub actor : Option Text → Option Text → Actor
actor by session = record {
  by = sanitize_origin (unwrap_or by []);
  session = sanitize_session session;
}

unfoldable pub target_of : Target → Resolved
target_of (person r) = record { name = r.name; id = r.mxid; dest = to_person r.mxid }
target_of (room r) = record { name = r.name; id = r.room_id; dest = to_room r.room_id }

unfoldable pub mention_of : Text → Result Failure Resolved → Result Failure (Option Mention)
mention_of m (err why) = err (mention_not_listed m)
mention_of m (ok to) = elim to.dest [
  | to_person mxid ↦ ok (some (record { mxid = to.id; display = to.name }))
  | to_room id ↦ err (mention_is_room m)
]

abbrev pub bare_ref : Text → ReplyRef
bare_ref id = record { event_id = id; sender = none; room_id = none; thread_root = none }

unfoldable pub apply_from : Query → Option FromFilter → Query
apply_from q none = q
apply_from q (some (from_sender s)) = record q { sender = some s }
apply_from q (some (from_room r)) = record q { room_id = some r }

module _ {Json : Type 0} where
  unfoldable pub audit : AuditRow → Engine Json → Engine Json
  audit row e = record e { audits = e.audits ++ row ∷ [] }

  -- The allow-list after a hot reload; a file that the reload rejected is audited.
  unfoldable pub allow_current : ListFile → Engine Json → Engine Json
  allow_current f e =
      let (allow, rows) = take_audit (reload false e.allow f.mtime f.reading).0 in
      record e { allow = allow; audits = e.audits ++ map allowlist_rejected rows }

  -- Why a name that the list does not hold is refused.
  unfoldable pub refusal : Engine Json → Text → Failure
  refusal e to =
      if is_valid_room_id (trim to) && contains_key (trim to) e.joined_rooms
      then unlisted_room (trim to)
      else not_allowlisted to

  -- On the list in force.
  unfoldable pub find_target : Engine Json → Text → Result Failure Resolved
  find_target e to = elim (resolve_target e.allow to) [
    | some t ↦ ok (target_of t)
    | none ↦ err (refusal e to)
  ]

  unfoldable pub resolve_to : ListFile → Engine Json → Text → Engine Json × Result Failure Resolved
  unfolding find_target
  resolve_to f e to = let e' = allow_current f e in (e', find_target e' to)

  unfoldable pub find_from : Engine Json → Text → Result Failure FromFilter
  find_from e from = elim (resolve_target e.allow from) [
    | some (person r) ↦ ok (from_sender r.mxid)
    | some (room r) ↦ ok (from_room r.room_id)
    | none ↦
        if is_valid_mxid (trim from)
        then ok (from_sender (trim from))
        else if is_valid_room_id (trim from)
        then ok (from_room (trim from))
        else err (bad_from from)
  ]

  unfoldable pub resolve_from :
      ListFile → Engine Json → Text → Engine Json × Result Failure FromFilter
  unfolding find_from
  resolve_from f e from = let e' = allow_current f e in (e', find_from e' from)

  -- `from.map(resolve_from).transpose()`
  unfoldable pub resolve_optional_from :
      ListFile → Engine Json → Option Text → Engine Json × Result Failure (Option FromFilter)
  unfolding resolve_from
  resolve_optional_from f e none = (e, ok none)
  resolve_optional_from f e (some from) =
      let e' = allow_current f e in
      (e', elim (find_from e' from) [ ok filter ↦ ok (some filter) | err why ↦ err why ])

  -- Empty or absent is no mention.
  unfoldable pub mention_for :
      ListFile → Engine Json → Option Text → Engine Json × Result Failure (Option Mention)
  unfolding resolve_to mention_of
  mention_for f e none = (e, ok none)
  mention_for f e (some m) =
      if is_empty (trim m)
      then (e, ok none)
      else let (e', r) = resolve_to f e (trim m) in (e', mention_of (trim m) r)

  -- Whether an entry belongs to the conversation with the destination.
  unfoldable pub is_in_conversation : InboxEntry Json → Dest → Bool
  is_in_conversation e (to_room id) = text_eq e.room_id id
  is_in_conversation e (to_person mxid) = is_none e.room && eq_ignore_ascii_case e.sender mxid

  unfoldable pub reply_ref : InboxEntry Json → ReplyRef
  reply_ref e = record {
    event_id = e.event_id;
    sender = some e.sender;
    room_id = some e.room_id;
    thread_root = e.thread_root;
  }

  unfoldable pub check_entry : InboxEntry Json → Resolved → Result Failure ReplyRef
  unfolding is_in_conversation reply_ref
  check_entry e to =
      if is_in_conversation e to.dest then ok (reply_ref e) else err (reply_elsewhere e.seq to.name)

  unfoldable pub reply_arg : Inbox Json → ReplyArg → Resolved → Result Failure ReplyRef
  unfolding check_entry
  reply_arg i (by_seq n) to = elim (get i n) [
    | none ↦ err (reply_not_found n)
    | some e ↦ check_entry e to
  ]
  reply_arg i (by_event_id id) to = elim (get_by_event_id i id) [
    | none ↦ ok (bare_ref id)
    | some e ↦ check_entry e to
  ]

  unfoldable pub resolve_reply : Engine Json → Text → Resolved → Result Failure ReplyRef
  unfolding reply_arg
  resolve_reply e reply_to to = elim (parse_reply_to reply_to) [
    | ok arg ↦ reply_arg e.inbox arg to
    | err why ↦ err why
  ]

  -- `to` as given, or the profile's default recipient.
  unfoldable pub to_or_default : Engine Json → Text → Text → Result Failure Text
  to_or_default e to tool =
      if not (is_empty (trim to))
      then ok (trim to)
      else elim e.profile.default_to [ some d ↦ ok d | none ↦ err (needs_to tool) ]
