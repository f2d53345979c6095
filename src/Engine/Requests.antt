-- ===== src/Engine/Requests.antt =====
-- crates/aqua-messenger/src/engine.rs: the requests that send, read and mark.
-- The target's argument is tested before the others, as in `handle`.
use aqua_matrix_connector.Common.{ℕ, some, none, Option, if◌then◌else◌, not, false, unwrap_or, ltb}
use aqua_matrix_connector.Common.Text.{trim, Text, codes, len, is_empty}
use aqua_matrix_connector.Engine.Types.{
  Engine, World, Mention, Info, Metadata, FilePath, Failure, Outgoing, tool_disabled, out_text,
  cannot_stat, cannot_open, mention_and_reply, out_mention, empty_markdown, not_regular,
  sensitive_path_refused, out_edit, message_too_long, mention_too_long, file_too_large,
  sensitive_file, out_file, bad_event_id, Outcome,
}
use aqua_matrix_connector.Engine.Resolve.{
  to_or_default, mention_for, audit, parse_reply_to, by_event_id, by_seq,
}
use aqua_matrix_connector.Profile.{has_tool}
use aqua_matrix_connector.Format.{tag_markdown, tag_caption, own_caption}
use aqua_matrix_connector.AllowList.Parse.{err, ok, Result}
use aqua_matrix_connector.Profile.Tools.{t_send_message, t_send_file}
use aqua_matrix_connector.Engine.Paths.{sensitive_path_in, file_name}
use aqua_matrix_connector.Engine.Send.{send}

abbrev pub max_mention_bytes : ℕ
max_mention_bytes = 6000

-- What stands in the way of a mention.
unfoldable pub mention_conflict : Option Mention → Option Text → Text → Option Failure
mention_conflict none reply_to markdown = none
mention_conflict (some m) reply_to markdown =
    if elim reply_to [ none ↦ false | some r ↦ not (is_empty (trim r)) ]
    then some mention_and_reply
    else if ltb max_mention_bytes (len markdown)
    then some (mention_too_long (len markdown))
    else none

unfoldable pub text_outgoing : Text → Option Mention → Outgoing
text_outgoing body none = out_text body
text_outgoing body (some m) = out_mention body m

abbrev pub mention_name : Option Mention → Option Text
mention_name none = none
mention_name (some m) = some m.display

unfoldable pub text_info : Text → Option Mention → Info
text_info markdown mention = record {
  kind = codes "text";
  bytes = len markdown;
  mention = mention_name mention;
  filename = none;
  replaces = none;
}

unfoldable pub file_info : ℕ → Text → Info
file_info bytes filename = record {
  kind = codes "file";
  bytes = bytes;
  mention = none;
  filename = some filename;
  replaces = none;
}

abbrev pub size_of : Option Metadata → ℕ
size_of none = 0
size_of (some m) = m.len

unfoldable pub edit_info : Text → Text → Option Mention → Info
edit_info markdown original mention = record {
  kind = codes "edit";
  bytes = len markdown;
  mention = mention_name mention;
  filename = none;
  replaces = some original;
}

module _ {Json : Type 0} where
  -- `if let Err(r) = self.tool_enabled(tool) { return r; }`
  unfoldable pub if_enabled : Engine Json → Text → Outcome Json → Outcome Json
  if_enabled e tool rest = if has_tool e.profile tool then rest else (e, err (tool_disabled tool))

  unfoldable pub body_of : Engine Json → Text → Text → Text
  body_of e markdown origin =
      if e.profile.tag_origin then tag_markdown markdown origin else markdown

  -- From the resolved mention on.
  unfoldable pub send_text :
      World Json → Engine Json → Text → Text → Text → Option Text → Option Mention → Outcome Json
  unfolding mention_conflict text_outgoing text_info body_of
  send_text w e to markdown origin reply_to mention =
      elim (mention_conflict mention reply_to markdown) [
        | some why ↦ (e, err why)
        | none ↦
            send w e to (text_outgoing (body_of e markdown origin) mention) origin reply_to
              (text_info markdown mention)
      ]

  unfoldable pub after_mention :
      World Json
      → Engine Json
      → Text
      → Text
      → Text
      → Option Text
      → Result Failure (Option Mention)
      → Outcome Json
  unfolding send_text
  after_mention w e to markdown origin reply_to (err why) = (e, err why)
  after_mention w e to markdown origin reply_to (ok mention) =
      send_text w e to markdown origin reply_to mention

  unfoldable pub send_message :
      World Json → Engine Json → Text → Text → Text → Option Text → Option Text → Outcome Json
  unfolding after_mention
  send_message w e to markdown origin reply_to mention = elim (to_or_default e to t_send_message) [
    | err why ↦ (e, err why)
    | ok to ↦
        if is_empty (trim markdown)
        then (e, err empty_markdown)
        else if ltb e.profile.limits.max_message_bytes (len markdown)
        then (e, err (message_too_long (len markdown)))
        else let (e', m) = mention_for w.mention_list e mention in
          after_mention w e' to markdown origin reply_to m
  ]

  unfoldable pub caption_of : Engine Json → Option Text → Text → Text → Text
  caption_of e caption filename origin =
      if e.profile.tag_origin
      then tag_caption caption filename origin
      else unwrap_or (own_caption caption) filename

  -- What keeps a path from being sent.
  unfoldable pub file_refusal : Engine Json → Option Metadata → Option Failure
  file_refusal e none = some cannot_stat
  file_refusal e (some m) =
      if not m.is_file
      then some not_regular
      else if ltb e.profile.limits.max_file_bytes m.len
      then some (file_too_large m.len)
      else none

  -- The path is canonical.
  unfoldable pub send_path :
      World Json → Engine Json → Text → FilePath → Option Text → Text → Option Text → Outcome Json
  unfolding file_refusal caption_of file_info
  send_path w e to p caption origin reply_to = elim (sensitive_path_in p e.state_dir w.home) [
    | some why ↦ (audit (sensitive_path_refused p) e, err (sensitive_file why))
    | none ↦ elim (file_refusal e (w.metadata p)) [
      | some why ↦ (e, err why)
      | none ↦
          let filename = unwrap_or (file_name p) (codes "file") in
          send w e to (out_file p (caption_of e caption filename origin)) origin reply_to
            (file_info (size_of (w.metadata p)) filename)
    ]
  ]

  unfoldable pub send_file :
      World Json → Engine Json → Text → Text → Option Text → Text → Option Text → Outcome Json
  unfolding send_path
  send_file w e to path caption origin reply_to = elim (to_or_default e to t_send_file) [
    | err why ↦ (e, err why)
    | ok to ↦ elim (w.canonicalize path) [
      | none ↦ (e, err (cannot_open path))
      | some p ↦ send_path w e to p caption origin reply_to
    ]
  ]

  unfoldable pub after_edit_mention :
      World Json
      → Engine Json
      → Text
      → Text
      → Text
      → Text
      → Result Failure (Option Mention)
      → Outcome Json
  unfolding edit_info body_of
  after_edit_mention w e to original markdown origin (err why) = (e, err why)
  after_edit_mention w e to original markdown origin (ok mention) =
      send w e to (out_edit original (body_of e markdown origin) mention) origin none
        (edit_info markdown original mention)

  -- From the event's id on.
  unfoldable pub send_edit :
      World Json → Engine Json → Text → Text → Text → Text → Option Text → Outcome Json
  unfolding after_edit_mention
  send_edit w e to original markdown origin mention =
      let (e', m) = mention_for w.mention_list e mention in
      after_edit_mention w e' to original markdown origin m

  unfoldable pub edit_message :
      World Json → Engine Json → Text → Text → Text → Text → Option Text → Outcome Json
  unfolding send_edit
  edit_message w e to event_id markdown origin mention =
      elim (to_or_default e to (codes "edit_message")) [
        | err why ↦ (e, err why)
        | ok to ↦
            if ltb e.profile.limits.max_message_bytes (len markdown)
            then (e, err (message_too_long (len markdown)))
            else elim (parse_reply_to event_id) [
              | ok (by_event_id original) ↦ send_edit w e to original markdown origin mention
              | ok (by_seq n) ↦ (e, err (bad_event_id event_id))
              | err why ↦ (e, err (bad_event_id event_id))
            ]
      ]
