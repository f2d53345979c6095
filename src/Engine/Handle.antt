-- ===== src/Engine/Handle.antt =====
-- crates/aqua-messenger/src/engine.rs: `handle`, one request at a time. Hashing and `serde_json` are
-- parameters, and so is the JSON value `null`.
use aqua_matrix_connector.Common.{Option}
use aqua_matrix_connector.Attachments.Store.{Fetched, Bytes}
use aqua_matrix_connector.Engine.Fetch.{fetch_attachment}
use aqua_matrix_connector.Engine.Wait.{wait_for_reply}
use aqua_matrix_connector.Engine.Reads.{read_inbox, mark_processed, list_recipients, status_of}
use aqua_matrix_connector.Engine.Requests.{send_message, send_file, edit_message, if_enabled}
use aqua_matrix_connector.Common.Text.{Text}
use aqua_matrix_connector.Engine.Types.{
  World, Engine, Request, Outcome, described, ask_send_message, ask_send_file, ask_read_inbox,
  ask_mark_processed, ask_edit_message, ask_wait_for_reply, ask_fetch_attachment, status_report,
  ask_describe, ask_list_recipients, ask_status,
}
use aqua_matrix_connector.AllowList.Parse.{ok}
use aqua_matrix_connector.Profile.Tools.{
  t_send_message, t_send_file, t_read_inbox, t_wait_for_reply, t_fetch_attachment,
}
use aqua_matrix_connector.Engine.Resolve.{actor}

module _ {Json : Type 0} (sha256_hex : Bytes → Text) (encode : Fetched → Option Bytes)
    (decode : Bytes → Option Fetched) (null : Json) where
  unfoldable pub handle : World Json → Engine Json → Request → Outcome Json
  handle w e ask_describe = (e, ok (described e.profile))
  handle w e (ask_send_message to markdown origin reply_to mention) =
      if_enabled e t_send_message (send_message w e to markdown origin reply_to mention)
  handle w e (ask_send_file to path caption origin reply_to) =
      if_enabled e t_send_file (send_file w e to path caption origin reply_to)
  handle w e ask_list_recipients = list_recipients w e
  handle w e (ask_read_inbox from since_seq since_ts_ms unread_only mark_read limit by session) =
      if_enabled e t_read_inbox (
        read_inbox null w e from since_seq since_ts_ms unread_only mark_read limit
          (actor by session))
  handle w e (ask_mark_processed seqs up_to_seq from note by session) =
      mark_processed w e seqs up_to_seq from note (actor by session)
  handle w e (ask_edit_message to event_id markdown origin mention) =
      edit_message w e to event_id markdown origin mention
  handle w e (ask_wait_for_reply from timeout_s after_seq by session) =
      if_enabled e t_wait_for_reply
        (wait_for_reply null w e from timeout_s after_seq (actor by session))
  handle w e (ask_fetch_attachment inbox_seq) =
      if_enabled e t_fetch_attachment (fetch_attachment sha256_hex encode decode w e inbox_seq)
  handle w e ask_status = (e, ok (status_report (status_of e)))
