-- ===== src/Engine/Send.antt =====
-- crates/aqua-messenger/src/engine.rs: `send`, from the target to the transport's answer.
use aqua_matrix_connector.Inbox.{high_water}
use aqua_matrix_connector.Common.{
  some, none, Option, Bool, true, false, if◌then◌else◌, ◌++◌, ◌∷◌, [],
}
use aqua_matrix_connector.Common.Text.{trim, Text, is_empty, codes}
use aqua_matrix_connector.Engine.Types.{
  Dest, Outgoing, Engine, World, ReplyRef, Resolved, TransportCall, Sent, Info, to_room, Failure,
  Answer, Response, out_text, call_text, to_person, out_edit, edited, out_file, call_file,
  delivered, sent_row, send_refused, send_failed, out_mention, call_mention, rate_limited,
  call_edit, not_delivered, limiter_panicked,
}
use aqua_matrix_connector.AllowList.Parse.{Result, ok, err}
use aqua_matrix_connector.RateLimit.{try_acquire, over_budget, release, panicked, acquired, Acquire}
use aqua_matrix_connector.Format.Origin.{sanitize_origin}
use aqua_matrix_connector.Engine.Resolve.{audit, resolve_to, resolve_reply}

unfoldable pub is_room : Dest → Bool
is_room (to_room id) = true
is_room (to_person mxid) = false

abbrev pub reply_event : Option ReplyRef → Option Text
reply_event none = none
reply_event (some r) = some r.event_id

module _ {Json : Type 0} where
  unfoldable pub transport_call : Outgoing → Dest → Option ReplyRef → TransportCall Json
  transport_call (out_text md) dest reply = call_text dest md reply
  transport_call (out_file path caption) dest reply = call_file dest path caption reply
  transport_call (out_mention md mention) dest reply = call_mention dest md mention
  transport_call (out_edit id md mention) dest reply = call_edit dest id md mention

  -- The reply that a send is, if it is one.
  unfoldable pub check_reply :
      Engine Json → Option Text → Resolved → Result Failure (Option ReplyRef)
  check_reply e none to = ok none
  check_reply e (some r) to =
      if is_empty (trim r)
      then ok none
      else elim (resolve_reply e (trim r) to) [ ok ref ↦ ok (some ref) | err why ↦ err why ]

  unfoldable pub delivered_answer :
      Engine Json → Resolved → Option ReplyRef → Outgoing → Sent → Answer Json
  delivered_answer e to reply (out_edit id md mention) s = edited s.event_id id
  delivered_answer e to reply out s = delivered (record {
    event_id = s.event_id;
    target = to;
    inbox_seq = high_water e.inbox;
    reply_to = reply_event reply;
    thread_root = s.thread_root;
  })

  -- What the transport's answer makes of a reserved slot.
  unfoldable pub finish_send :
      Engine Json
      → Resolved
      → Option ReplyRef
      → Outgoing
      → Text
      → Info
      → Result Text Sent
      → Engine Json × Response Json
  unfolding delivered_answer
  finish_send e to reply out origin info (ok s) = (
    audit (sent_row to.name (is_room to.dest) origin s.event_id (reply_event reply) info) e,
    ok (delivered_answer e to reply out s),
  )
  finish_send e to reply out origin info (err why) = (
    audit (send_failed to.name origin why info) (record e { rate = release e.rate to.id }),
    err (not_delivered to.name why),
  )

  -- The slot is reserved, or not.
  unfoldable pub after_acquire :
      World Json
      → Engine Json
      → Resolved
      → Option ReplyRef
      → Outgoing
      → Text
      → Info
      → Acquire
      → Engine Json × Response Json
  unfolding finish_send transport_call
  after_acquire w e to reply out origin info (over_budget wait) =
      (audit (send_refused (codes "rate_limited") to.name origin) e, err (rate_limited wait))
  after_acquire w e to reply out origin info panicked = (e, err limiter_panicked)
  after_acquire w e to reply out origin info acquired =
      let call = transport_call out to.dest reply in
      finish_send (record e { calls = e.calls ++ call ∷ [] }) to reply out origin info
        (w.transport call)

  -- Reserve, hand over to the transport, and take its answer.
  unfoldable pub reserve_and_send :
      World Json
      → Engine Json
      → Resolved
      → Option ReplyRef
      → Outgoing
      → Text
      → Info
      → Engine Json × Response Json
  unfolding after_acquire
  reserve_and_send w e to reply out origin info =
      let (rate, got) = try_acquire e.rate to.id w.clock in
      after_acquire w (record e { rate = rate }) to reply out origin info got

  -- The target is resolved.
  unfoldable pub send_to :
      World Json
      → Engine Json
      → Resolved
      → Outgoing
      → Text
      → Option Text
      → Info
      → Engine Json × Response Json
  unfolding reserve_and_send
  send_to w e to out origin reply_to info = elim (check_reply e reply_to to) [
    | err why ↦ (audit (send_refused (codes "reply_to") to.name origin) e, err why)
    | ok reply ↦ reserve_and_send w e to reply out origin info
  ]

  unfoldable pub send :
      World Json
      → Engine Json
      → Text
      → Outgoing
      → Text
      → Option Text
      → Info
      → Engine Json × Response Json
  unfolding send_to
  send w e to out raw_origin reply_to info =
      let origin = sanitize_origin raw_origin in
      let (e', target) = resolve_to w.list e to in
      elim target [
        | err why ↦ (audit (send_refused (codes "not_allowlisted") to origin) e', err why)
        | ok t ↦ send_to w e' t out origin reply_to info
      ]
