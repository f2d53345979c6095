-- ===== src/Engine/Sends.antt =====
-- A send asks the transport at most once, and for a permitted call.
use aqua_matrix_connector.Common.{
  some, none, Option, List, ◌≡◌, refl, inl, ◌++◌, inr, ◌∷◌, [], subst, Bool-cases, Option-cases,
  ltb,
}
use aqua_matrix_connector.Engine.Permitted.{
  IsListed, IsReplyIn, IsPermitted, Grew, check_reply-IsReplyIn, find_target-IsListed,
}
use aqua_matrix_connector.Engine.Requests.{
  send_message, send_file, edit_message, send_text, send_path, text_outgoing, body_of, file_refusal,
  mention_conflict, after_mention, after_edit_mention, send_edit, edit_info,
}
use aqua_matrix_connector.Engine.Types.{
  World, FilePath, Outgoing, Engine, ListFile, Resolved, out_file, ReplyRef, TransportCall, Info,
  out_text, Sent, out_mention, out_edit, Mention, Failure,
}
use aqua_matrix_connector.Engine.Send.{
  transport_call, finish_send, after_acquire, send_to, send, reserve_and_send, check_reply,
}
use aqua_matrix_connector.Engine.Resolve.{
  allow_current, audit, resolve_to, find_target, mention_for, to_or_default, parse_reply_to, by_seq,
  by_event_id,
}
use aqua_matrix_connector.Common.Text.{Text, is_empty, trim, len, codes}
use aqua_matrix_connector.Engine.Paths.{sensitive_path_in}
use aqua_matrix_connector.AllowList.Parse.{Result, ok, err}
use aqua_matrix_connector.RateLimit.{Acquire, over_budget, try_acquire, panicked, acquired}
use aqua_matrix_connector.AllowList.Observers.{Result-cases}
use aqua_matrix_connector.Format.Origin.{sanitize_origin}
use aqua_matrix_connector.Profile.Tools.{t_send_message, t_send_file}

-- A file that leaves is not a sensitive one.
abbrev IsClean : Option FilePath → FilePath → Outgoing → Type 0
IsClean home dir (out_file p caption) = sensitive_path_in p dir home ≡ none
IsClean home dir (out_text md) = Unit
IsClean home dir (out_mention md m) = Unit
IsClean home dir (out_edit id md m) = Unit

module _ {Json : Type 0} (w : World Json) where
  call-IsPermitted :
      (e : Engine Json) (to : Resolved) (reply : Option ReplyRef) (out : Outgoing)
      → IsListed e.allow to.dest
      → IsReplyIn e.inbox to.dest reply
      → IsClean w.home e.state_dir out
      → IsPermitted w.home e.state_dir e.allow e.inbox (transport_call out to.dest reply)
  unfolding transport_call
  call-IsPermitted e to reply (out_text md) l r c = (l, r)
  call-IsPermitted e to reply (out_file p caption) l r c = (l, r, c)
  call-IsPermitted e to reply (out_mention md m) l r c = l
  call-IsPermitted e to reply (out_edit id md m) l r c = l

  finish_send-Grew :
      (calls : List (TransportCall Json)) (e : Engine Json) (to : Resolved)
      (reply : Option ReplyRef) (out : Outgoing) (origin : Text) (info : Info)
      (r : Result Text Sent)
      → Grew w.home calls e
      → Grew w.home calls (finish_send e to reply out origin info r).0
  unfolding finish_send audit
  finish_send-Grew calls e to reply out origin info (ok s) g = g
  finish_send-Grew calls e to reply out origin info (err why) g = g

  after_acquire-Grew :
      (e : Engine Json) (to : Resolved) (reply : Option ReplyRef) (out : Outgoing) (origin : Text)
      (info : Info) (got : Acquire)
      → IsListed e.allow to.dest
      → IsReplyIn e.inbox to.dest reply
      → IsClean w.home e.state_dir out
      → Grew w.home e.calls (after_acquire w e to reply out origin info got).0
  unfolding after_acquire audit
  after_acquire-Grew e to reply out origin info (over_budget wait) l r c = inl refl
  after_acquire-Grew e to reply out origin info panicked l r c = inl refl
  after_acquire-Grew e to reply out origin info acquired l r c =
      let call = transport_call out to.dest reply in
      finish_send-Grew e.calls (record e { calls = e.calls ++ call ∷ [] }) to reply out origin info
        (w.transport call) (inr (call, refl, call-IsPermitted e to reply out l r c))

  send_to-Grew :
      (e : Engine Json) (to : Resolved) (out : Outgoing) (origin : Text) (reply_to : Option Text)
      (info : Info)
      → IsListed e.allow to.dest
      → IsClean w.home e.state_dir out
      → Grew w.home e.calls (send_to w e to out origin reply_to info).0
  unfolding send_to reserve_and_send audit
  send_to-Grew e to out origin reply_to info l c = elim (Result-cases (check_reply e reply_to to)) [
    | inl (why, bad) ↦ rw (bad, send_to) (inl refl)
    | inr (reply, good) ↦
        let rate = (try_acquire e.rate to.id w.clock).0 in
        rw (good, send_to)
          (after_acquire-Grew (record e { rate = rate }) to reply out origin info _ l
            (check_reply-IsReplyIn e reply_to to reply good) c)
  ]

  -- Reloading the list is no call.
  allow_current-frame :
      (f : ListFile) (e : Engine Json)
      → ((allow_current f e).calls ≡ e.calls) × ((allow_current f e).state_dir ≡ e.state_dir)
  unfolding allow_current
  allow_current-frame f e = (refl, refl)

  send-Grew :
      (e : Engine Json) (to : Text) (out : Outgoing) (origin : Text) (reply_to : Option Text)
      (info : Info)
      → IsClean w.home e.state_dir out
      → Grew w.home e.calls (send w e to out origin reply_to info).0
  unfolding send resolve_to allow_current audit
  send-Grew e to out origin reply_to info c =
      let e' = allow_current w.list e in
      elim (Result-cases (find_target e' to)) [
        | inl (why, bad) ↦ rw (bad, send) (inl refl)
        | inr (t, good) ↦
            rw (good, send)
              (send_to-Grew e' t out (sanitize_origin origin) reply_to info
                (find_target-IsListed e' to t good) c)
      ]

  -- From another state with the same calls.
  from_same :
      (e e' : Engine Json) (d : Engine Json)
      → e'.calls ≡ e.calls
      → Grew w.home e'.calls d
      → Grew w.home e.calls d
  from_same e e' d h g = subst (λ cs. Grew w.home cs d) h g

  mention_for-frame :
      (f : ListFile) (e : Engine Json) (m : Option Text)
      → ((mention_for f e m).0.calls ≡ e.calls) × ((mention_for f e m).0.state_dir ≡ e.state_dir)
  unfolding mention_for resolve_to allow_current
  mention_for-frame f e none = (refl, refl)
  mention_for-frame f e (some m) = elim (Bool-cases (is_empty (trim m))) [
    | inl blank ↦ rw (blank, mention_for) (refl, refl)
    | inr given ↦ rw (given, mention_for) (refl, refl)
  ]

  send_text-Grew :
      (e : Engine Json) (to markdown origin : Text) (reply_to : Option Text) (m : Option Mention)
      → Grew w.home e.calls (send_text w e to markdown origin reply_to m).0
  unfolding send_text text_outgoing
  send_text-Grew e to markdown origin reply_to m =
      elim (Option-cases (mention_conflict m reply_to markdown)) [
        | inr (why, bad) ↦ rw (bad, send_text) (inl refl)
        | inl fine ↦
            rw (fine, send_text)
              (send-Grew e to (text_outgoing (body_of e markdown origin) m) origin reply_to _
                (clean m))
      ]
    where
      clean :
          (m : Option Mention)
          → IsClean w.home e.state_dir (text_outgoing (body_of e markdown origin) m)
      clean none = tt
      clean (some x) = tt

  after_mention-Grew :
      (e : Engine Json) (to markdown origin : Text) (reply_to : Option Text)
      (m : Result Failure (Option Mention))
      → Grew w.home e.calls (after_mention w e to markdown origin reply_to m).0
  unfolding after_mention
  after_mention-Grew e to markdown origin reply_to (err why) = inl refl
  after_mention-Grew e to markdown origin reply_to (ok m) =
      send_text-Grew e to markdown origin reply_to m

  pub send_message-Grew :
      (e : Engine Json) (to markdown origin : Text) (reply_to mention : Option Text)
      → Grew w.home e.calls (send_message w e to markdown origin reply_to mention).0
  unfolding send_message
  send_message-Grew e to markdown origin reply_to mention =
      let e' = (mention_for w.mention_list e mention).0 in
      let m = (mention_for w.mention_list e mention).1 in
      elim (Result-cases (to_or_default e to t_send_message)) [
        | inl (why, bad) ↦ rw (bad, send_message) (inl refl)
        | inr (to', good) ↦
            rw (good, send_message)
              (elim (Bool-cases (is_empty (trim markdown))) [
                | inl blank ↦ rw blank (inl refl)
                | inr given ↦
                    rw given
                      (elim (Bool-cases (ltb e.profile.limits.max_message_bytes (len markdown))) [
                        | inl long ↦ rw long (inl refl)
                        | inr short ↦ rw short (
                            from_same e e' (after_mention w e' to' markdown origin reply_to m).0
                              (mention_for-frame w.mention_list e mention).0
                              (after_mention-Grew e' to' markdown origin reply_to m))
                      ])
              ])
      ]

  send_path-Grew :
      (e : Engine Json) (to : Text) (p : FilePath) (caption : Option Text) (origin : Text)
      (reply_to : Option Text)
      → Grew w.home e.calls (send_path w e to p caption origin reply_to).0
  unfolding send_path audit
  send_path-Grew e to p caption origin reply_to =
      elim (Option-cases (sensitive_path_in p e.state_dir w.home)) [
        | inr (why, secret) ↦ rw (secret, send_path) (inl refl)
        | inl clean ↦
            rw (clean, send_path)
              (elim (Option-cases (file_refusal e (w.metadata p))) [
                | inr (why, bad) ↦ rw bad (inl refl)
                | inl fine ↦ rw fine (send-Grew e to (out_file p _) origin reply_to _ clean)
              ])
      ]

  pub send_file-Grew :
      (e : Engine Json) (to path : Text) (caption : Option Text) (origin : Text)
      (reply_to : Option Text)
      → Grew w.home e.calls (send_file w e to path caption origin reply_to).0
  unfolding send_file
  send_file-Grew e to path caption origin reply_to =
      elim (Result-cases (to_or_default e to t_send_file)) [
        | inl (why, bad) ↦ rw (bad, send_file) (inl refl)
        | inr (to', good) ↦
            rw (good, send_file)
              (elim (Option-cases (w.canonicalize path)) [
                | inl gone ↦ rw gone (inl refl)
                | inr (p, found) ↦ rw found (send_path-Grew e to' p caption origin reply_to)
              ])
      ]

  after_edit_mention-Grew :
      (e : Engine Json) (to original markdown origin : Text) (m : Result Failure (Option Mention))
      → Grew w.home e.calls (after_edit_mention w e to original markdown origin m).0
  unfolding after_edit_mention
  after_edit_mention-Grew e to original markdown origin (err why) = inl refl
  after_edit_mention-Grew e to original markdown origin (ok m) =
      send-Grew e to (out_edit original (body_of e markdown origin) m) origin none
        (edit_info markdown original m) tt

  send_edit-Grew :
      (e : Engine Json) (to original markdown origin : Text) (mention : Option Text)
      → Grew w.home e.calls (send_edit w e to original markdown origin mention).0
  unfolding send_edit
  send_edit-Grew e to original markdown origin mention =
      let e' = (mention_for w.mention_list e mention).0 in
      let m = (mention_for w.mention_list e mention).1 in
      from_same e e' (after_edit_mention w e' to original markdown origin m).0
        (mention_for-frame w.mention_list e mention).0
        (after_edit_mention-Grew e' to original markdown origin m)

  pub edit_message-Grew :
      (e : Engine Json) (to event_id markdown origin : Text) (mention : Option Text)
      → Grew w.home e.calls (edit_message w e to event_id markdown origin mention).0
  unfolding edit_message
  edit_message-Grew e to event_id markdown origin mention =
      elim (Result-cases (to_or_default e to (codes "edit_message"))) [
        | inl (why, bad) ↦ rw (bad, edit_message) (inl refl)
        | inr (to', good) ↦
            rw (good, edit_message)
              (elim (Bool-cases (ltb e.profile.limits.max_message_bytes (len markdown))) [
                | inl long ↦ rw long (inl refl)
                | inr short ↦ rw short (elim (Result-cases (parse_reply_to event_id)) [
                  | inl (why, bad) ↦ rw bad (inl refl)
                  | inr (by_seq n, bad) ↦ rw bad (inl refl)
                  | inr (by_event_id id, fine) ↦
                      rw fine (send_edit-Grew e to' id markdown origin mention)
                ])
              ])
      ]
