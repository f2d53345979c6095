-- ===== src/Engine/Permitted.antt =====
-- Which calls of the transport are permitted, and that resolving names only permits those.
use aqua_matrix_connector.Common.{
  some, none, Option, List, ◌≡◌, ◌⊎◌, arith, true, Bool-cases, ◌++◌, ◌∷◌, Option-cases, inl, [],
  inr, ◌||◌, is_some, sym, ◌==◌, subst, refl,
}
use aqua_matrix_connector.AllowList.Targets.{
  Target, person, room, is_listed_room, by_mxid, resolve_target, resolve, resolve_room,
}
use aqua_matrix_connector.Inbox.{Inbox}
use aqua_matrix_connector.Inbox.Reads.{get, get_by_event_id}
use aqua_matrix_connector.AllowList.Reload.{AllowList}
use aqua_matrix_connector.Engine.Types.{
  Dest, ReplyRef, FilePath, to_person, Engine, TransportCall, Resolved, call_text, to_room,
  call_file, call_mention, call_edit, call_fetch,
}
use aqua_matrix_connector.Engine.Resolve.{
  check_entry, reply_arg, ReplyArg, bare_ref, is_in_conversation, by_seq, reply_ref, by_event_id,
  resolve_reply, find_target, target_of, parse_reply_to,
}
use aqua_matrix_connector.Inbox.Entry.{InboxEntry, has_attachment}
use aqua_matrix_connector.AllowList.{Recipient, RoomEntry}
use aqua_matrix_connector.Common.Elem.{Elem, find-Elem, some_injective}
use aqua_matrix_connector.AllowList.Parse.{ok}
use aqua_matrix_connector.Engine.Paths.{sensitive_path_in}
use aqua_matrix_connector.AllowList.Observers.{ok_injective, Result-cases}
use aqua_matrix_connector.Common.Text.{text_eq, Text, is_empty, trim}
use aqua_matrix_connector.Engine.Send.{check_reply}

-- A person on the list, or a room on it.
abbrev pub IsListed : AllowList → Dest → Type 0
IsListed a (to_person mxid) = (r : Recipient) × Elem r a.recipients × (r.mxid ≡ mxid)
IsListed a (to_room id) = (r : RoomEntry) × Elem r a.rooms × (r.room_id ≡ id)

-- No reply, a reply to an event that is not in the inbox, or a reply to an entry of the conversation.
abbrev pub IsReplyIn : {Json : Type 0} → Inbox Json → Dest → Option ReplyRef → Type 0
IsReplyIn i d none = Unit
IsReplyIn {Json} i d (some r) =
    ((r ≡ bare_ref r.event_id) × (get_by_event_id i r.event_id ≡ none))
    ⊎ ((x : InboxEntry Json) × Elem x i.entries
        × (is_in_conversation x d ≡ true)
        × (r ≡ reply_ref x))

-- The list loaded, and the entry, which has an attachment, is from a listed room or person.
abbrev pub IsFetchable : {Json : Type 0} → AllowList → InboxEntry Json → Type 0
IsFetchable a x =
    (a.load_error ≡ none)
    × (has_attachment x ≡ true)
    × ((is_listed_room a x.room_id || is_some (by_mxid a x.sender)) ≡ true)

abbrev pub IsPermitted :
    {Json : Type 0}
    → Option FilePath
    → FilePath
    → AllowList
    → Inbox Json
    → TransportCall Json
    → Type 0
IsPermitted home dir a i (call_text d md r) = IsListed a d × IsReplyIn i d r
IsPermitted home dir a i (call_file d p caption r) =
    IsListed a d × IsReplyIn i d r × (sensitive_path_in p dir home ≡ none)
IsPermitted home dir a i (call_mention d md m) = IsListed a d
IsPermitted home dir a i (call_edit d id md m) = IsListed a d
IsPermitted {Json} home dir a i (call_fetch q) =
    (x : InboxEntry Json) × Elem x i.entries
    × (q.event_id ≡ x.event_id)
    × (q.room_id ≡ x.room_id)
    × IsFetchable a x

-- At most one call more, a permitted one.
abbrev pub Grew :
    {Json : Type 0} → Option FilePath → List (TransportCall Json) → Engine Json → Type 0
Grew {Json} home calls e =
    (e.calls ≡ calls)
    ⊎ ((c : TransportCall Json) × (e.calls ≡ calls ++ c ∷ [])
        × IsPermitted home e.state_dir e.allow e.inbox c)

resolve_target-IsListed :
    (a : AllowList) (to : Text) (t : Target)
    → resolve_target a to ≡ some t
    → IsListed a (target_of t).dest
unfolding resolve_target target_of resolve resolve_room
resolve_target-IsListed a to t h = elim (Option-cases (resolve a to)) [
  | inr (r, found) ↦
      subst (λ (x : Target). IsListed a (target_of x).dest)
        (some_injective (person r) t (rw (found, resolve_target) at h))
        (r, find-Elem _ a.recipients r found, refl)
  | inl nobody ↦ elim (Option-cases (resolve_room a to)) [
    | inl none_such ↦ ground (arith, nobody, none_such, h)
    | inr (r, found) ↦
        subst (λ (x : Target). IsListed a (target_of x).dest)
          (some_injective (room r) t (rw (nobody, found, resolve_target) at h))
          (r, find-Elem _ a.rooms r found, refl)
  ]
]

module _ {Json : Type 0} where
  check_entry-IsReplyIn :
      (i : Inbox Json) (x : InboxEntry Json) (to : Resolved) (r : ReplyRef)
      → Elem x i.entries
      → check_entry x to ≡ ok r
      → IsReplyIn i to.dest (some r)
  unfolding check_entry
  check_entry-IsReplyIn i x to r m h = elim (Bool-cases (is_in_conversation x to.dest)) [
    | inl fits ↦ inr (x, m, fits, sym (ok_injective (reply_ref x) r (rw fits at h)))
    | inr other ↦ ground (arith, other, h)
  ]

  reply_arg-IsReplyIn :
      (i : Inbox Json) (arg : ReplyArg) (to : Resolved) (r : ReplyRef)
      → reply_arg i arg to ≡ ok r
      → IsReplyIn i to.dest (some r)
  unfolding reply_arg get get_by_event_id
  reply_arg-IsReplyIn i (by_seq n) to r h = elim (Option-cases (get i n)) [
    | inl gone ↦ ground (arith, gone, h)
    | inr (x, e) ↦
        check_entry-IsReplyIn i x to r (find-Elem (λ y. y.seq == n) i.entries x e)
          (rw (e, reply_arg) at h)
  ]
  reply_arg-IsReplyIn i (by_event_id id) to r h = elim (Option-cases (get_by_event_id i id)) [
    | inl gone ↦
        let e : bare_ref id ≡ r = ok_injective (bare_ref id) r (rw (gone, reply_arg) at h) in
        inl (
          subst
            (λ (x : ReplyRef). (x ≡ bare_ref x.event_id) × (get_by_event_id i x.event_id ≡ none)) e
            (refl, gone))
    | inr (x, e) ↦
        check_entry-IsReplyIn i x to r (find-Elem (λ y. text_eq y.event_id id) i.entries x e)
          (rw (e, reply_arg) at h)
  ]

  resolve_reply-IsReplyIn :
      (e : Engine Json) (text : Text) (to : Resolved) (r : ReplyRef)
      → resolve_reply e text to ≡ ok r
      → IsReplyIn e.inbox to.dest (some r)
  unfolding resolve_reply
  resolve_reply-IsReplyIn e text to r h = elim (Result-cases (parse_reply_to text)) [
    | inl (why, bad) ↦ ground (arith, bad, h)
    | inr (arg, good) ↦ reply_arg-IsReplyIn e.inbox arg to r (rw (good, resolve_reply) at h)
  ]

  pub check_reply-IsReplyIn :
      (e : Engine Json) (text : Option Text) (to : Resolved) (r : Option ReplyRef)
      → check_reply e text to ≡ ok r
      → IsReplyIn e.inbox to.dest r
  unfolding check_reply
  check_reply-IsReplyIn e none to r h = subst (IsReplyIn e.inbox to.dest) (ok_injective none r h) tt
  check_reply-IsReplyIn e (some text) to r h = elim (Bool-cases (is_empty (trim text))) [
    | inl blank ↦
        subst (IsReplyIn e.inbox to.dest) (ok_injective none r (rw (blank, check_reply) at h)) tt
    | inr given ↦ elim (Result-cases (resolve_reply e (trim text) to)) [
      | inl (why, bad) ↦ ground (arith, given, bad, h)
      | inr (ref, good) ↦
          subst (IsReplyIn e.inbox to.dest)
            (ok_injective (some ref) r (rw (given, good, check_reply) at h))
            (resolve_reply-IsReplyIn e (trim text) to ref good)
    ]
  ]

  pub find_target-IsListed :
      (e : Engine Json) (to : Text) (t : Resolved)
      → find_target e to ≡ ok t
      → IsListed e.allow t.dest
  unfolding find_target
  find_target-IsListed e to t h = elim (Option-cases (resolve_target e.allow to)) [
    | inl gone ↦ ground (arith, gone, h)
    | inr (x, found) ↦
        subst (λ (y : Resolved). IsListed e.allow y.dest)
          (ok_injective (target_of x) t (rw (found, find_target) at h))
          (resolve_target-IsListed e.allow to x found)
  ]
