-- ===== src/Engine/Shown.antt =====
-- What sessions are shown of inbox entries.
use aqua_matrix_connector.AllowList.Parse.{ok}
use aqua_matrix_connector.AllowList.Observers.{Result-cases}
use aqua_matrix_connector.Engine.Types.{
  entries_read, replied, World, Engine, Outcome, Arrival, timed_out,
}
use aqua_matrix_connector.Common.{
  ℕ, some, none, List, Option, All, ◌≡◌, map, ◌∷◌, [], refl, Bool, inl, inr,
}
use aqua_matrix_connector.Inbox.{Query}
use aqua_matrix_connector.Inbox.Entry.{public, InboxEntry, MediaRef, Actor}
use aqua_matrix_connector.Engine.Inbound.{ingest}
use aqua_matrix_connector.Engine.Wait.{
  wait_for_reply, if_found, wait_loop, mark_found, wait_answer, look, wait_query, clamp,
}
use aqua_matrix_connector.Engine.Reads.{read_inbox, read_entries, read_answer}
use aqua_matrix_connector.Engine.Types.{Response}
use aqua_matrix_connector.Engine.Resolve.{
  resolve_from, resolve_optional_from, allow_current, find_from,
}
use aqua_matrix_connector.Common.Text.{Text}

-- The media source, and so the key of an encrypted file, is replaced by `null`.
abbrev pub IsSourceless : {Json : Type 0} → Json → Option (MediaRef Json) → Type 0
IsSourceless null none = Unit
IsSourceless null (some m) = m.source ≡ null

-- Of the entries in an answer.
abbrev pub ShowsNoSource : {Json : Type 0} → Json → Response Json → Type 0
ShowsNoSource null (ok (entries_read a)) = All (λ x. IsSourceless null x.media) a.entries
ShowsNoSource null (ok (replied a)) = All (λ x. IsSourceless null x.media) a.entries
ShowsNoSource null r = Unit

module _ {Json : Type 0} (null : Json) where
  cleared :
      (m : Option (MediaRef Json))
      → IsSourceless null (elim m as (λ x. Option (MediaRef Json)) [
        | none ↦ none
        | some r ↦ some (record r { source = null })
      ])
  cleared none = tt
  cleared (some r) = refl

  all_public :
      (xs : List (InboxEntry Json)) → All (λ x. IsSourceless null x.media) (map (public null) xs)
  unfolding public
  all_public [] = tt
  all_public (x ∷ xs) = (cleared x.media, all_public xs)

  read_inbox-ShowsNoSource :
      (w : World Json) (e : Engine Json) (from : Option Text) (since_seq since_ts_ms : Option ℕ)
      (unread_only mark_read : Bool) (limit : Option ℕ) (who : Actor)
      → ShowsNoSource null
          (read_inbox null w e from since_seq since_ts_ms unread_only mark_read limit who).1
  unfolding read_inbox read_entries read_answer
  read_inbox-ShowsNoSource w e from since_seq since_ts_ms unread_only mark_read limit who =
      elim (Result-cases (resolve_optional_from w.list e from).1) [
        | inl (why, bad) ↦ rw (bad, read_inbox) tt
        | inr (filter, good) ↦ rw (good, read_inbox) (all_public _)
      ]

  if_found-ShowsNoSource :
      (w : World Json) (e : Engine Json) (found : List (InboxEntry Json)) (who : Actor) (secs : ℕ)
      (otherwise : Outcome Json)
      → ShowsNoSource null otherwise.1
      → ShowsNoSource null (if_found null w e found who secs otherwise).1
  unfolding if_found mark_found wait_answer
  if_found-ShowsNoSource w e [] who secs otherwise h = h
  if_found-ShowsNoSource w e (x ∷ xs) who secs otherwise h = all_public (x ∷ xs)

  wait_loop-ShowsNoSource :
      (w : World Json) (now : ℕ) (e : Engine Json) (q : Query) (who : Actor) (secs : ℕ)
      (later : List (Arrival Json))
      → ShowsNoSource null (wait_loop null w now e q who secs later).1
  unfolding wait_loop
  wait_loop-ShowsNoSource w now e q who secs [] =
      let (e', found) = look w.enforce_fault now e q in
      if_found-ShowsNoSource w e' found who secs (e', ok (timed_out secs)) tt
  wait_loop-ShowsNoSource w now e q who secs (a ∷ later) =
      let (e', found) = look w.enforce_fault now e q in
      let e'' = (ingest a.fault a.now e' a.entry).0 in
      if_found-ShowsNoSource w e' found who secs (wait_loop null w a.now e'' q who secs later)
        (wait_loop-ShowsNoSource w a.now e'' q who secs later)

  wait_for_reply-ShowsNoSource :
      (w : World Json) (e : Engine Json) (from : Text) (timeout_s : ℕ) (after_seq : Option ℕ)
      (who : Actor)
      → ShowsNoSource null (wait_for_reply null w e from timeout_s after_seq who).1
  unfolding wait_for_reply resolve_from
  wait_for_reply-ShowsNoSource w e from timeout_s after_seq who =
      let e' = allow_current w.list e in
      elim (Result-cases (find_from e' from)) [
        | inl (why, bad) ↦ rw (bad, wait_for_reply) tt
        | inr (filter, good) ↦
            rw (good, wait_for_reply)
              (wait_loop-ShowsNoSource w w.enforce_ms e' (wait_query after_seq filter) who
                (clamp timeout_s 1 e'.profile.limits.max_wait_secs) w.arrivals)
      ]

  -- The two requests that hand out inbox entries, `read_inbox` and `wait_for_reply`, never hand out a media
  -- source: in every entry of every answer it is `null`.
  pub entries_without_source :
      (w : World Json) (e : Engine Json) (from : Option Text) (since_seq since_ts_ms : Option ℕ)
      (unread_only mark_read : Bool) (limit : Option ℕ) (waits_for : Text) (timeout_s : ℕ)
      (after_seq : Option ℕ) (who : Actor)
      → ShowsNoSource null
          (read_inbox null w e from since_seq since_ts_ms unread_only mark_read limit who).1
        × ShowsNoSource null (wait_for_reply null w e waits_for timeout_s after_seq who).1
  entries_without_source w e from since_seq since_ts_ms unread_only mark_read limit waits_for
        timeout_s after_seq who =
      (
        read_inbox-ShowsNoSource w e from since_seq since_ts_ms unread_only mark_read limit who,
        wait_for_reply-ShowsNoSource w e waits_for timeout_s after_seq who,
      )
