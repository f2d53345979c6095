-- ===== src/Engine/Waits.antt =====
-- A message that a session waits for reaches it.
use aqua_matrix_connector.Inbox.Valid.{IsValid, enforce_at-IsValid}
use aqua_matrix_connector.Inbox.Arrive.{policy-enforce_at, Elem-enforce-ingest}
use aqua_matrix_connector.Common.{
  ℕ, none, ◌≡◌, List, not, ◌∷◌, ◌&&◌, true, [], false, refl, filter, subst, sym,
}
use aqua_matrix_connector.Inbox.{enforce_at, ingest_at, refuses, Query, Inbox}
use aqua_matrix_connector.Engine.Inbound.{ingest}
use aqua_matrix_connector.Inbox.Reads.{query, newest, fits, seq_le}
use aqua_matrix_connector.Engine.Types.{
  World, Arrival, Response, Engine, WaitAnswer, Outcome, replied,
}
use aqua_matrix_connector.Inbox.Entry.{Actor, InboxEntry, entry_of, is_media_kind, public}
use aqua_matrix_connector.Engine.Wait.{if_found, wait_loop, mark_found, look, wait_answer}
use aqua_matrix_connector.Common.Elem.{Elem, Elem-map, Elem-sort, Elem-filter}
use aqua_matrix_connector.AllowList.Parse.{ok}

module _ {Json : Type 0} where
  -- Without a limit, what fits is found.
  Elem-query :
      (i : Inbox Json) (q : Query) (x : InboxEntry Json)
      → q.limit ≡ none
      → Elem x i.entries
      → fits q x ≡ true
      → Elem x (query i q)
  unfolding query newest
  Elem-query i q x no_limit m h =
      rw no_limit
        (Elem-sort seq_le (filter (fits q) i.entries) x (Elem-filter (fits q) i.entries x m h))

  module _ (null : Json) (w : World Json) (q : Query) (who : Actor) (secs : ℕ) where
    -- An answer that hands this entry out.
    abbrev Answers : InboxEntry Json → Response Json → Type 0
    Answers x r =
        (answer : WaitAnswer Json) × (r ≡ ok (replied answer)) × Elem (public null x) answer.entries

    if_found-Answers :
        (e : Engine Json) (found : List (InboxEntry Json)) (otherwise : Outcome Json)
        (x : InboxEntry Json)
        → Elem x found
        → Answers x (if_found null w e found who secs otherwise).1
    unfolding if_found mark_found wait_answer
    if_found-Answers e [] otherwise x m = absurd m
    if_found-Answers e (y ∷ ys) otherwise x m = (_, refl, Elem-map (public null) (y ∷ ys) x m)

    -- A look that finds the entry ends the wait.
    wait_loop-Answers :
        (now : ℕ) (e : Engine Json) (later : List (Arrival Json)) (x : InboxEntry Json)
        → Elem x (look w.enforce_fault now e q).1
        → Answers x (wait_loop null w now e q who secs later).1
    unfolding wait_loop
    wait_loop-Answers now e [] x m = if_found-Answers _ _ _ x m
    wait_loop-Answers now e (a ∷ later) x m = if_found-Answers _ _ _ x m

    ingest_inbox :
        (a : Arrival Json) (e : Engine Json)
        → (not e.profile.inbox.accept_media && is_media_kind a.entry.kind) ≡ false
        → (ingest a.fault a.now e a.entry).0.inbox ≡ (ingest_at a.fault e.inbox a.entry a.now).0
    unfolding ingest
    ingest_inbox a e welcome = rw (welcome, ingest) refl

    -- A session that waits, having found nothing, is answered with the first message that then arrives
    -- and fits its query, media source cleared, in place of timing out: on a valid inbox without a hard cap, for a
    -- message that the profile and the inbox let in, and a query without a limit, as
    -- `wait_for_reply` asks it, whatever the writes meet and whatever arrives later.
    pub wait_loop-answers :
        (now : ℕ) (e : Engine Json) (a : Arrival Json) (later : List (Arrival Json))
        → let (e', found) = look w.enforce_fault now e q in
          let x = entry_of a.entry e'.inbox.next_seq in
          IsValid e.inbox
          → e.inbox.policy.hard_cap ≡ false
          → q.limit ≡ none
          → found ≡ []
          → (not e.profile.inbox.accept_media && is_media_kind a.entry.kind) ≡ false
          → refuses e'.inbox a.entry a.now ≡ false
          → fits q x ≡ true
          → (answer : WaitAnswer Json) × ((wait_loop null w now e q who secs (a ∷ later)).1
              ≡ ok (replied answer))
            × Elem (public null x) answer.entries
    unfolding wait_loop look if_found
    wait_loop-answers now e a later v soft no_limit nothing welcome fresh wanted =
        let e' = (look w.enforce_fault now e q).0 in
        let e'' = (ingest a.fault a.now e' a.entry).0 in
        let x = entry_of a.entry e'.inbox.next_seq in
        let v' = enforce_at-IsValid w.enforce_fault e.inbox now v in
        let soft' : e'.inbox.policy.hard_cap ≡ false =
          rw (policy-enforce_at w.enforce_fault e.inbox now) soft in
        let held =
          subst (λ (i : Inbox Json). Elem x (enforce_at w.enforce_fault i a.now).0.entries)
            (sym (ingest_inbox a e' welcome))
            (Elem-enforce-ingest e'.inbox a.entry a.now v' soft' fresh a.fault w.enforce_fault) in
        rw nothing (
          wait_loop-Answers a.now e'' later x
            (Elem-query (enforce_at w.enforce_fault e''.inbox a.now).0 q x no_limit held wanted))
