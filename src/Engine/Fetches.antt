-- ===== src/Engine/Fetches.antt =====
-- A fetch downloads at most once, and only from listed people and rooms.
use aqua_matrix_connector.Common.{
  ℕ, none, Option, Bool-cases, List, ◌≡◌, inr, Option-cases, inl, ◌||◌, ◌==◌, is_some, ◌++◌, refl,
  true, ◌∷◌, arith, [],
}
use aqua_matrix_connector.Attachments.Store.{Fetched, Bytes, find_cached, StoreError}
use aqua_matrix_connector.Inbox.Reads.{get}
use aqua_matrix_connector.Engine.Fetch.{
  fetch_attachment, fetch_refusal, stored_answer, take_download, download_entry, serve, fetch_entry,
  fetch_permitted, fetch_request, declared_excess, raw_name,
}
use aqua_matrix_connector.Engine.Permitted.{IsFetchable, Grew}
use aqua_matrix_connector.Engine.Types.{World, Engine, TransportCall, Download, call_fetch}
use aqua_matrix_connector.Common.Text.{Text}
use aqua_matrix_connector.Inbox.Entry.{InboxEntry, has_attachment}
use aqua_matrix_connector.Engine.Resolve.{audit, allow_current}
use aqua_matrix_connector.Engine.Inbound.{prune_attachments}
use aqua_matrix_connector.Common.Elem.{Elem, find-Elem}
use aqua_matrix_connector.AllowList.Targets.{is_listed_room, by_mxid}
use aqua_matrix_connector.AllowList.Parse.{Result, ok, err}

module _ {Json : Type 0} (w : World Json) (sha256_hex : Bytes → Text)
    (encode : Fetched → Option Bytes) (decode : Bytes → Option Fetched) where
  fetch_refusal-none :
      (e : Engine Json) (x : InboxEntry Json)
      → fetch_refusal e x ≡ none
      → (e.allow.load_error ≡ none)
        × ((is_listed_room e.allow x.room_id || is_some (by_mxid e.allow x.sender)) ≡ true)
  unfolding fetch_refusal
  fetch_refusal-none e x h = elim (Option-cases e.allow.load_error) [
    | inr (why, broken) ↦ ground (arith, broken, h)
    | inl loaded ↦ (
      loaded,
      elim (Bool-cases (is_listed_room e.allow x.room_id || is_some (by_mxid e.allow x.sender))) [
        | inl listed ↦ listed
        | inr other ↦ ground (arith, loaded, other, h)
      ],
    )
  ]

  stored_answer-Grew :
      (calls : List (TransportCall Json)) (e : Engine Json) (n : ℕ) (r : Result StoreError Fetched)
      → Grew w.home calls e
      → Grew w.home calls (stored_answer e n r).0
  unfolding stored_answer audit
  stored_answer-Grew calls e n (ok f) g = g
  stored_answer-Grew calls e n (err why) g = g

  take_download-Grew :
      (calls : List (TransportCall Json)) (e : Engine Json) (x : InboxEntry Json) (n : ℕ)
      (r : Result Text Download)
      → Grew w.home calls e
      → Grew w.home calls (take_download sha256_hex encode w e x n r).0
  unfolding take_download audit prune_attachments
  take_download-Grew calls e x n (err why) g = g
  take_download-Grew calls e x n (ok d) g = stored_answer-Grew calls _ n _ g

  download_entry-Grew :
      (e : Engine Json) (x : InboxEntry Json) (n : ℕ)
      → Elem x e.inbox.entries
      → IsFetchable e.allow x
      → Grew w.home e.calls (download_entry sha256_hex encode w e x n).0
  unfolding download_entry audit fetch_request
  download_entry-Grew e x n m f = elim (Option-cases (declared_excess e x)) [
    | inr (size, large) ↦ rw (large, download_entry) (inl refl)
    | inl fits ↦
        let request = fetch_request e x in
        rw (fits, download_entry)
          (take_download-Grew e.calls (record e { calls = e.calls ++ call_fetch request ∷ [] }) x n
            (w.download request) (inr (call_fetch request, refl, (x, m, refl, refl, f))))
  ]

  serve-Grew :
      (e : Engine Json) (x : InboxEntry Json) (n : ℕ)
      → Elem x e.inbox.entries
      → IsFetchable e.allow x
      → Grew w.home e.calls (serve sha256_hex encode decode w e x n).0
  unfolding serve
  serve-Grew e x n m f =
      elim (Option-cases
        (find_cached sha256_hex decode e.store_dir e.files n x.event_id (raw_name x))) [
          | inr (cached, hit) ↦ rw (hit, serve) (inl refl)
          | inl miss ↦ rw (miss, serve) (download_entry-Grew e x n m f)
        ]

  fetch_entry-Grew :
      (e : Engine Json) (x : InboxEntry Json) (n : ℕ)
      → Elem x e.inbox.entries
      → Grew w.home e.calls (fetch_entry sha256_hex encode decode w e x n).0
  unfolding fetch_entry fetch_permitted allow_current audit
  fetch_entry-Grew e x n m = elim (Bool-cases (has_attachment x)) [
    | inr other ↦ rw (other, fetch_entry) (inl refl)
    | inl media ↦
        let e' = allow_current w.list e in
        rw (media, fetch_entry)
          (elim (Option-cases (fetch_refusal e' x)) [
            | inr (why, refused) ↦ rw refused (inl refl)
            | inl fine ↦
                let (loaded, listed) = fetch_refusal-none e' x fine in
                rw fine (serve-Grew e' x n m (loaded, media, listed))
          ])
  ]

  pub fetch_attachment-Grew :
      (e : Engine Json) (n : ℕ)
      → Grew w.home e.calls (fetch_attachment sha256_hex encode decode w e n).0
  unfolding fetch_attachment get
  fetch_attachment-Grew e n = elim (Bool-cases e.profile.inbox.accept_media) [
    | inr refused ↦ rw (refused, fetch_attachment) (inl refl)
    | inl accepted ↦
        rw (accepted, fetch_attachment)
          (elim (Option-cases (get e.inbox n)) [
            | inl gone ↦ rw gone (inl refl)
            | inr (x, found) ↦
                rw found
                  (fetch_entry-Grew e x n (find-Elem (λ y. y.seq == n) e.inbox.entries x found))
          ])
  ]
