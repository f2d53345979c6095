-- ===== src/Inbox/Marks.antt =====
-- crates/aqua-messenger/src/inbox.rs: `mark_seen` and `mark_processed`. The host clock, in
-- milliseconds, is an argument.
use aqua_matrix_connector.Inbox.Entry.{Mark, Actor, mark, InboxEntry, is_new}
use aqua_matrix_connector.Inbox.{Inbox, Fault, persist}
use aqua_matrix_connector.Common.{
  List, ℕ, map, ◌∷◌, if◌then◌else◌, any, true, find, [], ◌==◌, some, ltb, ◌&&◌, none, length, ◌++◌,
  leb,
}
use aqua_matrix_connector.Common.Text.{Text}
use aqua_matrix_connector.Common.Sort.{mem, sort}

-- `Inbox::mark_processed`: what it answers, and its refusal `NotTracked`.
pub record Processed : Type 0 where
  pub marked : List ℕ
  pub already : List (ℕ × Mark)
  pub missing : List ℕ

pub data Answer : Type 0 where
  done : Processed → Answer
  not_tracked : Answer

unfoldable pub skip_equal : ℕ → List ℕ → List ℕ
skip_equal n [] = n ∷ []
skip_equal n (m ∷ ms) = if n == m then m ∷ ms else n ∷ m ∷ ms

-- `Vec::dedup`: runs of equal elements become one.
unfoldable pub dedup : List ℕ → List ℕ
unfolding skip_equal
dedup [] = []
dedup (n ∷ ns) = skip_equal n (dedup ns)

-- `sort_unstable` and `dedup` on sequence numbers.
unfoldable pub sorted_dedup : List ℕ → List ℕ
unfolding dedup
sorted_dedup ns = dedup (sort leb ns)

module _ {Json : Type 0} where
  unfoldable pub see : List ℕ → Actor → ℕ → InboxEntry Json → InboxEntry Json
  see seqs who now e =
      if mem e.seq seqs && is_new e
      then record e { read = true; seen_by = some (mark who now none) }
      else e

  unfoldable pub mark_seen : Fault → Inbox Json → List ℕ → Actor → ℕ → Inbox Json
  mark_seen fault i seqs who now =
      let i' = record i { entries = map (see seqs who now) i.entries } in
      if any (λ e. mem e.seq seqs && is_new e) i.entries then persist fault i' else i'

  -- The first entry with this number, changed in place.
  unfoldable pub update_first :
      ℕ → (InboxEntry Json → InboxEntry Json) → List (InboxEntry Json) → List (InboxEntry Json)
  update_first seq f [] = []
  update_first seq f (e ∷ es) = if e.seq == seq then f e ∷ es else e ∷ update_first seq f es

  unfoldable pub process : Actor → ℕ → Text → InboxEntry Json → InboxEntry Json
  process who now note e = record e { read = true; processed_by = some (mark who now (some note)) }

  -- One round of the loop over the wanted numbers.
  unfoldable pub process_one :
      Actor → ℕ → Text → ℕ → List (InboxEntry Json) × Processed → List (InboxEntry Json) × Processed
  process_one who now note seq (es, out) = elim (find (λ e. e.seq == seq) es) [
    | none ↦ (es, record out { missing = out.missing ++ seq ∷ [] })
    | some e ↦ elim e.processed_by [
      | some m ↦ (es, record out { already = out.already ++ (seq, m) ∷ [] })
      | none ↦ (
        update_first seq (process who now note) es,
        record out { marked = out.marked ++ seq ∷ [] },
      )
    ]
  ]

  unfoldable pub process_all :
      Actor
      → ℕ
      → Text
      → List ℕ
      → List (InboxEntry Json) × Processed
      → List (InboxEntry Json) × Processed
  process_all who now note [] s = s
  process_all who now note (seq ∷ seqs) s =
      process_all who now note seqs (process_one who now note seq s)

  unfoldable pub mark_processed :
      Fault → Inbox Json → List ℕ → Actor → Text → ℕ → Inbox Json × Answer
  mark_processed fault i seqs who note now =
      if i.policy.track_processed
      then (let (es, out) =
            process_all who now note (sorted_dedup seqs)
              (i.entries, record { marked = []; already = []; missing = [] }) in
          let i' = record i { entries = es } in
          (if ltb 0 (length out.marked) then persist fault i' else i', done out))
      else (i, not_tracked)
