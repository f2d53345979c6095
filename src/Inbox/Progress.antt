-- ===== src/Inbox/Progress.antt =====
-- Handling states only go forward: `new`, `seen`, `processed`.
use mathlib.Core.Path.{ap₂}
use aqua_matrix_connector.Inbox.Entry.{Mark, Actor, InboxEntry}
use aqua_matrix_connector.Inbox.{Inbox, Fault}
use aqua_matrix_connector.Inbox.Marks.{
  Processed, sorted_dedup, update_first, process, process_one, process_all, mark_processed, dedup,
  skip_equal,
}
use aqua_matrix_connector.Inbox.Evict.{seqs}
use aqua_matrix_connector.Inbox.Ingest.{persist_if-entries}
use aqua_matrix_connector.Common.{
  List, ℕ, leb, if◌then◌else◌, ◌≡◌, ◌∷◌, arith, [], ◌&&◌, ◌==◌, is_none, Bool-cases, ◌||◌, refl,
  ◌∙◌, inl, ap, inr, false, map, find, Option-cases, sym, true, none, some, ==_iff, subst,
}
use aqua_matrix_connector.Common.Sort.{sort, insert_sorted, mem, Distinct}
use aqua_matrix_connector.Common.Text.{Text}

-- The specification of `mark_processed` on one entry.
unfoldable pub processed_if :
    {Json : Type 0} → List ℕ → Actor → ℕ → Text → InboxEntry Json → InboxEntry Json
processed_if ns who now note e =
    if mem e.seq ns && is_none e.processed_by then process who now note e else e

mem-insert_leb : (n m : ℕ) (ns : List ℕ) → mem n (insert_sorted leb m ns) ≡ (m == n || mem n ns)
unfolding insert_sorted
mem-insert_leb n m [] = refl
mem-insert_leb n m (x ∷ ns) = ground (arith, mem-insert_leb n m ns)

mem-sort-leb : (n : ℕ) (ns : List ℕ) → mem n (sort leb ns) ≡ mem n ns
unfolding sort
mem-sort-leb n [] = refl
mem-sort-leb n (m ∷ ns) = ground (arith, mem-insert_leb n m (sort leb ns), mem-sort-leb n ns)

mem-dedup : (n : ℕ) (ns : List ℕ) → mem n (dedup ns) ≡ mem n ns
unfolding dedup
mem-dedup n [] = refl
mem-dedup n (m ∷ ns) = mem-skip m (dedup ns) ∙ ap (◌||◌ (m == n)) (mem-dedup n ns)
  where
    mem-skip : (m : ℕ) (ms : List ℕ) → mem n (skip_equal m ms) ≡ (m == n || mem n ms)
    mem-skip m [] = refl
    mem-skip m (k ∷ ms) = ground arith

pub mem-sorted_dedup : (n : ℕ) (ns : List ℕ) → mem n (sorted_dedup ns) ≡ mem n ns
unfolding sorted_dedup
mem-sorted_dedup n ns = mem-dedup n (sort leb ns) ∙ mem-sort-leb n ns

module _ {Json : Type 0} (who : Actor) (now : ℕ) (note : Text) where
  process_fields :
      (e : InboxEntry Json)
      → ((process who now note e).seq ≡ e.seq)
        × (is_none (process who now note e).processed_by ≡ false)
  unfolding process
  process_fields e = (refl, refl)

  seq-processed_if :
      (ns : List ℕ) (e : InboxEntry Json) → (processed_if ns who now note e).seq ≡ e.seq
  unfolding processed_if
  seq-processed_if ns e = ground (arith, process_fields e)

  processed_if_cons :
      (n : ℕ) (ns : List ℕ) (e : InboxEntry Json)
      → processed_if ns who now note (processed_if (n ∷ []) who now note e)
        ≡ processed_if (n ∷ ns) who now note e
  unfolding processed_if
  processed_if_cons n ns e = elim (Bool-cases (n == e.seq)) [
    | inl hit ↦ elim (Bool-cases (is_none e.processed_by)) [
      | inl open_ ↦ ground (arith, hit, open_, process_fields e)
      | inr final ↦ ground (arith, hit, final)
    ]
    | inr miss ↦ ground (arith, miss)
  ]

  abbrev only : ℕ → InboxEntry Json → InboxEntry Json
  only n = processed_if (n ∷ []) who now note

  untouched : (n : ℕ) (es : List (InboxEntry Json)) → mem n (seqs es) ≡ false → map (only n) es ≡ es
  unfolding processed_if
  untouched n [] h = refl
  untouched n (e ∷ es) h = ground (arith, h, untouched n es)

  find-none :
      (n : ℕ) (es : List (InboxEntry Json))
      → find (λ e. e.seq == n) es ≡ none
      → mem n (seqs es) ≡ false
  find-none n [] h = refl
  find-none n (e ∷ es) h = ground (arith, h, find-none n es)

  one_final :
      (n : ℕ) (es : List (InboxEntry Json)) (x : InboxEntry Json) (m : Mark)
      → Distinct (seqs es)
      → find (λ e. e.seq == n) es ≡ some x
      → x.processed_by ≡ some m
      → map (only n) es ≡ es
  unfolding processed_if
  one_final n [] x m u h k = refl
  one_final n (e ∷ es) x m u h k = elim (Bool-cases (e.seq == n)) [
    | inl hit ↦
        let same : e.seq ≡ n = (==_iff e.seq n).0 hit in
        let this : e ≡ x = ground (arith, h, hit) in
        let final : e.processed_by ≡ some m =
          ap (λ (y : InboxEntry Json). y.processed_by) this ∙ k in
        ground (arith, hit, final, untouched n es (subst (λ j. mem j (seqs es) ≡ false) same u.0))
    | inr miss ↦ ground (arith, miss, h, one_final n es x m u.1)
  ]

  one_open :
      (n : ℕ) (es : List (InboxEntry Json)) (x : InboxEntry Json)
      → Distinct (seqs es)
      → find (λ e. e.seq == n) es ≡ some x
      → x.processed_by ≡ none
      → map (only n) es ≡ update_first n (process who now note) es
  unfolding processed_if update_first
  one_open n [] x u h k = refl
  one_open n (e ∷ es) x u h k = elim (Bool-cases (e.seq == n)) [
    | inl hit ↦
        let same : e.seq ≡ n = (==_iff e.seq n).0 hit in
        let this : e ≡ x = ground (arith, h, hit) in
        let open_ : e.processed_by ≡ none = ap (λ (y : InboxEntry Json). y.processed_by) this ∙ k in
        ground (arith, hit, open_, untouched n es (subst (λ j. mem j (seqs es) ≡ false) same u.0))
    | inr miss ↦ ground (arith, miss, h, one_open n es x u.1)
  ]

  process_one-entries :
      (n : ℕ) (es : List (InboxEntry Json)) (out : Processed)
      → Distinct (seqs es)
      → (process_one who now note n (es, out)).0 ≡ map (only n) es
  unfolding process_one
  process_one-entries n es out u = elim (Option-cases (find (λ e. e.seq == n) es)) [
    | inl e ↦ rw (e, process_one) (sym (untouched n es (find-none n es e)))
    | inr (x, e) ↦ elim (Option-cases x.processed_by) [
      | inl k ↦ rw (e, process_one) (rw (k, process_one) (sym (one_open n es x u e k)))
      | inr (m, k) ↦ rw (e, process_one) (rw (k, process_one) (sym (one_final n es x m u e k)))
    ]
  ]

  seqs-map :
      (ns : List ℕ) (es : List (InboxEntry Json))
      → seqs (map (processed_if ns who now note) es) ≡ seqs es
  seqs-map ns [] = refl
  seqs-map ns (e ∷ es) = ap₂ ◌∷◌ (seq-processed_if ns e) (seqs-map ns es)

  processed_if_nil : (es : List (InboxEntry Json)) → map (processed_if [] who now note) es ≡ es
  unfolding processed_if
  processed_if_nil [] = refl
  processed_if_nil (e ∷ es) = ap (◌∷◌ e) (processed_if_nil es)

  map-processed_if_cons :
      (n : ℕ) (ns : List ℕ) (es : List (InboxEntry Json))
      → map (processed_if ns who now note) (map (only n) es)
        ≡ map (processed_if (n ∷ ns) who now note) es
  map-processed_if_cons n ns [] = refl
  map-processed_if_cons n ns (e ∷ es) =
      ap₂ ◌∷◌ (processed_if_cons n ns e) (map-processed_if_cons n ns es)

  pub process_all-entries :
      (ns : List ℕ) (es : List (InboxEntry Json)) (out : Processed)
      → Distinct (seqs es)
      → (process_all who now note ns (es, out)).0 ≡ map (processed_if ns who now note) es
  unfolding process_all
  process_all-entries [] es out u = sym (processed_if_nil es)
  process_all-entries (n ∷ ns) es out u =
      let s = process_one who now note n (es, out) in
      let one = process_one-entries n es out u in
      process_all-entries ns s.0 s.1 (rw one (rw seqs-map u))
      ∙ ap (map (processed_if ns who now note)) one
      ∙ map-processed_if_cons n ns es

  processed_if_sorted :
      (ns : List ℕ) (es : List (InboxEntry Json))
      → map (processed_if (sorted_dedup ns) who now note) es ≡ map (processed_if ns who now note) es
  unfolding processed_if
  processed_if_sorted ns [] = refl
  processed_if_sorted ns (e ∷ es) =
      ground (arith, mem-sorted_dedup e.seq ns, processed_if_sorted ns es)

-- On an instance that tracks processing, with distinct sequence numbers: `mark_processed` marks the
-- listed entries that had no mark, and changes no other entry; an earlier mark stays.
pub entries-mark_processed :
    {Json : Type 0} (fault : Fault) (i : Inbox Json) (ns : List ℕ) (who : Actor) (note : Text)
    (now : ℕ)
    → i.policy.track_processed ≡ true
    → Distinct (seqs i.entries)
    → (mark_processed fault i ns who note now).0.entries
      ≡ map (processed_if ns who now note) i.entries
unfolding mark_processed
entries-mark_processed fault i ns who note now tracks u = rw tracks (
    persist_if-entries _ fault _
    ∙ process_all-entries who now note (sorted_dedup ns) i.entries _ u
    ∙ processed_if_sorted who now note ns i.entries)
