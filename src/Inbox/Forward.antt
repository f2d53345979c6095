-- ===== src/Inbox/Forward.antt =====
-- Marks only advance the handling states, and keep the inbox valid.
use aqua_matrix_connector.Inbox.Entry.{
  State, new, seen, processed, Actor, InboxEntry, state, is_new,
}
use aqua_matrix_connector.Inbox.{Inbox, Fault, persist}
use aqua_matrix_connector.Inbox.Marks.{
  see, process, process_all, mark_seen, mark_processed, sorted_dedup, Answer,
}
use aqua_matrix_connector.Inbox.Ingest.{persist_if-entries, persist_if-IsValid}
use aqua_matrix_connector.Common.Assoc.{Assoc}
use aqua_matrix_connector.Inbox.Progress.{processed_if, process_all-entries}
use aqua_matrix_connector.Inbox.Valid.{Mirrors, Known, Ascending, IsValid, valid-Distinct}
use aqua_matrix_connector.Common.{
  if_true, if_false, ℕ, List, ◌≡◌, arith, map, inr, Option-cases, ◌≤◌, none, ◌∷◌, inl, ◌⊎◌, refl,
  [], All, true, Bool-cases, ◌+◌, false, if◌then◌else◌, ltb, ap, length,
}
use aqua_matrix_connector.Common.Text.{Text}

abbrev pub rank : State → ℕ
rank new = 0
rank seen = 1
rank processed = 2

module _ {Json : Type 0} where
  -- The same message, its state not moved back, an earlier `processed` mark kept.
  pub record Advances (e f : InboxEntry Json) : Type 0 where
    pub same_seq : f.seq ≡ e.seq
    pub same_event : f.event_id ≡ e.event_id
    pub same_ts : f.ts_ms ≡ e.ts_ms
    pub same_body : f.body ≡ e.body
    pub no_step_back : rank (state e) ≤ rank (state f)
    pub final : (e.processed_by ≡ none) ⊎ (f.processed_by ≡ e.processed_by)
    pub still_mirrors : Mirrors e → Mirrors f

  -- Entry by entry.
  abbrev pub AllAdvance : List (InboxEntry Json) → List (InboxEntry Json) → Type 0
  AllAdvance [] [] = Unit
  AllAdvance (e ∷ es) (f ∷ fs) = Advances e f × AllAdvance es fs
  AllAdvance [] (f ∷ fs) = ⊥
  AllAdvance (e ∷ es) [] = ⊥

  AllAdvance-map :
      (g : InboxEntry Json → InboxEntry Json) (es : List (InboxEntry Json))
      → ((e : InboxEntry Json) → Advances e (g e))
      → AllAdvance es (map g es)
  AllAdvance-map g [] h = tt
  AllAdvance-map g (e ∷ es) h = (h e, AllAdvance-map g es h)

  Advances-refl : (e : InboxEntry Json) → Advances e e
  Advances-refl e = record {
    same_seq = refl;
    same_event = refl;
    same_ts = refl;
    same_body = refl;
    no_step_back = omega arith;
    final = inr refl;
    still_mirrors = λ m. m;
  }

  see-Advances :
      (ns : List ℕ) (who : Actor) (now : ℕ) (e : InboxEntry Json) → Advances e (see ns who now e)
  unfolding see state is_new
  see-Advances ns who now e = elim (Option-cases e.processed_by) [
    | inl open_ ↦ record {
      same_seq = ground arith;
      same_event = ground arith;
      same_ts = ground arith;
      same_body = ground arith;
      no_step_back = ground (arith, open_);
      final = inl open_;
      still_mirrors = λ m. ground (arith, m, open_);
    }
    | inr (k, done) ↦ ground (arith, done, Advances-refl e)
  ]

  processed_if-Advances :
      (ns : List ℕ) (who : Actor) (now : ℕ) (note : Text) (e : InboxEntry Json)
      → Advances e (processed_if ns who now note e)
  unfolding processed_if process state is_new
  processed_if-Advances ns who now note e = elim (Option-cases e.processed_by) [
    | inl open_ ↦ record {
      same_seq = ground arith;
      same_event = ground arith;
      same_ts = ground arith;
      same_body = ground arith;
      no_step_back = ground (arith, open_);
      final = inl open_;
      still_mirrors = λ m. ground (arith, m, open_);
    }
    | inr (k, done) ↦ ground (arith, done, Advances-refl e)
  ]

module _ {Json : Type 0} where
  AllAdvance-refl : (es : List (InboxEntry Json)) → AllAdvance es es
  AllAdvance-refl [] = tt
  AllAdvance-refl (e ∷ es) = (Advances-refl e, AllAdvance-refl es)

  Advances-ids :
      (ids : Assoc ℕ) (es fs : List (InboxEntry Json))
      → AllAdvance es fs
      → All (Known ids) es
      → All (Known ids) fs
  Advances-ids ids [] [] a k = tt
  Advances-ids ids (e ∷ es) (f ∷ fs) (a, more) (k, ks) =
      (rw (a.same_event, a.same_ts) k, Advances-ids ids es fs more ks)
  Advances-ids ids [] (f ∷ fs) a k = absurd a
  Advances-ids ids (e ∷ es) [] a k = absurd a

  Advances-Ascending :
      (lo next : ℕ) (es fs : List (InboxEntry Json))
      → AllAdvance es fs
      → Ascending lo next es
      → Ascending lo next fs
  Advances-Ascending lo next [] [] a k = k
  Advances-Ascending lo next (e ∷ es) (f ∷ fs) (a, more) (k, ks) =
      rw a.same_seq (k, Advances-Ascending (e.seq + 1) next es fs more ks)
  Advances-Ascending lo next [] (f ∷ fs) a k = absurd a
  Advances-Ascending lo next (e ∷ es) [] a k = absurd a

  Advances-Mirrors :
      (es fs : List (InboxEntry Json)) → AllAdvance es fs → All Mirrors es → All Mirrors fs
  Advances-Mirrors [] [] a k = tt
  Advances-Mirrors (e ∷ es) (f ∷ fs) (a, more) (k, ks) =
      (a.still_mirrors k, Advances-Mirrors es fs more ks)
  Advances-Mirrors [] (f ∷ fs) a k = absurd a
  Advances-Mirrors (e ∷ es) [] a k = absurd a

  set_entries-IsValid :
      (i : Inbox Json) (fs : List (InboxEntry Json))
      → AllAdvance i.entries fs
      → IsValid i
      → IsValid (record i { entries = fs })
  set_entries-IsValid i fs a v = record {
    numbered = Advances-Ascending 1 i.next_seq i.entries fs a v.numbered;
    known = Advances-ids i.seen_ids i.entries fs a v.known;
    mirrored = Advances-Mirrors i.entries fs a v.mirrored;
    saved = v.saved;
  }

  module _ (fault : Fault) (i : Inbox Json) (ns : List ℕ) (who : Actor) (now : ℕ)
      (v : IsValid i) where
    -- `mark_seen` moves no entry's state back, keeps every earlier `processed` mark, and neither adds,
    -- drops, reorders nor otherwise alters an entry; the inbox stays valid, whatever the write meets.
    pub mark_seen_advances :
        let i' = mark_seen fault i ns who now in AllAdvance i.entries i'.entries × IsValid i'
    unfolding mark_seen
    mark_seen_advances =
        let forward = AllAdvance-map (see ns who now) i.entries (see-Advances ns who now) in
        (
          rw persist_if-entries forward,
          persist_if-IsValid _ fault _ (set_entries-IsValid i _ forward v),
        )

    processed_entries :
        (note : Text)
        → i.policy.track_processed ≡ true
        → AllAdvance i.entries
            (process_all who now note
              (sorted_dedup ns)
              (i.entries, record { marked = []; already = []; missing = [] })).0
    processed_entries note tracks =
        rw (process_all-entries who now note (sorted_dedup ns) i.entries _ (valid-Distinct i v)) (
          AllAdvance-map (processed_if (sorted_dedup ns) who now note) i.entries
            (processed_if-Advances (sorted_dedup ns) who now note))

    tracked :
        (note : Text)
        → i.policy.track_processed ≡ true
        → let (es, out) =
            process_all who now note
              (sorted_dedup ns)
              (i.entries, record { marked = []; already = []; missing = [] }) in
          let i' = record i { entries = es } in
          (mark_processed fault i ns who note now).0
          ≡ (if ltb 0 (length out.marked) then persist fault i' else i')
    unfolding mark_processed
    tracked note tracks = ap (λ (r : Inbox Json × Answer). r.0) (if_true _ _ tracks)

    untracked :
        (note : Text)
        → i.policy.track_processed ≡ false
        → (mark_processed fault i ns who note now).0 ≡ i
    unfolding mark_processed
    untracked note plain = ap (λ (r : Inbox Json × Answer). r.0) (if_false _ _ plain)

    -- `mark_processed`, on an instance that tracks processing and on one that does not, moves no entry's
    -- state back, keeps every earlier `processed` mark, and neither adds, drops, reorders nor otherwise
    -- alters an entry; the inbox stays valid, whatever the write meets.
    pub mark_processed_advances :
        (note : Text)
        → let i' = (mark_processed fault i ns who note now).0 in
          AllAdvance i.entries i'.entries × IsValid i'
    mark_processed_advances note = elim (Bool-cases i.policy.track_processed) [
      | inl tracks ↦
          let forward = processed_entries note tracks in
          rw (tracked note tracks) (
            rw persist_if-entries forward,
            persist_if-IsValid _ fault _ (set_entries-IsValid i _ forward v),
          )
      | inr plain ↦ rw (untracked note plain) (AllAdvance-refl i.entries, v)
    ]
