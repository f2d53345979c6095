-- ===== src/Inbox/Valid.antt =====
-- The invariant of the inbox, and that pruning and persisting keep it.
use aqua_matrix_connector.Inbox.Entry.{InboxPolicy, InboxEntry, is_new}
use aqua_matrix_connector.Inbox.{
  Inbox, Fault, no_fault, seq_write_fails, entries_write_fails, high_water, prune_at, persist,
  enforce_at, allowed, cutoff,
}
use aqua_matrix_connector.Inbox.Evict.{seqs}
use aqua_matrix_connector.Inbox.Prune.{dropped, evict-filter}
use aqua_matrix_connector.Common.{
  ℕ, Bool, ◌≡◌, All, List, not, filter, ◌<◌, some, ◌∷◌, ◌≤◌, ◌+◌, arith, false, ◌++◌, [], refl, leb,
  Bool-cases, filter-All_of, true, is_some, ltb, inl, inr,
}
use aqua_matrix_connector.Common.Assoc.{Assoc, lookup}
use aqua_matrix_connector.Common.Sort.{Distinct, mem}
use aqua_matrix_connector.Common.Text.{Text}

pub lookup-filter :
    (k : Text) (q : ℕ → Bool) (m : Assoc ℕ) (v : ℕ)
    → lookup k m ≡ some v
    → q v ≡ true
    → lookup k (filter (λ s. q s.1) m) ≡ some v
unfolding lookup
lookup-filter k q [] v h ok = h
lookup-filter k q ((j, w) ∷ m) v h ok = ground (arith, lookup-filter k q m v)

module _ {Json : Type 0} where
  -- Numbers grow along the list and stay below `next`.
  abbrev pub Ascending : ℕ → ℕ → List (InboxEntry Json) → Type 0
  Ascending lo next [] = lo ≤ next
  Ascending lo next (e ∷ es) = (lo ≤ e.seq) × Ascending (e.seq + 1) next es

  -- `read` mirrors "not new", for binaries that predate the states.
  abbrev pub Mirrors : InboxEntry Json → Type 0
  Mirrors e = e.read ≡ not (is_new e)

  -- The event id of an entry is known, with the entry's timestamp.
  abbrev pub Known : Assoc ℕ → InboxEntry Json → Type 0
  Known ids e = lookup e.event_id ids ≡ some e.ts_ms

  pub record IsValid (i : Inbox Json) : Type 0 where
    pub numbered : Ascending 1 i.next_seq i.entries
    pub known : All (Known i.seen_ids) i.entries
    pub mirrored : All Mirrors i.entries
    pub saved : i.persisted_seq < i.next_seq

  Ascending-lower :
      (m n next : ℕ) (es : List (InboxEntry Json))
      → m ≤ n
      → Ascending n next es
      → Ascending m next es
  Ascending-lower m n next [] h a = omega arith
  Ascending-lower m n next (e ∷ es) h a = (omega arith, a.1)

  pub Ascending-filter :
      (p : InboxEntry Json → Bool) (lo next : ℕ) (es : List (InboxEntry Json))
      → Ascending lo next es
      → Ascending lo next (filter p es)
  Ascending-filter p lo next [] a = a
  Ascending-filter p lo next (e ∷ es) a = ground (
    arith,
    Ascending-filter p (e.seq + 1) next es a.1,
    Ascending-lower lo (e.seq + 1) next (filter p es),
  )

  pub Ascending-snoc :
      (lo next : ℕ) (es : List (InboxEntry Json)) (e : InboxEntry Json)
      → Ascending lo next es
      → e.seq ≡ next
      → Ascending lo (next + 1) (es ++ e ∷ [])
  Ascending-snoc lo next [] e a h = omega arith
  Ascending-snoc lo next (x ∷ es) e a h = (a.0, Ascending-snoc (x.seq + 1) next es e a.1 h)

  absent_below :
      (n lo next : ℕ) (es : List (InboxEntry Json))
      → n < lo
      → Ascending lo next es
      → mem n (seqs es) ≡ false
  absent_below n lo next [] h a = refl
  absent_below n lo next (e ∷ es) h a = ground (arith, absent_below n (e.seq + 1) next es)

  pub Ascending-Distinct :
      (lo next : ℕ) (es : List (InboxEntry Json)) → Ascending lo next es → Distinct (seqs es)
  Ascending-Distinct lo next [] a = tt
  Ascending-Distinct lo next (e ∷ es) a = (
    absent_below e.seq (e.seq + 1) next es (omega arith) a.1,
    Ascending-Distinct (e.seq + 1) next es a.1,
  )

  pub valid-Distinct : (i : Inbox Json) → IsValid i → Distinct (seqs i.entries)
  valid-Distinct i v = Ascending-Distinct 1 i.next_seq i.entries v.numbered

  -- What a pass keeps is a filtering of what it allows.
  pub prune_at-filter :
      (i : Inbox Json) (now : ℕ)
      → (prune_at i now).0.entries
        ≡ filter
            (λ e. not (dropped i.policy (filter (allowed i.policy now) i.entries) e))
            (filter (allowed i.policy now) i.entries)
  unfolding prune_at
  prune_at-filter i now = evict-filter i.policy (filter (allowed i.policy now) i.entries)

  Known-after :
      (p : InboxPolicy) (now : ℕ) (ids : Assoc ℕ) (es : List (InboxEntry Json))
      → All (Known ids) es
      → All (Known (filter (λ s. leb (cutoff p now) s.1) ids)) (filter (allowed p now) es)
  unfolding allowed
  Known-after p now ids [] h = tt
  Known-after p now ids (e ∷ es) h = ground (
    arith,
    Known-after p now ids es h.1,
    lookup-filter e.event_id (λ t. leb (cutoff p now) t) ids e.ts_ms h.0,
  )

  pub Ascending-le : (lo next : ℕ) (es : List (InboxEntry Json)) → Ascending lo next es → lo ≤ next
  Ascending-le lo next [] a = a
  Ascending-le lo next (e ∷ es) a = omega (arith, Ascending-le (e.seq + 1) next es a.1)

  module _ (i : Inbox Json) (now : ℕ) where
    pub prune_at_fields :
        ((prune_at i now).0.next_seq ≡ i.next_seq)
        × ((prune_at i now).0.persisted_seq ≡ i.persisted_seq)
        × ((prune_at i now).0.policy ≡ i.policy)
    unfolding prune_at
    prune_at_fields = (refl, refl, refl)

    allowed-Known :
        All (Known i.seen_ids) i.entries
        → All (Known (prune_at i now).0.seen_ids) (filter (allowed i.policy now) i.entries)
    unfolding prune_at
    allowed-Known h = elim (Bool-cases (is_some i.policy.max_age)) [
      | inl bound ↦ rw bound (Known-after i.policy now i.seen_ids i.entries h)
      | inr free ↦ rw free (filter-All_of (Known i.seen_ids) (allowed i.policy now) i.entries h)
    ]

    all_after {κ} :
        (P : InboxEntry Json → Type κ)
        → All P (filter (allowed i.policy now) i.entries)
        → All P (prune_at i now).0.entries
    all_after P h = rw prune_at-filter (
        filter-All_of P (λ e. not (dropped i.policy (filter (allowed i.policy now) i.entries) e))
          (filter (allowed i.policy now) i.entries) h)

    pub prune_at-IsValid : IsValid i → IsValid (prune_at i now).0
    prune_at-IsValid v = record {
      numbered =
          rw (prune_at-filter, prune_at_fields.0)
            (Ascending-filter _ 1 i.next_seq _
              (Ascending-filter (allowed i.policy now) 1 i.next_seq i.entries v.numbered));
      known = all_after (Known (prune_at i now).0.seen_ids) (allowed-Known v.known);
      mirrored =
          all_after Mirrors (filter-All_of Mirrors (allowed i.policy now) i.entries v.mirrored);
      saved = rw (prune_at_fields.0, prune_at_fields.1) v.saved;
    }

  -- Writing the files changes nothing that callers see.
  pub persist_fields :
      (fault : Fault) (i : Inbox Json)
      → ((persist fault i).entries ≡ i.entries)
        × ((persist fault i).seen_ids ≡ i.seen_ids)
        × ((persist fault i).next_seq ≡ i.next_seq)
        × ((persist fault i).policy ≡ i.policy)
  unfolding persist
  persist_fields no_fault i = ground arith
  persist_fields seq_write_fails i = ground arith
  persist_fields entries_write_fails i = ground arith

  persist_saved :
      (fault : Fault) (i : Inbox Json)
      → 0 < i.next_seq
      → i.persisted_seq < i.next_seq
      → (persist fault i).persisted_seq < i.next_seq
  unfolding persist high_water
  persist_saved no_fault i h k = ground arith
  persist_saved seq_write_fails i h k = ground arith
  persist_saved entries_write_fails i h k = ground arith

  pub persist-IsValid : (fault : Fault) (i : Inbox Json) → IsValid i → IsValid (persist fault i)
  persist-IsValid fault i v =
      let f = persist_fields fault i in
      record {
        numbered = rw (f.0, f.2) v.numbered;
        known = rw (f.0, f.1) v.known;
        mirrored = rw f.0 v.mirrored;
        saved = rw f.2 (
            persist_saved fault i (omega (arith, Ascending-le 1 i.next_seq i.entries v.numbered))
              v.saved);
      }

  pub enforce_at-IsValid :
      (fault : Fault) (i : Inbox Json) (now : ℕ) → IsValid i → IsValid (enforce_at fault i now).0
  unfolding enforce_at
  enforce_at-IsValid fault i now v = elim (Bool-cases (ltb 0 (prune_at i now).1.removed)) [
    | inl some_gone ↦
        rw some_gone (persist-IsValid fault (prune_at i now).0 (prune_at-IsValid i now v))
    | inr none_gone ↦ rw none_gone (prune_at-IsValid i now v)
  ]
