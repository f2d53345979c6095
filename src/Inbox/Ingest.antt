-- ===== src/Inbox/Ingest.antt =====
-- What `ingest_at` does, on every branch.
use aqua_matrix_connector.Inbox.Entry.{InboxEntry, NewEntry, entry_of, is_new}
use aqua_matrix_connector.Inbox.{
  Inbox, Fault, prune_at, persist, refuses, push_entry, ingest_at, contains, allowed, evictable,
}
use aqua_matrix_connector.Inbox.Evict.{seqs}
use aqua_matrix_connector.Inbox.Order.{Elem-to_mem, mem_to_Elem, seq_unique}
use aqua_matrix_connector.Inbox.Prune.{PruneSpec, prune_at-PruneSpec}
use aqua_matrix_connector.Inbox.Valid.{
  IsValid, prune_at_fields, Known, Mirrors, Ascending-snoc, prune_at-IsValid, persist-IsValid,
  persist_fields, valid-Distinct,
}
use aqua_matrix_connector.Common.Text.{Text, text_eq_iff, text_eq_refl}
use aqua_matrix_connector.Common.{
  ℕ, ◌≡◌, false, Bool-cases, List, All-append, inl, inr, none, ◌∷◌, All, [], arith, true, any, Bool,
  refl, ◌==◌, if◌then◌else◌, ◌||◌, ltb, some, ◌++◌, ◌+◌, ap, ◌∙◌, sym, subst, ◌↔◌, ◌⊎◌,
}
use aqua_matrix_connector.Common.Assoc.{Assoc, lookup, insert, lookup-insert}
use aqua_matrix_connector.Common.Sort.{mem, Distinct}
use aqua_matrix_connector.Common.Elem.{Elem, Elem-append_right}

module _ {Json : Type 0} where
  Known-insert :
      (id : Text) (ts : ℕ) (ids : Assoc ℕ) (es : List (InboxEntry Json))
      → lookup id ids ≡ none
      → All (Known ids) es
      → All (Known (insert id ts ids)) es
  Known-insert id ts ids [] h k = tt
  Known-insert id ts ids (e ∷ es) h k = (
    ground (arith, h, k.0, lookup-insert id e.event_id ts ids, text_eq_iff id e.event_id),
    Known-insert id ts ids es h k.1,
  )

  is_new-entry_of : (n : NewEntry Json) (seq : ℕ) → is_new (entry_of n seq) ≡ true
  unfolding is_new entry_of
  is_new-entry_of n seq = refl

  entry_of_fields :
      (n : NewEntry Json) (seq : ℕ)
      → ((entry_of n seq).seq ≡ seq)
        × ((entry_of n seq).event_id ≡ n.event_id)
        × ((entry_of n seq).ts_ms ≡ n.ts_ms)
        × ((entry_of n seq).kind ≡ n.kind)
        × ((entry_of n seq).read ≡ false)
  unfolding entry_of
  entry_of_fields n seq = (refl, refl, refl, refl, refl)

  module _ (i : Inbox Json) (n : NewEntry Json) where
    abbrev fresh_entry : InboxEntry Json
    fresh_entry = entry_of n i.next_seq

    pub push_entry-IsValid : IsValid i → contains i n.event_id ≡ false → IsValid (push_entry i n)
    unfolding push_entry contains
    push_entry-IsValid v absent = record {
      numbered =
          Ascending-snoc 1 i.next_seq i.entries fresh_entry v.numbered
            (entry_of_fields n i.next_seq).0;
      known =
          All-append (Known (insert n.event_id n.ts_ms i.seen_ids)) i.entries (fresh_entry ∷ [])
            (Known-insert n.event_id n.ts_ms i.seen_ids i.entries (ground (arith, absent)) v.known)
            (
              ground (
                arith,
                entry_of_fields n i.next_seq,
                lookup-insert n.event_id n.event_id n.ts_ms i.seen_ids,
                text_eq_refl n.event_id,
              ),
              tt,
            );
      mirrored =
          All-append Mirrors i.entries (fresh_entry ∷ []) v.mirrored
            (ground (arith, is_new-entry_of n i.next_seq, entry_of_fields n i.next_seq), tt);
      saved = omega (arith, v.saved);
    }

    pub refuses_parts :
        (now : ℕ)
        → refuses i n now ≡ false
        → (contains i n.event_id ≡ false) × (allowed i.policy now fresh_entry ≡ true)
    unfolding refuses allowed entry_of
    refuses_parts now h = ground arith

    -- Both the write and the answer leave the pruned inbox as callers see it.
    pub ingest_at_accepted :
        (fault : Fault) (now : ℕ)
        → refuses i n now ≡ false
        → let (i', pruned) = prune_at (push_entry i n) now in
          let kept = any (λ e. e.seq == i.next_seq) i'.entries in
          ingest_at fault i n now ≡ (
            if kept || ltb 0 pruned.removed then persist fault i' else i',
            if kept then some i.next_seq else none,
          )
    unfolding ingest_at
    ingest_at_accepted fault now h = rw h

    pub ingest_at_refused :
        (fault : Fault) (now : ℕ) → refuses i n now ≡ true → ingest_at fault i n now ≡ (i, none)
    unfolding ingest_at
    ingest_at_refused fault now h = rw h

pub persist_if-IsValid :
    {Json : Type 0} (b : Bool) (fault : Fault) (i : Inbox Json)
    → IsValid i
    → IsValid (if b then persist fault i else i)
persist_if-IsValid true fault i v = persist-IsValid fault i v
persist_if-IsValid false fault i v = v

pub persist_if-entries :
    {Json : Type 0} (b : Bool) (fault : Fault) (i : Inbox Json)
    → (if b then persist fault i else i).entries ≡ i.entries
persist_if-entries true fault i = (persist_fields fault i).0
persist_if-entries false fault i = refl

persist_if-next_seq :
    {Json : Type 0} (b : Bool) (fault : Fault) (i : Inbox Json)
    → (if b then persist fault i else i).next_seq ≡ i.next_seq
persist_if-next_seq true fault i = (persist_fields fault i).2
persist_if-next_seq false fault i = refl

any-seqs :
    {Json : Type 0} (n : ℕ) (es : List (InboxEntry Json))
    → any (λ e. e.seq == n) es ≡ mem n (seqs es)
any-seqs n [] = refl
any-seqs n (e ∷ es) = ap (◌||◌ (e.seq == n)) (any-seqs n es)

module _ {Json : Type 0} (i : Inbox Json) (n : NewEntry Json) (fault : Fault) (now : ℕ)
    (v : IsValid i) where
  -- A message that arrives, accepted or refused, and whatever its writes meet, leaves a valid inbox
  -- valid: growing numbers below the next one, known event ids, `read` in step with the states, and a
  -- stored high-water mark below the next number.
  pub ingest_at-IsValid : IsValid (ingest_at fault i n now).0
  ingest_at-IsValid = elim (Bool-cases (refuses i n now)) [
    | inl no_thanks ↦ rw (ingest_at_refused i n fault now no_thanks) v
    | inr accepted ↦ rw (ingest_at_accepted i n fault now accepted) (
        persist_if-IsValid _ fault (prune_at (push_entry i n) now).0 (
          prune_at-IsValid (push_entry i n) now
            (push_entry-IsValid i n v (refuses_parts i n now accepted).0)))
  ]

  module _ (accepted : refuses i n now ≡ false) where
    pushed-Distinct : Distinct (seqs (push_entry i n).entries)
    pushed-Distinct =
        valid-Distinct (push_entry i n)
          (push_entry-IsValid i n v (refuses_parts i n now accepted).0)

    entries-ingest_at :
        (ingest_at fault i n now).0.entries ≡ (prune_at (push_entry i n) now).0.entries
    entries-ingest_at =
        rw (ingest_at_accepted i n fault now accepted) (persist_if-entries _ fault _)

    pub ingest_at-PruneSpec :
        PruneSpec i.policy now
          (i.entries ++ entry_of n i.next_seq ∷ [])
          (ingest_at fault i n now).0.entries
    unfolding push_entry
    ingest_at-PruneSpec =
        rw entries-ingest_at (prune_at-PruneSpec (push_entry i n) now pushed-Distinct)

    answer : (ingest_at fault i n now).1 ≡ (
        if mem i.next_seq (seqs (ingest_at fault i n now).0.entries) then some i.next_seq else none)
    answer = rw entries-ingest_at (
        rw (ingest_at_accepted i n fault now accepted) (
          ap (λ b. if b then some i.next_seq else none)
            (any-seqs i.next_seq (prune_at (push_entry i n) now).0.entries)))

    fresh_in :
        Elem (entry_of n i.next_seq) (ingest_at fault i n now).0.entries
        → (ingest_at fault i n now).1 ≡ some i.next_seq
    fresh_in m = ground (
      arith,
      answer,
      Elem-to_mem (λ (e : InboxEntry Json). e.seq) (ingest_at fault i n now).0.entries
          (entry_of n i.next_seq) m,
      entry_of_fields n i.next_seq,
    )

    fresh_out :
        (ingest_at fault i n now).1 ≡ some i.next_seq
        → Elem (entry_of n i.next_seq) (ingest_at fault i n now).0.entries
    unfolding push_entry
    fresh_out h =
        let (e, m, number) =
          mem_to_Elem (λ (e : InboxEntry Json). e.seq) (ingest_at fault i n now).0.entries
            i.next_seq (ground (arith, h, answer)) in
        let same : e ≡ entry_of n i.next_seq =
          seq_unique (push_entry i n).entries e (entry_of n i.next_seq) pushed-Distinct
            (ingest_at-PruneSpec.allowed_only e m).0
            (Elem-append_right i.entries _ (entry_of n i.next_seq) (inl refl))
            (number ∙ sym (entry_of_fields n i.next_seq).0) in
        subst (λ (x : InboxEntry Json). Elem x (ingest_at fault i n now).0.entries) same m

    soft_kept :
        i.policy.hard_cap ≡ false → Elem (entry_of n i.next_seq) (ingest_at fault i n now).0.entries
    unfolding push_entry evictable
    soft_kept soft =
        ingest_at-PruneSpec.protected_stay (entry_of n i.next_seq)
          (Elem-append_right i.entries _ (entry_of n i.next_seq) (inl refl))
          (refuses_parts i n now accepted).1 (rw soft (rw is_new-entry_of refl))

    next_seq-ingest_at : (ingest_at fault i n now).0.next_seq ≡ i.next_seq + 1
    unfolding push_entry
    next_seq-ingest_at = rw (ingest_at_accepted i n fault now accepted) (
        persist_if-next_seq _ fault (prune_at (push_entry i n) now).0
        ∙ (prune_at_fields (push_entry i n) now).0)

    -- On a valid inbox an accepted message gets the next number, whatever the writes meet. What is held
    -- afterwards is one enforcement pass over the entries with the new one at the end; the answer is the new number
    -- exactly when the new entry is still among them, and without a hard cap it always is.
    pub ingest_at_contract :
        let (i', answer) = ingest_at fault i n now in
        PruneSpec i.policy now (i.entries ++ entry_of n i.next_seq ∷ []) i'.entries
        × (i'.next_seq ≡ i.next_seq + 1)
        × ((answer ≡ some i.next_seq) ↔ Elem (entry_of n i.next_seq) i'.entries)
        × ((i.policy.hard_cap ≡ true) ⊎ (answer ≡ some i.next_seq))
    ingest_at_contract = (
      ingest_at-PruneSpec,
      next_seq-ingest_at,
      (fresh_out, fresh_in),
      elim (Bool-cases i.policy.hard_cap) [
        | inl hard ↦ inl hard
        | inr soft ↦ inr (fresh_in (soft_kept soft))
      ],
    )
