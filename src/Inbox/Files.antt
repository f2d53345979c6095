-- ===== src/Inbox/Files.antt =====
-- The two files of the inbox: what they may hold, and what a write, failing or not, leaves in them.
use aqua_matrix_connector.Inbox.Entry.{InboxPolicy, InboxEntry}
use aqua_matrix_connector.Inbox.{
  Inbox, Disk, high_water, persist, Fault, no_fault, seq_write_fails, entries_write_fails,
}
use aqua_matrix_connector.Inbox.Load.{parsed, max_seq, ids_of, read_disk}
use aqua_matrix_connector.Inbox.Valid.{IsValid, Known, Mirrors, Ascending, Ascending-le}
use aqua_matrix_connector.Common.{
  ℕ, List, ◌+◌, ◌≡◌, unwrap_or, All, map, arith, ◌<◌, ◌≤◌, some, ◌∷◌, [], ap, Bool-cases, refl, inl,
  sym, ◌∙◌, inr, Option, subst, ◌==◌, true, ==_iff, false,
}
use aqua_matrix_connector.Common.Assoc.{Assoc, lookup, insert, lookup-insert}
use aqua_matrix_connector.Common.Text.{text_eq, text_eq_refl, text_eq_sound, Text}

module _ {Json : Type 0} where
  abbrev pub stored_seq : Disk Json → ℕ
  stored_seq d = unwrap_or d.seq_file 0

  -- What the two files may hold: numbers that grow and do not pass the stored high-water mark, and
  -- for each event id one timestamp.
  pub record IsSound (d : Disk Json) : Type 0 where
    pub numbered : Ascending 1 (stored_seq d + 1) (parsed d.lines)
    pub ids : Assoc ℕ
    pub known : All (Known ids) (parsed d.lines)
    pub mirrored : All Mirrors (parsed d.lines)

  -- The inbox knows the stored mark, and its files are sound.
  pub record IsStored (i : Inbox Json) : Type 0 where
    pub mark_known : stored_seq i.disk ≡ i.persisted_seq
    pub sound : IsSound i.disk

  pub parsed-map : (es : List (InboxEntry Json)) → parsed (map some es) ≡ es
  unfolding parsed
  parsed-map [] = refl
  parsed-map (e ∷ es) = ap (◌∷◌ e) (parsed-map es)

  pub max_seq-le :
      (lo next : ℕ) (es : List (InboxEntry Json))
      → 0 < lo
      → Ascending lo next es
      → max_seq es < next
  unfolding max_seq
  max_seq-le lo next [] h a = omega arith
  max_seq-le lo next (e ∷ es) h a = omega (
    arith,
    max_seq-le (e.seq + 1) next es (omega arith) a.1,
    Ascending-le (e.seq + 1) next es a.1,
  )

  Known-elsewhere :
      (ids m : Assoc ℕ) (es : List (InboxEntry Json)) (x : InboxEntry Json)
      → Known ids x
      → lookup x.event_id m ≡ some x.ts_ms
      → All (Known ids) es
      → Known (ids_of m es) x
  unfolding ids_of
  Known-elsewhere ids m [] x k h a = h
  Known-elsewhere ids m (e ∷ es) x k h a =
      Known-elsewhere ids (insert e.event_id e.ts_ms m) es x k
        (elim (Bool-cases (text_eq e.event_id x.event_id)) [
          | inl same ↦
              let ids_eq : e.event_id ≡ x.event_id = text_eq_sound e.event_id x.event_id same in
              rw lookup-insert (rw same (sym a.0 ∙ ap (λ (t : Text). lookup t ids) ids_eq ∙ k))
          | inr other ↦ rw lookup-insert (rw other h)
        ])
        a.1

  Known-read :
      (ids m : Assoc ℕ) (es : List (InboxEntry Json))
      → All (Known ids) es
      → All (Known (ids_of m es)) es
  unfolding ids_of
  Known-read ids m [] a = tt
  Known-read ids m (e ∷ es) a = (
    Known-elsewhere ids (insert e.event_id e.ts_ms m) es e a.0
        (rw lookup-insert (rw text_eq_refl refl)) a.1,
    Known-read ids (insert e.event_id e.ts_ms m) es a.1,
  )

  Ascending-upper :
      (lo m n : ℕ) (es : List (InboxEntry Json)) → m ≤ n → Ascending lo m es → Ascending lo n es
  Ascending-upper lo m n [] h a = omega arith
  Ascending-upper lo m n (e ∷ es) h a = (a.0, Ascending-upper (e.seq + 1) m n es h a.1)

  pub read_disk-IsValid : (d : Disk Json) (p : InboxPolicy) → IsSound d → IsValid (read_disk d p)
  unfolding read_disk
  read_disk-IsValid d p s = record {
    numbered = Ascending-upper 1 (stored_seq d + 1) _ (parsed d.lines) (omega arith) s.numbered;
    known = Known-read s.ids [] (parsed d.lines) s.known;
    mirrored = s.mirrored;
    saved = omega arith;
  }

  module _ (i : Inbox Json) (v : IsValid i) where
    pub high_next : high_water i + 1 ≡ i.next_seq
    unfolding high_water
    high_next = omega (arith, Ascending-le 1 i.next_seq i.entries v.numbered)

    persisted-le-high : i.persisted_seq ≤ high_water i
    unfolding high_water
    persisted-le-high = omega (arith, v.saved)

    -- The entries, stored under the current high-water mark.
    current-IsSound :
        (file : Option ℕ)
        → unwrap_or file 0 ≡ high_water i
        → IsSound (record { seq_file = file; lines = map some i.entries })
    current-IsSound file h = record {
      numbered =
          rw (parsed-map, h) (subst (λ n. Ascending 1 n i.entries) (sym high_next) v.numbered);
      ids = i.seen_ids;
      known = rw parsed-map v.known;
      mirrored = rw parsed-map v.mirrored;
    }

    -- The old entries, under the current high-water mark.
    older-IsSound :
        (d : Disk Json)
        → IsSound d
        → stored_seq d ≤ high_water i
        → IsSound (record d { seq_file = some (high_water i) })
    older-IsSound d s h = record {
      numbered = Ascending-upper 1 (stored_seq d + 1) _ (parsed d.lines) (omega arith) s.numbered;
      ids = s.ids;
      known = s.known;
      mirrored = s.mirrored;
    }

    -- The files after a write that may have failed.
    pub persist-IsStored : (fault : Fault) → IsStored i → IsStored (persist fault i)
    unfolding persist
    persist-IsStored fault s = elim (Bool-cases (high_water i == i.persisted_seq)) [
      | inl same ↦ when_same fault same
      | inr other ↦ when_other fault other
    ]
      where
        when_same :
            (fault : Fault) → (high_water i == i.persisted_seq) ≡ true → IsStored (persist fault i)
        when_same no_fault same = rw same (record {
          mark_known = s.mark_known;
          sound =
              current-IsSound i.disk.seq_file
                (s.mark_known ∙ sym ((==_iff (high_water i) i.persisted_seq).0 same));
        })
        when_same seq_write_fails same = rw same (record {
          mark_known = s.mark_known;
          sound =
              current-IsSound i.disk.seq_file
                (s.mark_known ∙ sym ((==_iff (high_water i) i.persisted_seq).0 same));
        })
        when_same entries_write_fails same = rw same s

        when_other :
            (fault : Fault) → (high_water i == i.persisted_seq) ≡ false → IsStored (persist fault i)
        when_other no_fault other =
            rw other
              (record { mark_known = refl; sound = current-IsSound (some (high_water i)) refl })
        when_other seq_write_fails other = rw other s
        when_other entries_write_fails other = rw other (record {
          mark_known = refl;
          sound = older-IsSound i.disk s.sound (rw s.mark_known persisted-le-high);
        })
