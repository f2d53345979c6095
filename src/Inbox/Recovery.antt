-- ===== src/Inbox/Recovery.antt =====
-- Restarts: a full write reads back, and a failed write or a crash leaves files that read back to a
-- valid inbox whose numbers go on above all that the files hold.
use aqua_matrix_connector.Inbox.Entry.{InboxPolicy, NewEntry}
use aqua_matrix_connector.Inbox.{
  Inbox, Disk, Fault, no_fault, high_water, prune_at, persist, enforce_at, ingest_at, push_entry,
  refuses,
}
use aqua_matrix_connector.Inbox.Load.{max_seq, read_disk, load_with}
use aqua_matrix_connector.Inbox.Valid.{IsValid, prune_at-IsValid, enforce_at-IsValid}
use aqua_matrix_connector.Inbox.Ingest.{
  ingest_at_accepted, ingest_at_refused, ingest_at-IsValid, push_entry-IsValid, refuses_parts,
}
use aqua_matrix_connector.Inbox.Dedupe.{Event, arrives, sweeps, step, run}
use aqua_matrix_connector.Inbox.Files.{
  IsSound, IsStored, read_disk-IsValid, persist-IsStored, parsed-map, max_seq-le, high_next,
}
use aqua_matrix_connector.Common.{
  ◌∷◌, ℕ, Bool, List, ◌≡◌, refl, Bool-cases, if◌then◌else◌, ◌==◌, [], true, inl, false, ==_iff, inr,
  max, ◌+◌, arith, sym,
}

module _ {Json : Type 0} where
  prune_at-IsStored : (i : Inbox Json) (now : ℕ) → IsStored i → IsStored (prune_at i now).0
  unfolding prune_at
  prune_at-IsStored i now s = record { mark_known = s.mark_known; sound = s.sound }

  push_entry-IsStored :
      (i : Inbox Json) (n : NewEntry Json) → IsStored i → IsStored (push_entry i n)
  unfolding push_entry
  push_entry-IsStored i n s = record { mark_known = s.mark_known; sound = s.sound }

  persist_if-IsStored :
      (b : Bool) (fault : Fault) (i : Inbox Json)
      → IsValid i
      → IsStored i
      → IsStored (if b then persist fault i else i)
  persist_if-IsStored false fault i v s = s
  persist_if-IsStored true fault i v s = persist-IsStored i v fault s

  enforce_at-IsStored :
      (fault : Fault) (i : Inbox Json) (now : ℕ)
      → IsValid i
      → IsStored i
      → IsStored (enforce_at fault i now).0
  unfolding enforce_at
  enforce_at-IsStored fault i now v s =
      persist_if-IsStored _ fault (prune_at i now).0 (prune_at-IsValid i now v)
        (prune_at-IsStored i now s)

  ingest_at-IsStored :
      (fault : Fault) (i : Inbox Json) (n : NewEntry Json) (now : ℕ)
      → IsValid i
      → IsStored i
      → IsStored (ingest_at fault i n now).0
  ingest_at-IsStored fault i n now v s = elim (Bool-cases (refuses i n now)) [
    | inl refused ↦ rw (ingest_at_refused i n fault now refused) s
    | inr accepted ↦ rw (ingest_at_accepted i n fault now accepted) (
        persist_if-IsStored _ fault (prune_at (push_entry i n) now).0
          (prune_at-IsValid (push_entry i n) now
            (push_entry-IsValid i n v (refuses_parts i n now accepted).0))
          (prune_at-IsStored (push_entry i n) now (push_entry-IsStored i n s)))
  ]

  pub run-IsStored :
      (es : List (Event Json)) (i : Inbox Json)
      → IsValid i
      → IsStored i
      → IsValid (run i es) × IsStored (run i es)
  unfolding run step
  run-IsStored [] i v s = (v, s)
  run-IsStored ((arrives fault n now) ∷ es) i v s =
      run-IsStored es (ingest_at fault i n now).0 (ingest_at-IsValid i n fault now v)
        (ingest_at-IsStored fault i n now v s)
  run-IsStored (sweeps fault now ∷ es) i v s =
      run-IsStored es (enforce_at fault i now).0 (enforce_at-IsValid fault i now v)
        (enforce_at-IsStored fault i now v s)

  read_disk-IsStored : (d : Disk Json) (p : InboxPolicy) → IsSound d → IsStored (read_disk d p)
  unfolding read_disk
  read_disk-IsStored d p s = record { mark_known = refl; sound = s }

-- From sound files: load them, let messages arrive and the policy be enforced, with any of the
-- writes failing, and stop at any point. The inbox is valid all the while, and the files that are
-- left are sound, so they load to a valid inbox whose next number is above every number they hold.
pub restart_after_crash :
    {Json : Type 0} (d : Disk Json) (p p' : InboxPolicy) (fault : Fault) (now : ℕ)
    (es : List (Event Json))
    → IsSound d
    → let i = run (load_with fault d p now) es in
      IsValid i × IsSound i.disk × IsValid (read_disk i.disk p')
unfolding load_with
restart_after_crash d p p' fault now es s =
    let loaded = read_disk-IsValid d p s in
    let (v, stored) =
      run-IsStored es (enforce_at fault (read_disk d p) now).0
        (enforce_at-IsValid fault (read_disk d p) now loaded)
        (enforce_at-IsStored fault (read_disk d p) now loaded (read_disk-IsStored d p s)) in
    (v, stored.sound, read_disk-IsValid _ p' stored.sound)

-- A full write of a valid inbox reads back with the same entries, the same next number and the same
-- stored high-water mark.
pub read_disk-persist :
    {Json : Type 0} (i : Inbox Json)
    → IsValid i
    → IsStored i
    → let j = read_disk (persist no_fault i).disk i.policy in
      (j.entries ≡ i.entries) × (j.next_seq ≡ i.next_seq) × (j.persisted_seq ≡ high_water i)
unfolding read_disk persist
read_disk-persist i v s = elim (Bool-cases (high_water i == i.persisted_seq)) [
  | inl same ↦ rw same (
      rw (parsed-map i.entries)
        (rw s.mark_known (refl, top i.persisted_seq (sym (same_mark same)), sym (same_mark same))))
  | inr other ↦ rw other (rw (parsed-map i.entries) (refl, top (high_water i) refl, refl))
]
  where
    same_mark : (high_water i == i.persisted_seq) ≡ true → high_water i ≡ i.persisted_seq
    same_mark = (==_iff (high_water i) i.persisted_seq).0

    top : (n : ℕ) → n ≡ high_water i → max (max_seq i.entries) n + 1 ≡ i.next_seq
    top n h =
        omega (arith, high_next i v, max_seq-le 1 i.next_seq i.entries (omega arith) v.numbered)
