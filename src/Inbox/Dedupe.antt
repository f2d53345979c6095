-- ===== src/Inbox/Dedupe.antt =====
-- An event is recorded at most once: by its id while the id is remembered, and by its age after
-- the age bound has let the id be forgotten.
use aqua_matrix_connector.Inbox.Entry.{InboxPolicy, NewEntry}
use aqua_matrix_connector.Inbox.{
  Inbox, Fault, prune_at, persist, enforce_at, refuses, push_entry, ingest_at, contains, cutoff,
}
use aqua_matrix_connector.Inbox.Valid.{lookup-filter, prune_at_fields, persist_fields}
use aqua_matrix_connector.Inbox.Ingest.{ingest_at_accepted, ingest_at_refused, refuses_parts}
use aqua_matrix_connector.Common.{
  ℕ, List, ◌∷◌, ◌≤◌, Option-cases, ◌≡◌, inr, [], some, arith, if◌then◌else◌, inl, is_some,
  Bool-cases, ◌⊎◌, filter, leb, ◌<◌, refl, Bool, false, true, ap, none,
}
use aqua_matrix_connector.Common.Text.{Text, text_eq_iff, text_eq_refl}
use aqua_matrix_connector.Common.Assoc.{lookup, lookup-insert}

-- What happens to an inbox: a message arrives, or a timer or a read enforces the policy.
pub data Event (Json : Type 0) : Type 0 where
  arrives : Fault → NewEntry Json → ℕ → Event Json
  sweeps : Fault → ℕ → Event Json

cutoff_mono : (p : InboxPolicy) (m n : ℕ) → m ≤ n → cutoff p m ≤ cutoff p n
unfolding cutoff
cutoff_mono p m n h = elim (Option-cases p.max_age) [
  | inl e ↦ ground (arith, e)
  | inr (a, e) ↦ rw e (omega arith)
]

module _ {Json : Type 0} where
  abbrev pub time : Event Json → ℕ
  time (arrives fault n now) = now
  time (sweeps fault now) = now

  unfoldable pub step : Inbox Json → Event Json → Inbox Json
  step i (arrives fault n now) = (ingest_at fault i n now).0
  step i (sweeps fault now) = (enforce_at fault i now).0

  unfoldable pub run : Inbox Json → List (Event Json) → Inbox Json
  run i [] = i
  run i (e ∷ es) = run (step i e) es

  -- The host clock does not run backwards.
  abbrev pub Clock : ℕ → List (Event Json) → Type 0
  Clock now [] = Unit
  Clock now (e ∷ es) = (now ≤ time e) × Clock (time e) es

  abbrev pub last_time : ℕ → List (Event Json) → ℕ
  last_time now [] = now
  last_time now (e ∷ es) = last_time (time e) es

  -- Remembered, or too old to be let in.
  abbrev Deduped : Text → ℕ → ℕ → Inbox Json → Type 0
  Deduped id ts now i = (lookup id i.seen_ids ≡ some ts) ⊎ (ts < cutoff i.policy now)

  module _ (id : Text) (ts now later : ℕ) (after : now ≤ later) (i : Inbox Json) where
    seen_ids-prune_at : (prune_at i later).0.seen_ids ≡ (
        if is_some i.policy.max_age
        then filter (λ s. leb (cutoff i.policy later) s.1) i.seen_ids
        else i.seen_ids)
    unfolding prune_at
    seen_ids-prune_at = refl

    prune_at-Deduped : Deduped id ts now i → Deduped id ts later (prune_at i later).0
    prune_at-Deduped (inr old) =
        inr (rw ((prune_at_fields i later).2) (omega (arith, cutoff_mono i.policy now later after)))
    prune_at-Deduped (inl known) = elim (Bool-cases (leb (cutoff i.policy later) ts)) [
      | inl young ↦ inl (
          ground (
            arith,
            seen_ids-prune_at,
            known,
            lookup-filter id (λ t. leb (cutoff i.policy later) t) i.seen_ids ts known young,
          ))
      | inr old ↦ inr (rw ((prune_at_fields i later).2) (ground (arith, old)))
    ]

  persist_if-Deduped :
      (b : Bool) (fault : Fault) (id : Text) (ts now : ℕ) (i : Inbox Json)
      → Deduped id ts now i
      → Deduped id ts now (if b then persist fault i else i)
  persist_if-Deduped false fault id ts now i d = d
  persist_if-Deduped true fault id ts now i d =
      let f = persist_fields fault i in ground (arith, f, d, ap (λ p. cutoff p now) f.3)

  push_entry-Deduped :
      (id : Text) (ts now : ℕ) (i : Inbox Json) (n : NewEntry Json)
      → contains i n.event_id ≡ false
      → Deduped id ts now i
      → Deduped id ts now (push_entry i n)
  unfolding contains push_entry
  push_entry-Deduped id ts now i n absent d =
      ground (
        arith,
        absent,
        d,
        lookup-insert n.event_id id n.ts_ms i.seen_ids,
        text_eq_iff n.event_id id,
      )

  ingest_at-Deduped :
      (id : Text) (ts now later : ℕ) (i : Inbox Json) (n : NewEntry Json) (fault : Fault)
      → now ≤ later
      → Deduped id ts now i
      → Deduped id ts later (ingest_at fault i n later).0
  ingest_at-Deduped id ts now later i n fault h d = elim (Bool-cases (refuses i n later)) [
    | inl refused ↦ rw (ingest_at_refused i n fault later refused) (elim d [
      | inl known ↦ inl known
      | inr old ↦ inr (omega (arith, cutoff_mono i.policy now later h))
    ])
    | inr accepted ↦ rw (ingest_at_accepted i n fault later accepted) (
        persist_if-Deduped _ fault id ts later (prune_at (push_entry i n) later).0 (
          prune_at-Deduped id ts now later h (push_entry i n)
            (push_entry-Deduped id ts now i n (refuses_parts i n later accepted).0 d)))
  ]

  step-Deduped :
      (id : Text) (ts now : ℕ) (i : Inbox Json) (e : Event Json)
      → now ≤ time e
      → Deduped id ts now i
      → Deduped id ts (time e) (step i e)
  unfolding step enforce_at
  step-Deduped id ts now i (sweeps fault later) h d =
      persist_if-Deduped _ fault id ts later (prune_at i later).0
        (prune_at-Deduped id ts now later h i d)
  step-Deduped id ts now i (arrives fault n later) h d =
      ingest_at-Deduped id ts now later i n fault h d

  run-Deduped :
      (id : Text) (ts now : ℕ) (es : List (Event Json)) (i : Inbox Json)
      → Clock now es
      → Deduped id ts now i
      → Deduped id ts (last_time now es) (run i es)
  unfolding run
  run-Deduped id ts now [] i c d = d
  run-Deduped id ts now (e ∷ es) i c d =
      run-Deduped id ts (time e) es (step i e) c.1 (step-Deduped id ts now i e c.0 d)

  Deduped-refuses :
      (now later : ℕ) (i : Inbox Json) (n : NewEntry Json)
      → now ≤ later
      → Deduped n.event_id n.ts_ms now i
      → refuses i n later ≡ true
  unfolding refuses contains
  Deduped-refuses now later i n h d = ground (arith, d, cutoff_mono i.policy now later h)

  accepted-Deduped :
      (fault : Fault) (now : ℕ) (i : Inbox Json) (n : NewEntry Json)
      → refuses i n now ≡ false
      → Deduped n.event_id n.ts_ms now (ingest_at fault i n now).0
  unfolding push_entry
  accepted-Deduped fault now i n accepted = rw (ingest_at_accepted i n fault now accepted) (
      persist_if-Deduped _ fault n.event_id n.ts_ms now (prune_at (push_entry i n) now).0 (
        prune_at-Deduped n.event_id n.ts_ms now now (omega arith) (push_entry i n) (
          inl (
            ground (
              arith,
              lookup-insert n.event_id n.event_id n.ts_ms i.seen_ids,
              text_eq_refl n.event_id,
            )))))

-- Once a message was let in, while the inbox stays loaded, no message with its event id and timestamp is let in again: after any
-- arrivals and enforcement passes, while the clock does not run backwards, it is refused and
-- changes nothing, also when its entry was evicted and when the age bound has dropped its id.
pub never_twice :
    {Json : Type 0} (fault fault' : Fault) (i : Inbox Json) (n again : NewEntry Json)
    (now later : ℕ) (es : List (Event Json))
    → refuses i n now ≡ false
    → again.event_id ≡ n.event_id
    → again.ts_ms ≡ n.ts_ms
    → Clock now es
    → last_time now es ≤ later
    → let i' = run (ingest_at fault i n now).0 es in ingest_at fault' i' again later ≡ (i', none)
never_twice fault fault' i n again now later es accepted same_id same_ts c h =
    let i' = run (ingest_at fault i n now).0 es in
    ingest_at_refused i' again fault' later (
      Deduped-refuses (last_time now es) later i' again h (
        rw (same_id, same_ts)
          (run-Deduped n.event_id n.ts_ms now es (ingest_at fault i n now).0 c
            (accepted-Deduped fault now i n accepted))))
