-- ===== src/Inbox/Arrive.antt =====
-- A message that is let in outlasts the next enforcement pass at the same time.
use aqua_matrix_connector.Common.{
  ℕ, Bool, if◌then◌else◌, ◌≡◌, false, ◌∙◌, true, refl, inl, arith, inr,
}
use aqua_matrix_connector.Inbox.{
  prune_at, persist, enforce_at, Inbox, Fault, refuses, push_entry, evictable, ingest_at,
}
use aqua_matrix_connector.Inbox.Ingest.{
  ingest_at_accepted, ingest_at_contract, ingest_at-IsValid, persist_if-entries, refuses_parts,
}
use aqua_matrix_connector.Inbox.Entry.{NewEntry, InboxEntry, entry_of, is_new}
use aqua_matrix_connector.Inbox.Valid.{IsValid, persist_fields, prune_at_fields, valid-Distinct}
use aqua_matrix_connector.Common.Elem.{Elem}
use aqua_matrix_connector.Inbox.Prune.{prune_at-PruneSpec}

module _ {Json : Type 0} where
  persist_if-policy :
      (b : Bool) (fault : Fault) (i : Inbox Json)
      → (if b then persist fault i else i).policy ≡ i.policy
  persist_if-policy true fault i = (persist_fields fault i).3
  persist_if-policy false fault i = refl

  entries-enforce_at :
      (fault : Fault) (i : Inbox Json) (now : ℕ)
      → (enforce_at fault i now).0.entries ≡ (prune_at i now).0.entries
  unfolding enforce_at
  entries-enforce_at fault i now = persist_if-entries _ fault (prune_at i now).0

  pub policy-enforce_at :
      (fault : Fault) (i : Inbox Json) (now : ℕ) → (enforce_at fault i now).0.policy ≡ i.policy
  unfolding enforce_at
  policy-enforce_at fault i now =
      persist_if-policy _ fault (prune_at i now).0 ∙ (prune_at_fields i now).2

  module _ (i : Inbox Json) (n : NewEntry Json) (now : ℕ) (v : IsValid i)
      (soft : i.policy.hard_cap ≡ false) (accepted : refuses i n now ≡ false) where
    abbrev arrived : InboxEntry Json
    arrived = entry_of n i.next_seq

    policy-ingest_at : (fault : Fault) → (ingest_at fault i n now).0.policy ≡ i.policy
    unfolding push_entry
    policy-ingest_at fault = rw (ingest_at_accepted i n fault now accepted) (
        persist_if-policy _ fault (prune_at (push_entry i n) now).0
        ∙ (prune_at_fields (push_entry i n) now).2)

    Elem-ingest_at : (fault : Fault) → Elem arrived (ingest_at fault i n now).0.entries
    Elem-ingest_at fault =
        let (spec, number, (out, within), let_in) = ingest_at_contract i n fault now v accepted in
        elim let_in [ inl hard ↦ ground (arith, hard, soft) | inr answer ↦ out answer ]

    stays : evictable i.policy.hard_cap arrived ≡ false
    unfolding evictable is_new entry_of
    stays = rw soft refl

    -- Without a hard cap: whatever the writes meet.
    pub Elem-enforce-ingest :
        (fault fault' : Fault)
        → Elem arrived (enforce_at fault' (ingest_at fault i n now).0 now).0.entries
    Elem-enforce-ingest fault fault' =
        let i' = (ingest_at fault i n now).0 in
        let spec =
          prune_at-PruneSpec i' now (valid-Distinct i' (ingest_at-IsValid i n fault now v)) in
        rw entries-enforce_at (
          spec.protected_stay arrived (Elem-ingest_at fault)
            (rw policy-ingest_at (refuses_parts i n now accepted).1) (rw policy-ingest_at stays))
