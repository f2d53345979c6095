-- ===== src/Inbox/Prune.antt =====
-- The contract of one enforcement pass, and `prune_at` against it.
use aqua_matrix_connector.Inbox.Entry.{
  new, seen, processed, InboxPolicy, InboxEntry, state_eq, state, State,
}
use aqua_matrix_connector.Inbox.{
  Inbox, key_le, evict_key, evictable, drop_set, evict, allowed, prune_at,
}
use aqua_matrix_connector.Inbox.Evict.{seqs, filter-Distinct, length-evict}
use aqua_matrix_connector.Inbox.Order.{dropped-before-kept, protected-kept}
use aqua_matrix_connector.Common.{
  ℕ, List, length, Bool, ◌≡◌, true, ltb, filter, false, ◌-◌, refl, min, not, Bool-cases, ◌&&◌, max,
  subst, arith, inl, count, ap, ◌∙◌, inr, sym, and_parts, filter_all, ◌||◌, ◌==◌, leb,
}
use aqua_matrix_connector.Common.Elem.{Elem, Elem-of_filter, Elem-filter, All_of_Elem}
use aqua_matrix_connector.Common.Sort.{Distinct, mem}

-- Without a hard cap seen entries go after the others; `sooner` decides among the rest.
pub by_states : Bool → State → State → Bool → Bool
by_states true s t sooner = sooner
by_states false seen seen sooner = sooner
by_states false seen t sooner = false
by_states false s seen sooner = true
by_states false s t sooner = sooner

-- The eviction order as the policy is documented: without a hard cap a processed entry goes before a
-- seen one; otherwise the earlier server timestamp goes first, and of two equal ones the lower number.
pub goes_first : {Json : Type 0} → Bool → InboxEntry Json → InboxEntry Json → Bool
goes_first hard e f =
    by_states hard (state e) (state f)
      (ltb e.ts_ms f.ts_ms || (e.ts_ms == f.ts_ms && leb e.seq f.seq))

key_le_states :
    (hard : Bool) (s t : State) (a b c d : ℕ)
    → key_le (not hard && state_eq s seen, a, b) (not hard && state_eq t seen, c, d)
      ≡ by_states hard s t (ltb a c || (a == c && leb b d))
unfolding key_le state_eq by_states
key_le_states true s t a b c d = refl
key_le_states false new new a b c d = refl
key_le_states false new seen a b c d = refl
key_le_states false new processed a b c d = refl
key_le_states false seen new a b c d = refl
key_le_states false seen seen a b c d = refl
key_le_states false seen processed a b c d = refl
key_le_states false processed new a b c d = refl
key_le_states false processed seen a b c d = refl
key_le_states false processed processed a b c d = refl

key_le-goes_first :
    {Json : Type 0} (hard : Bool) (e f : InboxEntry Json)
    → key_le (evict_key hard e) (evict_key hard f) ≡ goes_first hard e f
unfolding goes_first evict_key
key_le-goes_first hard e f = key_le_states hard (state e) (state f) e.ts_ms e.seq f.ts_ms f.seq

-- What a pass at `now` leaves of the entries `before`.
pub record PruneSpec {Json : Type 0} (p : InboxPolicy) (now : ℕ)
    (before after : List (InboxEntry Json)) : Type 0 where
  -- Only entries that the policy allows by kind and age stay, and none appears.
  pub allowed_only : (e : InboxEntry Json) → Elem e after → Elem e before × (allowed p now e ≡ true)
  -- Of the allowed ones, those that may not be evicted stay whatever the cap.
  pub protected_stay :
      (e : InboxEntry Json)
      → Elem e before
      → allowed p now e ≡ true
      → evictable p.hard_cap e ≡ false
      → Elem e after
  -- No more go than the cap demands.
  pub size :
      let kept = filter (allowed p now) before in
      length after
      ≡ min (length kept) (max p.max_entries (count (λ e. not (evictable p.hard_cap e)) kept))
  -- What goes over the cap comes no later in the eviction order than what could have gone and stays.
  pub oldest_first :
      (e f : InboxEntry Json)
      → Elem e before
      → allowed p now e ≡ true
      → ¬ Elem e after
      → Elem f after
      → evictable p.hard_cap f ≡ true
      → (evictable p.hard_cap e ≡ true) × (goes_first p.hard_cap e f ≡ true)

module _ {Json : Type 0} (p : InboxPolicy) (es : List (InboxEntry Json)) where
  pub dropped : InboxEntry Json → Bool
  dropped e =
      ltb 0 (length es - p.max_entries)
      && mem e.seq (drop_set p.hard_cap (length es - p.max_entries) es)

  pub evict-filter : evict p es ≡ filter (λ e. not (dropped e)) es
  unfolding evict dropped
  evict-filter = elim (Bool-cases (ltb 0 (length es - p.max_entries))) [
    | inl over ↦ rw over refl
    | inr fits ↦ rw fits (sym (filter_all (λ e. true) es (All_of_Elem es (λ a m. refl))))
  ]

module _ {Json : Type 0} (i : Inbox Json) (now : ℕ) (u : Distinct (seqs i.entries)) where
  kept : List (InboxEntry Json)
  kept = filter (allowed i.policy now) i.entries

  kept-Distinct : Distinct (seqs kept)
  unfolding kept
  kept-Distinct = filter-Distinct (allowed i.policy now) i.entries u

  after : List (InboxEntry Json)
  after = (prune_at i now).0.entries

  after-evict : after ≡ evict i.policy kept
  unfolding after kept prune_at
  after-evict = refl

  stays : (e : InboxEntry Json) → Elem e kept → dropped i.policy kept e ≡ false → Elem e after
  stays e m h =
      rw (after-evict, evict-filter i.policy kept)
        (Elem-filter (λ x. not (dropped i.policy kept x)) kept e m (rw h))

  stayed : (e : InboxEntry Json) → Elem e after → Elem e kept × (dropped i.policy kept e ≡ false)
  stayed e m =
      let (k, h) =
        Elem-of_filter (λ x. not (dropped i.policy kept x)) kept e
          (subst (Elem e) (after-evict ∙ evict-filter i.policy kept) m) in
      (k, ground (arith, h))

  gone : (e : InboxEntry Json) → Elem e kept → ¬ Elem e after → dropped i.policy kept e ≡ true
  gone e m out = elim (Bool-cases (dropped i.policy kept e)) [
    | inl h ↦ h
    | inr h ↦ absurd (out (stays e m h))
  ]

  -- For entries with distinct sequence numbers, an enforcement pass keeps only entries that the policy
  -- allows by kind and age; it keeps every allowed one that may not be evicted (without a hard cap: the
  -- new ones); it leaves as many as the cap demands and no fewer; and each allowed entry that goes
  -- comes no later in the eviction order than each evictable one that stays.
  pub prune_at-PruneSpec : PruneSpec i.policy now i.entries (prune_at i now).0.entries
  unfolding after kept dropped
  prune_at-PruneSpec = record {
    allowed_only = λ e m. Elem-of_filter (allowed i.policy now) i.entries e (stayed e m).0;
    protected_stay = λ e m ok safe. stays e (Elem-filter (allowed i.policy now) i.entries e m ok) (
        ground (
          arith,
          protected-kept i.policy.hard_cap (length kept - i.policy.max_entries) kept kept-Distinct e
              (Elem-filter (allowed i.policy now) i.entries e m ok) safe,
        ));
    size = ap length after-evict ∙ length-evict i.policy kept kept-Distinct;
    oldest_first = λ e f me ok out mf may_go.
        let ke = Elem-filter (allowed i.policy now) i.entries e me ok in
        let he = and_parts (ltb 0 (length kept - i.policy.max_entries)) _ (gone e ke out) in
        rw (← key_le-goes_first i.policy.hard_cap e f) (
          dropped-before-kept i.policy.hard_cap (length kept - i.policy.max_entries) kept
            kept-Distinct e f ke (stayed f mf).0 he.1 (ground (arith, he.0, (stayed f mf).1))
            may_go);
  }
