-- ===== src/Inbox/Order.antt =====
-- Which entries `prune_at` evicts over the cap: never a protected one, and in the order of the keys.
use mathlib.Core.Bool.{false≢true}
use aqua_matrix_connector.Inbox.Entry.{InboxEntry}
use aqua_matrix_connector.Inbox.{EvictKey, key_le, evict_key, evictable, drop_set}
use aqua_matrix_connector.Inbox.Evict.{seqs}
use aqua_matrix_connector.Common.{
  ℕ, List, Bool, ◌≡◌, false, true, arith, map, take, ◌∷◌, filter, subst, Bool-cases, inl, ap, ◌==◌,
  ◌∙◌, ==_iff, ==_refl, sym, inr, [], drop, refl,
}
use aqua_matrix_connector.Common.Sort.{mem, Distinct, sort}
use aqua_matrix_connector.Common.Elem.{
  Elem, Elem-of_map, Elem-of_take, take-before-drop, Elem-of_sort, Elem-sort, sort-Sorted,
  Elem-of_filter, Elem-map, Elem-filter, Elem-take-drop,
}

key_le_total : (x y : EvictKey) → key_le x y ≡ false → key_le y x ≡ true
unfolding key_le
key_le_total (false, t, s) (false, t', s') h = ground arith
key_le_total (false, t, s) (true, t', s') h = ground arith
key_le_total (true, t, s) (false, t', s') h = ground arith
key_le_total (true, t, s) (true, t', s') h = ground arith

key_le_trans : (x y z : EvictKey) → key_le x y ≡ true → key_le y z ≡ true → key_le x z ≡ true
unfolding key_le
key_le_trans (false, t, s) (false, t', s') (false, t'', s'') h k = ground arith
key_le_trans (false, t, s) (false, t', s') (true, t'', s'') h k = ground arith
key_le_trans (false, t, s) (true, t', s') (false, t'', s'') h k = ground arith
key_le_trans (false, t, s) (true, t', s') (true, t'', s'') h k = ground arith
key_le_trans (true, t, s) (false, t', s') (z, t'', s'') h k = ground arith
key_le_trans (true, t, s) (true, t', s') (false, t'', s'') h k = ground arith
key_le_trans (true, t, s) (true, t', s') (true, t'', s'') h k = ground arith

pub mem_to_Elem :
    {A : Type 0} (f : A → ℕ) (xs : List A) (n : ℕ)
    → mem n (map f xs) ≡ true
    → (x : A) × Elem x xs × (f x ≡ n)
mem_to_Elem f [] n h = ground arith
mem_to_Elem f (x ∷ xs) n h = elim (Bool-cases (f x == n)) [
  | inl hit ↦ (x, inl refl, (==_iff (f x) n).0 hit)
  | inr miss ↦ let (y, m, e) = mem_to_Elem f xs n (ground (arith, miss, h)) in (y, inr m, e)
]

pub Elem-to_mem :
    {A : Type 0} (f : A → ℕ) (xs : List A) (x : A) → Elem x xs → mem (f x) (map f xs) ≡ true
Elem-to_mem f [] x m = absurd m
Elem-to_mem f (y ∷ xs) x (inl e) = ground (arith, ap f e, ==_refl (f x))
Elem-to_mem f (y ∷ xs) x (inr m) = ground (arith, Elem-to_mem f xs x m)

module _ {Json : Type 0} where
  -- A sequence number stands for one entry.
  pub seq_unique :
      (es : List (InboxEntry Json)) (a b : InboxEntry Json)
      → Distinct (seqs es)
      → Elem a es
      → Elem b es
      → a.seq ≡ b.seq
      → a ≡ b
  seq_unique [] a b u m k e = absurd m
  seq_unique (x ∷ es) a b u (inl m) (inl k) e = m ∙ sym k
  seq_unique (x ∷ es) a b u (inl m) (inr k) e = ground (
    arith,
    u.0,
    e,
    ap (λ (y : InboxEntry Json). y.seq) m,
    Elem-to_mem (λ (y : InboxEntry Json). y.seq) es b k,
  )
  seq_unique (x ∷ es) a b u (inr m) (inl k) e = ground (
    arith,
    u.0,
    e,
    ap (λ (y : InboxEntry Json). y.seq) k,
    Elem-to_mem (λ (y : InboxEntry Json). y.seq) es a m,
  )
  seq_unique (x ∷ es) a b u (inr m) (inr k) e = seq_unique es a b u.1 m k e

  module _ (hard : Bool) (excess : ℕ) (es : List (InboxEntry Json)) (u : Distinct (seqs es)) where
    order : List EvictKey
    order = sort key_le (map (evict_key hard) (filter (evictable hard) es))

    -- A key in the order is that of an evictable entry.
    key_source :
        (k : EvictKey)
        → Elem k order
        → (e : InboxEntry Json) × (k ≡ evict_key hard e) × Elem e es × (evictable hard e ≡ true)
    unfolding order
    key_source k m =
        let (e, eq, c) =
          Elem-of_map (evict_key hard) (filter (evictable hard) es) k
            (Elem-of_sort key_le (map (evict_key hard) (filter (evictable hard) es)) k m) in
        let (at, may_go) = Elem-of_filter (evictable hard) es e c in (e, eq, at, may_go)

    seq-evict_key : (e : InboxEntry Json) → (evict_key hard e).2 ≡ e.seq
    unfolding evict_key
    seq-evict_key e = refl

    -- A dropped number belongs to an evictable entry, whose key is among the first.
    dropped_key :
        (e : InboxEntry Json)
        → Elem e es
        → mem e.seq (drop_set hard excess es) ≡ true
        → Elem (evict_key hard e) (take excess order) × (evictable hard e ≡ true)
    unfolding drop_set order
    dropped_key e m h =
        let (k, first, number) = mem_to_Elem (λ (k : EvictKey). k.2) (take excess order) e.seq h in
        let (e', eq, at, may_go) = key_source k (Elem-of_take excess order k first) in
        let same : e' ≡ e =
          seq_unique es e' e u at m
            (sym (ap (λ (x : EvictKey). x.2) eq ∙ seq-evict_key e') ∙ number) in
        (
          subst (λ (x : InboxEntry Json). Elem (evict_key hard x) (take excess order)) same
              (subst (λ (x : EvictKey). Elem x (take excess order)) eq first),
          subst (λ (x : InboxEntry Json). evictable hard x ≡ true) same may_go,
        )

    -- An evictable entry whose number is not dropped has its key among the others.
    kept_key :
        (f : InboxEntry Json)
        → Elem f es
        → evictable hard f ≡ true
        → mem f.seq (drop_set hard excess es) ≡ false
        → Elem (evict_key hard f) (drop excess order)
    unfolding drop_set order evict_key
    kept_key f m may_go h = elim (Elem-take-drop excess order (evict_key hard f) placed) [
      | inl first ↦ absurd (
          false≢true (
            sym h
            ∙ Elem-to_mem (λ (k : EvictKey). k.2) (take excess order) (evict_key hard f) first))
      | inr later ↦ later
    ]
      where
        placed : Elem (evict_key hard f) order
        placed =
            Elem-sort key_le (map (evict_key hard) (filter (evictable hard) es)) (evict_key hard f)
              (Elem-map (evict_key hard) (filter (evictable hard) es) f
                (Elem-filter (evictable hard) es f m may_go))

    pub dropped-before-kept :
        (e f : InboxEntry Json)
        → Elem e es
        → Elem f es
        → mem e.seq (drop_set hard excess es) ≡ true
        → mem f.seq (drop_set hard excess es) ≡ false
        → evictable hard f ≡ true
        → (evictable hard e ≡ true) × (key_le (evict_key hard e) (evict_key hard f) ≡ true)
    unfolding order
    dropped-before-kept e f me mf he hf may_go =
        let (first, may_go') = dropped_key e me he in
        (
          may_go',
          take-before-drop key_le excess order (evict_key hard e) (evict_key hard f)
              (sort-Sorted key_le key_le_total key_le_trans
                (map (evict_key hard) (filter (evictable hard) es)))
              first (kept_key f mf may_go hf),
        )

    pub protected-kept :
        (f : InboxEntry Json)
        → Elem f es
        → evictable hard f ≡ false
        → mem f.seq (drop_set hard excess es) ≡ false
    protected-kept f m stays = elim (Bool-cases (mem f.seq (drop_set hard excess es))) [
      | inl gone ↦ absurd (false≢true (sym stays ∙ (dropped_key f m gone).1))
      | inr kept ↦ kept
    ]
