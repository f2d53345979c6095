-- ===== src/Inbox/Evict.antt =====
-- What `prune_at` evicts over the cap: how many entries stay, and which.
use aqua_matrix_connector.Inbox.Entry.{InboxPolicy, InboxEntry}
use aqua_matrix_connector.Inbox.{EvictKey, key_le, evict_key, evictable, drop_set, evict}
use aqua_matrix_connector.Common.{
  List, ℕ, Bool, map, count, All, [], filter, ◌≡◌, false, true, ◌∷◌, length, arith, ◌==◌, refl,
  Bool-cases, ◌+◌, inl, ==_iff, subst, inr, ==_refl, ap, take, All-take, min, All-mono, suc, max,
  length-take, not, zero, ◌-◌, length-partition,
}
use aqua_matrix_connector.Common.Sort.{mem, Distinct, sort-Distinct, sort-All, sort, length-sort}

module _ {Json : Type 0} where
  abbrev pub seqs : List (InboxEntry Json) → List ℕ
  seqs = map λ e. e.seq

  count_no_seq :
      (d : ℕ) (es : List (InboxEntry Json))
      → mem d (seqs es) ≡ false
      → count (λ e. d == e.seq) es ≡ 0
  count_no_seq d [] h = refl
  count_no_seq d (e ∷ es) h = ground (arith, h, count_no_seq d es)

  count_one_seq :
      (d : ℕ) (es : List (InboxEntry Json))
      → Distinct (seqs es)
      → mem d (seqs es) ≡ true
      → count (λ e. d == e.seq) es ≡ 1
  count_one_seq d [] u h = ground arith
  count_one_seq d (e ∷ es) u h = elim (Bool-cases (e.seq == d)) [
    | inl hit ↦
        let same : e.seq ≡ d = (==_iff e.seq d).0 hit in
        ground (arith, same, hit, u.0, count_no_seq d es)
    | inr miss ↦ ground (arith, miss, h, count_one_seq d es u.1)
  ]

  count_cons :
      (d : ℕ) (ds : List ℕ) (es : List (InboxEntry Json))
      → mem d ds ≡ false
      → count (λ e. mem e.seq (d ∷ ds)) es
        ≡ count (λ e. d == e.seq) es + count (λ e. mem e.seq ds) es
  count_cons d ds [] h = omega arith
  count_cons d ds (e ∷ es) h = elim (Bool-cases (d == e.seq)) [
    | inl hit ↦
        let other : mem e.seq ds ≡ false =
          subst (λ (n : ℕ). mem n ds ≡ false) ((==_iff d e.seq).0 hit) h in
        ground (arith, hit, other, count_cons d ds es h)
    | inr miss ↦ ground (arith, miss, count_cons d ds es h)
  ]

  count_nil : (es : List (InboxEntry Json)) → count (λ e. mem e.seq []) es ≡ 0
  count_nil [] = refl
  count_nil (e ∷ es) = count_nil es

  -- A set of numbers that occur, each in one entry, selects as many entries.
  pub count-mem :
      (ds : List ℕ) (es : List (InboxEntry Json))
      → Distinct (seqs es)
      → Distinct ds
      → All (λ d. mem d (seqs es) ≡ true) ds
      → count (λ e. mem e.seq ds) es ≡ length ds
  count-mem [] es u v h = count_nil es
  count-mem (d ∷ ds) es u v h =
      omega (arith, count_cons d ds es v.0, count_one_seq d es u h.0, count-mem ds es u v.1 h.1)

  mem-filter-seqs :
      (p : InboxEntry Json → Bool) (n : ℕ) (es : List (InboxEntry Json))
      → mem n (seqs es) ≡ false
      → mem n (seqs (filter p es)) ≡ false
  mem-filter-seqs p n [] h = refl
  mem-filter-seqs p n (e ∷ es) h = ground (arith, h, mem-filter-seqs p n es)

  pub filter-Distinct :
      (p : InboxEntry Json → Bool) (es : List (InboxEntry Json))
      → Distinct (seqs es)
      → Distinct (seqs (filter p es))
  filter-Distinct p [] u = tt
  filter-Distinct p (e ∷ es) u =
      ground (arith, u, mem-filter-seqs p e.seq es, filter-Distinct p es u.1)

  filter_candidates :
      (p : InboxEntry Json → Bool) (es all : List (InboxEntry Json))
      → All (λ e. mem e.seq (seqs all) ≡ true) es
      → All (λ d. mem d (seqs all) ≡ true) (seqs (filter p es))
  filter_candidates p [] all h = tt
  filter_candidates p (e ∷ es) all h = ground (arith, filter_candidates p es all h.1)

  all_mem : (es : List (InboxEntry Json)) → All (λ e. mem e.seq (seqs es) ≡ true) es
  all_mem [] = tt
  all_mem (e ∷ es) =
      (ground (arith, ==_refl e.seq), All-mono (λ x h. ground (arith, h)) es (all_mem es))

  keys_seqs :
      (hard : Bool) (es : List (InboxEntry Json))
      → map (λ k. k.2) (map (evict_key hard) es) ≡ seqs es
  unfolding evict_key
  keys_seqs hard [] = refl
  keys_seqs hard (e ∷ es) = ap (◌∷◌ e.seq) (keys_seqs hard es)

-- A number that occurs among the first ones occurs.
mem-take : (d n : ℕ) (ds : List ℕ) → mem d ds ≡ false → mem d (take n ds) ≡ false
mem-take d zero ds h = refl
mem-take d (suc n) [] h = refl
mem-take d (suc n) (x ∷ ds) h = ground (arith, h, mem-take d n ds)

take-Distinct : (n : ℕ) (ds : List ℕ) → Distinct ds → Distinct (take n ds)
take-Distinct zero ds u = tt
take-Distinct (suc n) [] u = tt
take-Distinct (suc n) (d ∷ ds) u = (mem-take d n ds u.0, take-Distinct n ds u.1)

map-take {ℓ} :
    {A : Type ℓ} (f : A → ℕ) (n : ℕ) (xs : List A) → map f (take n xs) ≡ take n (map f xs)
map-take f zero xs = refl
map-take f (suc n) [] = refl
map-take f (suc n) (x ∷ xs) = ap (◌∷◌ (f x)) (map-take f n xs)

map-All {ℓ κ} :
    {A : Type ℓ} (f : A → ℕ) (P : ℕ → Type κ) (xs : List A)
    → All (λ x. P (f x)) xs
    → All P (map f xs)
map-All f P [] h = tt
map-All f P (x ∷ xs) h = (h.0, map-All f P xs h.1)

All-map {ℓ κ} :
    {A : Type ℓ} (f : A → ℕ) (P : ℕ → Type κ) (xs : List A)
    → All P (map f xs)
    → All (λ x. P (f x)) xs
All-map f P [] h = tt
All-map f P (x ∷ xs) h = (h.0, All-map f P xs h.1)

length-map {ℓ κ} :
    {A : Type ℓ} {B : Type κ} (f : A → B) (xs : List A) → length (map f xs) ≡ length xs
length-map f [] = refl
length-map f (x ∷ xs) = ap suc (length-map f xs)

module _ {Json : Type 0} (hard : Bool) (excess : ℕ) (es : List (InboxEntry Json))
    (u : Distinct (seqs es)) where
  candidates : List EvictKey
  candidates = map (evict_key hard) (filter (evictable hard) es)

  pub drop_set-Distinct : Distinct (drop_set hard excess es)
  unfolding drop_set candidates
  drop_set-Distinct = rw (map-take (λ (k : EvictKey). k.2)) (
      take-Distinct excess _ (
        sort-Distinct key_le (λ k. k.2) candidates
          (rw keys_seqs (filter-Distinct (evictable hard) es u))))

  pub drop_set-mem : All (λ d. mem d (seqs es) ≡ true) (drop_set hard excess es)
  unfolding drop_set candidates
  drop_set-mem =
      map-All (λ (k : EvictKey). k.2) (λ d. mem d (seqs es) ≡ true) _
        (All-take (λ (k : EvictKey). mem k.2 (seqs es) ≡ true) excess _
          (sort-All key_le (λ k. mem k.2 (seqs es) ≡ true) candidates
            (All-map (λ k. k.2) (λ d. mem d (seqs es) ≡ true) candidates
              (rw keys_seqs (filter_candidates (evictable hard) es es (all_mem es))))))

  pub length-drop_set : length (drop_set hard excess es) ≡ min excess (count (evictable hard) es)
  unfolding drop_set candidates
  length-drop_set = omega (
    arith,
    length-map (λ (k : EvictKey). k.2) (take excess (sort key_le candidates)),
    length-take excess (sort key_le candidates),
    length-sort key_le candidates,
    length-map (evict_key hard) (filter (evictable hard) es),
  )

module _ {Json : Type 0} (p : InboxPolicy) (es : List (InboxEntry Json))
    (u : Distinct (seqs es)) where
  -- Eviction keeps as many entries as the cap allows, and beyond it only those that may not go.
  pub length-evict :
      length (evict p es)
      ≡ min (length es) (max p.max_entries (count (λ e. not (evictable p.hard_cap e)) es))
  unfolding evict
  length-evict =
      let excess : ℕ = length es - p.max_entries in
      ground (
        arith,
        length-partition (λ e. mem e.seq (drop_set p.hard_cap excess es)) es,
        count-mem (drop_set p.hard_cap excess es) es u (drop_set-Distinct p.hard_cap excess es u)
            (drop_set-mem p.hard_cap excess es u),
        length-drop_set p.hard_cap excess es u,
        length-partition (evictable p.hard_cap) es,
      )
