-- ===== src/Inbox/Selection.antt =====
-- What a query selects: its contract, and `query` against it.
use aqua_matrix_connector.Inbox.Entry.{InboxEntry}
use aqua_matrix_connector.Inbox.{Inbox, Query}
use aqua_matrix_connector.Inbox.Reads.{fits, seq_le, newest, query}
use aqua_matrix_connector.Common.{
  Option, List, ℕ, filter, ◌≡◌, false, true, drop, length, some, min, count, arith, Bool-cases, ◌-◌,
  suc, ◌∷◌, ltb, length-drop, ◌≤◌, none, refl, inl, zero, inr, [], ◌∙◌, ap, leb→le,
}
use aqua_matrix_connector.Common.Sort.{sort, length-sort}
use aqua_matrix_connector.Common.Elem.{
  Elem, Sorted, sort-Sorted, Elem-of_filter, Elem-of_sort, Elem-of_drop, Elem-take-drop, Elem-sort,
  Elem-filter, take-before-drop,
}

-- `cap limit n` is `n`, or the limit where that is smaller.
abbrev pub cap : Option ℕ → ℕ → ℕ
cap none n = n
cap (some limit) n = min limit n

pub record QuerySpec {Json : Type 0} (q : Query) (held out : List (InboxEntry Json)) : Type 0 where
  -- Only held entries that fit every filter, oldest first.
  pub sound : (e : InboxEntry Json) → Elem e out → Elem e held × (fits q e ≡ true)
  pub sorted : Sorted seq_le out
  -- As many as fit, up to the limit.
  pub size : length out ≡ cap q.limit (count (fits q) held)
  -- What fits and is left out is not newer than what is selected.
  pub newest_kept :
      (e f : InboxEntry Json)
      → Elem e held
      → fits q e ≡ true
      → ¬ Elem e out
      → Elem f out
      → e.seq ≤ f.seq

module _ {Json : Type 0} where
  seq_le_total : (x y : InboxEntry Json) → seq_le x y ≡ false → seq_le y x ≡ true
  seq_le_total x y h = ground arith

  seq_le_trans :
      (x y z : InboxEntry Json) → seq_le x y ≡ true → seq_le y z ≡ true → seq_le x z ≡ true
  seq_le_trans x y z h k = ground arith

  drop-Sorted : (n : ℕ) (es : List (InboxEntry Json)) → Sorted seq_le es → Sorted seq_le (drop n es)
  drop-Sorted zero es s = s
  drop-Sorted (suc n) [] s = s
  drop-Sorted (suc n) (e ∷ es) s = drop-Sorted n es s.1

  -- `newest` is a `drop` of the first ones.
  cut : Option ℕ → List (InboxEntry Json) → ℕ
  cut none es = 0
  cut (some limit) es = length es - limit

  newest-drop :
      (limit : Option ℕ) (es : List (InboxEntry Json)) → newest limit es ≡ drop (cut limit es) es
  unfolding newest cut
  newest-drop none es = refl
  newest-drop (some limit) es = elim (Bool-cases (ltb limit (length es))) [
    | inl over ↦ rw over refl
    | inr within ↦
        let nothing : length es - limit ≡ 0 = ground (arith, within) in rw within (rw nothing refl)
  ]

  length-newest :
      (limit : Option ℕ) (es : List (InboxEntry Json))
      → length (newest limit es) ≡ cap limit (length es)
  unfolding cut
  length-newest none es = rw newest-drop refl
  length-newest (some limit) es = rw newest-drop (omega (arith, length-drop (length es - limit) es))

  -- A query returns held entries that fit every filter, in the order of their numbers, as many as fit
  -- up to the limit; an entry that fits and is left out has no higher number than one returned.
  pub query-QuerySpec : (i : Inbox Json) (q : Query) → QuerySpec q i.entries (query i q)
  unfolding query
  query-QuerySpec i q =
      let found = filter (fits q) i.entries in
      let ordered = sort seq_le found in
      let n = cut q.limit ordered in
      let by_seq = sort-Sorted seq_le seq_le_total seq_le_trans found in
      rw newest-drop (record {
        sound = λ e m.
            Elem-of_filter (fits q) i.entries e
              (Elem-of_sort seq_le found e (Elem-of_drop n ordered e m));
        sorted = drop-Sorted n ordered by_seq;
        size =
            rw (← newest-drop)
              (length-newest q.limit ordered ∙ ap (cap q.limit) (length-sort seq_le found));
        newest_kept = λ e f me ok out mf.
            elim (Elem-take-drop n ordered e
              (Elem-sort seq_le found e (Elem-filter (fits q) i.entries e me ok))) [
                | inl first ↦
                    leb→le e.seq f.seq (take-before-drop seq_le n ordered e f by_seq first mf)
                | inr last ↦ absurd (out last)
              ];
      })
