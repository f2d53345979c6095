-- ===== src/Dm/Choice.antt =====
-- The room that is found is one with the best verdict.
use aqua_matrix_connector.Dm.{
  DmCandidate, candidate_le, pick_dm_candidate, rank, rank_of, DmObserver, target_absent,
}
use aqua_matrix_connector.Common.{
  List, ◌≡◌, ◌∷◌, true, false, All, Bool-cases, head?, is_some, ◌≤◌, [], arith, some, inl, All-mono,
  subst, filter, inr, refl, Bool, find, filter-All_of, sym, ℕ, unwrap_or, Option-cases, ltb, length,
  map, ap, ◌>>=◌, ◌∙◌,
}
use aqua_matrix_connector.Common.Sort.{sort, insert_sorted, insert_sorted-All}
use aqua_matrix_connector.Common.Elem.{
  Elem, Elem-sort, All-Elem, Elem-filter, Elem-of_filter, Elem-of_sort, Elem-map, Elem-of_map,
}
use aqua_matrix_connector.Common.Text.{Text, text_eq, text_eq_refl}
use aqua_matrix_connector.Dm.Rooms.{Room, is_usable, candidate, find_dm_room, dm_verdict}

-- No later candidate has a better verdict than the first.
abbrev TopFirst : List DmCandidate → Type 0
TopFirst [] = Unit
TopFirst (c ∷ cs) = All (λ d. rank_of d ≤ rank_of c) cs

candidate_le-rank : (a b : DmCandidate) → candidate_le a b ≡ true → rank_of b ≤ rank_of a
unfolding candidate_le rank
candidate_le-rank a b h = ground (arith, h)

not_candidate_le-rank : (a b : DmCandidate) → candidate_le a b ≡ false → rank_of a ≤ rank_of b
unfolding candidate_le rank
not_candidate_le-rank a b h = ground (arith, h)

insert_sorted-TopFirst :
    (x : DmCandidate) (ys : List DmCandidate)
    → TopFirst ys
    → TopFirst (insert_sorted candidate_le x ys)
unfolding insert_sorted
insert_sorted-TopFirst x [] h = tt
insert_sorted-TopFirst x (y ∷ ys) h = elim (Bool-cases (candidate_le x y)) [
  | inl before ↦
      let better : rank_of y ≤ rank_of x = candidate_le-rank x y before in
      rw before (better, All-mono (λ d k. omega (arith, k, better)) ys h)
  | inr after ↦ rw after (
      insert_sorted-All candidate_le (λ d. rank_of d ≤ rank_of y) x ys
        (not_candidate_le-rank x y after) h)
]

sort-TopFirst : (xs : List DmCandidate) → TopFirst (sort candidate_le xs)
unfolding sort
sort-TopFirst [] = tt
sort-TopFirst (x ∷ xs) = insert_sorted-TopFirst x (sort candidate_le xs) (sort-TopFirst xs)

first_is_best :
    (xs : List DmCandidate) (d : DmCandidate)
    → TopFirst xs
    → Elem d xs
    → (c : DmCandidate) × (head? xs ≡ some c) × Elem c xs × (rank_of d ≤ rank_of c)
first_is_best [] d top m = absurd m
first_is_best (c ∷ cs) d top (inl e) =
    (c, refl, inl refl, subst (λ x. rank_of d ≤ rank_of x) e (omega arith))
first_is_best (c ∷ cs) d top (inr m) =
    (c, refl, inl refl, All-Elem (λ x. rank_of x ≤ rank_of c) cs d top m)

-- `pick_dm_candidate` takes a candidate with the best verdict.
pub pick_dm_candidate-best :
    (xs : List DmCandidate) (d : DmCandidate)
    → Elem d xs
    → is_some (rank d.verdict) ≡ true
    → (c : DmCandidate) × (pick_dm_candidate xs ≡ some c.room_id)
      × Elem c xs
      × (rank_of d ≤ rank_of c)
unfolding pick_dm_candidate
pick_dm_candidate-best xs d m ranked =
    let usable = filter (λ c. is_some (rank c.verdict)) xs in
    let (c, first, inside, better) =
      first_is_best (sort candidate_le usable) d (sort-TopFirst usable) (
        Elem-sort candidate_le usable d
          (Elem-filter (λ c. is_some (rank c.verdict)) xs d m ranked)) in
    (
      c,
      rw (first, pick_dm_candidate) refl,
      (Elem-of_filter (λ c. is_some (rank c.verdict)) xs c
          (Elem-of_sort candidate_le usable c inside)).0,
      better,
    )

-- No two rooms have the same id.
abbrev pub IdsDistinct : List Room → Type 0
IdsDistinct [] = Unit
IdsDistinct (r ∷ rs) = All (λ q. text_eq r.room_id q.room_id ≡ false) rs × IdsDistinct rs

filter-IdsDistinct : (p : Room → Bool) (rs : List Room) → IdsDistinct rs → IdsDistinct (filter p rs)
filter-IdsDistinct p [] d = tt
filter-IdsDistinct p (r ∷ rs) d = elim (Bool-cases (p r)) [
  | inl keep ↦ rw keep (
    filter-All_of (λ q. text_eq r.room_id q.room_id ≡ false) p rs d.0,
    filter-IdsDistinct p rs d.1,
  )
  | inr gone ↦ rw gone (filter-IdsDistinct p rs d.1)
]

find_by_id :
    (rs : List Room) (r : Room)
    → IdsDistinct rs
    → Elem r rs
    → find (λ q. text_eq q.room_id r.room_id) rs ≡ some r
find_by_id [] r d m = absurd m
find_by_id (q ∷ rs) r d (inl e) =
    subst (λ (x : Room). find (λ y. text_eq y.room_id x.room_id) (q ∷ rs) ≡ some x) (sym e)
      (rw (text_eq_refl q.room_id) refl)
find_by_id (q ∷ rs) r d (inr m) =
    rw (All-Elem (λ x. text_eq q.room_id x.room_id ≡ false) rs r d.0 m) (find_by_id rs r d.1 m)

module _ (own target : Text) (observers : List DmObserver) where
  -- 2 where the target joined, 1 where it is invited.
  abbrev pub room_rank : Room → ℕ
  room_rank r = unwrap_or (rank (unwrap_or (dm_verdict own target observers r) target_absent)) 0

  usable-ranked :
      (choice : Bool) (q : Room)
      → is_usable own target observers q ≡ true
      → is_some (rank (candidate own target observers choice q).verdict) ≡ true
  unfolding is_usable candidate
  usable-ranked choice q h = elim (Option-cases (dm_verdict own target observers q)) [
    | inl unread ↦ ground (arith, rw unread at h)
    | inr (v, known) ↦ rw known (rw known at h)
  ]

  -- Where the joined rooms have distinct ids and one of them is usable as the direct chat, a room is
  -- found, and its verdict is at least as good as that of any usable room: a room that the target
  -- joined goes before one it is only invited to.
  pub find_dm_room-best :
      (rooms : List Room) (q : Room)
      → IdsDistinct rooms
      → Elem q rooms
      → is_usable own target observers q ≡ true
      → (r : Room) × (find_dm_room own target observers rooms ≡ some r)
        × (room_rank q ≤ room_rank r)
  unfolding find_dm_room candidate
  find_dm_room-best rooms q distinct m h =
      let usable = filter (is_usable own target observers) rooms in
      let choice = ltb 1 (length usable) in
      let as_candidate = candidate own target observers choice in
      let (c, picked, inside, better) =
        pick_dm_candidate-best (map as_candidate usable) (as_candidate q)
          (Elem-map as_candidate usable q
            (Elem-filter (is_usable own target observers) rooms q m h))
          (usable-ranked choice q h) in
      let (r, same, there) = Elem-of_map as_candidate usable c inside in
      (
        r,
        ap (λ o. o >>= λ chosen. find (λ y. text_eq y.room_id chosen) usable) picked
            ∙ ap (λ (d : DmCandidate). find (λ y. text_eq y.room_id d.room_id) usable) same
            ∙ find_by_id usable r
                (filter-IdsDistinct (is_usable own target observers) rooms distinct) there,
        subst (λ (d : DmCandidate). room_rank q ≤ rank_of d) same better,
      )
