-- ===== src/Common/Elem.antt =====
-- Membership by recursion, and what sorting, filtering and cutting do to it.
use Prim.Native.Nat.{ℕ, zero, suc}
use mathlib.Core.Path.{◌≡◌, refl, sym, ap, subst, ◌∙◌}
use mathlib.Core.Logic.{◌⊎◌, inl, inr}
use mathlib.Core.Bool.{Bool, true, false}
use mathlib.Core.List.{List, [], ◌∷◌, ◌++◌, map}
use aqua_matrix_connector.Common.Tests.{Bool-cases, unwrap_or}
use aqua_matrix_connector.Common.Lists.{All, take, drop, All-mono}
use aqua_matrix_connector.Common.Filter.{filter, find}
use aqua_matrix_connector.Common.Sort.{insert_sorted, sort, sort-All, insert_sorted-All}
use mathlib.Core.Option.{some, Option}
use native.Mathlib.Omega.{arith}

-- Over small types, so that the empty list gives `⊥`.
abbrev pub Elem : {A : Type 0} → A → List A → Type 0
Elem a [] = ⊥
Elem a (x ∷ xs) = (a ≡ x) ⊎ Elem a xs

module _ {A : Type 0} where
  pub All-Elem {κ} : (P : A → Type κ) (xs : List A) (a : A) → All P xs → Elem a xs → P a
  All-Elem P [] a h m = absurd m
  All-Elem P (x ∷ xs) a h (inl e) = subst P (sym e) h.0
  All-Elem P (x ∷ xs) a h (inr m) = All-Elem P xs a h.1 m

  pub All_of_Elem {κ} : {P : A → Type κ} (xs : List A) → ((a : A) → Elem a xs → P a) → All P xs
  All_of_Elem [] f = tt
  All_of_Elem (x ∷ xs) f = (f x (inl refl), All_of_Elem xs (λ a m. f a (inr m)))

  pub Elem-filter :
      (p : A → Bool) (xs : List A) (a : A) → Elem a xs → p a ≡ true → Elem a (filter p xs)
  Elem-filter p [] a m h = absurd m
  Elem-filter p (x ∷ xs) a (inl e) h = rw (sym (ap p e) ∙ h) (inl e)
  Elem-filter p (x ∷ xs) a (inr m) h = elim (Bool-cases (p x)) [
    | inl keep ↦ rw keep (inr (Elem-filter p xs a m h))
    | inr gone ↦ rw gone (Elem-filter p xs a m h)
  ]

  pub Elem-of_filter :
      (p : A → Bool) (xs : List A) (a : A) → Elem a (filter p xs) → Elem a xs × (p a ≡ true)
  Elem-of_filter p [] a m = absurd m
  Elem-of_filter p (x ∷ xs) a m = elim (Bool-cases (p x)) [
    | inl keep ↦ kept (Elem-of_filter p xs a) keep (rw keep at m)
    | inr gone ↦ let (r, h) = Elem-of_filter p xs a (rw gone at m) in (inr r, h)
  ]
    where
      kept :
          (Elem a (filter p xs) → Elem a xs × (p a ≡ true))
          → p x ≡ true
          → (a ≡ x) ⊎ Elem a (filter p xs)
          → Elem a (x ∷ xs) × (p a ≡ true)
      kept rec keep (inl e) = (inl e, ap p e ∙ keep)
      kept rec keep (inr r) = let (q, h) = rec r in (inr q, h)

  pub Elem-map : {B : Type 0} (f : A → B) (xs : List A) (a : A) → Elem a xs → Elem (f a) (map f xs)
  Elem-map f [] a m = absurd m
  Elem-map f (x ∷ xs) a (inl e) = inl (ap f e)
  Elem-map f (x ∷ xs) a (inr m) = inr (Elem-map f xs a m)

  pub Elem-of_map :
      {B : Type 0} (f : A → B) (xs : List A) (b : B)
      → Elem b (map f xs)
      → (a : A) × (b ≡ f a) × Elem a xs
  Elem-of_map f [] b m = absurd m
  Elem-of_map f (x ∷ xs) b (inl e) = (x, e, inl refl)
  Elem-of_map f (x ∷ xs) b (inr m) = let (a, e, r) = Elem-of_map f xs b m in (a, e, inr r)

  pub Elem-take-drop :
      (n : ℕ) (xs : List A) (a : A) → Elem a xs → Elem a (take n xs) ⊎ Elem a (drop n xs)
  Elem-take-drop zero xs a m = inr m
  Elem-take-drop (suc n) [] a m = absurd m
  Elem-take-drop (suc n) (x ∷ xs) a (inl e) = inl (inl e)
  Elem-take-drop (suc n) (x ∷ xs) a (inr m) = elim (Elem-take-drop n xs a m) [
    | inl t ↦ inl (inr t)
    | inr d ↦ inr d
  ]

  pub Elem-of_take : (n : ℕ) (xs : List A) (a : A) → Elem a (take n xs) → Elem a xs
  Elem-of_take zero xs a m = absurd m
  Elem-of_take (suc n) [] a m = absurd m
  Elem-of_take (suc n) (x ∷ xs) a (inl e) = inl e
  Elem-of_take (suc n) (x ∷ xs) a (inr m) = inr (Elem-of_take n xs a m)

  pub Elem-of_drop : (n : ℕ) (xs : List A) (a : A) → Elem a (drop n xs) → Elem a xs
  Elem-of_drop zero xs a m = m
  Elem-of_drop (suc n) [] a m = absurd m
  Elem-of_drop (suc n) (x ∷ xs) a m = inr (Elem-of_drop n xs a m)

  pub Elem-append_right : (xs ys : List A) (a : A) → Elem a ys → Elem a (xs ++ ys)
  Elem-append_right [] ys a m = m
  Elem-append_right (x ∷ xs) ys a m = inr (Elem-append_right xs ys a m)

-- Each element is before all later ones.
abbrev pub Sorted : {A : Type 0} → (A → A → Bool) → List A → Type 0
Sorted le [] = Unit
Sorted le (x ∷ xs) = All (λ y. le x y ≡ true) xs × Sorted le xs

module _ {A : Type 0} (le : A → A → Bool) where
  pub Elem-insert_sorted :
      (x : A) (ys : List A) (a : A) → Elem a (x ∷ ys) → Elem a (insert_sorted le x ys)
  unfolding insert_sorted
  Elem-insert_sorted x [] a m = m
  Elem-insert_sorted x (y ∷ ys) a (inl e) = elim (Bool-cases (le x y)) [
    | inl first ↦ rw first (inl e)
    | inr later ↦ rw later (inr (Elem-insert_sorted x ys a (inl e)))
  ]
  Elem-insert_sorted x (y ∷ ys) a (inr (inl e)) = elim (Bool-cases (le x y)) [
    | inl first ↦ rw first (inr (inl e))
    | inr later ↦ rw later (inl e)
  ]
  Elem-insert_sorted x (y ∷ ys) a (inr (inr m)) = elim (Bool-cases (le x y)) [
    | inl first ↦ rw first (inr (inr m))
    | inr later ↦ rw later (inr (Elem-insert_sorted x ys a (inr m)))
  ]

  pub Elem-sort : (xs : List A) (a : A) → Elem a xs → Elem a (sort le xs)
  unfolding sort
  Elem-sort [] a m = m
  Elem-sort (x ∷ xs) a (inl e) = Elem-insert_sorted x (sort le xs) a (inl e)
  Elem-sort (x ∷ xs) a (inr m) = Elem-insert_sorted x (sort le xs) a (inr (Elem-sort xs a m))

  pub Elem-of_sort : (xs : List A) (a : A) → Elem a (sort le xs) → Elem a xs
  Elem-of_sort xs a =
      All-Elem (λ b. Elem b xs) (sort le xs) a
        (sort-All le (λ b. Elem b xs) xs (All_of_Elem xs (λ b m. m)))

  module _ (total : (x y : A) → le x y ≡ false → le y x ≡ true)
      (trans : (x y z : A) → le x y ≡ true → le y z ≡ true → le x z ≡ true) where
    insert_sorted-Sorted : (x : A) (ys : List A) → Sorted le ys → Sorted le (insert_sorted le x ys)
    unfolding insert_sorted
    insert_sorted-Sorted x [] s = (tt, tt)
    insert_sorted-Sorted x (y ∷ ys) s = elim (Bool-cases (le x y)) [
      | inl first ↦ rw first ((first, All-mono (λ z h. trans x y z first h) ys s.0), s)
      | inr later ↦ rw later (
        insert_sorted-All le (λ z. le y z ≡ true) x ys (total x y later) s.0,
        insert_sorted-Sorted x ys s.1,
      )
    ]

    pub sort-Sorted : (xs : List A) → Sorted le (sort le xs)
    unfolding sort
    sort-Sorted [] = tt
    sort-Sorted (x ∷ xs) = insert_sorted-Sorted x (sort le xs) (sort-Sorted xs)

  -- In a sorted list the first ones are before the others.
  pub take-before-drop :
      (n : ℕ) (xs : List A) (a b : A)
      → Sorted le xs
      → Elem a (take n xs)
      → Elem b (drop n xs)
      → le a b ≡ true
  take-before-drop zero xs a b s m k = absurd m
  take-before-drop (suc n) [] a b s m k = absurd m
  take-before-drop (suc n) (x ∷ xs) a b s (inl e) k =
      ap (λ y. le y b) e ∙ All-Elem (λ y. le x y ≡ true) xs b s.0 (Elem-of_drop n xs b k)
  take-before-drop (suc n) (x ∷ xs) a b s (inr m) k = take-before-drop n xs a b s.1 m k

pub some_injective : {A : Type 0} (x y : A) → some x ≡ some y → x ≡ y
some_injective {A = A} x y e = ap (λ (o : Option A). unwrap_or o x) e

pub find-Elem : {A : Type 0} (p : A → Bool) (xs : List A) (a : A) → find p xs ≡ some a → Elem a xs
find-Elem p [] a h = ground arith
find-Elem p (x ∷ xs) a h = elim (Bool-cases (p x)) [
  | inl hit ↦ inl (sym (some_injective x a (rw hit at h)))
  | inr miss ↦ inr (find-Elem p xs a (rw miss at h))
]
