-- ===== src/Common/Sort.antt =====
-- `sort_unstable` and `sort_by_key` as insertion sort by a Boolean order, and numbers in a list.
use Prim.Native.Nat.{ℕ, suc}
use mathlib.Core.Path.{◌≡◌, refl}
use mathlib.Core.Bool.{Bool, false, ◌||◌}
use mathlib.Core.List.{List, [], ◌∷◌, map}
use native.Mathlib.Omega.{arith}
use aqua_matrix_connector.Common.Tests.{if◌then◌else◌, ◌==◌}
use aqua_matrix_connector.Common.Lists.{length, All}
use aqua_matrix_connector.Common.Filter.{any}
use aqua_matrix_connector.Common.{◌∙◌}

module _ {ℓ} {A : Type ℓ} (le : A → A → Bool) where
  -- Before the first element that is not smaller, so equal elements keep their order.
  unfoldable pub insert_sorted : A → List A → List A
  insert_sorted x [] = x ∷ []
  insert_sorted x (y ∷ ys) =
      let rest = insert_sorted x ys in if le x y then x ∷ y ∷ ys else y ∷ rest

  unfoldable pub sort : List A → List A
  unfolding insert_sorted
  sort [] = []
  sort (x ∷ xs) = insert_sorted x (sort xs)

  pub length-insert_sorted : (x : A) (ys : List A) → length (insert_sorted x ys) ≡ suc (length ys)
  unfolding insert_sorted
  length-insert_sorted x [] = refl
  length-insert_sorted x (y ∷ ys) = ground (arith, length-insert_sorted x ys)

  pub length-sort : (xs : List A) → length (sort xs) ≡ length xs
  unfolding sort
  length-sort [] = refl
  length-sort (x ∷ xs) = omega (arith, length-insert_sorted x (sort xs), length-sort xs)

  pub insert_sorted-All {κ} :
      (P : A → Type κ) (x : A) (ys : List A) → P x → All P ys → All P (insert_sorted x ys)
  unfolding insert_sorted
  insert_sorted-All P x [] h hs = (h, tt)
  insert_sorted-All P x (y ∷ ys) h hs = ground (arith, insert_sorted-All P x ys h hs.1)

  pub sort-All {κ} : (P : A → Type κ) (xs : List A) → All P xs → All P (sort xs)
  unfolding sort
  sort-All P [] h = tt
  sort-All P (x ∷ xs) h = insert_sorted-All P x (sort xs) h.0 (sort-All P xs h.1)

-- Numbers in a list.
abbrev pub mem : ℕ → List ℕ → Bool
mem n xs = any (λ x. x == n) xs

-- No number occurs twice.
abbrev pub Distinct : List ℕ → Type 0
Distinct [] = Unit
Distinct (x ∷ xs) = (mem x xs ≡ false) × Distinct xs

module _ {ℓ} {A : Type ℓ} (le : A → A → Bool) (f : A → ℕ) where
  pub mem-insert_sorted :
      (n : ℕ) (x : A) (ys : List A)
      → mem n (map f (insert_sorted le x ys)) ≡ (f x == n || mem n (map f ys))
  unfolding insert_sorted
  mem-insert_sorted n x [] = refl
  mem-insert_sorted n x (y ∷ ys) = ground (arith, mem-insert_sorted n x ys)

  pub mem-sort : (n : ℕ) (xs : List A) → mem n (map f (sort le xs)) ≡ mem n (map f xs)
  unfolding sort
  mem-sort n [] = refl
  mem-sort n (x ∷ xs) = ground (arith, mem-insert_sorted n x (sort le xs), mem-sort n xs)

  pub insert_sorted-Distinct :
      (x : A) (ys : List A)
      → mem (f x) (map f ys) ≡ false
      → Distinct (map f ys)
      → Distinct (map f (insert_sorted le x ys))
  unfolding insert_sorted
  insert_sorted-Distinct x [] h d = (refl, tt)
  insert_sorted-Distinct x (y ∷ ys) h d =
      ground
        (arith, mem-insert_sorted (f y) x ys, insert_sorted-Distinct x ys (ground (arith, h)) d.1)

  pub sort-Distinct : (xs : List A) → Distinct (map f xs) → Distinct (map f (sort le xs))
  unfolding sort
  sort-Distinct [] d = tt
  sort-Distinct (x ∷ xs) d =
      insert_sorted-Distinct x (sort le xs) (mem-sort (f x) xs ∙ d.0) (sort-Distinct xs d.1)
