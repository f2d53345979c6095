-- ===== src/Common/Trim.antt =====
-- What `str::trim` leaves: a part of the text.
use mathlib.Core.List.{reverse-reverse}
use aqua_matrix_connector.Common.{ℕ}
use aqua_matrix_connector.Common.Text.{trim, trim_start, trim_end, Text, is_whitespace}
use aqua_matrix_connector.Common.Lists.{All, length, All-append, length-append}
use mathlib.Core.List.{◌∷◌, reverse, reverse-cons, []}
use Prim.Native.Nat.{◌≤◌}
use aqua_matrix_connector.Common.Tests.{Bool-cases}
use native.Mathlib.Omega.{arith}
use mathlib.Core.Path.{◌≡◌, refl, ap, ◌∙◌}
use mathlib.Core.Logic.{inl, inr}
use mathlib.Core.Bool.{false}

module _ {κ} (P : ℕ → Type κ) where
  pub All-reverse : (s : Text) → All P s → All P (reverse s)
  All-reverse [] h = tt
  All-reverse (c ∷ s) h =
      rw reverse-cons (All-append P (reverse s) (c ∷ []) (All-reverse s h.1) (h.0, tt))

  trim_start-All : (s : Text) → All P s → All P (trim_start s)
  unfolding trim_start
  trim_start-All [] h = tt
  trim_start-All (c ∷ s) h = elim (Bool-cases (is_whitespace c)) [
    | inl blank ↦ rw blank (trim_start-All s h.1)
    | inr other ↦ rw other h
  ]

  pub trim-All : (s : Text) → All P s → All P (trim s)
  unfolding trim trim_end
  trim-All s h = All-reverse _ (trim_start-All _ (All-reverse _ (trim_start-All s h)))

length-reverse : (s : Text) → length (reverse s) ≡ length s
length-reverse [] = refl
length-reverse (c ∷ s) =
    rw reverse-cons (omega (arith, length-append (reverse s) (c ∷ []), length-reverse s))

length-trim_start-le : (s : Text) → length (trim_start s) ≤ length s
unfolding trim_start
length-trim_start-le [] = omega arith
length-trim_start-le (c ∷ s) = ground (arith, length-trim_start-le s)

pub length-trim-le : (s : Text) → length (trim s) ≤ length s
unfolding trim trim_end
length-trim-le s = omega (
  arith,
  length-reverse (trim_start (reverse (trim_start s))),
  length-trim_start-le (reverse (trim_start s)),
  length-reverse (trim_start s),
  length-trim_start-le s,
)

abbrev IsDark : Text → Type 0
IsDark = All (λ c. is_whitespace c ≡ false)

trim_start_dark : (s : Text) → IsDark s → trim_start s ≡ s
unfolding trim_start
trim_start_dark [] h = refl
trim_start_dark (c ∷ s) h = rw (h.0, trim_start) refl

-- A text without whitespace is not trimmed.
pub trim_dark : (s : Text) → All (λ c. is_whitespace c ≡ false) s → trim s ≡ s
unfolding trim trim_end
trim_dark s h =
    ap (λ (t : Text). reverse (trim_start (reverse t))) (trim_start_dark s h)
    ∙ ap reverse (trim_start_dark (reverse s) (All-reverse (λ c. is_whitespace c ≡ false) s h))
    ∙ reverse-reverse s
