-- ===== src/Common/Decimal.antt =====
-- Decimal numbers as texts: `u64`'s `Display`, and `str::parse::<u64>`.
use Prim.Native.Nat.{ℕ, zero, suc, ◌+◌, ◌*◌, ◌/◌, ◌%◌, ◌^◌, ◌<◌, ◌-◌, ◌≤◌}
use aqua_matrix_connector.Common.Tests.{ltb, leb, if◌then◌else◌, Bool-cases, ◌==◌}
use aqua_matrix_connector.Common.Lists.{All, length}
use aqua_matrix_connector.Common.Text.{Text}
use mathlib.Core.Path.{◌≡◌, refl, sym, ap, ◌∙◌}
use mathlib.Core.Logic.{inl, inr}
use mathlib.Core.Bool.{Bool, true, false, ◌&&◌}
use mathlib.Core.List.{[], ◌∷◌}
use mathlib.Core.Option.{Option, none, some}
use native.Mathlib.Omega.{arith}

-- The digits of a number in front of a text; the fuel bounds their number.
unfoldable pub digits : ℕ → ℕ → Text → Text
digits zero n s = s
digits (suc fuel) n s = elim (ltb n 10) [
  | true ↦ (48 + n) ∷ s
  | false ↦ digits fuel (n / 10) ((48 + n % 10) ∷ s)
]

-- A number has no more digits than its successor.
unfoldable pub decimal : ℕ → Text
decimal n = digits (suc n) n []

abbrev pub is_digit : ℕ → Bool
is_digit c = leb 48 c && leb c 57

-- The value of a digit sequence, the part before it given.
unfoldable pub digits_value : ℕ → Text → Option ℕ
digits_value v [] = some v
digits_value v (c ∷ s) =
    let rest = digits_value (v * 10 + (c - 48)) s in if is_digit c then rest else none

-- Without its sign, at least one digit, and a value of 64 bits.
unfoldable pub parse_digits : Text → Option ℕ
parse_digits [] = none
parse_digits (c ∷ s) = elim (digits_value 0 (c ∷ s)) [
  | none ↦ none
  | some v ↦ if ltb v (2 ^ 64) then some v else none
]

-- `str::parse::<u64>`, which takes a leading plus.
unfoldable pub parse_u64 : Text → Option ℕ
parse_u64 [] = none
parse_u64 (c ∷ s) = parse_digits (if c == 43 then s else c ∷ s)

-- One round of `digits`.
digits_step :
    (fuel n : ℕ) (s : Text)
    → digits (suc fuel) n s
      ≡ (if ltb n 10 then (48 + n) ∷ s else digits fuel (n / 10) ((48 + n % 10) ∷ s))
unfolding digits
digits_step fuel n s = ground arith

reads_digit :
    (v d : ℕ) (s : Text)
    → ltb d 10 ≡ true
    → digits_value v ((48 + d) ∷ s) ≡ digits_value (v * 10 + d) s
unfolding digits_value
reads_digit v d s small = ground arith

-- Enough fuel is given: reading the digits back passes their value on to the text behind them.
digits_value-digits :
    (fuel n : ℕ) (s : Text) → n < fuel → digits_value 0 (digits fuel n s) ≡ digits_value n s
digits_value-digits zero n s h = ground arith
digits_value-digits (suc fuel) n s h = rw digits_step (elim (Bool-cases (ltb n 10)) [
  | inl small ↦ rw small (reads_digit 0 n s small ∙ ap (λ v. digits_value v s) (omega arith))
  | inr large ↦ rw large (
      digits_value-digits fuel (n / 10) ((48 + n % 10) ∷ s) (ground arith)
      ∙ reads_digit (n / 10) (n % 10) s (ground arith)
      ∙ ap (λ v. digits_value v s) (ground arith))
])

digits_head :
    (fuel n : ℕ) (s : Text)
    → n < fuel
    → (c : ℕ) × (t : Text) × (digits fuel n s ≡ c ∷ t) × (leb 48 c ≡ true)
digits_head zero n s h = absurd (ground arith)
digits_head (suc fuel) n s h = rw digits_step (elim (Bool-cases (ltb n 10)) [
  | inl small ↦ rw small (48 + n, s, refl, ground arith)
  | inr large ↦ rw large (digits_head fuel (n / 10) ((48 + n % 10) ∷ s) (ground arith))
])

digits_parsed :
    (n c : ℕ) (t : Text)
    → n < 2 ^ 64
    → leb 48 c ≡ true
    → digits_value 0 (c ∷ t) ≡ some n
    → parse_u64 (c ∷ t) ≡ some n
unfolding parse_u64 parse_digits
digits_parsed n c t h digit value = ground (arith, value)

pub parse_u64-decimal : (n : ℕ) → n < 2 ^ 64 → parse_u64 (decimal n) ≡ some n
unfolding decimal digits_value
parse_u64-decimal n h =
    let (c, t, e, digit) = digits_head (suc n) n [] (omega arith) in
    rw e (
      digits_parsed n c t h digit
        (ap (digits_value 0) (sym e) ∙ digits_value-digits (suc n) n [] (omega arith)))

digits-All :
    (fuel n : ℕ) (s : Text)
    → n < fuel
    → All (λ c. is_digit c ≡ true) s
    → All (λ c. is_digit c ≡ true) (digits fuel n s)
digits-All zero n s h k = ground arith
digits-All (suc fuel) n s h k = rw digits_step (elim (Bool-cases (ltb n 10)) [
  | inl small ↦ rw small (ground arith, k)
  | inr large ↦
      rw large (digits-All fuel (n / 10) ((48 + n % 10) ∷ s) (ground arith) (ground arith, k))
])

pub decimal-All : (n : ℕ) → All (λ c. is_digit c ≡ true) (decimal n)
unfolding decimal
decimal-All n = digits-All (suc n) n [] (omega arith) tt

-- A number below a power of ten has no more digits than that.
length-digits :
    (k fuel n : ℕ) (s : Text)
    → n < fuel
    → n < 10 * 10 ^ k
    → length (digits fuel n s) ≤ suc k + length s
length-digits k zero n s h small = ground arith
length-digits zero (suc fuel) n s h small = rw digits_step (ground (arith, h, small))
length-digits (suc k) (suc fuel) n s h small = rw digits_step (elim (Bool-cases (ltb n 10)) [
  | inl one ↦ rw one (omega arith)
  | inr more ↦ rw more (
      omega (
        arith,
        length-digits k fuel (n / 10) ((48 + n % 10) ∷ s) (ground (arith, h, more))
            (omega (arith, small)),
      ))
])

pub length-decimal : (n : ℕ) → n < 2 ^ 64 → length (decimal n) ≤ 20
unfolding decimal
length-decimal n h = omega (arith, length-digits 19 (suc n) n [] (omega arith) (omega (arith, h)))
