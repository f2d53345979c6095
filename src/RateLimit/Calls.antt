-- ===== src/RateLimit/Calls.antt =====
-- What callers do to the limiter, with the log of the reservations of one key.
use aqua_matrix_connector.RateLimit.Queue.{same_key, is_acquired}
use aqua_matrix_connector.RateLimit.{RateLimiter, new, queue, try_acquire, release}
use aqua_matrix_connector.Common.{
  ◌≤◌, Bool, if◌then◌else◌, ◌≡◌, ◌<◌, leb, count, length, ◌&&◌, ◌++◌, ◌+◌, ltb, All, filter-append,
  drop_last, length-append, arith, ap, filter, ℕ, List, ◌∷◌, [], ◌-◌, Bool-cases, refl, inl, ltb→lt,
  length-filter-le, inr,
}
use aqua_matrix_connector.Common.Text.{Text}

-- What callers do, with the clock reading of a reservation.
pub data Call : Type 0 where
  reserve : Text → ℕ → Call
  give_back : Text → Call

-- The clock does not run backwards.
abbrev pub Monotone : ℕ → List Call → Type 0
Monotone now [] = Unit
Monotone now (reserve j t ∷ calls) = (now ≤ t) × Monotone t calls
Monotone now (give_back j ∷ calls) = Monotone now calls

-- One call, with the log of the reservations under `k` that were granted and not given back.
unfoldable pub call : Text → Call → RateLimiter × List ℕ → RateLimiter × List ℕ
call k (reserve j now) (rl, log) =
    let (rl', r) = try_acquire rl j now in
    (rl', if same_key j k && is_acquired r then log ++ now ∷ [] else log)
call k (give_back j) (rl, log) =
    (release rl j, if same_key j k && ltb 0 (length (queue rl k)) then drop_last log else log)

unfoldable pub calls_from : Text → List Call → RateLimiter × List ℕ → RateLimiter × List ℕ
calls_from k [] s = s
calls_from k (c ∷ calls) s = calls_from k calls (call k c s)

unfoldable pub granted : ℕ → ℕ → Text → List Call → List ℕ
granted budget window k calls = (calls_from k calls (new budget window, [])).1

-- `a ≤ t < a + window`
abbrev pub within : ℕ → ℕ → ℕ → Bool
within a window t = leb a t && ltb t (a + window)

pub record IsBounded (k : Text) (budget window now : ℕ) (rl : RateLimiter) (log : List ℕ)
    : Type 0 where
  pub same_budget : rl.budget ≡ budget
  pub same_window : rl.window ≡ window
  pub older : List ℕ
  pub splits : log ≡ older ++ queue rl k
  pub gone : All (λ t. t + window ≤ now) older
  pub past : All (λ t. t ≤ now) (queue rl k)
  pub few : length (queue rl k) ≤ budget
  pub fits : (a : ℕ) → count (within a window) log ≤ budget

count-append : (p : ℕ → Bool) (xs ys : List ℕ) → count p (xs ++ ys) ≡ count p xs + count p ys
count-append p xs ys = rw filter-append (length-append (filter p xs) (filter p ys))

count_gone :
    (a window now : ℕ) (xs : List ℕ)
    → now < a + window
    → All (λ t. t + window ≤ now) xs
    → count (within a window) xs ≡ 0
count_gone a window now [] h g = refl
count_gone a window now (x ∷ xs) h g = ground (arith, count_gone a window now xs h g.1)

pub drop_last-append_ne :
    (xs ys : List ℕ) → 0 < length ys → drop_last (xs ++ ys) ≡ xs ++ drop_last ys
drop_last-append_ne [] ys h = refl
drop_last-append_ne (x ∷ []) [] h = elim h [ ]
drop_last-append_ne (x ∷ []) (y ∷ ys) h = refl
drop_last-append_ne (x ∷ z ∷ xs) ys h = ap (◌∷◌ x) (drop_last-append_ne (z ∷ xs) ys h)

pub count-drop_last-le : (p : ℕ → Bool) (xs : List ℕ) → count p (drop_last xs) ≤ count p xs
count-drop_last-le p [] = omega arith
count-drop_last-le p (x ∷ []) = omega arith
count-drop_last-le p (x ∷ y ∷ xs) = ground (arith, count-drop_last-le p (y ∷ xs))

pub past_split : (now : ℕ) (xs ys : List ℕ) → All (λ t. t ≤ now) (xs ++ ys) → All (λ t. t ≤ now) xs
past_split now [] ys h = tt
past_split now (x ∷ xs) ys h = (h.0, past_split now xs ys h.1)

pub out_of_window :
    (window now : ℕ) (xs : List ℕ)
    → All (λ t. window ≤ now - t) xs
    → All (λ t. t ≤ now) xs
    → All (λ t. t + window ≤ now) xs
out_of_window window now [] g p = tt
out_of_window window now (x ∷ xs) g p = (omega arith, out_of_window window now xs g.1 p.1)

-- A granted reservation: at most `few` others are young enough to share a window with it.
pub count-snoc-le :
    (a window now budget : ℕ) (gone young : List ℕ)
    → All (λ t. t + window ≤ now) gone
    → length young < budget
    → count (within a window) (gone ++ young) ≤ budget
    → count (within a window) ((gone ++ young) ++ now ∷ []) ≤ budget
count-snoc-le a window now budget gone young g few fits = elim (Bool-cases (ltb now (a + window))) [
  | inl inside ↦ omega (
    arith,
    count-append (within a window) (gone ++ young) (now ∷ []),
    count-append (within a window) gone young,
    count_gone a window now gone (ltb→lt now (a + window) inside) g,
    length-filter-le (within a window) young,
    length-filter-le (within a window) (now ∷ []),
  )
  | inr outside ↦ ground (arith, outside, count-append (within a window) (gone ++ young) (now ∷ []))
]
