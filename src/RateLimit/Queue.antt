-- ===== src/RateLimit/Queue.antt =====
-- One queue of reservations: its order, what `trim` drops, and the operations seen queue by queue.
use aqua_matrix_connector.Common.{
  ℕ, ◌-◌, ◌≤◌, ◌≡◌, refl, List, [], ◌∷◌, ◌++◌, arith, leb, if◌then◌else◌, unwrap_or, length,
  drop_last, All, Bool-cases, inl, inr, Option-cases, Bool, true, ltb, false,
}
use aqua_matrix_connector.Common.Text.{
  Text, to_ascii_lowercase, text_eq, text_eq_refl, text_eq_sound,
}
use aqua_matrix_connector.Common.Assoc.{lookup, lookup-insert}
use aqua_matrix_connector.RateLimit.{
  RateLimiter, acquired, over_budget, panicked, pop_expired, queue, set_queue, trim, try_acquire,
  release, Acquire, refused, over_budget,
}

-- Nondecreasing, every time at least `lo`.
abbrev pub SortedFrom : ℕ → List ℕ → Type 0
SortedFrom lo [] = Unit
SortedFrom lo (t ∷ q) = (lo ≤ t) × SortedFrom t q

pub SortedFrom-lower : (m n : ℕ) (q : List ℕ) → m ≤ n → SortedFrom n q → SortedFrom m q
SortedFrom-lower m n [] h s = tt
SortedFrom-lower m n (t ∷ q) h s = (omega arith, s.1)

pub SortedFrom-snoc :
    (lo now : ℕ) (q : List ℕ)
    → SortedFrom lo q
    → lo ≤ now
    → All (λ t. t ≤ now) q
    → SortedFrom lo (q ++ now ∷ [])
SortedFrom-snoc lo now [] s h b = (h, tt)
SortedFrom-snoc lo now (t ∷ q) s h b = (s.0, SortedFrom-snoc t now q s.1 b.0 b.1)

-- What `trim` keeps is a suffix, and what it drops is out of the window.
pub record Trims (window now : ℕ) (q : List ℕ) : Type 0 where
  pub dropped : List ℕ
  pub splits : q ≡ dropped ++ pop_expired window now q
  pub gone : All (λ t. window ≤ now - t) dropped

pub pop_expired-Trims : (window now : ℕ) (q : List ℕ) → Trims window now q
unfolding pop_expired
pop_expired-Trims window now [] = record { dropped = []; splits = refl; gone = tt }
pop_expired-Trims window now (t ∷ q) = elim (Bool-cases (leb window (now - t))) [
  | inl old ↦
      let rest = pop_expired-Trims window now q in
      record {
        dropped = t ∷ rest.dropped;
        splits = ground (arith, rest.splits);
        gone = (ground arith, rest.gone);
      }
  | inr young ↦ record { dropped = []; splits = rw young; gone = tt }
]

pub length-pop_expired-le :
    (window now : ℕ) (q : List ℕ) → length (pop_expired window now q) ≤ length q
unfolding pop_expired
length-pop_expired-le window now [] = omega arith
length-pop_expired-le window now (t ∷ q) = ground (arith, length-pop_expired-le window now q)

pub pop_expired-SortedFrom :
    (window now lo : ℕ) (q : List ℕ) → SortedFrom lo q → SortedFrom lo (pop_expired window now q)
unfolding pop_expired
pop_expired-SortedFrom window now lo [] s = tt
pop_expired-SortedFrom window now lo (t ∷ q) s = elim (Bool-cases (leb window (now - t))) [
  | inl old ↦ rw old (pop_expired-SortedFrom window now lo q (SortedFrom-lower lo t q s.0 s.1))
  | inr young ↦ rw young s
]

pub pop_expired-All {ℓ} :
    (P : ℕ → Type ℓ) (window now : ℕ) (q : List ℕ) → All P q → All P (pop_expired window now q)
unfolding pop_expired
pop_expired-All P window now [] h = tt
pop_expired-All P window now (t ∷ q) h = ground (arith, pop_expired-All P window now q h.1)

pub drop_last-All {ℓ} : (P : ℕ → Type ℓ) (q : List ℕ) → All P q → All P (drop_last q)
drop_last-All P [] h = tt
drop_last-All P (t ∷ []) h = tt
drop_last-All P (t ∷ u ∷ q) h = (h.0, drop_last-All P (u ∷ q) h.1)

pub drop_last-SortedFrom : (lo : ℕ) (q : List ℕ) → SortedFrom lo q → SortedFrom lo (drop_last q)
drop_last-SortedFrom lo [] s = tt
drop_last-SortedFrom lo (t ∷ []) s = tt
drop_last-SortedFrom lo (t ∷ u ∷ q) s = (s.0, drop_last-SortedFrom t (u ∷ q) s.1)

pub length-drop_last-le : (q : List ℕ) → length (drop_last q) ≤ length q
length-drop_last-le [] = omega arith
length-drop_last-le (t ∷ []) = omega arith
length-drop_last-le (t ∷ u ∷ q) = omega (arith, length-drop_last-le (u ∷ q))

-- Reading a queue back after a write.
pub queue-set_queue :
    (rl : RateLimiter) (key other : Text) (q : List ℕ)
    → queue (set_queue rl key q) other
      ≡ (if text_eq (to_ascii_lowercase key) (to_ascii_lowercase other) then q else queue rl other)
unfolding queue set_queue
queue-set_queue rl key other q = rw lookup-insert (ground arith)

pub queue-set_queue_self :
    (rl : RateLimiter) (key : Text) (q : List ℕ) → queue (set_queue rl key q) key ≡ q
queue-set_queue_self rl key q = rw (queue-set_queue, text_eq_refl (to_ascii_lowercase key))

-- Two spellings of one key: they differ in ASCII case only.
abbrev pub same_key : Text → Text → Bool
same_key j k = text_eq (to_ascii_lowercase j) (to_ascii_lowercase k)

pub queue_congr : (rl : RateLimiter) (j k : Text) → same_key j k ≡ true → queue rl j ≡ queue rl k
unfolding queue
queue_congr rl j k h = rw (text_eq_sound (to_ascii_lowercase j) (to_ascii_lowercase k) h)

-- The queue that `try_acquire` leaves under its own key.
unfoldable pub after_acquire : RateLimiter → List ℕ → ℕ → List ℕ
after_acquire rl q now =
    let q' = pop_expired rl.window now q in if leb rl.budget (length q') then q' else q' ++ now ∷ []

pub queue-try_acquire :
    (rl : RateLimiter) (j k : Text) (now : ℕ)
    → queue (try_acquire rl j now).0 k
      ≡ (if same_key j k then after_acquire rl (queue rl k) now else queue rl k)
unfolding try_acquire trim after_acquire
queue-try_acquire rl j k now = elim (Bool-cases (same_key j k)) [
  | inl e ↦ ground (
    arith,
    e,
    queue_congr rl j k e,
    queue-set_queue rl j k (pop_expired rl.window now (queue rl j)),
    queue-set_queue (set_queue rl j (pop_expired rl.window now (queue rl j))) j k
        (pop_expired rl.window now (queue rl j) ++ now ∷ []),
  )
  | inr e ↦ ground (
    arith,
    e,
    queue-set_queue rl j k (pop_expired rl.window now (queue rl j)),
    queue-set_queue (set_queue rl j (pop_expired rl.window now (queue rl j))) j k
        (pop_expired rl.window now (queue rl j) ++ now ∷ []),
  )
]

-- A queue is what the map holds under the key.
queue-lookup :
    (rl : RateLimiter) (j : Text)
    → queue rl j ≡ unwrap_or (lookup (to_ascii_lowercase j) rl.sends) []
unfolding queue
queue-lookup rl j = refl

pub queue-release :
    (rl : RateLimiter) (j k : Text)
    → queue (release rl j) k ≡ (if same_key j k then drop_last (queue rl k) else queue rl k)
unfolding release
queue-release rl j k = elim (Option-cases (lookup (to_ascii_lowercase j) rl.sends)) [
  | inl e ↦ rw (e, release) (ground (arith, e, queue-lookup rl j, queue_congr rl j k))
  | inr (q, e) ↦
      rw (e, release)
        (ground
          (arith, e, queue-lookup rl j, queue_congr rl j k, queue-set_queue rl j k (drop_last q)))
]

abbrev pub is_acquired : Acquire → Bool
is_acquired acquired = true
is_acquired (over_budget wait) = false
is_acquired panicked = false

-- A reservation is granted exactly while the trimmed queue is shorter than the budget.
pub acquired-try_acquire :
    (rl : RateLimiter) (j : Text) (now : ℕ)
    → is_acquired (try_acquire rl j now).1
      ≡ ltb (length (pop_expired rl.window now (queue rl j))) rl.budget
unfolding try_acquire trim refused
acquired-try_acquire rl j now = ground arith

pub budget-try_acquire :
    (rl : RateLimiter) (j : Text) (now : ℕ)
    → ((try_acquire rl j now).0.budget ≡ rl.budget) × ((try_acquire rl j now).0.window ≡ rl.window)
unfolding try_acquire trim set_queue
budget-try_acquire rl j now = ground arith

pub budget-release :
    (rl : RateLimiter) (j : Text)
    → ((release rl j).budget ≡ rl.budget) × ((release rl j).window ≡ rl.window)
unfolding release set_queue
budget-release rl j = ground arith
