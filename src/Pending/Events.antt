-- ===== src/Pending/Events.antt =====
-- Runs of questions, messages and timeouts, and what they keep of the map.
use aqua_matrix_connector.Common.{
  ℕ, some, List, ◌∷◌, ◌≡◌, [], false, ◌<◌, arith, ◌==◌, refl, true, Option, Option-cases, ◌⊎◌,
  if◌then◌else◌, inr, none, inl,
}
use aqua_matrix_connector.Pending.{
  PendingMap, WaitEnd, waiting, register, try_resolve, set_channel, finish, channel_ends, Channel,
  remove, clear, drop_sender, answered, unused, dropped, send_failed, timed_out,
}
use aqua_matrix_connector.Common.Text.{Text, text_eq, text_eq_iff}
use aqua_matrix_connector.Common.Assoc.{lookup, lookup-insert, Assoc}

-- What happens to the map.
pub data Event : Type 0 where
  asks : Text → Event
  hears : Text → Text → Event
  ends : Text → ℕ → WaitEnd → Event

unfoldable pub step : PendingMap → Event → PendingMap
step m (asks target) = (register m target).0
step m (hears target body) = (try_resolve m target body).0
step m (ends target id e) = (finish m target id e).0

unfoldable pub run : PendingMap → List Event → PendingMap
run m [] = m
run m (e ∷ es) = run (step m e) es

abbrev pub target_of : Event → Text
target_of (asks target) = target
target_of (hears target body) = target
target_of (ends target id e) = target

-- The entry of a target and the channel of its question.
pub record Asked (m : PendingMap) (target : Text) (id : ℕ) : Type 0 where
  pub entry : lookup target m.inner ≡ some id
  pub open_ : m.channels id ≡ waiting
  pub old : id < m.next

-- Entries hold channels that exist, no channel twice.
pub record IsValid (m : PendingMap) : Type 0 where
  pub below : (t : Text) (n : ℕ) → lookup t m.inner ≡ some n → n < m.next
  pub own :
      (t u : Text) (n : ℕ)
      → lookup t m.inner ≡ some n
      → lookup u m.inner ≡ some n
      → text_eq t u ≡ true

pub finish-channel_ends : (m : PendingMap) (t : Text) (id : ℕ) → (finish m t id channel_ends).0 ≡ m
unfolding finish
finish-channel_ends m t id = ends_alike (m.channels id)
  where
    ends_alike :
        (c : Channel)
        → ◌≡◌ {A = PendingMap}
            (elim c as (λ x. PendingMap × Option Text) [
              | answered body ↦ (m, some body)
              | d ↦ (m, none)
            ]).0
            m
    ends_alike unused = refl
    ends_alike waiting = refl
    ends_alike (answered body) = refl
    ends_alike dropped = refl

-- A channel waits, or a sender that is dropped or used changes nothing on it.
pub channel_cases :
    (c : Channel)
    → (c ≡ waiting)
      ⊎ ((f g : ℕ → Channel) (id : ℕ)
          → (elim c as (λ x. ℕ → Channel) [ waiting ↦ f | d ↦ g ]) id ≡ g id)
channel_cases unused = inr (λ f g id. refl)
channel_cases waiting = inl refl
channel_cases (answered body) = inr (λ f g id. refl)
channel_cases dropped = inr (λ f g id. refl)

pub lookup-remove :
    (t k : Text) (m : Assoc ℕ) → lookup k (remove t m) ≡ (if text_eq t k then none else lookup k m)
unfolding lookup remove
lookup-remove t k [] = ground arith
lookup-remove t k ((j, n) ∷ m) =
    ground (arith, lookup-remove t k m, text_eq_iff j t, text_eq_iff t k, text_eq_iff j k)

lookup_kept :
    (t k : Text) (m : Assoc ℕ) (n : ℕ) → lookup k (remove t m) ≡ some n → lookup k m ≡ some n
lookup_kept t k m n h = ground (arith, h, lookup-remove t k m)

removed-IsValid :
    (m : PendingMap) (t : Text) (c : ℕ → Channel)
    → IsValid m
    → IsValid (record m { inner = remove t m.inner; channels = c })
removed-IsValid m t c v = record {
  below = λ k n h. v.below k n (lookup_kept t k m.inner n h);
  own = λ k u n h j. v.own k u n (lookup_kept t k m.inner n h) (lookup_kept t u m.inner n j);
}

pub register-IsValid : (m : PendingMap) (t : Text) → IsValid m → IsValid (register m t).0
unfolding register
register-IsValid m t v = record {
  below = λ k n h. ground (arith, h, lookup-insert t k m.next m.inner, v.below k n);
  own = λ k u n h j. ground (
    arith,
    h,
    j,
    lookup-insert t k m.next m.inner,
    lookup-insert t u m.next m.inner,
    v.below k n,
    v.below u n,
    v.own k u n,
    text_eq_iff t k,
    text_eq_iff t u,
    text_eq_iff k u,
  );
}

pub step-IsValid : (m : PendingMap) (e : Event) → IsValid m → IsValid (step m e)
unfolding step try_resolve finish clear
step-IsValid m (asks t) v = register-IsValid m t v
step-IsValid m (hears t body) v = elim (Option-cases (lookup t m.inner)) [
  | inl nobody ↦ rw (nobody, step, try_resolve) v
  | inr (id, asked) ↦ rw (asked, step, try_resolve) (removed-IsValid m t _ v)
]
step-IsValid m (ends t id send_failed) v = removed-IsValid m t _ v
step-IsValid m (ends t id timed_out) v = removed-IsValid m t _ v
step-IsValid m (ends t id channel_ends) v = rw finish-channel_ends v

pub run-IsValid : (es : List Event) (m : PendingMap) → IsValid m → IsValid (run m es)
unfolding run
run-IsValid [] m v = v
run-IsValid (e ∷ es) m v = run-IsValid es (step m e) (step-IsValid m e v)

pub drop_other :
    (o : Option ℕ) (channels : ℕ → Channel) (id : ℕ)
    → ((n : ℕ) → o ≡ some n → (id == n) ≡ false)
    → drop_sender o channels id ≡ channels id
unfolding drop_sender set_channel
drop_other none channels id h = refl
drop_other (some n) channels id h = elim (channel_cases (channels n)) [
  | inl w ↦ rw (w, drop_sender) (rw (h n refl) refl)
  | inr k ↦ k _ _ id
]
