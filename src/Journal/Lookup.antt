-- ===== src/Journal/Lookup.antt =====
-- Finding an item by its event id after each change of the list.
use aqua_matrix_connector.Common.{
  List, Option, ◌∷◌, any, filter, ◌++◌, ◌≡◌, find, false, is_some, [], arith, Bool-cases, not,
  if◌then◌else◌, some, none, ◌||◌, refl, inl, inr,
}
use aqua_matrix_connector.Journal.{WorkItem, to_deliver, answer_first}
use aqua_matrix_connector.Common.Text.{Text, text_eq, text_eq_iff, text_eq_sound}

abbrev pub item_of : Text → List WorkItem → Option WorkItem
item_of id = find (λ i. text_eq i.event_id id)

-- The item with its answer, if there is one.
abbrev pub answered : Text → Option WorkItem → Option WorkItem
answered text none = none
answered text (some i) = some (record i { state = to_deliver text })

-- No two items carry one event id.
abbrev pub Unique : List WorkItem → Type 0
Unique [] = Unit
Unique (i ∷ is) = (any (λ k. text_eq k.event_id i.event_id) is ≡ false) × Unique is

pub item_of-any :
    (id : Text) (is : List WorkItem) → any (λ i. text_eq i.event_id id) is ≡ is_some (item_of id is)
item_of-any id [] = refl
item_of-any id (i ∷ is) = ground (arith, item_of-any id is)

pub item_of-append :
    (id : Text) (is : List WorkItem) (item : WorkItem)
    → item_of id (is ++ item ∷ []) ≡ (
        if is_some (item_of id is)
        then item_of id is
        else if text_eq item.event_id id
        then some item
        else none)
item_of-append id [] item = refl
item_of-append id (i ∷ is) item = ground (arith, item_of-append id is item)

any-append :
    (id : Text) (is : List WorkItem) (item : WorkItem)
    → any (λ i. text_eq i.event_id id) (is ++ item ∷ [])
      ≡ (any (λ i. text_eq i.event_id id) is || text_eq item.event_id id)
any-append id [] item = ground arith
any-append id (i ∷ is) item = ground (arith, any-append id is item)

pub text_eq_sym : (s t : Text) → text_eq s t ≡ text_eq t s
text_eq_sym [] [] = refl
text_eq_sym [] (c ∷ t) = refl
text_eq_sym (c ∷ s) [] = refl
text_eq_sym (c ∷ s) (d ∷ t) = ground (arith, text_eq_sym s t)

pub append-Unique :
    (is : List WorkItem) (item : WorkItem)
    → any (λ i. text_eq i.event_id item.event_id) is ≡ false
    → Unique is
    → Unique (is ++ item ∷ [])
append-Unique [] item h u = (refl, tt)
append-Unique (i ∷ is) item h u = (
  ground (arith, h, u.0, any-append i.event_id is item, text_eq_sym item.event_id i.event_id),
  append-Unique is item (ground (arith, h)) u.1,
)

any-answer_first :
    (k id text : Text) (is : List WorkItem)
    → any (λ i. text_eq i.event_id k) (answer_first id text is) ≡ any (λ i. text_eq i.event_id k) is
unfolding answer_first
any-answer_first k id text [] = refl
any-answer_first k id text (i ∷ is) = ground (arith, any-answer_first k id text is)

pub answer_first-Unique :
    (id text : Text) (is : List WorkItem) → Unique is → Unique (answer_first id text is)
unfolding answer_first
answer_first-Unique id text [] u = tt
answer_first-Unique id text (i ∷ is) u = elim (Bool-cases (text_eq i.event_id id)) [
  | inl hit ↦ rw hit u
  | inr miss ↦ rw miss (
    ground (arith, u.0, any-answer_first i.event_id id text is),
    answer_first-Unique id text is u.1,
  )
]

pub item_of-answer_first :
    (k id text : Text) (is : List WorkItem)
    → item_of k (answer_first id text is)
      ≡ (if text_eq id k then answered text (item_of k is) else item_of k is)
unfolding answer_first
item_of-answer_first k id text [] = ground arith
item_of-answer_first k id text (i ∷ is) = elim (Bool-cases (text_eq i.event_id id)) [
  | inl hit ↦ ground (arith, hit, text_eq_sound i.event_id id hit)
  | inr miss ↦ ground (
    arith,
    miss,
    item_of-answer_first k id text is,
    text_eq_iff i.event_id k,
    text_eq_iff id k,
    text_eq_iff i.event_id id,
  )
]

any-removed :
    (k id : Text) (is : List WorkItem)
    → any (λ i. text_eq i.event_id k) is ≡ false
    → any (λ i. text_eq i.event_id k) (filter (λ i. not (text_eq i.event_id id)) is) ≡ false
any-removed k id [] h = refl
any-removed k id (i ∷ is) h = ground (arith, h, any-removed k id is)

pub removed-Unique :
    (id : Text) (is : List WorkItem)
    → Unique is
    → Unique (filter (λ i. not (text_eq i.event_id id)) is)
removed-Unique id [] u = tt
removed-Unique id (i ∷ is) u =
    ground (arith, any-removed i.event_id id is, removed-Unique id is u.1, u.0)

pub item_of-removed :
    (k id : Text) (is : List WorkItem)
    → item_of k (filter (λ i. not (text_eq i.event_id id)) is)
      ≡ (if text_eq id k then none else item_of k is)
item_of-removed k id [] = ground arith
item_of-removed k id (i ∷ is) = ground (
  arith,
  item_of-removed k id is,
  text_eq_iff i.event_id k,
  text_eq_iff id k,
  text_eq_iff i.event_id id,
)
