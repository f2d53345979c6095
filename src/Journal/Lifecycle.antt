-- ===== src/Journal/Lifecycle.antt =====
-- Each message goes through its own life cycle: enqueued, answered, delivered.
use aqua_matrix_connector.Common.{
  Bool, List, Bool-cases, ◌∷◌, Option, any, ◌≡◌, filter, arith, if◌then◌else◌, ◌∙◌, [], true,
  is_some, not, ap, ◌++◌, inl, false, some, refl, inr, none,
}
use aqua_matrix_connector.Journal.{
  WorkItem, WorkJournal, persist, enqueue, set_to_deliver, mark_done, answer_first,
}
use aqua_matrix_connector.Journal.Lookup.{
  item_of, answered, Unique, item_of-any, item_of-append, append-Unique, answer_first-Unique,
  item_of-answer_first, removed-Unique, item_of-removed,
}
use aqua_matrix_connector.Common.Text.{Text, text_eq, text_eq_iff}

-- The operations, each with whether its write succeeds.
pub data Op : Type 0 where
  accepts : Bool → WorkItem → Op
  answers : Bool → Text → Text → Op
  delivers : Bool → Text → Op

unfoldable pub step : WorkJournal → Op → WorkJournal
step j (accepts ok item) = (enqueue ok j item).0
step j (answers ok id text) = set_to_deliver ok j id text
step j (delivers ok id) = mark_done ok j id

unfoldable pub run : WorkJournal → List Op → WorkJournal
run j [] = j
run j (op ∷ ops) = run (step j op) ops

-- The promise for one event id: absent, then enqueued once, then with the latest answer, until it is
-- delivered. Operations on other ids do not matter.
abbrev pub promised : Text → Option WorkItem → Op → Option WorkItem
promised id found (accepts ok item) =
    if is_some found then found else if text_eq item.event_id id then some item else none
promised id found (answers ok k text) = if text_eq k id then answered text found else found
promised id found (delivers ok k) = if text_eq k id then none else found

abbrev pub promise : Text → Option WorkItem → List Op → Option WorkItem
promise id found [] = found
promise id found (op ∷ ops) = promise id (promised id found op) ops

items-mark_done :
    (ok : Bool) (j : WorkJournal) (id : Text)
    → (mark_done ok j id).items ≡ filter (λ i. not (text_eq i.event_id id)) j.items
unfolding mark_done persist
items-mark_done true j id = ground arith
items-mark_done false j id = ground arith

items-set_to_deliver :
    (ok : Bool) (j : WorkJournal) (id text : Text)
    → (set_to_deliver ok j id text).items
      ≡ (if any (λ i. text_eq i.event_id id) j.items then answer_first id text j.items else j.items)
unfolding set_to_deliver persist
items-set_to_deliver true j id text = ground arith
items-set_to_deliver false j id text = ground arith

items-enqueue :
    (ok : Bool) (j : WorkJournal) (item : WorkItem)
    → (enqueue ok j item).0.items ≡ (
        if any (λ i. text_eq i.event_id item.event_id) j.items
        then j.items
        else j.items ++ item ∷ [])
unfolding enqueue persist
items-enqueue true j item = ground arith
items-enqueue false j item = ground arith

-- What holds of one step.
step-Unique : (j : WorkJournal) (op : Op) → Unique j.items → Unique (step j op).items
unfolding step
step-Unique j (accepts ok item) u =
    elim (Bool-cases (any (λ i. text_eq i.event_id item.event_id) j.items)) [
      | inl known ↦ rw items-enqueue (rw known u)
      | inr fresh ↦ rw items-enqueue (rw fresh (append-Unique j.items item fresh u))
    ]
step-Unique j (answers ok id text) u =
    elim (Bool-cases (any (λ i. text_eq i.event_id id) j.items)) [
      | inl found ↦ rw items-set_to_deliver (rw found (answer_first-Unique id text j.items u))
      | inr gone ↦ rw items-set_to_deliver (rw gone u)
    ]
step-Unique j (delivers ok id) u = rw items-mark_done (removed-Unique id j.items u)

step-promised :
    (id : Text) (j : WorkJournal) (op : Op)
    → item_of id (step j op).items ≡ promised id (item_of id j.items) op
unfolding step
step-promised id j (accepts ok item) = rw items-enqueue (
    ground (
      arith,
      item_of-any item.event_id j.items,
      item_of-append id j.items item,
      text_eq_iff item.event_id id,
    ))
step-promised id j (answers ok k text) = rw items-set_to_deliver (
    ground (arith, item_of-any k j.items, item_of-answer_first id k text j.items, text_eq_iff k id))
step-promised id j (delivers ok k) = rw items-mark_done (item_of-removed id k j.items)

-- Where no event id is twice in the journal, none is after any operations, whichever writes fail.
pub run-Unique : (ops : List Op) (j : WorkJournal) → Unique j.items → Unique (run j ops).items
unfolding run
run-Unique [] j u = u
run-Unique (op ∷ ops) j u = run-Unique ops (step j op) (step-Unique j op u)

-- The journal keeps its promise for every event id: after any operations the item found under the id
-- is the one its own life cycle says. A message is held, with its content, from the `enqueue` that
-- accepted it until a `mark_done` of its id; a duplicate `enqueue` changes nothing, an answer sets
-- the text to deliver, and no operation on another id touches it.
pub run_keeps_promise :
    (id : Text) (ops : List Op) (j : WorkJournal)
    → item_of id (run j ops).items ≡ promise id (item_of id j.items) ops
unfolding run
run_keeps_promise id [] j = refl
run_keeps_promise id (op ∷ ops) j =
    run_keeps_promise id ops (step j op) ∙ ap (λ f. promise id f ops) (step-promised id j op)
