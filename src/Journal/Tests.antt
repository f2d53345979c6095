-- ===== src/Journal/Tests.antt =====
-- The journal at concrete inputs: the runs of the source's own tests, and the theorems applied.
use aqua_matrix_connector.Common.{
  ℕ, List, [], true, ◌≡◌, none, false, ◌⊎◌, ◌∷◌, refl, take, ◌↔◌, some,
}
use aqua_matrix_connector.Journal.{
  pending, absent, WorkJournal, enqueue, load_or_empty, WorkItem, to_deliver, pending_work,
  pending_deliveries, set_to_deliver, mark_done, persist, answer_first, holds,
}
use aqua_matrix_connector.Common.Text.{Text, codes}
use aqua_matrix_connector.Journal.Lifecycle.{
  run, Op, accepts, promise, answers, run_keeps_promise, delivers, step,
}
use aqua_matrix_connector.Journal.Lookup.{Unique, item_of}
use aqua_matrix_connector.Journal.Restart.{restart_loses_nothing, restart_finds_a_prefix}
use aqua_matrix_connector.Journal.Replay.{restart-Unique, restart_replays_the_unanswered}
use aqua_matrix_connector.Common.Elem.{Elem}

abbrev item : Text → WorkItem
item id = record {
  event_id = id;
  room_id = codes "!r:x";
  ts_ms = 1;
  msgtype = codes "m.text";
  body = codes "hello";
  state = pending;
  sender = none;
}

abbrev empty : WorkJournal
empty = record { items = []; file = absent }

abbrev lifecycle : List Op
lifecycle =
    accepts true (item (codes "$1"))
    ∷ accepts true (item (codes "$2"))
    ∷ answers false (codes "$1") (codes "42")
    ∷ delivers true (codes "$2")
    ∷ []

one_left :
    (run empty lifecycle).items
    ≡ record (item (codes "$1")) { state = to_deliver (codes "42") } ∷ []
unfolding step set_to_deliver run mark_done persist enqueue answer_first
one_left = refl

duplicate_ignored : (enqueue true (run empty lifecycle) (item (codes "$1"))).1 ≡ false
unfolding step set_to_deliver run mark_done persist enqueue answer_first
duplicate_ignored = refl

restart-Unique_example :
    let j = run (load_or_empty (holds (item (codes "$3") ∷ []))) lifecycle in
    Unique j.items × Unique (load_or_empty j.file).items
restart-Unique_example = restart-Unique (holds (item (codes "$3") ∷ [])) lifecycle (refl, tt)

run_keeps_promise_example :
    item_of (codes "$1") (run empty lifecycle).items ≡ promise (codes "$1") none lifecycle
run_keeps_promise_example = run_keeps_promise (codes "$1") lifecycle empty

restart_finds_a_prefix_example :
    ((load_or_empty (run empty lifecycle).file).items ≡ (load_or_empty empty.file).items)
    ⊎ (n : ℕ) × ((load_or_empty (run empty lifecycle).file).items
        ≡ (run empty (take n lifecycle)).items)
restart_finds_a_prefix_example = restart_finds_a_prefix lifecycle empty

abbrev accepted_and_answered : List Op
accepted_and_answered =
    accepts true (item (codes "$1")) ∷ answers true (codes "$1") (codes "42") ∷ []

empty_loads : (load_or_empty empty.file).items ≡ empty.items
unfolding load_or_empty
empty_loads = refl

restart_loses_nothing_example :
    (load_or_empty (run empty accepted_and_answered).file).items
    ≡ (run empty accepted_and_answered).items
restart_loses_nothing_example =
    restart_loses_nothing accepted_and_answered empty (refl, (refl, tt)) empty_loads

abbrev the_answered : WorkItem
the_answered = record (item (codes "$1")) { state = to_deliver (codes "42") }

restart_replays_the_unanswered_example :
    let j' = load_or_empty (run empty accepted_and_answered).file in
    let left = promise (codes "$1") none accepted_and_answered in
    (Elem the_answered (pending_work j')
      ↔ ((left ≡ some the_answered) × (the_answered.state ≡ pending)))
    × (Elem the_answered (pending_deliveries j')
        ↔ ((left ≡ some the_answered) × (text : Text) × (the_answered.state ≡ to_deliver text)))
    × Unique (pending_work j')
    × Unique (pending_deliveries j')
restart_replays_the_unanswered_example =
    restart_replays_the_unanswered empty accepted_and_answered the_answered tt (refl, (refl, tt))
      empty_loads
