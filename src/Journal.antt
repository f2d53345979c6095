-- ===== src/Journal.antt =====
-- crates/aqua-matrix-agent/src/durable.rs: the work journal of accepted messages.
-- The mutex makes each operation one step. A write may fail; it is atomic and its failure is only
-- logged, so a failed write leaves the file as it was.
use aqua_matrix_connector.Common.{
  ℕ, List, [], Bool, length, Option, ◌∷◌, filter, true, false, if◌then◌else◌, any, not, ◌++◌, ◌==◌,
}
pub mod Lookup
pub mod Lifecycle
pub mod Restart
mod Replay
mod Tests
use aqua_matrix_connector.Common.Text.{Text, text_eq}

pub data WorkState : Type 0 where
  pending : WorkState
  to_deliver : Text → WorkState

pub record WorkItem : Type 0 where
  pub event_id : Text
  pub room_id : Text
  pub ts_ms : ℕ
  pub msgtype : Text
  pub body : Text
  pub state : WorkState
  pub sender : Option Text

-- The file: absent (or not readable), not parsable, or an array of items.
pub data File : Type 0 where
  absent : File
  unparsable : File
  holds : List WorkItem → File

pub record WorkJournal : Type 0 where
  pub items : List WorkItem
  pub file : File

pub load_or_empty : File → WorkJournal
load_or_empty absent = record { items = []; file = absent }
load_or_empty unparsable = record { items = []; file = unparsable }
load_or_empty (holds v) = record { items = v; file = holds v }

-- `ok` says whether the write succeeds.
pub persist : Bool → WorkJournal → WorkJournal
persist ok j = if ok then record j { file = holds j.items } else j

pub enqueue : Bool → WorkJournal → WorkItem → WorkJournal × Bool
enqueue ok j item =
    if any (λ i. text_eq i.event_id item.event_id) j.items
    then (j, false)
    else (persist ok (record j { items = j.items ++ item ∷ [] }), true)

-- `iter_mut().find(..)`: the first item with this id gets the text.
pub answer_first : Text → Text → List WorkItem → List WorkItem
answer_first id text [] = []
answer_first id text (i ∷ is) =
    if text_eq i.event_id id
    then record i { state = to_deliver text } ∷ is
    else i ∷ answer_first id text is

pub set_to_deliver : Bool → WorkJournal → Text → Text → WorkJournal
set_to_deliver ok j id text =
    if any (λ i. text_eq i.event_id id) j.items
    then persist ok (record j { items = answer_first id text j.items })
    else j

pub mark_done : Bool → WorkJournal → Text → WorkJournal
mark_done ok j id =
    let items = filter (λ i. not (text_eq i.event_id id)) j.items in
    let j' = record j { items = items } in
    if length items == length j.items then j' else persist ok j'

pub is_pending : WorkItem → Bool
is_pending i = elim i.state [ pending ↦ true | to_deliver text ↦ false ]

pub has_answer : WorkItem → Bool
has_answer i = elim i.state [ pending ↦ false | to_deliver text ↦ true ]

pub pending_work : WorkJournal → List WorkItem
pending_work j = filter is_pending j.items

pub pending_deliveries : WorkJournal → List WorkItem
pending_deliveries j = filter has_answer j.items

pub drained : WorkJournal → Bool
drained j = elim j.items [ [] ↦ true | i ∷ is ↦ false ]

pub len : WorkJournal → ℕ
len j = length j.items
