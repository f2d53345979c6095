-- ===== src/AllowList/Targets.antt =====
-- crates/aqua-messenger/src/allowlist.rs: whom an argument or a sender names.
use aqua_matrix_connector.Common.{
  some, none, Option, List, find, Bool, filter, is_some, any, [], ◌||◌,
}
use aqua_matrix_connector.AllowList.{Recipient, RoomEntry, Observer}
use aqua_matrix_connector.AllowList.Reload.{AllowList, Audit}
use aqua_matrix_connector.Common.Text.{Text, eq_ignore_ascii_case, text_eq, trim}
use aqua_matrix_connector.AllowList.Parse.{Reason}

pub data Target : Type 0 where
  person : Recipient → Target
  room : RoomEntry → Target

unfoldable pub resolve : AllowList → Text → Option Recipient
resolve a who =
    find (λ r. eq_ignore_ascii_case r.name (trim who) || eq_ignore_ascii_case r.mxid (trim who))
      a.recipients

unfoldable pub by_mxid : AllowList → Text → Option Recipient
by_mxid a sender = find (λ r. eq_ignore_ascii_case r.mxid sender) a.recipients

unfoldable pub room_by_id : AllowList → Text → Option RoomEntry
room_by_id a room_id = find (λ r. text_eq r.room_id (trim room_id)) a.rooms

unfoldable pub is_listed_room : AllowList → Text → Bool
unfolding room_by_id
is_listed_room a room_id = is_some (room_by_id a room_id)

unfoldable pub resolve_room : AllowList → Text → Option RoomEntry
resolve_room a who =
    find (λ r. eq_ignore_ascii_case r.name (trim who) || text_eq r.room_id (trim who)) a.rooms

unfoldable pub resolve_target : AllowList → Text → Option Target
resolve_target a who = elim (resolve a who) [
  | some r ↦ some (person r)
  | none ↦ elim (resolve_room a who) [ some r ↦ some (room r) | none ↦ none ]
]

unfoldable pub was_observed : AllowList → Text → Bool
was_observed a room_id = any (text_eq room_id) a.ever_observed

unfoldable pub observers_in_room : AllowList → Text → List Observer
observers_in_room a room_id = filter (λ o. text_eq o.room_id room_id) a.observers

-- A load failure, else a refused observer row.
unfoldable pub error_text : AllowList → Option Reason
error_text a = elim a.load_error [ some e ↦ some e | none ↦ a.observer_error ]

unfoldable pub take_audit : AllowList → AllowList × List Audit
take_audit a = (record a { pending_audit = [] }, a.pending_audit)
