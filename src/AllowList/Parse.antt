-- ===== src/AllowList/Parse.antt =====
-- crates/aqua-messenger/src/allowlist.rs: the checks of a file.
-- What `toml` makes of the text is an argument: the three sections, the observer rows not typed yet.
use aqua_matrix_connector.Common.{
  some, none, Option, List, ◌∷◌, Bool, [], find, any, if◌then◌else◌, ◌++◌, map, not, ◌&&◌, ◌||◌,
}
use aqua_matrix_connector.Common.Text.{
  Text, to_ascii_lowercase, is_empty, eq_ignore_ascii_case, starts_with, text_eq, trim,
}
use aqua_matrix_connector.AllowList.{
  RoomEntry, Observer, Recipient, Parsed, is_valid_mxid, at_sign, bang, is_valid_room_id,
}

-- A row of `observers`: its `name` if that is a string, and the row as an observer if it converts.
pub record Row : Type 0 where
  pub label : Option Text
  pub typed : Option Observer

pub data RawObservers : Type 0 where
  no_array : RawObservers
  rows : List Row → RawObservers

pub record AllowListFile : Type 0 where
  pub recipients : List Recipient
  pub rooms : List RoomEntry
  pub observers : Option RawObservers

pub data Reason : Type 0 where
  syntax_error : Reason
  empty_name : Text → Reason
  invalid_mxid : Text → Text → Reason
  duplicate_name : Text → Reason
  name_like_an_id : Text → Reason
  invalid_room_id : Text → Text → Reason
  room_listed_twice : Text → Reason
  reuses_fixed_name : Text → Text → Reason
  observers_no_array : Reason
  bad_row : Reason
  own_account : Text → Reason
  also_recipient : Text → Reason
  in_listed_room : Text → Reason
  observer_name_taken : Reason
  other_observer_name : Reason
  room_observed_twice : Text → Text → Reason
  unreadable_file : Reason

pub data ParseFailure : Type 0 where
  file_failure : Reason → ParseFailure
  observer_failure : Reason → ParseFailure

-- `Ok` and `Err`.
pub data Result (E A : Type 0) : Type 0 where
  ok : A → Result E A
  err : E → Result E A

unfoldable pub lower_name : Text → Text
lower_name name = to_ascii_lowercase (trim name)

-- The loop over the recipients, with the names seen so far.
unfoldable pub check_recipients : List Text → List Recipient → Result Reason (List Text)
check_recipients names [] = ok names
check_recipients names (r ∷ rs) =
    let rest = check_recipients (lower_name r.name ∷ names) rs in
    if is_empty (trim r.name)
    then err (empty_name r.mxid)
    else if not (is_valid_mxid r.mxid)
    then err (invalid_mxid r.name r.mxid)
    else if any (text_eq (lower_name r.name)) names
    then err (duplicate_name r.name)
    else rest

-- The loop over the rooms, with the names and the room ids seen so far.
unfoldable pub check_rooms : List Text → List Text → List RoomEntry → Option Reason
check_rooms names ids [] = none
check_rooms names ids (r ∷ rs) =
    let name = trim r.name in
    let id = trim r.room_id in
    let rest = check_rooms (to_ascii_lowercase name ∷ names) (id ∷ ids) rs in
    if is_empty name
    then some (empty_name r.room_id)
    else if starts_with at_sign name || starts_with bang name
    then some (name_like_an_id r.name)
    else if not (is_valid_room_id id)
    then some (invalid_room_id r.name r.room_id)
    else if any (text_eq (to_ascii_lowercase name)) names
    then some (duplicate_name r.name)
    else if any (text_eq id) ids
    then some (room_listed_twice r.room_id)
    else rest

unfoldable pub trimmed_room : RoomEntry → RoomEntry
trimmed_room r = record { name = trim r.name; room_id = trim r.room_id; note = r.note }

unfoldable pub people_and_rooms :
    List Recipient → List RoomEntry → Result Reason (List Recipient × List RoomEntry)
people_and_rooms recipients rooms = elim (check_recipients [] recipients) [
  | err e ↦ err e
  | ok names ↦ elim (check_rooms names [] rooms) [
    | some e ↦ err e
    | none ↦ ok (recipients, map trimmed_room rooms)
  ]
]

unfoldable pub check_fixed : List Recipient → List Recipient → List RoomEntry → Option Reason
check_fixed [] recipients rooms = none
check_fixed (f ∷ fs) recipients rooms =
    let rest = check_fixed fs recipients rooms in
    elim (find (λ e. eq_ignore_ascii_case e.name f.name && not (eq_ignore_ascii_case e.mxid f.mxid))
      recipients) [
        | some c ↦ some (reuses_fixed_name c.name f.name)
        | none ↦ elim (find (λ r. eq_ignore_ascii_case r.name f.name) rooms) [
          | some r ↦ some (reuses_fixed_name r.name f.name)
          | none ↦ rest
        ]
      ]

-- What an observer row must not collide with.
pub record Others : Type 0 where
  pub recipients : List Recipient
  pub rooms : List RoomEntry
  pub fixed : List Recipient
  pub reserved : List Text

unfoldable pub is_person : Others → Text → Bool
is_person k mxid = any (λ r. eq_ignore_ascii_case r.mxid mxid) (k.recipients ++ k.fixed)

unfoldable pub name_taken : Others → Text → Bool
name_taken k name =
    any (λ n. eq_ignore_ascii_case (trim n) name)
      (map (λ r. r.name) k.recipients ++ map (λ r. r.name) k.fixed ++ map (λ r. r.name) k.rooms)

-- One row, after those accepted in `out`.
unfoldable pub check_observer : Others → List Observer → Observer → Result Reason Observer
check_observer k out o =
    let name = trim o.name in
    let room_id = trim o.room_id in
    if is_empty name
    then err (empty_name o.mxid)
    else if starts_with at_sign name || starts_with bang name
    then err (name_like_an_id o.name)
    else if not (is_valid_mxid o.mxid)
    then err (invalid_mxid o.name o.mxid)
    else if not (is_valid_room_id room_id)
    then err (invalid_room_id o.name o.room_id)
    else if any (λ r. eq_ignore_ascii_case r o.mxid) k.reserved
    then err (own_account o.mxid)
    else if is_person k o.mxid
    then err (also_recipient o.mxid)
    else if any (λ r. text_eq r.room_id room_id) k.rooms
    then err (in_listed_room room_id)
    else if name_taken k name
    then err observer_name_taken
    else if any (λ x. eq_ignore_ascii_case x.name name) out
    then err other_observer_name
    else elim (find (λ x. text_eq x.room_id room_id) out) [
      | some x ↦ err (room_observed_twice room_id x.name)
      | none ↦ ok (record { name = name; mxid = o.mxid; room_id = room_id; note = o.note })
    ]

unfoldable pub check_observers : Others → List Observer → List Row → Result Reason (List Observer)
check_observers k out [] = ok out
check_observers k out (row ∷ more) = elim row.typed [
  | none ↦ err bad_row
  | some o ↦ elim (check_observer k out o) [
    | err e ↦ err e
    | ok x ↦ check_observers k (out ++ x ∷ []) more
  ]
]

unfoldable pub parse_observers : Option RawObservers → Others → Result Reason (List Observer)
parse_observers none k = ok []
parse_observers (some no_array) k = err observers_no_array
parse_observers (some (rows more)) k = check_observers k [] more

-- `none` stands for a text that is not TOML of this shape.
unfoldable pub parse_with :
    Option AllowListFile → List Recipient → List Text → Result ParseFailure Parsed
parse_with none fixed reserved = err (file_failure syntax_error)
parse_with (some file) fixed reserved = elim (people_and_rooms file.recipients file.rooms) [
  | err e ↦ err (file_failure e)
  | ok lists ↦ elim (check_fixed fixed lists.0 lists.1) [
    | some e ↦ err (file_failure e)
    | none ↦
        elim (parse_observers file.observers
          (record { recipients = lists.0; rooms = lists.1; fixed = fixed; reserved = reserved })) [
            | err e ↦ err (observer_failure e)
            | ok observers ↦
                ok (record { recipients = lists.0; rooms = lists.1; observers = observers })
          ]
  ]
]
