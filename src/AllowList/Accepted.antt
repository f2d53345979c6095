-- ===== src/AllowList/Accepted.antt =====
-- What an accepted file holds.
use aqua_matrix_connector.Common.{
  some, none, List, Option, ◌∷◌, ◌≡◌, sym, map, [], false, arith, inl, inr, true, Option-cases, any,
  subst, ◌||◌,
}
use aqua_matrix_connector.AllowList.Parse.{
  ok, check_recipients, check_rooms, people_and_rooms, parse_with, trimmed_room, AllowListFile,
  lower_name, check_fixed, Others, parse_observers,
}
use aqua_matrix_connector.AllowList.Observers.{Result-cases, ok_injective}
use aqua_matrix_connector.Common.Text.{
  Text, is_empty, trim, starts_with, to_ascii_lowercase, text_eq,
}
use aqua_matrix_connector.AllowList.{
  Recipient, RoomEntry, Parsed, is_valid_mxid, at_sign, bang, is_valid_room_id,
}

-- The names in use after these people, in lower case and trimmed.
abbrev pub names_after : List Text → List Recipient → List Text
names_after names [] = names
names_after names (r ∷ rs) = names_after (lower_name r.name ∷ names) rs

-- Every person has a name, a well-formed MXID, and a name that none before has.
abbrev pub PeopleOk : List Text → List Recipient → Type 0
PeopleOk names [] = Unit
PeopleOk names (r ∷ rs) =
    (is_empty (trim r.name) ≡ false)
    × (is_valid_mxid r.mxid ≡ true)
    × (any (text_eq (lower_name r.name)) names ≡ false)
    × PeopleOk (lower_name r.name ∷ names) rs

-- Every room has a name that is no id and that nobody before has, and a well-formed id of its own.
abbrev pub RoomsOk : List Text → List Text → List RoomEntry → Type 0
RoomsOk names ids [] = Unit
RoomsOk names ids (r ∷ rs) =
    (is_empty r.name ≡ false)
    × ((starts_with at_sign r.name || starts_with bang r.name) ≡ false)
    × (is_valid_room_id r.room_id ≡ true)
    × (any (text_eq (to_ascii_lowercase r.name)) names ≡ false)
    × (any (text_eq r.room_id) ids ≡ false)
    × RoomsOk (to_ascii_lowercase r.name ∷ names) (r.room_id ∷ ids) rs

people_checked :
    (names : List Text) (rs : List Recipient) (out : List Text)
    → check_recipients names rs ≡ ok out
    → PeopleOk names rs × (out ≡ names_after names rs)
unfolding check_recipients
people_checked names [] out h = (tt, sym (ok_injective names out h))
people_checked names (r ∷ rs) out h =
    ground (arith, h, people_checked (lower_name r.name ∷ names) rs out)

rooms_checked :
    (names ids : List Text) (rs : List RoomEntry)
    → check_rooms names ids rs ≡ none
    → RoomsOk names ids (map trimmed_room rs)
unfolding check_rooms trimmed_room
rooms_checked names ids [] h = tt
rooms_checked names ids (r ∷ rs) h =
    ground
      (arith, h, rooms_checked (to_ascii_lowercase (trim r.name) ∷ names) (trim r.room_id ∷ ids) rs)

lists_checked :
    (people : List Recipient) (rooms : List RoomEntry) (lists : List Recipient × List RoomEntry)
    → people_and_rooms people rooms ≡ ok lists
    → PeopleOk [] lists.0 × RoomsOk (names_after [] lists.0) [] lists.1
unfolding people_and_rooms
lists_checked people rooms lists h = elim (Result-cases (check_recipients [] people)) [
  | inl (e, bad) ↦ ground (arith, h, bad)
  | inr (names, good) ↦ elim (Option-cases (check_rooms names [] rooms)) [
    | inr (e, bad) ↦ ground (arith, h, good, bad)
    | inl fine ↦
        let (p, after) = people_checked [] people names good in
        let same : (people, map trimmed_room rooms) ≡ lists = ground (arith, h, good, fine) in
        subst
          (λ (l : List Recipient × List RoomEntry).
            PeopleOk [] l.0 × RoomsOk (names_after [] l.0) [] l.1)
          same
          (
            p,
            subst (λ ns. RoomsOk ns [] (map trimmed_room rooms)) after
                (rooms_checked names [] rooms fine),
          )
  ]
]

-- A file is accepted only if every person has a name and a well-formed MXID, every room a short
-- handle as its name and a well-formed room id, no name is used twice in both lists (whatever its
-- ASCII case), and no room is listed twice.
pub accepted_well_formed :
    (file : Option AllowListFile) (fixed : List Recipient) (reserved : List Text) (p : Parsed)
    → parse_with file fixed reserved ≡ ok p
    → PeopleOk [] p.recipients × RoomsOk (names_after [] p.recipients) [] p.rooms
unfolding parse_with
accepted_well_formed none fixed reserved p h = ground (arith, h)
accepted_well_formed (some file) fixed reserved p h =
    elim (Result-cases (people_and_rooms file.recipients file.rooms)) [
      | inl (e, bad) ↦ ground (arith, h, bad)
      | inr (lists, good) ↦ elim (Option-cases (check_fixed fixed lists.0 lists.1)) [
        | inr (e, bad) ↦ ground (arith, h, good, bad)
        | inl free ↦
            let k : Others = record {
              recipients = lists.0;
              rooms = lists.1;
              fixed = fixed;
              reserved = reserved;
            } in
            elim (Result-cases (parse_observers file.observers k)) [
              | inl (e, bad) ↦ ground (arith, h, good, free, bad)
              | inr (os, fine) ↦
                  let q : Parsed = record {
                    recipients = lists.0;
                    rooms = lists.1;
                    observers = os;
                  } in
                  let same : q ≡ p = ground (arith, h, good, free, fine) in
                  subst
                    (λ x.
                      PeopleOk [] x.recipients × RoomsOk (names_after [] x.recipients) [] x.rooms)
                    same (lists_checked file.recipients file.rooms lists good)
            ]
      ]
    ]
