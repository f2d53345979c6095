-- ===== src/AllowList/Tests.antt =====
-- The allow-list at concrete inputs: short runs, and the theorems applied.
use aqua_matrix_connector.Common.{some, none, List, true, ◌∷◌, [], false, ◌≡◌, ◌||◌, All, refl}
use aqua_matrix_connector.AllowList.Parse.{
  rows, AllowListFile, Row, check_rooms, check_recipients, parse_with, people_and_rooms,
  check_fixed, trimmed_room, is_person, parse_observers, lower_name, name_taken, check_observer,
  check_observers, ok,
}
use aqua_matrix_connector.AllowList.Reload.{
  not_found, unreadable, reads, owner_only, unloaded, take_reading, take_parsed, reload, rereads,
  build, reject_observer, same_time, accept, merged,
}
use aqua_matrix_connector.AllowList.{
  Recipient, RoomEntry, Observer, count_joined, invite_action, join_as_dm, is_valid_mxid,
  is_valid_room_id, Parsed,
}
use aqua_matrix_connector.AllowList.Policy.{reloads, Ask, Follows, in_force, taken, lists-Follows}
use aqua_matrix_connector.Common.Text.{
  eq_ignore_ascii_case, codes, trim, strip_prefix, split_once, is_whitespace, to_lower,
}
use aqua_matrix_connector.AllowList.Targets.{resolve, by_mxid}
use aqua_matrix_connector.AllowList.Owner.{owner_always_reached}
use aqua_matrix_connector.AllowList.Observers.{IsBystander, observers_stay_apart}
use aqua_matrix_connector.AllowList.Accepted.{PeopleOk, RoomsOk, names_after, accepted_well_formed}

abbrev tim : Recipient
tim = record { name = codes "tim"; mxid = codes "@tim:x.io"; note = none }

abbrev ann : Recipient
ann = record { name = codes "Ann"; mxid = codes "@ann:x.io"; note = none }

abbrev updates : RoomEntry
updates = record { name = codes "updates"; room_id = codes " !up:x.io "; note = none }

abbrev watcher : Observer
watcher = record {
  name = codes "watch";
  mxid = codes "@watch:x.io";
  room_id = codes "!dm:x.io";
  note = none;
}

abbrev row : Observer → Row
row o = record { label = some o.name; typed = some o }

abbrev good : AllowListFile
good = record {
  recipients = ann ∷ [];
  rooms = updates ∷ [];
  observers = some (rows (row watcher ∷ []));
}

-- A recipient as an observer: the file is refused for its row.
abbrev spying : AllowListFile
spying = record {
  recipients = ann ∷ [];
  rooms = [];
  observers = some (rows (row (record watcher { mxid = codes "@ANN:x.io" }) ∷ []));
}

abbrev asks : List Ask
asks =
    record { force = true; mtime = some 1; reading = reads (some good) }
    ∷ record { force = false; mtime = some 1; reading = unreadable }
    ∷ record { force = false; mtime = some 2; reading = reads (some spying) }
    ∷ []

-- The unchanged file is not read again, and the spying one changes nothing.
good_stays :
    (reloads (unloaded (some (codes "list")) [] (codes "l") (codes "a")) asks).recipients ≡ ann ∷ []
unfolding check_rooms take_reading trim is_valid_mxid strip_prefix unloaded split_once take_parsed
    reload check_recipients rereads is_valid_room_id is_whitespace parse_with reloads
    people_and_rooms check_fixed reject_observer same_time accept to_lower trimmed_room is_person
    parse_observers merged lower_name name_taken check_observer check_observers
good_stays = refl

owner_and_file :
    (owner_only tim (some (codes "list")) (codes "l") (some 1) (reads (some good))).recipients
    ≡ tim ∷ ann ∷ []
unfolding check_rooms take_reading trim is_valid_mxid strip_prefix owner_only unloaded split_once
    take_parsed build reload check_recipients rereads is_whitespace parse_with people_and_rooms
    check_fixed is_valid_room_id accept to_lower trimmed_room is_person parse_observers merged
    lower_name name_taken check_observer check_observers
owner_and_file = refl

joined_but_observer :
    count_joined (codes "!dm:x.io") (codes "@tim:x.io" ∷ codes "@Watch:x.io" ∷ []) (watcher ∷ [])
    ≡ 1
unfolding to_lower count_joined
joined_but_observer = refl

direct_invite : invite_action true true false ≡ join_as_dm
unfolding invite_action
direct_invite = refl

name_matches :
    (eq_ignore_ascii_case tim.name (trim (codes " TIM "))
      || eq_ignore_ascii_case tim.mxid (trim (codes " TIM ")))
    ≡ true
unfolding to_lower is_whitespace trim
name_matches = refl

-- A recipient whose name has a space in front is accepted, and found under no name.
padded_name :
    resolve
      (reloads (unloaded (some (codes "list")) [] (codes "l") (codes "a")) (
        record {
          force = true;
          mtime = none;
          reading = reads (
              some (record {
                recipients = record tim { name = codes " tim" } ∷ [];
                rooms = [];
                observers = none;
              }));
        }
        ∷ []))
      (codes " tim")
    ≡ none
unfolding check_rooms take_reading trim is_valid_mxid strip_prefix unloaded split_once take_parsed
    reload check_recipients rereads is_whitespace parse_with reloads people_and_rooms resolve
    check_fixed accept parse_observers merged to_lower
padded_name = refl

lists-Follows_example :
    let a = record (unloaded (some (codes "list")) [] (codes "l") (codes "a")) {
      reserved = codes "@bot:x.io" ∷ [];
    } in
    Follows []
      (codes "@bot:x.io" ∷ [])
      (reloads a asks)
      (in_force [] (codes "@bot:x.io" ∷ []) none (taken a asks))
lists-Follows_example =
    lists-Follows (some (codes "list")) [] (codes "@bot:x.io" ∷ []) (codes "l") (codes "a") asks

owner_always_reached_example :
    let a = reloads (owner_only tim (some (codes "list")) (codes "l") (some 0) not_found) asks in
    (resolve a (codes " TIM ") ≡ some tim) × (by_mxid a (codes "@tim:x.io") ≡ some tim)
owner_always_reached_example =
    owner_always_reached tim (some (codes "list")) (codes "l") (some 0) not_found asks
      (codes " TIM ") name_matches

observers_stay_apart_example :
    let a =
      reloads
        (record (unloaded (some (codes "list")) (tim ∷ []) (codes "l") (codes "a")) {
          reserved = [];
        })
        asks in
    All (IsBystander a) a.observers
observers_stay_apart_example =
    observers_stay_apart (some (codes "list")) (tim ∷ []) [] (codes "l") (codes "a") asks

abbrev good_parsed : Parsed
good_parsed = record {
  recipients = ann ∷ [];
  rooms = record updates { room_id = codes "!up:x.io" } ∷ [];
  observers = watcher ∷ [];
}

good_accepted : parse_with (some good) [] [] ≡ ok good_parsed
unfolding split_once is_valid_room_id lower_name is_whitespace parse_with check_observer
    check_recipients strip_prefix to_lower trim is_valid_mxid check_fixed check_observers
    check_rooms parse_observers people_and_rooms trimmed_room name_taken is_person
good_accepted = refl

accepted_well_formed_example :
    PeopleOk [] (ann ∷ [])
    × RoomsOk (names_after [] (ann ∷ [])) [] (record updates { room_id = codes "!up:x.io" } ∷ [])
accepted_well_formed_example = accepted_well_formed (some good) [] [] good_parsed good_accepted
