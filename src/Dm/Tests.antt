-- ===== src/Dm/Tests.antt =====
-- Runs on small rooms, after the source's own tests, and the properties at them.
use aqua_matrix_connector.Dm.{
  DmObserver, joined_member, invited_member, pick_dm_candidate, without_observed, candidate_le,
  members_in, classify_dm_room, verdict_of, rank, keeps, is_own_or, text_lt,
}
use aqua_matrix_connector.Dm.Rooms.{
  Room, find_dm_room, is_usable, is_one_to_one_dm, candidate, dm_verdict,
}
use aqua_matrix_connector.Dm.Private.{find_dm_room-IsPrivate, IsPrivate}
use aqua_matrix_connector.Dm.Choice.{find_dm_room-best, room_rank}
use aqua_matrix_connector.Common.Text.{Text, codes, to_lower}
use aqua_matrix_connector.Common.{List, ◌≡◌, some, ◌∷◌, [], ◌≤◌, true, false, inr, inl, refl}
use aqua_matrix_connector.Common.Elem.{Elem}
use aqua_matrix_connector.Common.Sort.{sort, insert_sorted}

abbrev me : Text
me = codes "@me:x"

abbrev peer : Text
peer = codes "@peer:x"

abbrev watcher : Text
watcher = codes "@w:x"

-- The watcher reads along in the second room only.
abbrev watchers : List DmObserver
watchers = record { room_id = codes "!2:x"; user_id = codes "@W:x" } ∷ []

abbrev waiting : Room
waiting = record {
  room_id = codes "!1:x";
  members = some ((me, joined_member) ∷ (peer, invited_member) ∷ []);
  marked_direct = true;
  latest_ms = 9;
}

abbrev watched : Room
watched = record {
  room_id = codes "!2:x";
  members = some ((me, joined_member) ∷ (watcher, joined_member) ∷ (peer, joined_member) ∷ []);
  marked_direct = false;
  latest_ms = 5;
}

-- The watcher is an ordinary member here.
abbrev group : Room
group = record {
  room_id = codes "!3:x";
  members = some ((me, joined_member) ∷ (watcher, joined_member) ∷ (peer, joined_member) ∷ []);
  marked_direct = true;
  latest_ms = 50;
}

abbrev joined_rooms : List Room
joined_rooms = group ∷ waiting ∷ watched ∷ []

watched_is_found : find_dm_room me peer watchers joined_rooms ≡ some watched
unfolding text_lt keeps without_observed sort insert_sorted is_usable pick_dm_candidate to_lower
    classify_dm_room candidate is_own_or verdict_of dm_verdict rank candidate_le members_in
    find_dm_room
watched_is_found = refl

peer_may_join : is_usable me peer watchers waiting ≡ true
unfolding is_usable dm_verdict without_observed members_in classify_dm_room verdict_of rank keeps
    is_own_or
peer_may_join = refl

group_is_no_dm : is_one_to_one_dm me peer watchers (some group) ≡ false
unfolding is_one_to_one_dm is_usable dm_verdict without_observed members_in classify_dm_room
    verdict_of rank keeps is_own_or
group_is_no_dm = refl

find_dm_room-IsPrivate_example : Elem watched joined_rooms × IsPrivate me peer watchers watched
find_dm_room-IsPrivate_example =
    find_dm_room-IsPrivate me peer watchers joined_rooms watched watched_is_found

find_dm_room-best_example :
    (r : Room) × (find_dm_room me peer watchers joined_rooms ≡ some r)
    × (room_rank me peer watchers waiting ≤ room_rank me peer watchers r)
find_dm_room-best_example =
    find_dm_room-best me peer watchers joined_rooms waiting
      ((refl, (refl, tt)), ((refl, tt), (tt, tt))) (inr (inl refl)) peer_may_join
