-- ===== src/Dm/Rooms.antt =====
-- crates/aqua-matrix-agent/src/dm.rs: the verdict on a room, and the room that is found.
use aqua_matrix_connector.Common.{
  ℕ, some, none, ◌>>=◌, Option, List, Bool, filter, is_some, false, unwrap_or, map, ltb, length,
  if◌then◌else◌, find,
}
use aqua_matrix_connector.Common.Text.{Text, text_eq}
use aqua_matrix_connector.Dm.{
  Active, DmObserver, DmVerdict, classify_dm_room, DmCandidate, pick_dm_candidate, without_observed,
  rank, members_in, target_absent,
}

-- A joined room: its active members, where they could be read, whether it is marked as direct with the
-- target, and the time of its latest message.
pub record Room : Type 0 where
  pub room_id : Text
  pub members : Option Active
  pub marked_direct : Bool
  pub latest_ms : ℕ

module _ (own target : Text) (observers : List DmObserver) where
  unfoldable pub dm_verdict : Room → Option DmVerdict
  dm_verdict r = do
    active ← r.members
    some (
        classify_dm_room own target
          (without_observed active own target (members_in observers r.room_id)))

  unfoldable pub is_usable : Room → Bool
  unfolding dm_verdict
  is_usable r = is_some (dm_verdict r >>= rank)

  -- The latest messages are read only where there is a choice.
  unfoldable pub candidate : Bool → Room → DmCandidate
  candidate choice r = record {
    room_id = r.room_id;
    verdict = unwrap_or (dm_verdict r) target_absent;
    marked_direct = r.marked_direct;
    last_activity_ms = if choice then r.latest_ms else 0;
  }

  unfoldable pub find_dm_room : List Room → Option Room
  unfolding is_usable candidate
  find_dm_room rooms =
      let usable = filter is_usable rooms in
      pick_dm_candidate (map (candidate (ltb 1 (length usable))) usable) >>= λ chosen.
      find (λ r. text_eq r.room_id chosen) usable

  -- `get_room` and its state say whether the room is joined.
  unfoldable pub is_one_to_one_dm : Option Room → Bool
  unfolding is_usable
  is_one_to_one_dm none = false
  is_one_to_one_dm (some r) = is_usable r
