-- ===== src/Dm.antt =====
-- crates/aqua-matrix-agent/src/dm.rs: which joined room is the direct chat with a user. What
-- matrix-sdk says of a room is data; a user's entry in its member list is joined or invited.
pub mod Rooms
mod Choice
mod Private
mod Tests
use aqua_matrix_connector.Common.{
  ℕ, some, none, ◌>>=◌, List, Option, unwrap_or, Bool, map, ◌∷◌, false, head?, ◌||◌, if◌then◌else◌,
  true, filter, not, any, ltb, find, is_some, ◌==◌, [], ◌&&◌,
}
use aqua_matrix_connector.Common.Text.{Text, text_eq, eq_ignore_ascii_case}
use aqua_matrix_connector.Common.Sort.{sort}

pub record DmObserver : Type 0 where
  pub room_id : Text
  pub user_id : Text

-- `MembershipState`
pub data Membership : Type 0 where
  joined_member : Membership
  invited_member : Membership
  other_member : Membership

abbrev pub Active : Type 0
Active = List (Text × Membership)

-- `DmObservers::members_in`
unfoldable pub members_in : List DmObserver → Text → List Text
members_in observers room_id =
    map (λ o. o.user_id) (filter (λ o. text_eq o.room_id room_id) observers)

unfoldable pub is_own_or : Text → Text → Text → Bool
is_own_or own target u = text_eq u own || text_eq u target

-- Whether `retain` keeps a member.
unfoldable pub keeps : Text → Text → List Text → Text × Membership → Bool
keeps own target observed m =
    is_own_or own target m.0 || not (any (λ o. eq_ignore_ascii_case o m.0) observed)

unfoldable pub without_observed : Active → Text → Text → List Text → Active
without_observed active own target [] = active
without_observed active own target (o ∷ observed) = filter (keeps own target (o ∷ observed)) active

pub data DmVerdict : Type 0 where
  dm_joined : DmVerdict
  dm_invited : DmVerdict
  not_one_to_one : DmVerdict
  target_absent : DmVerdict

unfoldable pub rank : DmVerdict → Option ℕ
rank dm_joined = some 2
rank dm_invited = some 1
rank not_one_to_one = none
rank target_absent = none

unfoldable pub verdict_of : Option (Text × Membership) → DmVerdict
verdict_of (some (u, joined_member)) = dm_joined
verdict_of (some (u, invited_member)) = dm_invited
verdict_of (some (u, other_member)) = target_absent
verdict_of none = target_absent

unfoldable pub classify_dm_room : Text → Text → Active → DmVerdict
unfolding verdict_of
classify_dm_room own target active =
    if any (λ m. not (is_own_or own target m.0)) active
    then not_one_to_one
    else verdict_of (find (λ m. text_eq m.0 target) active)

pub record DmCandidate : Type 0 where
  pub room_id : Text
  pub verdict : DmVerdict
  pub marked_direct : Bool
  pub last_activity_ms : ℕ

-- The order of `str`.
unfoldable pub text_lt : Text → Text → Bool
text_lt s [] = false
text_lt [] (d ∷ t) = true
text_lt (c ∷ s) (d ∷ t) = ltb c d || (c == d && text_lt s t)

abbrev pub rank_of : DmCandidate → ℕ
rank_of c = unwrap_or (rank c.verdict) 0

abbrev pub bit : Bool → ℕ
bit true = 1
bit false = 0

-- Not after the other in the order of `sort_by`.
unfoldable pub candidate_le : DmCandidate → DmCandidate → Bool
candidate_le a b =
    if not (rank_of a == rank_of b)
    then ltb (rank_of b) (rank_of a)
    else if not (bit a.marked_direct == bit b.marked_direct)
    then ltb (bit b.marked_direct) (bit a.marked_direct)
    else if not (a.last_activity_ms == b.last_activity_ms)
    then ltb b.last_activity_ms a.last_activity_ms
    else not (text_lt b.room_id a.room_id)

unfoldable pub pick_dm_candidate : List DmCandidate → Option Text
unfolding candidate_le
pick_dm_candidate candidates =
    elim (head? (sort candidate_le (filter (λ c. is_some (rank c.verdict)) candidates))) [
      | none ↦ none
      | some c ↦ some c.room_id
    ]
