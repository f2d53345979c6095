-- ===== src/AllowList.antt =====
-- crates/aqua-messenger/src/allowlist.rs: whom the bridge messages and hears.
-- Error messages are data: the reason, without its wording.
pub mod Parse
pub mod Reload
pub mod Targets
pub mod Policy
pub mod Owner
pub mod Observers
pub mod Accepted
pub mod Settled
mod Tests
use aqua_matrix_connector.Common.{
  ℕ, some, none, Bool, List, Option, length, if◌then◌else◌, filter, false, not, ◌&&◌, any,
}
use aqua_matrix_connector.Common.Text.{
  Text, text_eq, strip_prefix, eq_ignore_ascii_case, split_once, is_empty, is_whitespace,
}

pub record Recipient : Type 0 where
  pub name : Text
  pub mxid : Text
  pub note : Option Text

pub record RoomEntry : Type 0 where
  pub name : Text
  pub room_id : Text
  pub note : Option Text

pub record Observer : Type 0 where
  pub name : Text
  pub mxid : Text
  pub room_id : Text
  pub note : Option Text

abbrev pub at_sign : ℕ
at_sign = 64

abbrev pub bang : ℕ
bang = 33

abbrev pub colon : ℕ
colon = 58

-- `Observer::is`
unfoldable pub is_observer : Observer → Text → Text → Bool
is_observer o mxid room_id = text_eq o.room_id room_id && eq_ignore_ascii_case o.mxid mxid

unfoldable pub count_joined : Text → List Text → List Observer → ℕ
unfolding is_observer
count_joined room_id joined observers =
    length (filter (λ m. not (any (λ o. is_observer o m room_id) observers)) joined)

-- A sigil, then a local part and a server, neither empty, and no whitespace.
unfoldable pub is_sigil_id : ℕ → Text → Bool
is_sigil_id sigil s = elim (strip_prefix sigil s) [
  | none ↦ false
  | some rest ↦ elim (split_once colon rest) [
    | none ↦ false
    | some parts ↦ not (is_empty parts.0) && not (is_empty parts.1) && not (any is_whitespace s)
  ]
]

unfoldable pub is_valid_room_id : Text → Bool
unfolding is_sigil_id
is_valid_room_id s = is_sigil_id bang s

unfoldable pub is_valid_mxid : Text → Bool
unfolding is_sigil_id
is_valid_mxid s = is_sigil_id at_sign s

pub data InviteAction : Type 0 where
  decline join_as_dm join_as_group : InviteAction

unfoldable pub invite_action : Bool → Bool → Bool → InviteAction
invite_action inviter_allowed is_direct room_listed =
    if not inviter_allowed
    then decline
    else if is_direct && not room_listed
    then join_as_dm
    else join_as_group

-- A parsed allow-list file.
pub record Parsed : Type 0 where
  pub recipients : List Recipient
  pub rooms : List RoomEntry
  pub observers : List Observer
