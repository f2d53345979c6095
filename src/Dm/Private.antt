-- ===== src/Dm/Private.antt =====
-- Who is in the room that is found.
use aqua_matrix_connector.Common.{
  some, none, Bool, ◌≡◌, List, Option, find, any, is_some, filter, false, not, true, arith, All,
  ◌∷◌, ◌||◌, Bool-cases, All-mono, ◌⊎◌, [], inl, inr, find_sound, refl, map, Option-cases, ltb,
  length, none_of,
}
use aqua_matrix_connector.Dm.Rooms.{find_dm_room, Room, is_usable, dm_verdict, candidate}
use aqua_matrix_connector.Common.Text.{Text, text_eq, eq_ignore_ascii_case}
use aqua_matrix_connector.Dm.{
  Active, without_observed, verdict_of, classify_dm_room, Membership, keeps, rank, is_own_or,
  joined_member, invited_member, other_member, DmObserver, members_in, pick_dm_candidate,
}
use aqua_matrix_connector.Common.Elem.{Elem, Elem-of_filter, find-Elem}

all_or_filtered :
    {A : Type 0} (p q : A → Bool) (xs : List A)
    → any p (filter q xs) ≡ false
    → All (λ x. (not (p x) || not (q x)) ≡ true) xs
all_or_filtered p q [] h = tt
all_or_filtered p q (x ∷ xs) h = elim (Bool-cases (q x)) [
  | inl keep ↦ ground (arith, keep, h, all_or_filtered p q xs)
  | inr gone ↦ ground (arith, gone, h, all_or_filtered p q xs)
]

abbrev IsParty : Text → Text → List Text → Text × Membership → Type 0
IsParty own target observed m =
    (is_own_or own target m.0 || any (λ o. eq_ignore_ascii_case o m.0) observed) ≡ true

-- The target is there, joined or invited.
abbrev IsThere : Text → Active → Type 0
IsThere target active =
    (m : Text × Membership) × Elem m active
    × (text_eq m.0 target ≡ true)
    × ((m.1 ≡ joined_member) ⊎ (m.1 ≡ invited_member))

module _ (own target : Text) where
  no_strangers :
      (observed : List Text) (active : Active)
      → any (λ m. not (is_own_or own target m.0)) (without_observed active own target observed)
        ≡ false
      → All (IsParty own target observed) active
  unfolding without_observed keeps
  no_strangers [] active h =
      All-mono (λ m k. ground (arith, k)) active
        (none_of (λ m. not (is_own_or own target m.0)) active h)
  no_strangers (o ∷ observed) active h =
      All-mono (λ m k. ground (arith, k)) active
        (all_or_filtered (λ m. not (is_own_or own target m.0)) (keeps own target (o ∷ observed))
          active h)

  Elem-without_observed :
      (observed : List Text) (active : Active) (m : Text × Membership)
      → Elem m (without_observed active own target observed)
      → Elem m active
  unfolding without_observed
  Elem-without_observed [] active m e = e
  Elem-without_observed (o ∷ observed) active m e =
      (Elem-of_filter (keeps own target (o ∷ observed)) active m e).0

  target_found :
      (o : Option (Text × Membership))
      → is_some (rank (verdict_of o)) ≡ true
      → (m : Text × Membership) × (o ≡ some m) × ((m.1 ≡ joined_member) ⊎ (m.1 ≡ invited_member))
  unfolding verdict_of rank
  target_found (some (u, joined_member)) h = ((u, joined_member), refl, inl refl)
  target_found (some (u, invited_member)) h = ((u, invited_member), refl, inr refl)
  target_found (some (u, other_member)) h = ground arith
  target_found none h = ground arith

  classified :
      (observed : List Text) (active : Active)
      → is_some (rank (classify_dm_room own target (without_observed active own target observed)))
        ≡ true
      → All (IsParty own target observed) active × IsThere target active
  unfolding classify_dm_room rank
  classified observed active h =
      let left = without_observed active own target observed in
      elim (Bool-cases (any (λ m. not (is_own_or own target m.0)) left)) [
        | inl strangers ↦ ground (arith, rw (strangers, rank) at h)
        | inr fine ↦
            let (m, found, there) =
              target_found (find (λ m. text_eq m.0 target) left)
                (rw (fine, classify_dm_room) at h) in
            (
              no_strangers observed active fine,
              (
                m,
                Elem-without_observed observed active m (find-Elem _ left m found),
                find_sound (λ m. text_eq m.0 target) left m found,
                there,
              ),
            )
      ]

module _ (own target : Text) (observers : List DmObserver) where
  -- Only the two parties and the observers of the room are in it, and the target is.
  abbrev pub IsPrivate : Room → Type 0
  IsPrivate r =
      (active : Active) × (r.members ≡ some active)
      × All (IsParty own target (members_in observers r.room_id)) active
      × IsThere target active

  pub is_usable-IsPrivate : (r : Room) → is_usable own target observers r ≡ true → IsPrivate r
  unfolding is_usable dm_verdict
  is_usable-IsPrivate r h = elim (Option-cases r.members) [
    | inl unread ↦ ground (arith, rw unread at h)
    | inr (active, read) ↦
        let (parties, there) =
          classified own target (members_in observers r.room_id) active (rw read at h) in
        (active, read, parties, there)
  ]

  pub find_dm_room-usable :
      (rooms : List Room) (r : Room)
      → find_dm_room own target observers rooms ≡ some r
      → Elem r (filter (is_usable own target observers) rooms)
  unfolding find_dm_room
  find_dm_room-usable rooms r h =
      let usable = filter (is_usable own target observers) rooms in
      let candidates = map (candidate own target observers (ltb 1 (length usable))) usable in
      elim (Option-cases (pick_dm_candidate candidates)) [
        | inl nothing ↦ ground (arith, rw nothing at h)
        | inr (chosen, picked) ↦ find-Elem (λ x. text_eq x.room_id chosen) usable r (rw picked at h)
      ]

  -- The room that is found is one of the joined rooms, and its list of active members could be read;
  -- in it are only the agent, the target and the observers of that room, and the target is joined or
  -- invited.
  pub find_dm_room-IsPrivate :
      (rooms : List Room) (r : Room)
      → find_dm_room own target observers rooms ≡ some r
      → Elem r rooms × IsPrivate r
  find_dm_room-IsPrivate rooms r h =
      let (inside, usable) =
        Elem-of_filter (is_usable own target observers) rooms r (find_dm_room-usable rooms r h) in
      (inside, is_usable-IsPrivate r usable)
