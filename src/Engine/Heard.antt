-- ===== src/Engine/Heard.antt =====
-- Which inbound messages are accepted, and that a dropped one is logged once.
use aqua_matrix_connector.Common.{
  some, none, Bool, Option, ◌||◌, ◌≡◌, is_some, not, Bool-cases, any, ◌⊎◌, ◌&&◌, inl, inr,
  if◌then◌else◌, refl, is_none, true, false, ℕ, ap, [], subst, ◌++◌, ◌∙◌, map, sym, List,
  append_nil,
}
use aqua_matrix_connector.Engine.Types.{Accepted, ListFile, Engine, AuditRow, allowlist_rejected}
use aqua_matrix_connector.Engine.Inbound.{
  verdict_on, act, classify_inbound, drop_once, note_once, room_name_of, person_name_of,
  drop_for_room, drop_for_sender, accept_as, Verdict, room_key,
}
use aqua_matrix_connector.AllowList.Reload.{AllowList, reload, rereads, Audit}
use aqua_matrix_connector.AllowList.Targets.{is_listed_room, by_mxid, room_by_id, take_audit}
use aqua_matrix_connector.Engine.Resolve.{audit, allow_current}
use aqua_matrix_connector.Common.Text.{Text, eq_ignore_ascii_case, text_eq, text_eq_refl}
use aqua_matrix_connector.AllowList.{RoomEntry, Recipient}
use aqua_matrix_connector.AllowList.Settled.{rereads-reload}

-- What a message is accepted as, and that it is.
abbrev IsHeard : AllowList → Text → Text → Bool → Option Accepted → Type 0
IsHeard a sender room_id heard r =
    (is_some r ≡ heard)
    × ((r ≡ none)
        ⊎ (r
            ≡ some (record {
              room_name = room_name_of (room_by_id a room_id);
              sender_name = person_name_of (by_mxid a sender);
            })))

module _ {Json : Type 0} where
  act-IsHeard :
      (e : Engine Json) (a : AllowList) (sender room_id event_id : Text) (group : Bool)
      → IsHeard a sender room_id
          (is_listed_room a room_id || (not group && is_some (by_mxid a sender)))
          (act sender room_id event_id (verdict_on a sender room_id group) e).1
  unfolding act verdict_on is_listed_room
  act-IsHeard e a sender room_id event_id group =
      decide (room_by_id a room_id) (by_mxid a sender) group
    where
      decide :
          (r : Option RoomEntry) (p : Option Recipient) (g : Bool)
          → let v =
              if is_none (room_name_of r) && g
              then drop_for_room
              else if is_none (room_name_of r) && is_none (person_name_of p)
              then drop_for_sender
              else accept_as
                  (record { room_name = room_name_of r; sender_name = person_name_of p }) in
            (is_some (act sender room_id event_id v e).1 ≡ (is_some r || (not g && is_some p)))
            × (((act sender room_id event_id v e).1 ≡ none)
                ⊎ ((act sender room_id event_id v e).1
                    ≡ some (record { room_name = room_name_of r; sender_name = person_name_of p })))
      decide none none true = (refl, inl refl)
      decide none none false = (refl, inl refl)
      decide none (some p) true = (refl, inl refl)
      decide none (some p) false = (refl, inr refl)
      decide (some r) none true = (refl, inr refl)
      decide (some r) none false = (refl, inr refl)
      decide (some r) (some p) true = (refl, inr refl)
      decide (some r) (some p) false = (refl, inr refl)

  -- On the list as it is after the reload: a message is accepted exactly if it is not our own and is in a
  -- listed room, or is no message of a group and has a listed sender; it is accepted under the names that
  -- the list has for the room and the sender.
  pub classify_inbound-accepts :
      (f : ListFile) (e : Engine Json) (own sender room_id event_id : Text) (group : Bool)
      → let a = (allow_current f e).allow in
        let r = (classify_inbound f e own sender room_id event_id group).1 in
        (is_some r ≡ (
          not (eq_ignore_ascii_case sender own)
          && (is_listed_room a room_id || (not group && is_some (by_mxid a sender)))))
        × ((r ≡ none)
            ⊎ (r
                ≡ some (record {
                  room_name = room_name_of (room_by_id a room_id);
                  sender_name = person_name_of (by_mxid a sender);
                })))
  unfolding classify_inbound
  classify_inbound-accepts f e own sender room_id event_id group =
      elim (Bool-cases (eq_ignore_ascii_case sender own)) [
        | inl ours ↦ rw (ours, classify_inbound) (refl, inl refl)
        | inr other ↦
            let e' = allow_current f e in
            rw (other, classify_inbound) (act-IsHeard e' e'.allow sender room_id event_id group)
      ]

  drop_once-twice :
      (key : Text) (row : AuditRow) (e : Engine Json)
      → drop_once key row (drop_once key row e) ≡ drop_once key row e
  unfolding drop_once note_once audit
  drop_once-twice key row e = elim (Bool-cases (any (text_eq key) e.dropped)) [
    | inl known ↦ rw (known, drop_once) (rw known refl)
    | inr fresh ↦ rw (fresh, drop_once) (rw (text_eq_refl key) refl)
  ]

  drop_once-allow :
      (key : Text) (row : AuditRow) (e : Engine Json) → (drop_once key row e).allow ≡ e.allow
  unfolding drop_once note_once audit
  drop_once-allow key row e = elim (Bool-cases (any (text_eq key) e.dropped)) [
    | inl known ↦ rw (known, drop_once) refl
    | inr fresh ↦ rw (fresh, drop_once) refl
  ]

  act-twice :
      (sender room_id event_id : Text) (v : Verdict) (e : Engine Json)
      → let (e', r) = act sender room_id event_id v e in
        (act sender room_id event_id v e' ≡ (e', r)) × (e'.allow ≡ e.allow)
  unfolding act
  act-twice sender room_id event_id drop_for_room e = (
    ap (λ (x : Engine Json). (x, none)) (drop_once-twice (room_key room_id) _ e),
    drop_once-allow (room_key room_id) _ e,
  )
  act-twice sender room_id event_id drop_for_sender e = (
    ap (λ (x : Engine Json). (x, none)) (drop_once-twice event_id _ e),
    drop_once-allow event_id _ e,
  )
  act-twice sender room_id event_id (accept_as a) e = (refl, refl)

  -- A look that reads nothing, with no rows pending.
  allow_current-still :
      (f : ListFile) (e : Engine Json)
      → rereads false e.allow f.mtime ≡ false
      → e.allow.pending_audit ≡ []
      → allow_current f e ≡ e
  unfolding allow_current reload take_audit
  allow_current-still f e still none_pending =
      ap
        (λ (a : AllowList). record e {
          allow = record a { pending_audit = [] };
          audits = e.audits ++ map allowlist_rejected a.pending_audit;
        })
        reload_same
      ∙ ap
          (λ (rows : List Audit). record e {
            allow = record (e.allow) { pending_audit = [] };
            audits = e.audits ++ map allowlist_rejected rows;
          })
          none_pending
      ∙ ap
          (λ (rows : List AuditRow). record e {
            allow = record (e.allow) { pending_audit = [] };
            audits = rows;
          })
          (append_nil e.audits)
      ∙ ap (λ (rows : List Audit). record e { allow = record (e.allow) { pending_audit = rows } })
          (sym none_pending)
    where
      reload_same : (reload false e.allow f.mtime f.reading).0 ≡ e.allow
      reload_same = rw (still, reload) refl

  classify_inbound_own :
      (f : ListFile) (e : Engine Json) (own sender room_id event_id : Text) (group : Bool)
      → eq_ignore_ascii_case sender own ≡ true
      → classify_inbound f e own sender room_id event_id group ≡ (e, none)
  unfolding classify_inbound
  classify_inbound_own f e own sender room_id event_id group ours = rw (ours, classify_inbound) refl

  classify_inbound_other :
      (f : ListFile) (e : Engine Json) (own sender room_id event_id : Text) (group : Bool)
      → eq_ignore_ascii_case sender own ≡ false
      → let e' = allow_current f e in
        classify_inbound f e own sender room_id event_id group
        ≡ act sender room_id event_id (verdict_on e'.allow sender room_id group) e'
  unfolding classify_inbound
  classify_inbound_other f e own sender room_id event_id group other =
      rw (other, classify_inbound) refl

  -- The second look at the file.
  settled :
      (f : ListFile) (e e' : Engine Json) (m : ℕ)
      → f.mtime ≡ some m
      → e'.allow ≡ (allow_current f e).allow
      → allow_current f e' ≡ e'
  unfolding allow_current take_audit
  settled f e e' m at_m same =
      allow_current-still f e'
        (ap (λ (a : AllowList). rereads false a f.mtime) same
          ∙ subst
              (λ (t : Option ℕ).
                rereads false (take_audit (reload false e.allow t f.reading).0).0 t ≡ false)
              (sym at_m) (rereads-reload e.allow m f.reading))
        (ap (λ (a : AllowList). a.pending_audit) same)

  -- A backfill that brings a message again, while the allow-list's file is the same, neither decides otherwise
  -- nor logs it again: the same answer, and no change of the engine's state, audit log included.
  pub classify_inbound-twice :
      (f : ListFile) (e : Engine Json) (own sender room_id event_id : Text) (group : Bool) (m : ℕ)
      → f.mtime ≡ some m
      → let (e', r) = classify_inbound f e own sender room_id event_id group in
        classify_inbound f e' own sender room_id event_id group ≡ (e', r)
  classify_inbound-twice f e own sender room_id event_id group m at_m =
      elim (Bool-cases (eq_ignore_ascii_case sender own)) [
        | inl ours ↦
            let once = classify_inbound_own f e own sender room_id event_id group ours in
            subst (Repeats) (sym once) once
        | inr other ↦
            let e1 = allow_current f e in
            let v = verdict_on e1.allow sender room_id group in
            let (again, same) = act-twice sender room_id event_id v e1 in
            let e' = (act sender room_id event_id v e1).0 in
            subst (Repeats)
              (sym (classify_inbound_other f e own sender room_id event_id group other))
              (classify_inbound_other f e' own sender room_id event_id group other
                ∙ ap
                    (λ (x : Engine Json).
                      act sender room_id event_id (verdict_on x.allow sender room_id group) x)
                    (settled f e e' m at_m same)
                ∙ ap
                    (λ (a : AllowList).
                      act sender room_id event_id (verdict_on a sender room_id group) e')
                    same
                ∙ again)
      ]
    where
      Repeats : Engine Json × Option Accepted → Type 0
      Repeats (x, r) = classify_inbound f x own sender room_id event_id group ≡ (x, r)
