-- ===== src/AllowList/Owner.antt =====
-- An embedded agent's owner is always on the list, under the same name.
use aqua_matrix_connector.Common.{
  ℕ, some, none, Bool, List, Option, ◌≡◌, true, find, ◌∷◌, ◌||◌, Bool-cases, [], any, refl, inl,
  inr, ◌++◌,
}
use aqua_matrix_connector.AllowList.Reload.{
  Reading, owner_only, merged, build, unloaded, rereads, reload,
}
use aqua_matrix_connector.AllowList.Policy.{Ask, reloads, lists-Follows}
use aqua_matrix_connector.AllowList.{Recipient, Parsed}
use aqua_matrix_connector.AllowList.Targets.{resolve, by_mxid}
use aqua_matrix_connector.Common.Text.{
  Text, eq_ignore_ascii_case, trim, codes, text_eq_refl, to_ascii_lowercase,
}

find-merged :
    (p : Recipient → Bool) (o : Recipient) (known es : List Recipient)
    → p o ≡ true
    → find p (merged (o ∷ known) es) ≡ some o
unfolding merged
find-merged p o known [] h = rw h refl
find-merged p o known (e ∷ es) h =
    elim (Bool-cases (any (λ r. eq_ignore_ascii_case r.mxid e.mxid) (o ∷ known))) [
      | inl listed ↦ rw listed (find-merged p o known es h)
      | inr fresh ↦ rw fresh (find-merged p o (known ++ e ∷ []) es h)
    ]

find-in_force :
    (p : Recipient → Bool) (o : Recipient) (now : Option Parsed)
    → p o ≡ true
    → find p (elim now [ none ↦ o ∷ [] | some q ↦ merged (o ∷ []) q.recipients ]) ≡ some o
find-in_force p o none h = rw h refl
find-in_force p o (some q) h = find-merged p o [] q.recipients h

-- Whatever the extra file holds, and whatever becomes of it later: an argument that matches the
-- owner's name or MXID resolves to the owner, and so does the owner as a sender. No file removes the
-- owner or points the owner's name at somebody else.
pub owner_always_reached :
    (owner : Recipient) (extra : Option Text) (label : Text) (mtime : Option ℕ) (reading : Reading)
    (asks : List Ask) (who : Text)
    → (eq_ignore_ascii_case owner.name (trim who) || eq_ignore_ascii_case owner.mxid (trim who))
      ≡ true
    → let a = reloads (owner_only owner extra label mtime reading) asks in
      (resolve a who ≡ some owner) × (by_mxid a owner.mxid ≡ some owner)
unfolding owner_only build resolve by_mxid reloads unloaded rereads reload
owner_always_reached owner extra label mtime reading asks who h =
    let first : Ask = record { force = true; mtime = mtime; reading = reading } in
    let f = lists-Follows extra (owner ∷ []) [] label (codes "the agent's owner") (first ∷ asks) in
    (
      rw f.people (find-in_force _ owner _ h),
      rw f.people (find-in_force _ owner _ (text_eq_refl (to_ascii_lowercase owner.mxid))),
    )
