-- ===== src/Profile/Offered.antt =====
-- Which tools a profile offers.
use aqua_matrix_connector.Common.{
  List, Bool, ◌≡◌, ◌∷◌, filter, ◌++◌, Bool-cases, true, ◌∙◌, ◌&&◌, ◌||◌, ap, arith, ◌⊎◌, inl, [],
  refl, inr, not, if◌then◌else◌, false,
}
use aqua_matrix_connector.Profile.Tools.{
  skip_same, dedup_tools, has_name, tool_names, t_mark_processed,
}
use aqua_matrix_connector.Common.Text.{Text, text_eq, text_eq_sound, text_eq_refl}
use aqua_matrix_connector.Profile.{has_tool, with_inbox, normalize, Profile, with_policy}
use aqua_matrix_connector.Inbox.Entry.{InboxPolicy}

has_name-skip_same :
    (n t : Text) (ts : List Text) → has_name (skip_same t ts) n ≡ has_name (t ∷ ts) n
unfolding skip_same
has_name-skip_same n t [] = refl
has_name-skip_same n t (u ∷ us) = elim (Bool-cases (text_eq t u)) [
  | inl same ↦ rw same (rw (text_eq_sound t u same) (ground arith))
  | inr apart ↦ rw apart refl
]

has_name-dedup_tools : (n : Text) (ts : List Text) → has_name (dedup_tools ts) n ≡ has_name ts n
unfolding dedup_tools
has_name-dedup_tools n [] = refl
has_name-dedup_tools n (t ∷ ts) =
    has_name-skip_same n t (dedup_tools ts) ∙ ap (◌||◌ (text_eq t n)) (has_name-dedup_tools n ts)

has_name-filter :
    (p : Text → Bool) (n : Text) (ts : List Text)
    → has_name (filter p ts) n ≡ (has_name ts n && p n)
has_name-filter p n [] = refl
has_name-filter p n (t ∷ ts) = elim (Bool-cases (text_eq t n)) [
  | inl same ↦
      rw (text_eq_sound t n same, text_eq_refl n)
        (elim (Bool-cases (p n)) [
          | inl keep ↦ rw keep (rw (text_eq_refl n) refl)
          | inr gone ↦ rw gone (ground (arith, gone, has_name-filter p n ts))
        ])
  | inr apart ↦ elim (Bool-cases (p t)) [
    | inl keep ↦ ground (arith, keep, apart, has_name-filter p n ts)
    | inr gone ↦ ground (arith, gone, apart, has_name-filter p n ts)
  ]
]

has_name-append :
    (n : Text) (ts us : List Text) → has_name (ts ++ us) n ≡ (has_name ts n || has_name us n)
has_name-append n [] us = refl
has_name-append n (t ∷ ts) us = ground (arith, has_name-append n ts us)

-- A known tool is offered after `normalize` exactly if it was before.
has_tool-normalize :
    (p : Profile) (n : Text) → has_tool (normalize p) n ≡ (has_name tool_names n && has_tool p n)
unfolding has_tool normalize
has_tool-normalize p n = has_name-dedup_tools n _ ∙ has_name-filter (has_name p.tools) n tool_names

text_eq_comm : (s t : Text) → text_eq s t ≡ text_eq t s
text_eq_comm [] [] = refl
text_eq_comm [] (c ∷ t) = refl
text_eq_comm (c ∷ s) [] = refl
text_eq_comm (c ∷ s) (d ∷ t) = ground (arith, text_eq_comm s t)

own_tool : (a b : Bool) → ((a && false) || (b && true)) ≡ b
own_tool a b = ground arith

other_tool :
    {k t : Bool} (h b u : Bool)
    → k ≡ true
    → t ≡ false
    → u ≡ t
    → (k && ((h && not t) || (b && u))) ≡ h
other_tool h b u known apart e = ground (arith, known, apart, e)

module _ (p : Profile) (policy : InboxPolicy) where
  abbrev others : List Text
  others = filter (λ t. not (text_eq t t_mark_processed)) p.tools

  others-offered :
      (name : Text)
      → has_name others name ≡ (has_name p.tools name && not (text_eq name t_mark_processed))
  others-offered name = has_name-filter (λ t. not (text_eq t t_mark_processed)) name p.tools

  chosen-offered :
      (b : Bool) (name : Text)
      → has_name (if b then others ++ t_mark_processed ∷ [] else others) name ≡ (
          (has_name p.tools name && not (text_eq name t_mark_processed))
          || (b && text_eq t_mark_processed name))
  chosen-offered true name =
      has_name-append name others (t_mark_processed ∷ []) ∙ ground (arith, others-offered name)
  chosen-offered false name = ground (arith, others-offered name)

  offered :
      (name : Text)
      → has_tool (with_inbox p policy) name ≡ (
          has_name tool_names name
          && ((has_tool p name && not (text_eq name t_mark_processed))
              || (policy.track_processed && text_eq t_mark_processed name)))
  unfolding with_inbox with_policy has_tool
  offered name =
      has_tool-normalize (with_policy p policy) name
      ∙ ap (◌&&◌ (has_name tool_names name)) (chosen-offered policy.track_processed name)

  policy_kept : (with_inbox p policy).inbox ≡ policy
  unfolding with_inbox with_policy normalize
  policy_kept = refl

  -- The tool list cannot drift from the inbox policy: a profile given a policy offers
  -- `mark_processed` exactly if the policy tracks processing, holds that policy, and offers of the
  -- other known tools those that it did before.
  pub with_inbox-offers :
      (name : Text)
      → has_name tool_names name ≡ true
      → let p' = with_inbox p policy in
        (p'.inbox ≡ policy)
        × (has_tool p' t_mark_processed ≡ policy.track_processed)
        × ((name ≡ t_mark_processed) ⊎ (has_tool p' name ≡ has_tool p name))
  with_inbox-offers name known = (
    policy_kept,
    offered t_mark_processed ∙ own_tool _ policy.track_processed,
    elim (Bool-cases (text_eq name t_mark_processed)) [
      | inl same ↦ inl (text_eq_sound name t_mark_processed same)
      | inr apart ↦ inr (
          offered name
          ∙ other_tool (has_tool p name) policy.track_processed (text_eq t_mark_processed name)
              known apart (text_eq_comm t_mark_processed name))
    ],
  )
