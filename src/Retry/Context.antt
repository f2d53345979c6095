-- ===== src/Retry/Context.antt =====
-- Wrapping an error in context: what it does to its classification.
use aqua_matrix_connector.Common.{
  List, Bool, any, ◌≡◌, if◌then◌else◌, true, ◌++◌, ◌∷◌, arith, ap, sym, ◌||◌, ◌⊎◌, [], refl,
  append_nil, Bool-cases, false, inl, ◌∙◌, inr,
}
use aqua_matrix_connector.Retry.Classify.{
  holds_text, joined, classify_connect_error, Cause, out_of_files, typed_transient, fatal,
  transient, fatal_markers, transient_markers, ConnectErrorClass,
}
use aqua_matrix_connector.Common.Text.{Text, to_ascii_lowercase, to_lower, codes}

-- The evidence that decides for `fatal` whatever else the chain holds.
pub fatal_evidence : List Cause → Bool
fatal_evidence chain =
    any out_of_files chain
    || any (λ m. holds_text m (to_ascii_lowercase (joined chain))) fatal_markers

pub network_evidence : List Cause → Bool
network_evidence chain =
    any typed_transient chain
    || any (λ m. holds_text m (to_ascii_lowercase (joined chain))) transient_markers

holds_text-append : (m s t : Text) → holds_text m t ≡ true → holds_text m (s ++ t) ≡ true
unfolding holds_text
holds_text-append m [] t h = h
holds_text-append m (c ∷ s) t h = ground (arith, holds_text-append m s t h)

lower-append :
    (s t : Text) → to_ascii_lowercase (s ++ t) ≡ to_ascii_lowercase s ++ to_ascii_lowercase t
lower-append [] t = refl
lower-append (c ∷ s) t = ap (◌∷◌ (to_lower c)) (lower-append s t)

-- The text of a wrapped chain ends with the text of the chain.
joined_context :
    (c : Cause) (chain : List Cause)
    → (s : Text) × (to_ascii_lowercase (joined (c ∷ chain))
        ≡ s ++ to_ascii_lowercase (joined chain))
unfolding joined
joined_context c [] =
    (to_ascii_lowercase c.rendered, sym (append_nil (to_ascii_lowercase c.rendered)))
joined_context c (d ∷ chain) = (
  to_ascii_lowercase c.rendered ++ to_ascii_lowercase (codes " | "),
  lower-append (c.rendered ++ codes " | ") (joined (d ∷ chain))
      ∙ ap (λ s. s ++ to_ascii_lowercase (joined (d ∷ chain)))
          (lower-append c.rendered (codes " | ")),
)

any_marker_stays :
    (ms : List Text) (c : Cause) (chain : List Cause)
    → any (λ m. holds_text m (to_ascii_lowercase (joined chain))) ms ≡ true
    → any (λ m. holds_text m (to_ascii_lowercase (joined (c ∷ chain)))) ms ≡ true
any_marker_stays ms c chain h =
    let (s, e) = joined_context c chain in rw e (stays ms s (to_ascii_lowercase (joined chain)) h)
  where
    stays :
        (ms : List Text) (s t : Text)
        → any (λ m. holds_text m t) ms ≡ true
        → any (λ m. holds_text m (s ++ t)) ms ≡ true
    stays [] s t h = h
    stays (m ∷ ms) s t h = ground (arith, h, holds_text-append m s t, stays ms s t)

or_stays :
    {a b : Bool} (a' b' : Bool)
    → (a ≡ true → a' ≡ true)
    → (b ≡ true → b' ≡ true)
    → (a || b) ≡ true
    → (a' || b') ≡ true
or_stays {a = true} a' b' h k e = rw (h refl) refl
or_stays {a = false} a' b' h k e = rw (k e) (or_true a')
  where
    or_true : (x : Bool) → (x || true) ≡ true
    or_true true = refl
    or_true false = refl

evidence_class :
    (chain : List Cause)
    → classify_connect_error chain ≡ (
        if fatal_evidence chain then fatal else if network_evidence chain then transient else fatal)
unfolding classify_connect_error fatal_evidence network_evidence
evidence_class chain =
    split (any out_of_files chain)
      (any (λ m. holds_text m (to_ascii_lowercase (joined chain))) fatal_markers) _
  where
    split :
        (a b : Bool) (x : ConnectErrorClass)
        → (if a then fatal else if b then fatal else x) ≡ (if a || b then fatal else x)
    split true b x = refl
    split false b x = refl

any_cause_stays :
    (p : Cause → Bool) (c : Cause) (chain : List Cause)
    → any p chain ≡ true
    → any p (c ∷ chain) ≡ true
any_cause_stays p c chain h = ground (arith, h)

fatal_evidence_stays :
    (c : Cause) (chain : List Cause)
    → fatal_evidence chain ≡ true
    → fatal_evidence (c ∷ chain) ≡ true
unfolding fatal_evidence
fatal_evidence_stays c chain h =
    or_stays _ _ (any_cause_stays out_of_files c chain) (any_marker_stays fatal_markers c chain) h

network_evidence_stays :
    (c : Cause) (chain : List Cause)
    → network_evidence chain ≡ true
    → network_evidence (c ∷ chain) ≡ true
unfolding network_evidence
network_evidence_stays c chain h =
    or_stays _ _ (any_cause_stays typed_transient c chain)
      (any_marker_stays transient_markers c chain) h

-- Context around an error, however it is worded, never hides the reason of a definitive failure: a
-- chain with fatal evidence stays `fatal`. Nor does it hide an outage: a chain with network evidence
-- alone stays `transient`, unless the context itself brings fatal evidence. Without either the chain
-- is `fatal`.
pub classify_in_context :
    (c : Cause) (chain : List Cause)
    → (if fatal_evidence chain
        then classify_connect_error (c ∷ chain) ≡ fatal
        else if network_evidence chain
        then (classify_connect_error (c ∷ chain) ≡ transient) ⊎ (fatal_evidence (c ∷ chain) ≡ true)
        else classify_connect_error chain ≡ fatal)
classify_in_context c chain = elim (Bool-cases (fatal_evidence chain)) [
  | inl hard ↦ rw hard (rw evidence_class (rw (fatal_evidence_stays c chain hard) refl))
  | inr open_ ↦ elim (Bool-cases (network_evidence chain)) [
    | inl net ↦ elim (Bool-cases (fatal_evidence (c ∷ chain))) [
      | inl now ↦ rw open_ (rw net (inr now))
      | inr still ↦ rw open_ (
          rw net (
            inl (
              evidence_class (c ∷ chain)
              ∙ rw still (rw (network_evidence_stays c chain net) refl))))
    ]
    | inr no_net ↦ rw open_ (rw no_net (evidence_class chain ∙ rw open_ (rw no_net refl)))
  ]
]
