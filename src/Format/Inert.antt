-- ===== src/Format/Inert.antt =====
-- What a label can hold once it is sanitized.
use aqua_matrix_connector.Common.{
  ℕ, ◌≡◌, true, Bool, All, false, ◌∷◌, length, ◌<◌, arith, Bool-cases, ◌≤◌, inl, inr, length-append,
  ◌++◌, [], All-append, ◌==◌, leb, if◌then◌else◌,
}
use aqua_matrix_connector.Common.Trim.{trim-All, length-trim-le}
use aqua_matrix_connector.Common.Text.{trim, Text, is_empty}
use aqua_matrix_connector.Format.Origin.{
  origin_char, skips, origin_loop, sanitize_origin, max_origin_chars, is_alphanumeric,
  unknown_session,
}

abbrev IsOriginChar : ℕ → Type 0
IsOriginChar c = origin_char c ≡ true

skips-kept : (out : Text) (prev : Bool) (ch : ℕ) → skips out prev ch ≡ false → IsOriginChar ch
unfolding skips
skips-kept out prev ch h = ground arith

origin_loop-All :
    (out : Text) (prev : Bool) (raw : Text)
    → All IsOriginChar out
    → All IsOriginChar (origin_loop out prev raw)
unfolding origin_loop
origin_loop-All out prev [] h = h
origin_loop-All out prev (ch ∷ raw) h = elim (Bool-cases (skips out prev ch)) [
  | inl skip ↦ rw skip (origin_loop-All out prev raw h)
  | inr keep ↦
      let h' : All IsOriginChar (out ++ ch ∷ []) =
        All-append IsOriginChar out (ch ∷ []) h (skips-kept out prev ch keep, tt) in
      rw keep (elim (Bool-cases (leb max_origin_chars (length (out ++ ch ∷ [])))) [
        | inl full ↦ rw full h'
        | inr room ↦ rw room (origin_loop-All (out ++ ch ∷ []) (ch == 32) raw h')
      ])
]

length-origin_loop :
    (out : Text) (prev : Bool) (raw : Text)
    → length out < max_origin_chars
    → length (origin_loop out prev raw) ≤ max_origin_chars
unfolding origin_loop
length-origin_loop out prev [] h = omega arith
length-origin_loop out prev (ch ∷ raw) h = elim (Bool-cases (skips out prev ch)) [
  | inl skip ↦ rw skip (length-origin_loop out prev raw h)
  | inr keep ↦ rw keep (
      ground
        (arith, length-append out (ch ∷ []), length-origin_loop (out ++ ch ∷ []) (ch == 32) raw))
]

named :
    (s : Text)
    → All IsOriginChar s
    → length s ≤ max_origin_chars
    → let label = if is_empty s then unknown_session else s in
      All IsOriginChar label × (0 < length label) × (length label ≤ max_origin_chars)
unfolding origin_char is_alphanumeric
named [] h short = (ground arith, omega arith, omega arith)
named (c ∷ s) h short = (h, omega arith, short)

-- Whatever a caller gives as its origin, the label consists of letters, digits and the marks
-- ` ._@/:+(),-` only, so of no backtick, bracket, asterisk, quote or line break, has at least one
-- character, and at most 48.
pub sanitize_origin-Inert :
    (raw : Text)
    → All (λ c. origin_char c ≡ true) (sanitize_origin raw)
      × (0 < length (sanitize_origin raw))
      × (length (sanitize_origin raw) ≤ max_origin_chars)
unfolding sanitize_origin
sanitize_origin-Inert raw =
    let out = origin_loop [] false raw in
    named (trim out) (trim-All IsOriginChar out (origin_loop-All [] false raw tt))
      (omega (arith, length-trim-le out, length-origin_loop [] false raw (omega arith)))
