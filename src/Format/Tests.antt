-- ===== src/Format/Tests.antt =====
-- Runs on given texts, and the properties at them.
use aqua_matrix_connector.Common.Decimal.{decimal, digits}
use aqua_matrix_connector.Common.{some, none, All, ◌≡◌, ◌∷◌, ◌++◌, refl, true, ◌<◌, length, ◌≤◌}
use aqua_matrix_connector.Common.Text.{codes, trim, is_whitespace, trim_end, to_lower, len}
use aqua_matrix_connector.Format.Origin.{sanitize_origin, origin_char, max_origin_chars}
use aqua_matrix_connector.Format.{tag_markdown, tag_caption, sanitize_note, sanitize_session}
use aqua_matrix_connector.Format.Inert.{sanitize_origin-Inert}
use aqua_matrix_connector.Format.Calendar.{
  fmt_ts_ms, civil_from_days, days_from_civil, before, since,
}
use aqua_matrix_connector.Format.Dates.{days_from_civil-of_days}

markdown_stripped : sanitize_origin (codes "evil`**[link](x)") ≡ codes "evillink(x)"
unfolding sanitize_origin trim is_whitespace
markdown_stripped = refl

blank_origin : sanitize_origin (codes "   ") ≡ codes "unknown session"
unfolding sanitize_origin trim
blank_origin = refl

spaces_collapsed : sanitize_origin (codes " a   b ") ≡ codes "a b"
unfolding sanitize_origin trim is_whitespace
spaces_collapsed = refl

tagged :
    tag_markdown (codes "hi  ") (codes "r@h") ≡ codes "hi" ++ 10 ∷ 10 ∷ codes "<sub>via `r@h`</sub>"
unfolding is_whitespace trim_end tag_markdown sanitize_origin trim
tagged = refl

captioned : tag_caption (some (codes " ")) (codes "a.md") (codes "r@h") ≡ codes "a.md (via r@h)"
unfolding tag_caption trim sanitize_origin is_whitespace
captioned = refl

noted : sanitize_note (9 ∷ codes "  done,  " ++ 10 ∷ codes "twice ") ≡ some (codes "done, twice")
unfolding sanitize_note is_whitespace
noted = refl

no_note : sanitize_note (codes "  ") ≡ none
unfolding sanitize_note is_whitespace
no_note = refl

session_kept : sanitize_session (some (codes " AB-12 ")) ≡ some (codes "ab-12")
unfolding to_lower is_whitespace trim sanitize_session len
session_kept = refl

session_dropped : sanitize_session (some (codes "x1")) ≡ none
unfolding len trim sanitize_session is_whitespace
session_dropped = refl

sanitize_origin-Inert_example :
    let label = sanitize_origin (codes "evil`**[link](x)") in
    All (λ c. origin_char c ≡ true) label × (0 < length label) × (length label ≤ max_origin_chars)
sanitize_origin-Inert_example = sanitize_origin-Inert (codes "evil`**[link](x)")

epoch : fmt_ts_ms 0 ≡ codes "1970-01-01T00:00:00Z"
unfolding decimal fmt_ts_ms digits
epoch = refl

leap_day : civil_from_days 19782 ≡ (2024, 2, 29)
unfolding civil_from_days
leap_day = refl

too_early : days_from_civil 1969 12 31 ≡ before 1
unfolding days_from_civil
too_early = refl

days_from_civil-of_days_example :
    let (y, m, d) = civil_from_days 19782 in
    (days_from_civil y m d ≡ since 19782) × (1 ≤ m) × (m ≤ 12) × (1 ≤ d) × (d ≤ 31)
days_from_civil-of_days_example = days_from_civil-of_days 19782
