-- ===== src/Gating/Tests.antt =====
-- Runs on small texts, after the source's own tests, and the property at one of them.
use aqua_matrix_connector.Gating.{
  classify, looks_destructive, split_whitespace, contains_text, join,
}
use aqua_matrix_connector.Gating.Words.{looks_destructive-iff-flagged, needles}
use aqua_matrix_connector.Common.Text.{to_ascii_lowercase, codes, text_eq, to_lower, is_whitespace}
use aqua_matrix_connector.Common.{◌≡◌, some, none, any, refl, ◌||◌}

rm_is_flagged :
    classify to_ascii_lowercase (codes "please rm -RF  /x") ≡ some (codes "file deletion")
unfolding classify to_lower is_whitespace
rm_is_flagged = refl

alarm_is_not : classify to_ascii_lowercase (codes "alarm in the form") ≡ none
unfolding classify to_lower is_whitespace
alarm_is_not = refl

looks_destructive-iff-flagged_example :
    let words = split_whitespace (to_ascii_lowercase (codes "git  push\t-F")) in
    looks_destructive to_ascii_lowercase (codes "git  push\t-F") ≡ (
      any (text_eq (codes "rm")) words
      || (any (text_eq (codes "rmdir")) words || any (contains_text (join words)) needles))
looks_destructive-iff-flagged_example =
    looks_destructive-iff-flagged to_ascii_lowercase (codes "git  push\t-F")
