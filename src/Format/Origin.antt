-- ===== src/Format/Origin.antt =====
-- crates/aqua-messenger/src/format.rs: the origin label.
use aqua_matrix_connector.Common.{
  ℕ, Bool, leb, not, ◌∷◌, ◌||◌, any, [], ◌&&◌, ◌==◌, if◌then◌else◌, false, ◌++◌, length,
}
use aqua_matrix_connector.Common.Text.{Text, codes, trim, is_empty}

abbrev pub max_origin_chars : ℕ
max_origin_chars = 48

-- `char::is_ascii_alphanumeric`
unfoldable pub is_alphanumeric : ℕ → Bool
is_alphanumeric c = (leb 48 c && leb c 57) || (leb 65 c && leb c 90) || (leb 97 c && leb c 122)

abbrev pub origin_marks : Text
origin_marks = codes " ._@/:+(),-"

unfoldable pub origin_char : ℕ → Bool
unfolding is_alphanumeric
origin_char c = is_alphanumeric c || any (λ m. m == c) origin_marks

-- The `continue`s of the loop.
unfoldable pub skips : Text → Bool → ℕ → Bool
unfolding origin_char
skips out prev_space ch = not (origin_char ch) || (ch == 32 && (prev_space || is_empty out))

unfoldable pub origin_loop : Text → Bool → Text → Text
unfolding skips
origin_loop out prev_space [] = out
origin_loop out prev_space (ch ∷ raw) =
    let skipped = skips out prev_space ch in
    let out' = if skipped then out else out ++ ch ∷ [] in
    let further = origin_loop out' (if skipped then prev_space else ch == 32) raw in
    if not skipped && leb max_origin_chars (length out') then out' else further

abbrev pub unknown_session : Text
unknown_session = codes "unknown session"

unfoldable pub sanitize_origin : Text → Text
unfolding origin_loop
sanitize_origin raw =
    let out = trim (origin_loop [] false raw) in if is_empty out then unknown_session else out
