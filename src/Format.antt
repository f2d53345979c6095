-- ===== src/Format.antt =====
-- crates/aqua-messenger/src/format.rs: what goes around a text that is sent, and the labels that
-- callers give.
pub mod Origin
pub mod Calendar
mod Dates
mod Inert
mod Tests
use aqua_matrix_connector.Common.{
  ℕ, some, none, Option, Bool, unwrap_or, ltb, ◌∷◌, take, leb, not, if◌then◌else◌, false, ◌++◌,
  ◌||◌, ◌&&◌, map, any, [], ◌==◌,
}
use Origin.{sanitize_origin}
use aqua_matrix_connector.Common.Text.{
  Text, codes, trim_end, is_empty, trim, is_whitespace, len, to_ascii_lowercase,
}

abbrev backtick : Text
backtick = codes "`"

-- `tag_markdown`
unfoldable pub tag_markdown : Text → Text → Text
tag_markdown markdown origin =
    trim_end markdown ++ 10 ∷ 10 ∷ codes "<sub>via `" ++ sanitize_origin origin ++ codes "`</sub>"

-- The caller's caption where it is more than blank.
unfoldable pub own_caption : Option Text → Option Text
own_caption none = none
own_caption (some c) = if is_empty (trim c) then none else some (trim c)

unfoldable pub tag_caption : Option Text → Text → Text → Text
unfolding own_caption
tag_caption caption filename origin =
    unwrap_or (own_caption caption) filename
    ++ codes " (via "
    ++ sanitize_origin origin
    ++ codes ")"

abbrev pub max_note_chars : ℕ
max_note_chars = 500

-- `char::is_control`
unfoldable pub is_control : ℕ → Bool
is_control c = ltb c 32 || (leb 127 c && leb c 159)

-- `split_whitespace` joined by single spaces, the words so far given: `gap` says that a space goes
-- before the next word.
unfoldable pub join_words : Bool → Bool → Text → Text
join_words started gap [] = []
join_words started gap (c ∷ s) =
    let rest = join_words (started || not (is_whitespace c)) (is_whitespace c) s in
    if is_whitespace c then rest else if started && gap then 32 ∷ c ∷ rest else c ∷ rest

unfoldable pub sanitize_note : Text → Option Text
unfolding is_control join_words
sanitize_note raw =
    let out =
      take max_note_chars
        (join_words false false (map (λ c. if is_control c then 32 else c) raw)) in
    if is_empty out then none else some out

-- `char::is_ascii_hexdigit`
abbrev pub is_hex_digit : ℕ → Bool
is_hex_digit c = (leb 48 c && leb c 57) || (leb 65 c && leb c 70) || (leb 97 c && leb c 102)

unfoldable pub is_session_id : Text → Bool
is_session_id s =
    not (is_empty s) && leb (len s) 64 && not (any (λ c. not (is_hex_digit c || c == 45)) s)

unfoldable pub sanitize_session : Option Text → Option Text
unfolding is_session_id
sanitize_session none = none
sanitize_session (some raw) =
    if is_session_id (trim raw) then some (to_ascii_lowercase (trim raw)) else none
