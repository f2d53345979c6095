-- ===== src/Attachments/Name.antt =====
-- crates/aqua-messenger/src/attachments.rs: the file name of an attachment.
use mathlib.Core.List.{reverse}
use aqua_matrix_connector.Common.Decimal.{decimal}
use aqua_matrix_connector.Common.{
  ℕ, some, none, Bool, ◌∷◌, false, Option, [], ◌==◌, if◌then◌else◌, any, leb, ltb, ◌||◌, ◌&&◌, take,
  ◌++◌, ◌-◌,
}
use aqua_matrix_connector.Common.Text.{Text, codes, len, is_empty}
use aqua_matrix_connector.Format.Origin.{is_alphanumeric}
use aqua_matrix_connector.Format.{is_control}

abbrev pub max_name_bytes : ℕ
max_name_bytes = 100

abbrev pub dot : ℕ
dot = 46

abbrev pub underscore : ℕ
underscore = 95

abbrev pub is_separator : ℕ → Bool
is_separator c = c == 47 || c == 92

-- `rsplit(['/', '\\']).next()`
unfoldable pub last_component : Text → Text
last_component [] = []
last_component (c ∷ s) =
    let rest = last_component s in
    if any is_separator s then rest else if is_separator c then s else c ∷ s

unfoldable pub name_char : ℕ → Bool
name_char c = is_alphanumeric c || any (λ m. m == c) (codes "._+()-")

abbrev pub ends_with : ℕ → Text → Bool
ends_with p [] = false
ends_with p (c ∷ []) = c == p
ends_with p (c ∷ d ∷ s) = ends_with p (d ∷ s)

-- One round of the loop.
unfoldable pub push_name : Text → ℕ → Text
push_name out ch =
    let c = if name_char ch then ch else underscore in
    if is_control ch || (c == underscore && ends_with underscore out) then out else out ++ c ∷ []

unfoldable pub name_loop : Text → Text → Text
name_loop out [] = out
name_loop out (ch ∷ s) = name_loop (push_name out ch) s

abbrev pub is_edge : ℕ → Bool
is_edge c = c == dot || c == underscore

-- `trim_start_matches(['.', '_'])`
unfoldable pub strip_edges : Text → Text
strip_edges [] = []
strip_edges (c ∷ s) = if is_edge c then strip_edges s else c ∷ s

-- From the last dot on.
unfoldable pub last_dot : Text → Option Text
last_dot [] = none
last_dot (c ∷ s) = elim (last_dot s) [
  | some ext ↦ some ext
  | none ↦ if c == dot then some (c ∷ s) else none
]

unfoldable pub extension : Text → Text
extension s = elim (last_dot s) [ none ↦ [] | some ext ↦ if leb (len ext) 12 then ext else [] ]

-- The text is ASCII here, so its bytes are its characters.
unfoldable pub shorten : Text → Text
shorten s =
    let ext = extension s in
    if ltb max_name_bytes (len s) then take (max_name_bytes - len ext) s ++ ext else s

abbrev pub no_name : Text
no_name = codes "attachment"

unfoldable pub sanitize_filename : Text → Text
sanitize_filename raw =
    let out = reverse (strip_edges (reverse (strip_edges (name_loop [] (last_component raw))))) in
    shorten (if is_empty out then no_name else out)

unfoldable pub stored_name : ℕ → Text → Text
stored_name inbox_seq raw_name = decimal inbox_seq ++ 45 ∷ sanitize_filename raw_name
