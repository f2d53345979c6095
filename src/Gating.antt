-- ===== src/Gating.antt =====
-- crates/aqua-matrix-gating/src/destructive.rs: which requests are dangerous enough to be confirmed in
-- a chat first. `str::to_lowercase`, which knows all of Unicode, is an argument.
mod Words
mod Tests
use aqua_matrix_connector.Common.Text.{Text, codes, is_whitespace, text_eq}
use aqua_matrix_connector.Common.{
  List, ℕ, ◌∷◌, Bool, [], Option, true, any, find, is_some, if◌then◌else◌, ◌++◌, ◌||◌, false, ◌==◌,
  none, ◌&&◌, some, ◌>>=◌,
}

pub record Rule : Type 0 where
  pub class : Text
  pub words : List Text
  pub substrings : List Text
  pub scope : Text

abbrev pub rules : List Rule
rules =
    record {
      class = codes "file deletion";
      words = codes "rm" ∷ codes "rmdir" ∷ [];
      substrings = codes "-delete" ∷ [];
      scope = codes "Bash(rm:*)";
    }
    ∷ record {
      class = codes "force push";
      words = [];
      substrings =
          codes "git push --force"
          ∷ codes "git push -f"
          ∷ codes "--force-with-lease"
          ∷ codes "push --force"
          ∷ codes "push -f"
          ∷ [];
      scope = codes "Bash(git push --force*)";
    }
    ∷ []

abbrev pub add_word : Text → List Text → List Text
add_word [] ws = ws
add_word (c ∷ s) ws = (c ∷ s) ∷ ws

-- The characters before the first whitespace, and the words after it.
unfoldable pub words_of : Text → Text × List Text
words_of [] = ([], [])
words_of (c ∷ s) =
    let (word, words) = words_of s in
    if is_whitespace c then ([], add_word word words) else (c ∷ word, words)

-- `str::split_whitespace`
unfoldable pub split_whitespace : Text → List Text
unfolding words_of
split_whitespace s = let (word, words) = words_of s in add_word word words

-- `join(" ")`
abbrev pub join : List Text → Text
join [] = []
join (w ∷ []) = w
join (w ∷ v ∷ ws) = w ++ 32 ∷ join (v ∷ ws)

-- `split(' ')`: the pieces between spaces, at least one.
abbrev pub add_to_first : ℕ → List Text → List Text
add_to_first c [] = (c ∷ []) ∷ []
add_to_first c (w ∷ ws) = (c ∷ w) ∷ ws

unfoldable pub split_spaces : Text → List Text
split_spaces [] = [] ∷ []
split_spaces (c ∷ s) =
    let rest = split_spaces s in if c == 32 then [] ∷ rest else add_to_first c rest

abbrev pub is_prefix : Text → Text → Bool
is_prefix [] t = true
is_prefix (c ∷ s) [] = false
is_prefix (c ∷ s) (d ∷ t) = c == d && is_prefix s t

-- `str::contains`
abbrev pub contains_text : Text → Text → Bool
contains_text [] s = is_prefix s []
contains_text (c ∷ t) s = is_prefix s (c ∷ t) || contains_text t s

module _ (to_lowercase : Text → Text) where
  unfoldable pub normalise : Text → Text
  unfolding split_whitespace
  normalise text = join (split_whitespace (to_lowercase text))

  abbrev pub flags : Text → List Text → Rule → Bool
  flags norm tokens rule =
      any (λ w. any (text_eq w) tokens) rule.words || any (contains_text norm) rule.substrings

  unfoldable pub classify : Text → Option Text
  unfolding normalise split_spaces
  classify text =
      let norm = normalise text in
      find (flags norm (split_spaces norm)) rules >>= λ rule. some rule.class

  unfoldable pub looks_destructive : Text → Bool
  unfolding classify
  looks_destructive text = is_some (classify text)
