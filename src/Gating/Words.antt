-- ===== src/Gating/Words.antt =====
-- What the table flags, by the words of a text and the needles in it.
use aqua_matrix_connector.Gating.{
  words_of, split_whitespace, split_spaces, add_word, join, looks_destructive, normalise, classify,
  flags, rules, contains_text, Rule,
}
use aqua_matrix_connector.Common.Text.{Text, is_whitespace, codes, text_eq}
use aqua_matrix_connector.Common.{
  ℕ, List, All, ◌≡◌, ◌++◌, false, ◌∷◌, ◌==◌, arith, Bool-cases, [], ◌∙◌, refl, inl, ap, inr, any,
  ◌||◌, Bool, is_some, true, find, ◌>>=◌, some,
}

abbrev NoSpace : Text → Type 0
NoSpace w = All (λ c. (c == 32) ≡ false) w

no_space : (c : ℕ) → is_whitespace c ≡ false → (c == 32) ≡ false
unfolding is_whitespace
no_space c h = ground (arith, h)

add_word-All :
    (P : Text → Type 0) (w : Text) (ws : List Text) → P w → All P ws → All P (add_word w ws)
add_word-All P [] ws h hs = hs
add_word-All P (c ∷ w) ws h hs = (h, hs)

words_of-NoSpace : (s : Text) → NoSpace (words_of s).0 × All NoSpace (words_of s).1
unfolding words_of
words_of-NoSpace [] = (tt, tt)
words_of-NoSpace (c ∷ s) = elim (Bool-cases (is_whitespace c)) [
  | inl white ↦ rw white (
    tt,
    add_word-All NoSpace (words_of s).0 (words_of s).1 (words_of-NoSpace s).0
        (words_of-NoSpace s).1,
  )
  | inr dark ↦ rw dark ((no_space c dark, (words_of-NoSpace s).0), (words_of-NoSpace s).1)
]

split_whitespace-NoSpace : (s : Text) → All NoSpace (split_whitespace s)
unfolding split_whitespace
split_whitespace-NoSpace s =
    add_word-All NoSpace (words_of s).0 (words_of s).1 (words_of-NoSpace s).0 (words_of-NoSpace s).1

split_one : (w : Text) → NoSpace w → split_spaces w ≡ w ∷ []
unfolding split_spaces
split_one [] h = refl
split_one (c ∷ w) h = rw (h.0, split_one w h.1) refl

split_first : (w s : Text) → NoSpace w → split_spaces (w ++ 32 ∷ s) ≡ w ∷ split_spaces s
unfolding split_spaces
split_first [] s h = refl
split_first (c ∷ w) s h = rw (h.0, split_first w s h.1) refl

-- Splitting undoes joining.
pub split_spaces-join :
    (w : Text) (ws : List Text) → All NoSpace (w ∷ ws) → split_spaces (join (w ∷ ws)) ≡ w ∷ ws
split_spaces-join w [] h = split_one w h.0
split_spaces-join w (v ∷ ws) h =
    split_first w (join (v ∷ ws)) h.0 ∙ ap (λ vs. w ∷ vs) (split_spaces-join v ws h.1)

-- A word that is not empty is a token of the joined text exactly if it is one of the words.
tokens-join :
    (c : ℕ) (w : Text) (ws : List Text)
    → All NoSpace ws
    → any (text_eq (c ∷ w)) (split_spaces (join ws)) ≡ any (text_eq (c ∷ w)) ws
unfolding split_spaces
tokens-join c w [] h = refl
tokens-join c w (v ∷ ws) h = ap (any (text_eq (c ∷ w))) (split_spaces-join v ws h)

-- The needles of the whole table.
abbrev pub needles : List Text
needles =
    codes "-delete"
    ∷ codes "git push --force"
    ∷ codes "git push -f"
    ∷ codes "--force-with-lease"
    ∷ codes "push --force"
    ∷ codes "push -f"
    ∷ []

found-any :
    (p : Rule → Bool) (rs : List Rule) → is_some (find p rs >>= λ rule. some rule.class) ≡ any p rs
found-any p [] = refl
found-any p (r ∷ rs) = elim (Bool-cases (p r)) [
  | inl hit ↦ rw hit refl
  | inr miss ↦ rw miss (found-any p rs)
]

flat :
    (a b n rest : Bool)
    → ((a || (b || false)) || (n || false)) || (rest || false) ≡ (a || (b || (n || rest)))
flat true b n rest = refl
flat false true n rest = refl
flat false false true rest = refl
flat false false false true = refl
flat false false false false = refl

module _ (to_lowercase : Text → Text) where
  -- A request is held to be destructive exactly if, in lower case, `rm` or `rmdir` is one of its words
  -- between whitespace, or one of the needles occurs in it once each run of whitespace is one space.
  pub looks_destructive-iff-flagged :
      (text : Text)
      → let words = split_whitespace (to_lowercase text) in
        looks_destructive to_lowercase text ≡ (
          any (text_eq (codes "rm")) words
          || (any (text_eq (codes "rmdir")) words || any (contains_text (join words)) needles))
  unfolding normalise looks_destructive classify
  looks_destructive-iff-flagged text =
      let words = split_whitespace (to_lowercase text) in
      let norm = join words in
      let dark = split_whitespace-NoSpace (to_lowercase text) in
      found-any (flags to_lowercase norm (split_spaces norm)) rules
      ∙ flat (any (text_eq (codes "rm")) (split_spaces norm))
          (any (text_eq (codes "rmdir")) (split_spaces norm)) (contains_text norm (codes "-delete"))
          _
      ∙ ap
          (λ x.
            x
            || (any (text_eq (codes "rmdir")) (split_spaces norm)
                || any (contains_text norm) needles))
          (tokens-join 114 (codes "m") words dark)
      ∙ ap (λ y. any (text_eq (codes "rm")) words || (y || any (contains_text norm) needles))
          (tokens-join 114 (codes "mdir") words dark)
