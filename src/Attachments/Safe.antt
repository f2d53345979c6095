-- ===== src/Attachments/Safe.antt =====
-- What `sanitize_filename` leaves of a name.
use mathlib.Core.List.{reverse, reverse-reverse, reverse-append}
use aqua_matrix_connector.Common.{
  ℕ, some, none, ◌∷◌, All, ◌≡◌, ◌++◌, true, Bool-cases, arith, [], sym, false, ◌⊎◌, ◌∙◌, inl, ap,
  inr, ◌||◌, refl, ◌==◌, ◌&&◌, All-append, Option, Bool, ◌<◌, length, ltb, take, if◌then◌else◌, ◌≤◌,
  leb, suc, length-append, ◌-◌, zero, length-take, All-take, All-mono, subst,
}
use aqua_matrix_connector.Common.Trim.{All-reverse}
use aqua_matrix_connector.Attachments.Name.{
  name_char, push_name, name_loop, strip_edges, last_dot, is_edge, underscore, ends_with, extension,
  shorten, sanitize_filename, dot, max_name_bytes, no_name, last_component,
}
use aqua_matrix_connector.Common.Text.{Text, len, len_utf8, is_empty}
use aqua_matrix_connector.Format.{is_control}
use aqua_matrix_connector.Format.Origin.{is_alphanumeric}

abbrev pub IsNameChar : ℕ → Type 0
IsNameChar c = name_char c ≡ true

-- Starts with a character that `strip_edges` leaves.
abbrev pub IsVisible : Text → Type 0
IsVisible [] = ⊥
IsVisible (c ∷ s) = is_edge c ≡ false

push_name-All : (out : Text) (ch : ℕ) → All IsNameChar out → All IsNameChar (push_name out ch)
unfolding push_name name_char
push_name-All out ch h = elim (Bool-cases (name_char ch)) [
  | inl own ↦
      rw own (elim (Bool-cases (is_control ch || (ch == underscore && ends_with underscore out))) [
        | inl skip ↦ rw skip h
        | inr keep ↦ rw keep (All-append IsNameChar out (ch ∷ []) h (own, tt))
      ])
  | inr other ↦ rw other (elim (Bool-cases (is_control ch || ends_with underscore out)) [
    | inl skip ↦ rw skip h
    | inr keep ↦ rw keep (All-append IsNameChar out (underscore ∷ []) h (underscore-kept, tt))
  ])
]
  where
    underscore-kept : IsNameChar underscore
    underscore-kept = ground arith

name_loop-All : (out s : Text) → All IsNameChar out → All IsNameChar (name_loop out s)
unfolding name_loop
name_loop-All out [] h = h
name_loop-All out (ch ∷ s) h = name_loop-All (push_name out ch) s (push_name-All out ch h)

module _ {κ} (P : ℕ → Type κ) where
  strip_edges-All : (s : Text) → All P s → All P (strip_edges s)
  unfolding strip_edges
  strip_edges-All [] h = tt
  strip_edges-All (c ∷ s) h = elim (Bool-cases (is_edge c)) [
    | inl edge ↦ rw edge (strip_edges-All s h.1)
    | inr inner ↦ rw inner h
  ]

  abbrev AllSome : Option Text → Type κ
  AllSome none = Unit
  AllSome (some ext) = All P ext

  last_dot-All : (s : Text) → All P s → AllSome (last_dot s)
  unfolding last_dot
  last_dot-All [] h = tt
  last_dot-All (c ∷ s) h = later (last_dot s) (last_dot-All s h.1)
    where
      here : (b : Bool) → AllSome (if b then some (c ∷ s) else none)
      here true = h
      here false = tt

      later :
          (o : Option Text)
          → AllSome o
          → AllSome
              (elim o [ some ext ↦ some ext | none ↦ if c == dot then some (c ∷ s) else none ])
      later (some ext) k = k
      later none k = here (c == dot)

  extension-All : (s : Text) → All P s → All P (extension s)
  unfolding extension
  extension-All s h = short (last_dot s) (last_dot-All s h)
    where
      cut : (b : Bool) (ext : Text) → All P ext → All P (if b then ext else [])
      cut true ext k = k
      cut false ext k = tt

      short :
          (o : Option Text)
          → AllSome o
          → All P (elim o [ none ↦ [] | some ext ↦ if leb (len ext) 12 then ext else [] ])
      short none k = tt
      short (some ext) k = cut (leb (len ext) 12) ext k

strip_edges-suffix : (s : Text) → (pre : Text) × (s ≡ pre ++ strip_edges s)
unfolding strip_edges
strip_edges-suffix [] = ([], refl)
strip_edges-suffix (c ∷ s) = elim (Bool-cases (is_edge c)) [
  | inl edge ↦ let (pre, e) = strip_edges-suffix s in rw edge (c ∷ pre, ap (◌∷◌ c) e)
  | inr inner ↦ rw inner ([], refl)
]

strip_edges-IsVisible : (s : Text) → (strip_edges s ≡ []) ⊎ IsVisible (strip_edges s)
unfolding strip_edges
strip_edges-IsVisible [] = inl refl
strip_edges-IsVisible (c ∷ s) = elim (Bool-cases (is_edge c)) [
  | inl edge ↦ rw edge (strip_edges-IsVisible s)
  | inr inner ↦ rw inner (inr inner)
]

IsVisible-prefix : (s t : Text) → IsVisible (s ++ t) → (s ≡ []) ⊎ IsVisible s
IsVisible-prefix [] t h = inl refl
IsVisible-prefix (c ∷ s) t h = inr h

-- Stripping the end leaves a part from the start.
strip_end : (s : Text) → (rest : Text) × (s ≡ reverse (strip_edges (reverse s)) ++ rest)
strip_end s =
    let (pre, e) = strip_edges-suffix (reverse s) in
    (
      reverse pre,
      sym (reverse-reverse s) ∙ ap reverse e ∙ reverse-append pre (strip_edges (reverse s)),
    )

strip_end-IsVisible :
    (s : Text)
    → (s ≡ []) ⊎ IsVisible s
    → let kept = reverse (strip_edges (reverse s)) in (kept ≡ []) ⊎ IsVisible kept
unfolding strip_edges
strip_end-IsVisible s (inl e) = inl (ap (λ t. reverse (strip_edges (reverse t))) e)
strip_end-IsVisible s (inr v) =
    let (rest, e) = strip_end s in IsVisible-prefix _ rest (subst IsVisible e v)

abbrev IsAscii : Text → Type 0
IsAscii = All (λ c. c < 128)

pub name_char-lt : (c : ℕ) → IsNameChar c → c < 128
unfolding name_char is_alphanumeric
name_char-lt c h = ground arith

pub len-ascii : (s : Text) → IsAscii s → len s ≡ length s
unfolding len len_utf8
len-ascii [] h = omega arith
len-ascii (c ∷ s) h = ground (arith, len-ascii s h.1)

len-extension : (s : Text) → len (extension s) ≤ 12
unfolding extension len
len-extension s = ground arith

length-shorten : (s : Text) → IsAscii s → length (shorten s) ≤ max_name_bytes
unfolding shorten
length-shorten s h = ground (
  arith,
  len-ascii s h,
  len-ascii (extension s) (extension-All (λ c. c < 128) s h),
  len-extension s,
  length-append (take (max_name_bytes - len (extension s)) s) (extension s),
  length-take (max_name_bytes - len (extension s)) s,
)

shorten-All : (s : Text) → All IsNameChar s → All IsNameChar (shorten s)
unfolding shorten
shorten-All s h = elim (Bool-cases (ltb max_name_bytes (len s))) [
  | inl long ↦ rw long (
      All-append IsNameChar (take (max_name_bytes - len (extension s)) s) (extension s)
        (All-take IsNameChar (max_name_bytes - len (extension s)) s h)
        (extension-All IsNameChar s h))
  | inr short ↦ rw short h
]

take-IsVisible : (n : ℕ) (s t : Text) → 0 < n → IsVisible s → IsVisible (take n s ++ t)
take-IsVisible n [] t h v = absurd v
take-IsVisible zero (c ∷ s) t h v = ground arith
take-IsVisible (suc n) (c ∷ s) t h v = v

shorten-IsVisible : (s : Text) → IsVisible s → IsVisible (shorten s)
unfolding shorten
shorten-IsVisible s v = elim (Bool-cases (ltb max_name_bytes (len s))) [
  | inl long ↦ rw long (
      take-IsVisible (max_name_bytes - len (extension s)) s (extension s)
        (omega (arith, len-extension s)) v)
  | inr short ↦ rw short v
]

named :
    (s : Text)
    → All IsNameChar s
    → (s ≡ []) ⊎ IsVisible s
    → let base = if is_empty s then no_name else s in All IsNameChar base × IsVisible base
unfolding name_char is_alphanumeric
named [] h v = (ground arith, refl)
named (c ∷ s) h (inl e) = ground arith
named (c ∷ s) h (inr v) = (h, v)

-- Whatever a sender calls the file, what is left of the name consists of letters, digits and the marks
-- `._+()-` only, does not start with a dot, and has at most 100 bytes.
pub sanitize_filename-Safe :
    (raw : Text)
    → All (λ c. name_char c ≡ true) (sanitize_filename raw)
      × IsVisible (sanitize_filename raw)
      × (len (sanitize_filename raw) ≤ max_name_bytes)
unfolding sanitize_filename
sanitize_filename-Safe raw =
    let out = name_loop [] (last_component raw) in
    let start = strip_edges out in
    let start-All = strip_edges-All IsNameChar out (name_loop-All [] (last_component raw) tt) in
    let kept-All =
      All-reverse IsNameChar _
        (strip_edges-All IsNameChar (reverse start) (All-reverse IsNameChar start start-All)) in
    let (chars, visible) =
      named _ kept-All (strip_end-IsVisible start (strip_edges-IsVisible out)) in
    let chars' = shorten-All _ chars in
    (
      chars',
      shorten-IsVisible _ visible,
      rw (len-ascii _ (All-mono name_char-lt _ chars'))
          (length-shorten _ (All-mono name_char-lt _ chars)),
    )
