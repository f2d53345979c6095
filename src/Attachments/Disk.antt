-- ===== src/Attachments/Disk.antt =====
-- The names of attachments on disk: the number of the inbox entry in front.
use aqua_matrix_connector.Attachments.Safe.{
  IsNameChar, IsVisible, name_char-lt, len-ascii, sanitize_filename-Safe,
}
use aqua_matrix_connector.Attachments.Name.{
  name_char, is_edge, stored_name, sanitize_filename, max_name_bytes,
}
use aqua_matrix_connector.Common.Decimal.{decimal, is_digit, decimal-All, length-decimal}
use aqua_matrix_connector.Common.Text.{Text, len}
use aqua_matrix_connector.Format.Origin.{is_alphanumeric}
use aqua_matrix_connector.Common.{
  ℕ, All, refl, ◌≡◌, ◌<◌, true, ◌^◌, arith, false, ◌++◌, ◌≤◌, ◌∷◌, ◌+◌, All-append, [], All-mono,
  length-append,
}

digit-IsNameChar : (c : ℕ) → is_digit c ≡ true → IsNameChar c
unfolding name_char is_alphanumeric
digit-IsNameChar c h = ground (arith, h)

dash-IsNameChar : IsNameChar 45
unfolding name_char is_alphanumeric
dash-IsNameChar = refl

digit-not_edge : (c : ℕ) → is_digit c ≡ true → is_edge c ≡ false
digit-not_edge c h = ground (arith, h)

-- A number with a dash behind it starts with a digit or the dash.
numbered-IsVisible : (s t : Text) → All (λ c. is_digit c ≡ true) s → IsVisible (s ++ 45 ∷ t)
numbered-IsVisible [] t h = refl
numbered-IsVisible (c ∷ s) t h = digit-not_edge c h.0

-- Whatever a sender calls the file, and for each 64-bit number of an entry: the name on disk consists
-- of letters, digits and the marks `._+()-` only, so has no path separator, it starts with neither a
-- dot nor an underscore, and it has at most 121 bytes: 20 digits, a dash, and 100 bytes of the name
-- that is left.
pub stored_name-Safe :
    (inbox_seq : ℕ) (raw : Text)
    → inbox_seq < 2 ^ 64
    → All (λ c. name_char c ≡ true) (stored_name inbox_seq raw)
      × IsVisible (stored_name inbox_seq raw)
      × (len (stored_name inbox_seq raw) ≤ 20 + 1 + max_name_bytes)
unfolding stored_name
stored_name-Safe inbox_seq raw h =
    let number = decimal inbox_seq in
    let name = sanitize_filename raw in
    let (chars, visible, short) = sanitize_filename-Safe raw in
    let all =
      All-append IsNameChar number (45 ∷ name)
        (All-mono digit-IsNameChar number (decimal-All inbox_seq)) (dash-IsNameChar, chars) in
    (
      all,
      numbered-IsVisible number name (decimal-All inbox_seq),
      rw (len-ascii _ (All-mono name_char-lt _ all)) (
          omega (
            arith,
            length-append number (45 ∷ name),
            length-decimal inbox_seq h,
            len-ascii name (All-mono name_char-lt name chars),
            short,
          )),
    )
