-- ===== src/Engine/Replies.antt =====
-- The number that a session is shown of an entry names it in a reply.
use aqua_matrix_connector.Common.{ℕ, ◌≡◌, true, ◌<◌, false, ◌^◌, arith, ap, All-mono, ◌∙◌, refl}
use aqua_matrix_connector.Common.Decimal.{decimal, decimal-All, parse_u64-decimal, is_digit}
use aqua_matrix_connector.Common.Trim.{trim_dark}
use aqua_matrix_connector.Common.Text.{is_whitespace}
use aqua_matrix_connector.Engine.Resolve.{parse_reply_to, parse_trimmed, by_seq}
use aqua_matrix_connector.AllowList.Parse.{ok}

digit-dark : (c : ℕ) → is_digit c ≡ true → is_whitespace c ≡ false
unfolding is_whitespace
digit-dark c h = ground arith

-- `reply_to` given as the decimal digits of a number of 64 bits is parsed as this inbox number, as
-- `read_inbox` shows it, never as an event id or an error.
pub parse_reply_to-decimal : (n : ℕ) → n < 2 ^ 64 → parse_reply_to (decimal n) ≡ ok (by_seq n)
unfolding parse_reply_to parse_trimmed
parse_reply_to-decimal n h =
    ap parse_trimmed (trim_dark (decimal n) (All-mono digit-dark (decimal n) (decimal-All n)))
    ∙ rw (parse_u64-decimal n h, parse_trimmed) refl
