-- ===== src/Pending/Tests.antt =====
-- Pending questions at concrete inputs.
use aqua_matrix_connector.Common.Assoc.{insert, lookup}
use aqua_matrix_connector.Common.{some, none, ◌∷◌, [], ◌≡◌, false, true, refl}
use aqua_matrix_connector.Pending.{
  timed_out, channel_ends, try_resolve, finish, register, no_questions, is_pending, remove, clear,
  set_channel, drop_sender,
}
use aqua_matrix_connector.Pending.Events.{asks, hears, ends, run, step}
use aqua_matrix_connector.Pending.Answers.{next_message_answers}
use aqua_matrix_connector.Common.Text.{Text, codes}

abbrev tim : Text
tim = codes "@tim:x"

abbrev ann : Text
ann = codes "@ann:x"

-- After a timeout the next message is no answer.
late_reply :
    (try_resolve (run no_questions (asks tim ∷ ends tim 0 timed_out ∷ [])) tim (codes "yes")).1
    ≡ false
unfolding remove step no_questions finish run register try_resolve clear insert lookup
late_reply = refl

-- A second question ends the first wait without an answer.
replaced :
    (finish
      (run no_questions (asks tim ∷ asks tim ∷ hears tim (codes "yes") ∷ []))
      tim
      0
      channel_ends).1
    ≡ none
unfolding step no_questions finish run set_channel register try_resolve insert drop_sender lookup
replaced = refl

next_message_answers_example :
    let (m, id) = register (run no_questions (asks ann ∷ asks tim ∷ [])) tim in
    let (m', taken) = try_resolve (run m (hears ann (codes "no") ∷ [])) tim (codes "yes") in
    (taken ≡ true)
    × ((finish m' tim id channel_ends).1 ≡ some (codes "yes"))
    × (is_pending m' tim ≡ false)
next_message_answers_example =
    next_message_answers (asks ann ∷ asks tim ∷ []) (hears ann (codes "no") ∷ []) tim (codes "yes")
      (refl, tt)
