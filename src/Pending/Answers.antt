-- ===== src/Pending/Answers.antt =====
-- Which question an inbound message answers.
use aqua_matrix_connector.Common.{
  ℕ, some, List, ◌∷◌, ◌≡◌, [], false, ◌<◌, arith, ◌==◌, refl, true, Option-cases, inr, inl,
  Bool-cases, if_false, subst, All, ◌∙◌, ==_iff, sym, ap, if_true, ==_refl, is_some,
}
use aqua_matrix_connector.Pending.{
  PendingMap, register, try_resolve, set_channel, finish, channel_ends, remove, clear, answered,
  no_questions, is_pending, send_failed, timed_out,
}
use aqua_matrix_connector.Common.Text.{Text, text_eq, text_eq_refl}
use aqua_matrix_connector.Common.Assoc.{lookup, lookup-insert}
use aqua_matrix_connector.Pending.Events.{
  Event, asks, hears, ends, IsValid, run, Asked, lookup-remove, target_of, drop_other,
  channel_cases, step, run-IsValid, finish-channel_ends, step-IsValid, register-IsValid,
}

module _ (target : Text) (id : ℕ) (m : PendingMap) (v : IsValid m) (a : Asked m target id) where
  -- The channel of an entry of another target is another one.
  other_channel :
      (t : Text)
      → text_eq t target ≡ false
      → (n : ℕ) → lookup t m.inner ≡ some n
      → (id == n) ≡ false
  other_channel t other n h = elim (Bool-cases (id == n)) [
    | inr apart ↦ apart
    | inl same ↦
        let is : id ≡ n = (==_iff id n).0 same in
        ground (arith, other, v.own t target id (h ∙ ap some (sym is)) a.entry)
  ]

  lookup-removed_other :
      (t : Text) → text_eq t target ≡ false → lookup target (remove t m.inner) ≡ some id
  lookup-removed_other t other = lookup-remove t target m.inner ∙ if_false _ _ other ∙ a.entry

  clear-Asked : (t : Text) → text_eq t target ≡ false → Asked (clear m t) target id
  unfolding clear
  clear-Asked t other = record {
    entry = lookup-removed_other t other;
    open_ = drop_other (lookup t m.inner) m.channels id (other_channel t other) ∙ a.open_;
    old = a.old;
  }

  ask-Asked : (t : Text) → text_eq t target ≡ false → Asked (register m t).0 target id
  unfolding register set_channel
  ask-Asked t other = record {
    entry = lookup-insert t target m.next m.inner ∙ if_false _ _ other ∙ a.entry;
    open_ =
        if_false _ _ (before_next a.old)
        ∙ drop_other (lookup t m.inner) m.channels id (other_channel t other)
        ∙ a.open_;
    old = omega (arith, a.old);
  }
    where
      before_next : id < m.next → (id == m.next) ≡ false
      before_next h = ground (arith, h)

  hear-Asked : (t body : Text) → text_eq t target ≡ false → Asked (try_resolve m t body).0 target id
  unfolding try_resolve set_channel
  hear-Asked t body other = elim (Option-cases (lookup t m.inner)) [
    | inl nobody ↦ rw (nobody, try_resolve) a
    | inr (n, asked) ↦
        rw (asked, try_resolve)
          (record {
            entry = lookup-removed_other t other;
            open_ = elim (channel_cases (m.channels n)) [
              | inl w ↦ rw w (if_false _ _ (other_channel t other n asked) ∙ a.open_)
              | inr k ↦ k _ _ id ∙ a.open_
            ];
            old = a.old;
          })
  ]

  step-Asked : (e : Event) → text_eq (target_of e) target ≡ false → Asked (step m e) target id
  unfolding step finish
  step-Asked (asks t) other = ask-Asked t other
  step-Asked (hears t body) other = hear-Asked t body other
  step-Asked (ends t n send_failed) other = clear-Asked t other
  step-Asked (ends t n timed_out) other = clear-Asked t other
  step-Asked (ends t n channel_ends) other =
      subst (λ x. Asked x target id) (sym (finish-channel_ends m t n)) a

run-Asked :
    (target : Text) (id : ℕ) (es : List Event) (m : PendingMap)
    → IsValid m
    → Asked m target id
    → All (λ e. text_eq (target_of e) target ≡ false) es
    → Asked (run m es) target id
unfolding run
run-Asked target id [] m v a h = a
run-Asked target id (e ∷ es) m v a h =
    run-Asked target id es (step m e) (step-IsValid m e v) (step-Asked target id m v a e h.0) h.1

no_questions-IsValid : IsValid no_questions
unfolding no_questions lookup
no_questions-IsValid = record {
  below = λ t n h. ground (arith, h);
  own = λ t u n h j. ground (arith, h);
}

register-Asked :
    (m : PendingMap) (target : Text) → Asked (register m target).0 target (register m target).1
unfolding register set_channel
register-Asked m target = record {
  entry = lookup-insert target target m.next m.inner ∙ if_true _ _ (text_eq_refl target);
  open_ = if_true _ _ (==_refl m.next);
  old = omega arith;
}

abbrev resolved : PendingMap → Text → ℕ → Text → PendingMap
resolved m target id body = record m {
  inner = remove target m.inner;
  channels = set_channel id (answered body) m.channels;
}

resolves :
    (m : PendingMap) (target body : Text) (id : ℕ)
    → Asked m target id
    → try_resolve m target body ≡ (resolved m target id body, true)
unfolding try_resolve
resolves m target body id a = rw (a.entry, try_resolve) (rw (a.open_, try_resolve) refl)

finish-answered :
    (m : PendingMap) (target : Text) (id : ℕ) (body : Text)
    → m.channels id ≡ answered body
    → (finish m target id channel_ends).1 ≡ some body
unfolding finish
finish-answered m target id body h = rw (h, finish) refl

finish-resolved :
    (m : PendingMap) (target body : Text) (id : ℕ)
    → (finish (resolved m target id body) target id channel_ends).1 ≡ some body
unfolding finish set_channel
finish-resolved m target body id =
    finish-answered (resolved m target id body) target id body (if_true _ _ (==_refl id))

gone_resolved :
    (m : PendingMap) (target body : Text) (id : ℕ)
    → is_pending (resolved m target id body) target ≡ false
unfolding is_pending
gone_resolved m target body id =
    ap is_some (lookup-remove target target m.inner ∙ if_true _ _ (text_eq_refl target))

answered_by :
    (m : PendingMap) (target body : Text) (id : ℕ)
    → Asked m target id
    → let (m', taken) = try_resolve m target body in
      (taken ≡ true)
      × ((finish m' target id channel_ends).1 ≡ some body)
      × (is_pending m' target ≡ false)
answered_by m target body id a =
    rw (resolves m target body id a)
      (refl, finish-resolved m target body id, gone_resolved m target body id)

-- Whatever happened before: once a question to a target is registered, and whatever other targets
-- are asked, hear or let expire meanwhile, the target's next message is taken as the answer, `ask`
-- returns exactly its text, and no question to the target is left, so the message after it is not
-- taken.
pub next_message_answers :
    (before meanwhile : List Event) (target body : Text)
    → All (λ e. text_eq (target_of e) target ≡ false) meanwhile
    → let (m, id) = register (run no_questions before) target in
      let (m', taken) = try_resolve (run m meanwhile) target body in
      (taken ≡ true)
      × ((finish m' target id channel_ends).1 ≡ some body)
      × (is_pending m' target ≡ false)
next_message_answers before meanwhile target body h =
    let m = run no_questions before in
    let v = run-IsValid before no_questions no_questions-IsValid in
    let id = (register m target).1 in
    answered_by (run (register m target).0 meanwhile) target body id (
      run-Asked target id meanwhile (register m target).0 (register-IsValid m target v)
        (register-Asked m target) h)
