-- ===== src/Engine/Slots.antt =====
-- What a send costs, and what its answer means.
use aqua_matrix_connector.Common.{
  ℕ, Bool, true, false, Option, ◌≡◌, ◌+◌, ◌⊎◌, ◌<◌, ◌++◌, ◌∷◌, [], arith, inr, ap, inl, refl,
}
use aqua_matrix_connector.RateLimit.{
  acquired, over_budget, panicked, remaining, try_acquire, Acquire,
}
use aqua_matrix_connector.Engine.Types.{
  Sent, World, Engine, Resolved, Outcome, ReplyRef, Outgoing, Info, TransportCall,
}
use aqua_matrix_connector.AllowList.Parse.{Result, ok, err}
use aqua_matrix_connector.Engine.Send.{
  send, send_to, reserve_and_send, transport_call, finish_send, after_acquire, check_reply,
}
use aqua_matrix_connector.Common.Text.{Text}
use aqua_matrix_connector.Engine.Resolve.{resolve_to, allow_current, audit, find_target}
use aqua_matrix_connector.RateLimit.Queue.{is_acquired}
use aqua_matrix_connector.RateLimit.Slots.{slots_left, slots_kept}
use aqua_matrix_connector.AllowList.Observers.{Result-cases}
use aqua_matrix_connector.Format.Origin.{sanitize_origin}

abbrev pub is_ok : {E A : Type 0} → Result E A → Bool
is_ok (ok a) = true
is_ok (err e) = false

-- The slots that a response stands for.
abbrev pub spent : {E A : Type 0} → Result E A → ℕ
spent (ok a) = 1
spent (err e) = 0

module _ {Json : Type 0} (w : World Json) where
  abbrev left : Engine Json → Text → ℕ
  left e k = (remaining e.rate k w.clock).1

  -- The slots left under the target's key, and the call behind an answer.
  abbrev IsPaid : Engine Json → Text → Outcome Json → Type 0
  IsPaid e k (e', r) =
      (left e k ≡ left e' k + spent r)
      × ((is_ok r ≡ false)
          ⊎ ((c : TransportCall Json) × (e'.calls ≡ e.calls ++ c ∷ [])
              × (is_ok (w.transport c) ≡ true)))

  module _ (e : Engine Json) (to : Resolved) (reply : Option ReplyRef) (out : Outgoing)
      (origin : Text) (info : Info) (window : 0 < e.rate.window) where
    abbrev reserved : Engine Json
    reserved = record e { rate = (try_acquire e.rate to.id w.clock).0 }

    abbrev asked : TransportCall Json
    asked = transport_call out to.dest reply

    finish_send-IsPaid :
        (r : Result Text Sent)
        → is_acquired (try_acquire e.rate to.id w.clock).1 ≡ true
        → w.transport asked ≡ r
        → IsPaid e to.id (
            finish_send
              (record reserved { calls = e.calls ++ asked ∷ [] })
              to
              reply
              out
              origin
              info
              r)
    unfolding finish_send audit
    finish_send-IsPaid (ok s) granted h =
        ((slots_left e.rate to.id w.clock window granted).0, inr (asked, refl, ap is_ok h))
    finish_send-IsPaid (err why) granted h =
        (omega (arith, (slots_left e.rate to.id w.clock window granted).1), inl refl)

    after_acquire-IsPaid :
        (got : Acquire)
        → (try_acquire e.rate to.id w.clock).1 ≡ got
        → IsPaid e to.id (after_acquire w reserved to reply out origin info got)
    unfolding after_acquire audit
    after_acquire-IsPaid (over_budget wait) h =
        (omega (arith, slots_kept e.rate to.id w.clock (ap is_acquired h)), inl refl)
    after_acquire-IsPaid panicked h =
        (omega (arith, slots_kept e.rate to.id w.clock (ap is_acquired h)), inl refl)
    after_acquire-IsPaid acquired h = finish_send-IsPaid (w.transport asked) (ap is_acquired h) refl

  -- For a target on the list in force and a window that is not empty: a send that is answered `ok` was
  -- handed to the transport in exactly one call, which the transport delivered, and took exactly one slot of
  -- its target; one that is answered with an error, whatever the error, took none.
  pub send-IsPaid :
      (e : Engine Json) (to : Text) (t : Resolved) (out : Outgoing) (origin : Text)
      (reply_to : Option Text) (info : Info)
      → find_target (allow_current w.list e) to ≡ ok t
      → 0 < e.rate.window
      → let (e', r) = send w e to out origin reply_to info in
        ((remaining e.rate t.id w.clock).1 ≡ (remaining e'.rate t.id w.clock).1 + spent r)
        × ((is_ok r ≡ false)
            ⊎ ((c : TransportCall Json) × (e'.calls ≡ e.calls ++ c ∷ [])
                × (is_ok (w.transport c) ≡ true)))
  unfolding send resolve_to send_to reserve_and_send allow_current audit
  send-IsPaid e to t out origin reply_to info found window =
      let e' = allow_current w.list e in
      rw (found, send)
        (elim (Result-cases (check_reply e' reply_to t)) [
          | inl (why, bad) ↦ rw (bad, send_to) (omega arith, inl refl)
          | inr (reply, good) ↦
              rw (good, send_to)
                (after_acquire-IsPaid e' t reply out (sanitize_origin origin) info window
                  (try_acquire e.rate t.id w.clock).1 refl)
        ])
