-- ===== src/Journal/Replay.antt =====
-- What a restart has to do: which items it replays and which it redelivers.
use aqua_matrix_connector.Journal.{
  WorkItem, WorkJournal, WorkState, pending, to_deliver, File, absent, unparsable, holds,
  load_or_empty, is_pending, has_answer, pending_work, pending_deliveries,
}
use aqua_matrix_connector.Journal.Lookup.{Unique, item_of, text_eq_sym}
use aqua_matrix_connector.Journal.Lifecycle.{Op, run, promise, run-Unique, run_keeps_promise}
use aqua_matrix_connector.Journal.Restart.{succeeds, restart_loses_nothing, restart_finds_a_prefix}
use aqua_matrix_connector.Common.Elem.{Elem, Elem-filter, Elem-of_filter, All-Elem, find-Elem}
use aqua_matrix_connector.Common.Text.{text_eq, text_eq_refl, Text}
use aqua_matrix_connector.Common.{
  List, Bool, ◌≡◌, some, any, filter, true, All, refl, inl, ◌∷◌, false, subst, ◌↔◌, sym, arith, ap,
  ◌∙◌, inr, [], none_of, take,
}

-- The item under the id of an item that is there is that item.
item_of-Elem :
    (is : List WorkItem) (i : WorkItem) → Unique is → Elem i is → item_of i.event_id is ≡ some i
item_of-Elem [] i u m = absurd m
item_of-Elem (k ∷ is) i u (inl e) =
    subst (λ (x : WorkItem). item_of x.event_id (k ∷ is) ≡ some x) (sym e)
      (rw (text_eq_refl k.event_id) refl)
item_of-Elem (k ∷ is) i u (inr m) =
    let apart =
      All-Elem (λ (x : WorkItem). text_eq x.event_id k.event_id ≡ false) is i
        (none_of (λ x. text_eq x.event_id k.event_id) is u.0) m in
    rw (text_eq_sym k.event_id i.event_id ∙ apart) (item_of-Elem is i u.1 m)

any-filter_none :
    (p q : WorkItem → Bool) (is : List WorkItem) → any p is ≡ false → any p (filter q is) ≡ false
any-filter_none p q [] h = refl
any-filter_none p q (i ∷ is) h = ground (arith, h, any-filter_none p q is)

filter-Unique : (q : WorkItem → Bool) (is : List WorkItem) → Unique is → Unique (filter q is)
filter-Unique q [] u = tt
filter-Unique q (i ∷ is) u =
    ground (
      arith,
      u.0,
      filter-Unique q is u.1,
      any-filter_none (λ k. text_eq k.event_id i.event_id) q is,
    )

is_pending_iff : (i : WorkItem) → (is_pending i ≡ true) ↔ (i.state ≡ pending)
unfolding is_pending
is_pending_iff i = (by_state i.state, λ e. rw e refl)
  where
    by_state :
        (s : WorkState) → elim s [ pending ↦ true | to_deliver text ↦ false ] ≡ true → s ≡ pending
    by_state pending h = refl
    by_state (to_deliver text) h = ground arith

has_answer_iff :
    (i : WorkItem) → (has_answer i ≡ true) ↔ (text : Text) × (i.state ≡ to_deliver text)
unfolding has_answer
has_answer_iff i = (by_state i.state, λ (text, e). rw e refl)
  where
    by_state :
        (s : WorkState)
        → elim s [ pending ↦ false | to_deliver text ↦ true ] ≡ true
        → (text : Text) × (s ≡ to_deliver text)
    by_state pending h = ground arith
    by_state (to_deliver text) h = (text, refl)

-- The items of a list that fit a test, by their ids.
filter-iff-found :
    (q : WorkItem → Bool) (is : List WorkItem) (i : WorkItem)
    → Unique is
    → Elem i (filter q is) ↔ ((item_of i.event_id is ≡ some i) × (q i ≡ true))
filter-iff-found q is i u = (
  λ m. let (there, fits) = Elem-of_filter q is i m in (item_of-Elem is i u there, fits),
  λ (found, fits). Elem-filter q is i (find-Elem _ is i found) fits,
)

-- What a file holds has no event id twice.
abbrev pub LoadsUnique : File → Type 0
LoadsUnique absent = Unit
LoadsUnique unparsable = Unit
LoadsUnique (holds v) = Unique v

load_or_empty-Unique : (file : File) → LoadsUnique file → Unique (load_or_empty file).items
unfolding load_or_empty
load_or_empty-Unique absent u = tt
load_or_empty-Unique unparsable u = tt
load_or_empty-Unique (holds v) u = u

loaded_again :
    (file : File) → (load_or_empty (load_or_empty file).file).items ≡ (load_or_empty file).items
unfolding load_or_empty
loaded_again absent = refl
loaded_again unparsable = refl
loaded_again (holds v) = refl

-- A journal that is loaded from a file which is absent, is not parsable, or holds no event id twice:
-- whatever operations run and whichever writes fail, no event id is twice in the journal, and neither
-- is one in what a restart then loads.
pub restart-Unique :
    (file : File) (ops : List Op)
    → LoadsUnique file
    → let j = run (load_or_empty file) ops in Unique j.items × Unique (load_or_empty j.file).items
restart-Unique file ops u =
    let start = load_or_empty file in
    let at = λ (ks : List Op). run-Unique ks start (load_or_empty-Unique file u) in
    (
      at ops,
      elim (restart_finds_a_prefix ops start) [
        | inl same ↦ subst Unique (sym (same ∙ loaded_again file)) (load_or_empty-Unique file u)
        | inr (n, found) ↦ subst Unique (sym found) (at (take n ops))
      ],
    )

-- When the file was up to date, every write succeeds, and no event id was twice in the journal: after
-- any operations and a restart, an item is replayed to the handler exactly if its own life cycle left
-- it in the journal without an answer, and is redelivered exactly if that left it with an answer that
-- is not delivered; neither list has an event id twice.
pub restart_replays_the_unanswered :
    (j : WorkJournal) (ops : List Op) (i : WorkItem)
    → Unique j.items
    → All (λ op. succeeds op ≡ true) ops
    → (load_or_empty j.file).items ≡ j.items
    → let j' = load_or_empty (run j ops).file in
      let left = promise i.event_id (item_of i.event_id j.items) ops in
      (Elem i (pending_work j') ↔ ((left ≡ some i) × (i.state ≡ pending)))
      × (Elem i (pending_deliveries j')
          ↔ ((left ≡ some i) × (text : Text) × (i.state ≡ to_deliver text)))
      × Unique (pending_work j')
      × Unique (pending_deliveries j')
unfolding pending_work pending_deliveries
restart_replays_the_unanswered j ops i u ok saved =
    let j' = load_or_empty (run j ops).file in
    let same = restart_loses_nothing ops j ok saved in
    let u' : Unique j'.items = subst Unique (sym same) (run-Unique ops j u) in
    let kept = ap (item_of i.event_id) same ∙ run_keeps_promise i.event_id ops j in
    let work = filter-iff-found is_pending j'.items i u' in
    let deliveries = filter-iff-found has_answer j'.items i u' in
    (
      (
        λ m. let (found, fits) = work.0 m in (sym kept ∙ found, (is_pending_iff i).0 fits),
        λ (left, state). work.1 (kept ∙ left, (is_pending_iff i).1 state),
      ),
      (
        λ m.
            let (found, fits) = deliveries.0 m in
            let (text, state) = (has_answer_iff i).0 fits in (sym kept ∙ found, text, state),
        λ (left, text, state). deliveries.1 (kept ∙ left, (has_answer_iff i).1 (text, state)),
      ),
      filter-Unique is_pending j'.items u',
      filter-Unique has_answer j'.items u',
    )
