-- ===== src/Journal/Restart.antt =====
-- What a restart finds in the journal's file.
use aqua_matrix_connector.Common.{
  ℕ, List, Bool, arith, length, ◌≡◌, filter, All, true, not, ◌⊎◌, ◌∷◌, false, length-filter-le, [],
  refl, inl, inr, take, ◌∙◌, suc,
}
use aqua_matrix_connector.Journal.{
  WorkItem, WorkJournal, load_or_empty, persist, enqueue, set_to_deliver, mark_done,
}
use aqua_matrix_connector.Journal.Lifecycle.{Op, accepts, answers, delivers, step, run}
use aqua_matrix_connector.Common.Text.{Text, text_eq}

abbrev reloaded : WorkJournal → List WorkItem
reloaded j = (load_or_empty j.file).items

abbrev pub succeeds : Op → Bool
succeeds (accepts ok item) = ok
succeeds (answers ok id text) = ok
succeeds (delivers ok id) = ok

-- One operation leaves a file that loads to what it loaded to before, or to the items now; and to
-- the latter if the write succeeds and the file was up to date.
record StepFile (j : WorkJournal) (op : Op) : Type 0 where
  pub old_or_new : (reloaded (step j op) ≡ reloaded j) ⊎ (reloaded (step j op) ≡ (step j op).items)
  pub up_to_date :
      succeeds op ≡ true → reloaded j ≡ j.items → reloaded (step j op) ≡ (step j op).items

length-removed :
    (id : Text) (is : List WorkItem)
    → length (filter (λ i. not (text_eq i.event_id id)) is) ≡ length is
    → filter (λ i. not (text_eq i.event_id id)) is ≡ is
length-removed id [] h = refl
length-removed id (i ∷ is) h =
    ground (arith, h, length-filter-le (λ i. not (text_eq i.event_id id)) is, length-removed id is)

step_file : (j : WorkJournal) (op : Op) → StepFile j op
unfolding step enqueue set_to_deliver mark_done persist load_or_empty
step_file j (accepts true item) = record { old_or_new = ground arith; up_to_date = ground arith }
step_file j (accepts false item) = record { old_or_new = ground arith; up_to_date = ground arith }
step_file j (answers true id text) = record { old_or_new = ground arith; up_to_date = ground arith }
step_file j (answers false id text) = record {
  old_or_new = ground arith;
  up_to_date = ground arith;
}
step_file j (delivers true id) = record {
  old_or_new = ground arith;
  up_to_date = ground (arith, length-removed id j.items);
}
step_file j (delivers false id) = record { old_or_new = ground arith; up_to_date = ground arith }

-- After any operations, with any of the writes failing, a restart loads the items as they were
-- after some prefix of the operations, or what the file held at the start.
pub restart_finds_a_prefix :
    (ops : List Op) (j : WorkJournal)
    → (reloaded (run j ops) ≡ reloaded j)
      ⊎ (n : ℕ) × (reloaded (run j ops) ≡ (run j (take n ops)).items)
unfolding run
restart_finds_a_prefix [] j = inl refl
restart_finds_a_prefix (op ∷ ops) j = elim (restart_finds_a_prefix ops (step j op)) [
  | inl same ↦ elim (step_file j op).old_or_new [
    | inl old ↦ inl (same ∙ old)
    | inr now ↦ inr (1, same ∙ now)
  ]
  | inr (n, found) ↦ inr (suc n, found)
]

-- When the file was up to date and every write succeeds, a restart finds the journal as it was left.
pub restart_loses_nothing :
    (ops : List Op) (j : WorkJournal)
    → All (λ op. succeeds op ≡ true) ops
    → reloaded j ≡ j.items
    → (load_or_empty (run j ops).file).items ≡ (run j ops).items
unfolding run
restart_loses_nothing [] j ok saved = saved
restart_loses_nothing (op ∷ ops) j ok saved =
    restart_loses_nothing ops (step j op) ok.1 ((step_file j op).up_to_date ok.0 saved)
