-- ===== src/AllowList/Policy.antt =====
-- Which lists are in force after any reloads.
use aqua_matrix_connector.Common.{
  ℕ, some, none, Bool, List, [], Option, ◌∷◌, if◌then◌else◌, ◌≡◌, ◌&&◌, is_none, is_some, false,
  arith, ap, Bool-cases, refl, inl, inr, sym, ◌∙◌, true, subst,
}
use aqua_matrix_connector.AllowList.{Recipient, Parsed}
use mathlib.Core.Path.{ap₂}
use aqua_matrix_connector.AllowList.Parse.{
  ok, err, file_failure, observer_failure, parse_with, Result, unreadable_file, ParseFailure,
  Reason,
}
use aqua_matrix_connector.AllowList.Reload.{
  not_found, unreadable, reads, AllowList, Reading, take_reading, reload, rereads, merged,
  is_empty_list, reject_file, accept, reject_observer, take_parsed, closed, unloaded,
}
use aqua_matrix_connector.Common.Text.{Text}

-- A reload that is asked for: whether it is forced, the file's time, and what reading it gives.
pub record Ask : Type 0 where
  pub force : Bool
  pub mtime : Option ℕ
  pub reading : Reading

unfoldable pub reloads : AllowList → List Ask → AllowList
reloads a [] = a
reloads a (k ∷ ks) = reloads (reload k.force a k.mtime k.reading).0 ks

-- The readings that were taken: a file whose time did not change is not read again.
unfoldable pub taken : AllowList → List Ask → List Reading
taken a [] = []
taken a (k ∷ ks) =
    let rest = taken (reload k.force a k.mtime k.reading).0 ks in
    if rereads k.force a k.mtime then k.reading ∷ rest else rest

abbrev pub nothing_listed : Parsed
nothing_listed = record { recipients = []; rooms = []; observers = [] }

abbrev pub judged_parsed : Option Parsed → Result ParseFailure Parsed → Option Parsed
judged_parsed now (ok p) = some p
judged_parsed now (err (observer_failure e)) = now
judged_parsed now (err (file_failure e)) = none

-- One reading, against the file in force so far.
abbrev pub judged : List Recipient → List Text → Option Parsed → Reading → Option Parsed
judged fixed reserved now not_found = if is_empty_list fixed then none else some nothing_listed
judged fixed reserved now unreadable = none
judged fixed reserved now (reads file) = judged_parsed now (parse_with file fixed reserved)

-- The file in force, if any: the last accepted one, until a file is refused for anything but an
-- observer row. A missing optional file is an empty one.
abbrev pub in_force : List Recipient → List Text → Option Parsed → List Reading → Option Parsed
in_force fixed reserved now [] = now
in_force fixed reserved now (r ∷ rs) = in_force fixed reserved (judged fixed reserved now r) rs

-- The list acts as the file in force says, or holds the built-in entries only.
pub record Follows (fixed : List Recipient) (reserved : List Text) (a : AllowList)
    (now : Option Parsed) : Type 0 where
  pub same_fixed : a.fixed ≡ fixed
  pub same_reserved : a.reserved ≡ reserved
  pub people : a.recipients ≡ elim now [ none ↦ fixed | some p ↦ merged fixed p.recipients ]
  pub listed : a.rooms ≡ elim now [ none ↦ [] | some p ↦ p.rooms ]
  pub observing : a.observers ≡ elim now [ none ↦ [] | some p ↦ p.observers ]
  pub healthy : (a.loaded && is_none a.load_error) ≡ is_some now

is_some-false : {A : Type 0} (x : Option A) → is_some x ≡ false → x ≡ none
is_some-false none h = refl
is_some-false (some x) h = ground (arith, h)

module _ {fixed : List Recipient} {reserved : List Text} {a : AllowList} {now : Option Parsed}
    (f : Follows fixed reserved a now) where
  closed-Follows : (e : Reason) → Follows fixed reserved (reject_file a e) none
  unfolding reject_file closed
  closed-Follows e = record {
    same_fixed = f.same_fixed;
    same_reserved = f.same_reserved;
    people = f.same_fixed;
    listed = refl;
    observing = refl;
    healthy = ground arith;
  }

  accept-Follows : (p : Parsed) → Follows fixed reserved (accept a p) (some p)
  unfolding accept
  accept-Follows p = record {
    same_fixed = f.same_fixed;
    same_reserved = f.same_reserved;
    people = ap (λ r. merged r p.recipients) f.same_fixed;
    listed = refl;
    observing = refl;
    healthy = refl;
  }

  observer-Follows : (e : Reason) → Follows fixed reserved (reject_observer a e) now
  unfolding reject_observer closed
  observer-Follows e = elim (Bool-cases (a.loaded && is_none a.load_error)) [
    | inl good ↦ rw good (record {
      same_fixed = f.same_fixed;
      same_reserved = f.same_reserved;
      people = f.people;
      listed = f.listed;
      observing = f.observing;
      healthy = f.healthy;
    })
    | inr bad ↦
        let nobody : now ≡ none = is_some-false now (sym f.healthy ∙ bad) in
        rw bad (
          rw nobody (record {
            same_fixed = f.same_fixed;
            same_reserved = f.same_reserved;
            people = f.same_fixed;
            listed = refl;
            observing = refl;
            healthy = ground arith;
          }))
  ]

  parsed-Follows :
      (r : Result ParseFailure Parsed)
      → Follows fixed reserved (take_parsed a r) (judged_parsed now r)
  unfolding take_parsed
  parsed-Follows (ok p) = accept-Follows p
  parsed-Follows (err (observer_failure e)) = observer-Follows e
  parsed-Follows (err (file_failure e)) = closed-Follows e

  abbrev missing : AllowList
  missing = record (closed a) { load_error = none; observer_error = none; loaded = true }

  missing-Follows :
      (b : Bool)
      → Follows fixed reserved
          (if b then reject_file a unreadable_file else missing)
          (if b then none else some nothing_listed)
  unfolding closed merged
  missing-Follows true = closed-Follows unreadable_file
  missing-Follows false = record {
    same_fixed = f.same_fixed;
    same_reserved = f.same_reserved;
    people = f.same_fixed;
    listed = refl;
    observing = refl;
    healthy = refl;
  }

  pub take_reading-Follows :
      (r : Reading) → Follows fixed reserved (take_reading a r) (judged fixed reserved now r)
  unfolding take_reading
  take_reading-Follows not_found =
      subst
        (λ b.
          Follows fixed reserved (if b then reject_file a unreadable_file else missing)
            (judged fixed reserved now not_found))
        (ap is_empty_list (sym f.same_fixed)) (missing-Follows (is_empty_list fixed))
  take_reading-Follows unreadable = closed-Follows unreadable_file
  take_reading-Follows (reads file) =
      subst (λ x. Follows fixed reserved (take_parsed a x) (judged fixed reserved now (reads file)))
        (ap₂ (parse_with file) (sym f.same_fixed) (sym f.same_reserved))
        (parsed-Follows (parse_with file fixed reserved))

set_mtime :
    {fixed : List Recipient} {reserved : List Text} {a : AllowList} {now : Option Parsed}
    (t : Option ℕ)
    → Follows fixed reserved a now
    → Follows fixed reserved (record a { mtime = t }) now
set_mtime t f = record {
  same_fixed = f.same_fixed;
  same_reserved = f.same_reserved;
  people = f.people;
  listed = f.listed;
  observing = f.observing;
  healthy = f.healthy;
}

-- Following a file is kept by any reloads.
pub reloads-Follows :
    (fixed : List Recipient) (reserved : List Text) (a : AllowList) (now : Option Parsed)
    (asks : List Ask)
    → Follows fixed reserved a now
    → Follows fixed reserved (reloads a asks) (in_force fixed reserved now (taken a asks))
unfolding reloads taken reload
reloads-Follows fixed reserved a now [] f = f
reloads-Follows fixed reserved a now (k ∷ ks) f = elim (Bool-cases (rereads k.force a k.mtime)) [
  | inl again ↦
      let a' = take_reading (record a { mtime = k.mtime }) k.reading in
      rw again (
        reloads-Follows fixed reserved a' (judged fixed reserved now k.reading) ks
          (take_reading-Follows (set_mtime k.mtime f) k.reading))
  | inr same ↦ rw same (reloads-Follows fixed reserved a now ks f)
]

-- A list before its first reload follows no file.
pub unloaded-Follows :
    (path : Option Text) (fixed : List Recipient) (reserved : List Text) (label approver : Text)
    → Follows fixed reserved
        (record (unloaded path fixed label approver) { reserved = reserved })
        none
unfolding unloaded
unloaded-Follows path fixed reserved label approver = record {
  same_fixed = refl;
  same_reserved = refl;
  people = refl;
  listed = refl;
  observing = refl;
  healthy = refl;
}

-- From the start: which people, rooms and observers are in force after any reloads follows from the
-- readings alone: those of the last accepted file, its people on top of the built-in ones; a file
-- refused for an observer row changes nothing; after any other refusal, an unreadable file, or
-- before a first good one, the built-in people are in force and no room or observer. Readings are
-- skipped where the file's time did not change.
pub lists-Follows :
    (path : Option Text) (fixed : List Recipient) (reserved : List Text) (label approver : Text)
    (asks : List Ask)
    → let a = record (unloaded path fixed label approver) { reserved = reserved } in
      Follows fixed reserved (reloads a asks) (in_force fixed reserved none (taken a asks))
lists-Follows path fixed reserved label approver asks =
    reloads-Follows fixed reserved _ none asks (unloaded-Follows path fixed reserved label approver)
