-- ===== src/AllowList/Observers.antt =====
-- An observer is never somebody the bridge messages.
use aqua_matrix_connector.Common.{
  some, none, List, ◌≡◌, false, arith, All, any, ◌∷◌, [], subst, ap, Option-cases, Option, ◌⊎◌, inr,
  inl, ◌++◌, refl, All-append, Bool, Bool-cases, ◌||◌, sym, All-mono, find, ◌∙◌, find-none_of_any,
}
use aqua_matrix_connector.AllowList.Parse.{
  ok, err, no_array, rows, Others, check_observer, check_observers, is_person, Row, Result,
  parse_observers, parse_with, RawObservers, AllowListFile, people_and_rooms, check_fixed,
  ParseFailure, observer_failure, file_failure,
}
use aqua_matrix_connector.AllowList.{Observer, Recipient, Parsed}
use aqua_matrix_connector.Common.Text.{eq_ignore_ascii_case, text_eq, Text}
use aqua_matrix_connector.AllowList.Reload.{
  merged, Reading, AllowList, reads, is_empty_list, unreadable, not_found, unloaded,
}
use aqua_matrix_connector.AllowList.Policy.{
  judged_parsed, judged, in_force, Follows, Ask, reloads, taken, lists-Follows,
}
use aqua_matrix_connector.AllowList.Targets.{by_mxid}

-- What an accepted observer does not collide with.
abbrev pub IsApart : Others → Observer → Type 0
IsApart k o =
    (is_person k o.mxid ≡ false)
    × (any (λ r. eq_ignore_ascii_case r o.mxid) k.reserved ≡ false)
    × (any (λ r. text_eq r.room_id o.room_id) k.rooms ≡ false)

check_observer-IsApart :
    (k : Others) (out : List Observer) (o x : Observer)
    → check_observer k out o ≡ ok x
    → IsApart k x
unfolding check_observer
check_observer-IsApart k out o x h = ground (arith, h)

pub Result-cases :
    {E A : Type 0} (r : Result E A) → ((e : E) × (r ≡ err e)) ⊎ ((x : A) × (r ≡ ok x))
Result-cases (ok x) = inr (x, refl)
Result-cases (err e) = inl (e, refl)

pub ok_injective : {E A : Type 0} (x y : A) → ◌≡◌ {A = Result E A} (ok x) (ok y) → x ≡ y
ok_injective {A = A} x y h = ap (λ r. elim r [ ok z ↦ z | err e ↦ x ]) h

err_not_ok : {E A : Type 0} {P : Type 0} (e : E) (x : A) → ◌≡◌ {A = Result E A} (err e) (ok x) → P
err_not_ok e x h = ground (arith, h)

check_observers-IsApart :
    (k : Others) (out : List Observer) (more : List Row) (os : List Observer)
    → check_observers k out more ≡ ok os
    → All (IsApart k) out
    → All (IsApart k) os
unfolding check_observers
check_observers-IsApart k out [] os h a = subst (All (IsApart k)) (ok_injective out os h) a
check_observers-IsApart k out (row ∷ more) os h a = elim (Option-cases row.typed) [
  | inl untyped ↦ ground (arith, h, untyped)
  | inr (o, typed) ↦ elim (Result-cases (check_observer k out o)) [
    | inl (e, bad) ↦ ground (arith, h, typed, bad)
    | inr (x, good) ↦
        check_observers-IsApart k (out ++ x ∷ []) more os (ground (arith, h, typed, good))
          (All-append (IsApart k) out (x ∷ []) a (check_observer-IsApart k out o x good, tt))
  ]
]

abbrev pub others : List Recipient → List Text → Parsed → Others
others fixed reserved p = record {
  recipients = p.recipients;
  rooms = p.rooms;
  fixed = fixed;
  reserved = reserved;
}

parse_observers-IsApart :
    (raw : Option RawObservers) (k : Others) (os : List Observer)
    → parse_observers raw k ≡ ok os
    → All (IsApart k) os
unfolding parse_observers
parse_observers-IsApart none k os h = subst (All (IsApart k)) (ok_injective [] os h) tt
parse_observers-IsApart (some no_array) k os h = ground (arith, h)
parse_observers-IsApart (some (rows more)) k os h = check_observers-IsApart k [] more os h tt

pub parse_with-IsApart :
    (file : Option AllowListFile) (fixed : List Recipient) (reserved : List Text) (p : Parsed)
    → parse_with file fixed reserved ≡ ok p
    → All (IsApart (others fixed reserved p)) p.observers
unfolding parse_with
parse_with-IsApart none fixed reserved p h = ground (arith, h)
parse_with-IsApart (some file) fixed reserved p h =
    elim (Result-cases (people_and_rooms file.recipients file.rooms)) [
      | inl (e, bad) ↦ ground (arith, h, bad)
      | inr (lists, good) ↦ elim (Option-cases (check_fixed fixed lists.0 lists.1)) [
        | inr (e, bad) ↦ ground (arith, h, good, bad)
        | inl free ↦
            let k : Others = record {
              recipients = lists.0;
              rooms = lists.1;
              fixed = fixed;
              reserved = reserved;
            } in
            elim (Result-cases (parse_observers file.observers k)) [
              | inl (e, bad) ↦ ground (arith, h, good, free, bad)
              | inr (os, fine) ↦
                  let q : Parsed = record {
                    recipients = lists.0;
                    rooms = lists.1;
                    observers = os;
                  } in
                  let same : q ≡ p = ground (arith, h, good, free, fine) in
                  subst (λ q. All (IsApart (others fixed reserved q)) q.observers) same
                    (parse_observers-IsApart file.observers k os fine)
            ]
      ]
    ]

any-append :
    {A : Type 0} (p : A → Bool) (xs ys : List A) → any p (xs ++ ys) ≡ (any p xs || any p ys)
any-append p [] ys = refl
any-append p (x ∷ xs) ys = ground (arith, any-append p xs ys)

-- Merging adds nobody that neither side has.
any-merged :
    (p : Recipient → Bool) (known es : List Recipient)
    → any p known ≡ false
    → any p es ≡ false
    → any p (merged known es) ≡ false
unfolding merged
any-merged p known [] h k = h
any-merged p known (e ∷ es) h k =
    elim (Bool-cases (any (λ r. eq_ignore_ascii_case r.mxid e.mxid) known)) [
      | inl listed ↦ rw listed (any-merged p known es h (ground (arith, k)))
      | inr fresh ↦ rw fresh (
          any-merged p (known ++ e ∷ []) es (ground (arith, h, k, any-append p known (e ∷ [])))
            (ground (arith, k)))
    ]

abbrev AllApart : List Recipient → List Text → Option Parsed → Type 0
AllApart fixed reserved none = Unit
AllApart fixed reserved (some p) = All (IsApart (others fixed reserved p)) p.observers

parsed-AllApart :
    (fixed : List Recipient) (reserved : List Text) (now : Option Parsed)
    (r : Result ParseFailure Parsed)
    → ((p : Parsed) → r ≡ ok p → AllApart fixed reserved (some p))
    → AllApart fixed reserved now
    → AllApart fixed reserved (judged_parsed now r)
parsed-AllApart fixed reserved now (ok p) h a = h p refl
parsed-AllApart fixed reserved now (err (observer_failure e)) h a = a
parsed-AllApart fixed reserved now (err (file_failure e)) h a = tt

judged-AllApart :
    (fixed : List Recipient) (reserved : List Text) (now : Option Parsed) (r : Reading)
    → AllApart fixed reserved now
    → AllApart fixed reserved (judged fixed reserved now r)
judged-AllApart fixed reserved now unreadable a = tt
judged-AllApart fixed reserved now (reads file) a =
    parsed-AllApart fixed reserved now (parse_with file fixed reserved)
      (parse_with-IsApart file fixed reserved) a
judged-AllApart fixed reserved now not_found a = elim (Bool-cases (is_empty_list fixed)) [
  | inl nobody ↦ rw nobody tt
  | inr somebody ↦ rw somebody tt
]

in_force-AllApart :
    (fixed : List Recipient) (reserved : List Text) (rs : List Reading) (now : Option Parsed)
    → AllApart fixed reserved now
    → AllApart fixed reserved (in_force fixed reserved now rs)
in_force-AllApart fixed reserved [] now a = a
in_force-AllApart fixed reserved (r ∷ rs) now a =
    in_force-AllApart fixed reserved rs (judged fixed reserved now r)
      (judged-AllApart fixed reserved now r a)

-- An observer cannot be reached as a person, is no account of the bridge, and sits in no listed room.
pub record IsBystander (a : AllowList) (o : Observer) : Type 0 where
  pub no_recipient : by_mxid a o.mxid ≡ none
  pub no_own_account : any (λ r. eq_ignore_ascii_case r o.mxid) a.reserved ≡ false
  pub no_listed_room : any (λ r. text_eq r.room_id o.room_id) a.rooms ≡ false

or_false : (a b : Bool) → (a || b) ≡ false → (a ≡ false) × (b ≡ false)
or_false a b h = (ground (arith, h), ground (arith, h))

person_parts :
    (fixed : List Recipient) (reserved : List Text) (p : Parsed) (mxid : Text)
    → is_person (others fixed reserved p) mxid ≡ false
    → (any (λ r. eq_ignore_ascii_case r.mxid mxid) p.recipients
        || any (λ r. eq_ignore_ascii_case r.mxid mxid) fixed)
      ≡ false
unfolding is_person
person_parts fixed reserved p mxid h =
    sym (any-append (λ r. eq_ignore_ascii_case r.mxid mxid) p.recipients fixed) ∙ h

by_mxid-none :
    (a : AllowList) (mxid : Text) (people : List Recipient)
    → a.recipients ≡ people
    → any (λ r. eq_ignore_ascii_case r.mxid mxid) people ≡ false
    → by_mxid a mxid ≡ none
unfolding by_mxid
by_mxid-none a mxid people e h =
    ap (find λ r. eq_ignore_ascii_case r.mxid mxid) e
    ∙ find-none_of_any (λ r. eq_ignore_ascii_case r.mxid mxid) people h

bystanders :
    (fixed : List Recipient) (reserved : List Text) (a : AllowList) (now : Option Parsed)
    → Follows fixed reserved a now
    → AllApart fixed reserved now
    → All (IsBystander a) a.observers
bystanders fixed reserved a none f apart = rw f.observing tt
bystanders fixed reserved a (some p) f apart =
    subst (All (IsBystander a)) (sym f.observing) (All-mono one p.observers apart)
  where
    one : (o : Observer) → IsApart (others fixed reserved p) o → IsBystander a o
    one o x =
        let matches : Recipient → Bool = λ r. eq_ignore_ascii_case r.mxid o.mxid in
        let neither =
          or_false (any matches p.recipients) (any matches fixed)
            (person_parts fixed reserved p o.mxid x.0) in
        let nobody : any matches (merged fixed p.recipients) ≡ false =
          any-merged matches fixed p.recipients neither.1 neither.0 in
        record {
          no_recipient = by_mxid-none a o.mxid (merged fixed p.recipients) f.people nobody;
          no_own_account =
              subst (λ q. any (λ r. eq_ignore_ascii_case r o.mxid) q ≡ false) (sym f.same_reserved)
                x.1;
          no_listed_room =
              subst (λ q. any (λ r. text_eq r.room_id o.room_id) q ≡ false) (sym f.listed) x.2;
        }

-- Whatever files come and go at the path: every observer in force is an account that no recipient
-- has, so it resolves to nobody as a sender; it is none of the bridge's own accounts; and its room is
-- not a listed one.
pub observers_stay_apart :
    (path : Option Text) (fixed : List Recipient) (reserved : List Text) (label approver : Text)
    (asks : List Ask)
    → let a = reloads (record (unloaded path fixed label approver) { reserved = reserved }) asks in
      All (IsBystander a) a.observers
observers_stay_apart path fixed reserved label approver asks =
    let start : AllowList = record (unloaded path fixed label approver) { reserved = reserved } in
    bystanders fixed reserved (reloads start asks) (in_force fixed reserved none (taken start asks))
      (lists-Follows path fixed reserved label approver asks)
      (in_force-AllApart fixed reserved (taken start asks) none tt)
