-- ===== src/AllowList/Reload.antt =====
-- crates/aqua-messenger/src/allowlist.rs: the list and its reloads.
-- What a reload finds at the path, the modification time included, is an argument.
use aqua_matrix_connector.Common.{
  ℕ, some, none, Option, Bool, List, [], ◌++◌, ◌&&◌, if◌then◌else◌, false, ◌∷◌, map, is_none, true,
  is_some, ◌==◌, any, length, ◌||◌, not,
}
use aqua_matrix_connector.AllowList.{Recipient, RoomEntry, Observer, Parsed}
use aqua_matrix_connector.AllowList.Parse.{
  AllowListFile, Reason, unreadable_file, file_failure, observer_failure, ok, err, parse_with,
  Result, ParseFailure,
}
use aqua_matrix_connector.Common.Text.{Text, codes, eq_ignore_ascii_case}

-- Reading the file: not found, another error, or its text as `toml` sees it.
pub data Reading : Type 0 where
  not_found : Reading
  unreadable : Reading
  reads : Option AllowListFile → Reading

-- `allowlist_rejected`: why, and whether the last good lists were kept.
pub record Audit : Type 0 where
  pub reason : Reason
  pub kept_last_good : Bool

pub record AllowList : Type 0 where
  pub path : Option Text
  pub mtime : Option ℕ
  pub fixed : List Recipient
  pub recipients : List Recipient
  pub rooms : List RoomEntry
  pub observers : List Observer
  pub reserved : List Text
  pub ever_observed : List Text
  pub load_error : Option Reason
  pub observer_error : Option Reason
  pub loaded : Bool
  pub pending_audit : List Audit
  pub label : Text
  pub approver : Text

unfoldable pub unloaded : Option Text → List Recipient → Text → Text → AllowList
unloaded path fixed label approver = record {
  path = path;
  mtime = none;
  fixed = fixed;
  recipients = fixed;
  rooms = [];
  observers = [];
  reserved = [];
  ever_observed = [];
  load_error = none;
  observer_error = none;
  loaded = false;
  pending_audit = [];
  label = label;
  approver = approver;
}

-- The file's people on top of the built-in ones: one entry per MXID, the first.
unfoldable pub merged : List Recipient → List Recipient → List Recipient
merged known [] = known
merged known (e ∷ es) =
    if any (λ r. eq_ignore_ascii_case r.mxid e.mxid) known
    then merged known es
    else merged (known ++ e ∷ []) es

unfoldable pub accept : AllowList → Parsed → AllowList
accept a p = record a {
  recipients = merged a.fixed p.recipients;
  rooms = p.rooms;
  observers = p.observers;
  ever_observed = a.ever_observed ++ map (λ o. o.room_id) p.observers;
  load_error = none;
  observer_error = none;
  loaded = true;
}

-- The built-in entries only.
unfoldable pub closed : AllowList → AllowList
closed a = record a { recipients = a.fixed; rooms = []; observers = [] }

unfoldable pub reject_observer : AllowList → Reason → AllowList
reject_observer a e =
    let keep = a.loaded && is_none a.load_error in
    let a' = record a {
      observer_error = some e;
      pending_audit = a.pending_audit ++ record { reason = e; kept_last_good = keep } ∷ [];
    } in
    if keep then a' else record (closed a') { load_error = some e }

unfoldable pub reject_file : AllowList → Reason → AllowList
reject_file a e = record (closed a) { observer_error = none; load_error = some e }

unfoldable pub is_empty_list : List Recipient → Bool
is_empty_list [] = true
is_empty_list (r ∷ rs) = false

unfoldable pub take_parsed : AllowList → Result ParseFailure Parsed → AllowList
take_parsed a (ok p) = accept a p
take_parsed a (err (observer_failure e)) = reject_observer a e
take_parsed a (err (file_failure e)) = reject_file a e

unfoldable pub take_reading : AllowList → Reading → AllowList
take_reading a not_found =
    if is_empty_list a.fixed
    then reject_file a unreadable_file
    else record (closed a) { load_error = none; observer_error = none; loaded = true }
take_reading a unreadable = reject_file a unreadable_file
take_reading a (reads file) = take_parsed a (parse_with file a.fixed a.reserved)

-- `mtime == self.mtime && self.mtime.is_some()`
unfoldable pub same_time : Option ℕ → Option ℕ → Bool
same_time (some m) (some n) = m == n
same_time m n = false

-- Whether the file is read again: there is one, and it is forced or its time changed.
unfoldable pub rereads : Bool → AllowList → Option ℕ → Bool
rereads force a mtime = is_some a.path && (force || not (same_time mtime a.mtime))

unfoldable pub reload : Bool → AllowList → Option ℕ → Reading → AllowList × Bool
reload force a mtime reading =
    if rereads force a mtime
    then (take_reading (record a { mtime = mtime }) reading, true)
    else (a, false)

unfoldable pub build : Option Text → List Recipient → Text → Text → Option ℕ → Reading → AllowList
build path fixed label approver mtime reading =
    (reload true (unloaded path fixed label approver) mtime reading).0

unfoldable pub new_with_reserved : Text → List Text → Option ℕ → Reading → AllowList
new_with_reserved path reserved mtime reading =
    (reload true
      (record (unloaded (some path) [] (codes "Aqua System") (codes "Tim")) { reserved = reserved })
      mtime reading).0

unfoldable pub owner_only : Recipient → Option Text → Text → Option ℕ → Reading → AllowList
owner_only owner extra_file label mtime reading =
    build extra_file (owner ∷ []) label (codes "the agent's owner") mtime reading

-- What a file holds, as the daemon would load it, and why it would not take it.
pub record CheckSummary : Type 0 where
  pub recipients : ℕ
  pub rooms : ℕ
  pub observers : List (Text × Text)

pub data CheckFailure : Type 0 where
  start_error : Reason → CheckFailure
  fails_closed : Reason → CheckFailure

unfoldable pub check_file : Text → List Text → Option ℕ → Reading → Result CheckFailure CheckSummary
check_file path reserved mtime reading =
    let a = new_with_reserved path reserved mtime reading in
    elim a.observer_error [
      | some e ↦ err (start_error e)
      | none ↦ elim a.load_error [
        | some e ↦ err (fails_closed e)
        | none ↦ ok (record {
          recipients = length a.recipients;
          rooms = length a.rooms;
          observers = map (λ o. (o.name, o.room_id)) a.observers;
        })
      ]
    ]
