-- ===== src/AllowList/Settled.antt =====
-- A second look at an unchanged file changes nothing.
use aqua_matrix_connector.Common.{
  ℕ, some, false, ◌≡◌, Bool-cases, ◌&&◌, inl, is_none, arith, inr, ==_refl, refl,
}
use aqua_matrix_connector.AllowList.Reload.{
  reject_observer, take_parsed, take_reading, rereads, closed, accept, reject_file, AllowList,
  reload, Reading, same_time, is_empty_list, reads, not_found, unreadable,
}
use aqua_matrix_connector.AllowList.Targets.{take_audit}
use aqua_matrix_connector.AllowList.Parse.{
  Reason, Result, ParseFailure, ok, err, observer_failure, parse_with, file_failure,
}
use aqua_matrix_connector.AllowList.{Parsed}

mtime-reject_observer : (a : AllowList) (e : Reason) → (reject_observer a e).mtime ≡ a.mtime
unfolding reject_observer closed
mtime-reject_observer a e = elim (Bool-cases (a.loaded && is_none a.load_error)) [
  | inl keep ↦ rw (keep, reject_observer) refl
  | inr drop ↦ rw (drop, reject_observer) refl
]

mtime-take_parsed :
    (a : AllowList) (r : Result ParseFailure Parsed) → (take_parsed a r).mtime ≡ a.mtime
unfolding take_parsed accept reject_file closed
mtime-take_parsed a (ok p) = refl
mtime-take_parsed a (err (observer_failure e)) = mtime-reject_observer a e
mtime-take_parsed a (err (file_failure e)) = refl

mtime-take_reading : (a : AllowList) (r : Reading) → (take_reading a r).mtime ≡ a.mtime
unfolding take_reading reject_file closed
mtime-take_reading a not_found = elim (Bool-cases (is_empty_list a.fixed)) [
  | inl nobody ↦ rw (nobody, take_reading) refl
  | inr some_fixed ↦ rw (some_fixed, take_reading) refl
]
mtime-take_reading a unreadable = refl
mtime-take_reading a (reads file) = mtime-take_parsed a (parse_with file a.fixed a.reserved)

-- After a look that found a time, the next one with that time reads nothing.
pub rereads-reload :
    (a : AllowList) (m : ℕ) (r : Reading)
    → rereads false (take_audit (reload false a (some m) r).0).0 (some m) ≡ false
unfolding rereads take_audit reload same_time
rereads-reload a m r = elim (Bool-cases (rereads false a (some m))) [
  | inl again ↦ rw (again, reload) (rw mtime-take_reading (ground (arith, ==_refl m)))
  | inr same ↦ rw (same, reload) same
]
