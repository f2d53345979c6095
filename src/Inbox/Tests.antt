-- ===== src/Inbox/Tests.antt =====
-- The inbox at concrete inputs: short runs, and the theorems applied. Media sources are unit values.
use aqua_matrix_connector.Common.Sort.{sort}
use aqua_matrix_connector.Common.Assoc.{lookup, insert}
use aqua_matrix_connector.Inbox.Entry.{
  InboxPolicy, Actor, InboxEntry, NewEntry, new, entry_of, default_policy, is_new, is_media_kind,
  mark, state_eq, state,
}
use aqua_matrix_connector.Common.{
  ℕ, some, map, none, true, false, [], arith, ◌∷◌, ◌≡◌, refl, ◌++◌, ◌↔◌, ◌⊎◌,
}
use aqua_matrix_connector.Common.Text.{Text, codes, to_lower}
use aqua_matrix_connector.Inbox.{
  Disk, Inbox, refuses, ingest_at, Query, no_fault, seq_write_fails, prune_at, entries_write_fails,
  persist, high_water, cutoff, contains, drop_set, evict, evict_key, push_entry, evictable, allowed,
  key_le, enforce_at,
}
use aqua_matrix_connector.Inbox.Valid.{IsValid, valid-Distinct}
use aqua_matrix_connector.Inbox.Files.{IsSound, IsStored}
use aqua_matrix_connector.Inbox.Dedupe.{run, arrives, sweeps, never_twice, step}
use aqua_matrix_connector.Inbox.Marks.{
  mark_processed, done, process_one, process, sorted_dedup, process_all, update_first,
}
use aqua_matrix_connector.Inbox.Reads.{query}
use aqua_matrix_connector.Inbox.Prune.{PruneSpec, prune_at-PruneSpec}
use aqua_matrix_connector.Inbox.Selection.{QuerySpec, query-QuerySpec}
use aqua_matrix_connector.Inbox.Load.{read_disk, load_with, parsed}
use aqua_matrix_connector.Inbox.Ingest.{ingest_at_contract}
use aqua_matrix_connector.Inbox.Progress.{processed_if, entries-mark_processed}
use aqua_matrix_connector.Inbox.Recovery.{read_disk-persist, restart_after_crash}
use aqua_matrix_connector.Common.Elem.{Elem}

abbrev message : Text → ℕ → NewEntry Unit
message id ts = record {
  event_id = id;
  room_id = codes "!dm:x";
  sender = codes "@a:x";
  sender_name = none;
  room = none;
  ts_ms = ts;
  kind = codes "text";
  body = codes "hi";
  filename = none;
  media = none;
  in_reply_to = none;
  thread_root = none;
}

abbrev policy : InboxPolicy
policy = record {
  max_entries = 2;
  max_age = some 100;
  hard_cap = true;
  accept_media = false;
  track_processed = true;
}

abbrev session : Actor
session = record { by = codes "claude"; session = none }

abbrev no_files : Disk Unit
no_files = record { seq_file = none; lines = [] }

abbrev entry : ℕ → Text → ℕ → InboxEntry Unit
entry seq id ts = record {
  seq = seq;
  event_id = id;
  room_id = codes "!dm:x";
  sender = codes "@a:x";
  sender_name = none;
  room = none;
  ts_ms = ts;
  kind = codes "text";
  body = codes "hi";
  filename = none;
  media = none;
  in_reply_to = none;
  thread_root = none;
  read = false;
  seen_by = none;
  processed_by = none;
}

-- Two messages, in memory and on disk.
abbrev two : Inbox Unit
two = record {
  entries = entry 1 (codes "$1") 10 ∷ entry 2 (codes "$2") 20 ∷ [];
  seen_ids = (codes "$1", 10) ∷ (codes "$2", 20) ∷ [];
  next_seq = 3;
  persisted_seq = 2;
  policy = policy;
  disk = record {
    seq_file = some 2;
    lines = some (entry 1 (codes "$1") 10) ∷ some (entry 2 (codes "$2") 20) ∷ [];
  };
}

two-IsValid : IsValid two
unfolding is_new lookup
two-IsValid = record {
  numbered = (omega arith, (omega arith, omega arith));
  known = (refl, (refl, tt));
  mirrored = (refl, (refl, tt));
  saved = omega arith;
}

two-IsSound : IsSound two.disk
unfolding parsed is_new lookup
two-IsSound = record {
  numbered = (omega arith, (omega arith, omega arith));
  ids = (codes "$1", 10) ∷ (codes "$2", 20) ∷ [];
  known = (refl, (refl, tt));
  mirrored = (refl, (refl, tt));
}

two-IsStored : IsStored two
two-IsStored = record { mark_known = refl; sound = two-IsSound }

abbrev third : NewEntry Unit
third = message (codes "$3") 30

third_accepted : refuses two third 40 ≡ false
unfolding cutoff contains is_media_kind refuses lookup
third_accepted = refl

-- Over the hard cap the oldest entry goes.
third_evicts : map (λ e. e.seq) (ingest_at no_fault two third 40).0.entries ≡ 2 ∷ 3 ∷ []
unfolding entry_of cutoff contains sort drop_set refuses evict lookup is_media_kind evict_key
    push_entry evictable prune_at ingest_at allowed key_le persist high_water
third_evicts = refl

-- An empty disk, two arrivals: numbered from 1, and written.
from_nothing :
    (run (load_with no_fault no_files policy 0) (
      arrives no_fault (message (codes "$1") 10) 10
      ∷ arrives no_fault (message (codes "$2") 20) 20
      ∷ []))
    ≡ two
unfolding step enforce_at persist entry_of cutoff contains refuses load_with run evict lookup
    is_media_kind push_entry prune_at ingest_at allowed insert high_water
from_nothing = refl

-- A failed write of the mark leaves the files as they were.
failed_write : (ingest_at seq_write_fails two third 40).0.disk ≡ two.disk
unfolding entry_of cutoff contains sort drop_set refuses evict lookup is_media_kind evict_key
    push_entry evictable prune_at ingest_at allowed key_le persist high_water
failed_write = refl

processed_once :
    (mark_processed no_fault
      (mark_processed no_fault two (1 ∷ []) session (codes "done") 40).0
      (7 ∷ 1 ∷ 7 ∷ 2 ∷ [])
      session
      (codes "again")
      50).1
    ≡ done (record {
      marked = 2 ∷ [];
      already =
          (
            1,
            record { by = codes "claude"; session = none; at_ms = 40; note = some (codes "done") },
          )
          ∷ [];
      missing = 7 ∷ [];
    })
unfolding mark process_one persist sort process mark_processed sorted_dedup high_water process_all
    update_first
processed_once = refl

newest_two :
    map
      (λ e. e.seq)
      (query two (record {
        sender = some (codes "@A:x");
        room_id = none;
        since_seq = none;
        since_ts_ms = none;
        states = some (new ∷ []);
        limit = some 1;
      }))
    ≡ 2 ∷ []
unfolding to_lower query state_eq sort state
newest_two = refl

abbrev all_new : Query
all_new = record {
  sender = none;
  room_id = none;
  since_seq = none;
  since_ts_ms = none;
  states = some (new ∷ []);
  limit = some 1;
}

prune_at-PruneSpec_example : PruneSpec policy 115 two.entries (prune_at two 115).0.entries
prune_at-PruneSpec_example = prune_at-PruneSpec two 115 (valid-Distinct two two-IsValid)

ingest_at_contract_example :
    let (i', answer) = ingest_at no_fault two third 40 in
    PruneSpec policy 40 (two.entries ++ entry_of third 3 ∷ []) i'.entries
    × (i'.next_seq ≡ 4)
    × ((answer ≡ some 3) ↔ Elem (entry_of third 3) i'.entries)
    × ((policy.hard_cap ≡ true) ⊎ (answer ≡ some 3))
ingest_at_contract_example = ingest_at_contract two third no_fault 40 two-IsValid third_accepted

never_twice_example :
    let i' = run (ingest_at no_fault two third 40).0 (sweeps no_fault 200 ∷ []) in
    ingest_at no_fault i' third 210 ≡ (i', none)
never_twice_example =
    never_twice no_fault no_fault two third third 40 210 (sweeps no_fault 200 ∷ []) third_accepted
      refl refl (omega arith, tt) (omega arith)

entries-mark_processed_example :
    (mark_processed no_fault two (2 ∷ []) session (codes "done") 40).0.entries
    ≡ map (processed_if (2 ∷ []) session 40 (codes "done")) two.entries
entries-mark_processed_example =
    entries-mark_processed no_fault two (2 ∷ []) session (codes "done") 40 refl
      (valid-Distinct two two-IsValid)

query-QuerySpec_example : QuerySpec all_new two.entries (query two all_new)
query-QuerySpec_example = query-QuerySpec two all_new

restart_after_crash_example :
    let i =
      run (load_with no_fault two.disk policy 40) (arrives entries_write_fails third 40 ∷ []) in
    IsValid i × IsSound i.disk × IsValid (read_disk i.disk default_policy)
restart_after_crash_example =
    restart_after_crash two.disk policy default_policy no_fault 40
      (arrives entries_write_fails third 40 ∷ []) two-IsSound

read_disk-persist_example :
    let j = read_disk (persist no_fault two).disk policy in
    (j.entries ≡ two.entries) × (j.next_seq ≡ 3) × (j.persisted_seq ≡ high_water two)
read_disk-persist_example = read_disk-persist two two-IsValid two-IsStored
