-- ===== src/Inbox/Load.antt =====
-- crates/aqua-messenger/src/inbox.rs: `load_with`, from what the two files hold.
use aqua_matrix_connector.Inbox.Entry.{InboxPolicy, InboxEntry}
use aqua_matrix_connector.Inbox.{Inbox, Disk, Fault, enforce_at}
use aqua_matrix_connector.Common.{List, ℕ, Option, ◌∷◌, unwrap_or, max, [], some, ◌+◌, none}
use aqua_matrix_connector.Common.Assoc.{Assoc, insert}

module _ {Json : Type 0} where
  -- Lines that do not parse are skipped.
  unfoldable pub parsed : List (Option (InboxEntry Json)) → List (InboxEntry Json)
  parsed [] = []
  parsed (none ∷ lines) = parsed lines
  parsed (some e ∷ lines) = e ∷ parsed lines

  unfoldable pub max_seq : List (InboxEntry Json) → ℕ
  max_seq [] = 0
  max_seq (e ∷ es) = max e.seq (max_seq es)

  -- `collect` into a map: a later entry of an event id wins.
  unfoldable pub ids_of : Assoc ℕ → List (InboxEntry Json) → Assoc ℕ
  ids_of m [] = m
  ids_of m (e ∷ es) = ids_of (insert e.event_id e.ts_ms m) es

  unfoldable pub read_disk : Disk Json → InboxPolicy → Inbox Json
  unfolding parsed max_seq ids_of
  read_disk d p =
      let entries = parsed d.lines in
      let persisted_seq : ℕ = unwrap_or d.seq_file 0 in
      record {
        entries = entries;
        seen_ids = ids_of [] entries;
        next_seq = max (max_seq entries) persisted_seq + 1;
        persisted_seq = persisted_seq;
        policy = p;
        disk = d;
      }

  unfoldable pub load_with : Fault → Disk Json → InboxPolicy → ℕ → Inbox Json
  unfolding read_disk
  load_with fault d p now = (enforce_at fault (read_disk d p) now).0
