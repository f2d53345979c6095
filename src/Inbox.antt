-- ===== src/Inbox.antt =====
-- crates/aqua-messenger/src/inbox.rs: the durable inbox.
-- The field `disk` stands for the two files beside each other at `path`. A write may fail: each
-- operation that persists takes the fault, if any, that its writes meet; a crash at that point
-- leaves the same files.
pub mod Entry
pub mod Marks
pub mod Reads
pub mod Load
pub mod Evict
pub mod Order
pub mod Prune
pub mod Valid
pub mod Ingest
pub mod Dedupe
pub mod Progress
pub mod Forward
pub mod Selection
pub mod Files
pub mod Recovery
pub mod Arrive
mod Tests
use Prim.Native.Nat.{◌^◌}
use aqua_matrix_connector.Common.{true, false}
use Entry.{
  State, new, seen, processed, state_eq, InboxPolicy, open_states, Mark, Actor, mark, InboxEntry,
  NewEntry, is_media_kind, state, entry_of, is_new,
}
use aqua_matrix_connector.Common.{
  Option, List, ℕ, Bool, some, ◌++◌, count, not, map, length, filter, ◌-◌, ◌||◌, if◌then◌else◌, ◌∷◌,
  any, take, ltb, is_some, [], none, ◌&&◌, ◌==◌, leb, ◌%◌, ◌^◌, ◌+◌,
}
use aqua_matrix_connector.Common.Text.{Text}
use aqua_matrix_connector.Common.Assoc.{Assoc, contains_key, insert}
use aqua_matrix_connector.Common.Sort.{sort, mem}

-- A line is `none` where it does not parse; blank lines are left out.
pub record Disk (Json : Type 0) : Type 0 where
  pub seq_file : Option ℕ
  pub lines : List (Option (InboxEntry Json))

pub record Inbox (Json : Type 0) : Type 0 where
  pub entries : List (InboxEntry Json)
  pub seen_ids : Assoc ℕ
  pub next_seq : ℕ
  pub persisted_seq : ℕ
  pub policy : InboxPolicy
  pub disk : Disk Json

pub data Fault : Type 0 where
  no_fault : Fault
  seq_write_fails : Fault
  entries_write_fails : Fault

pub record Pruned : Type 0 where
  pub removed : ℕ
  pub unread : ℕ

pub record Query : Type 0 where
  pub sender : Option Text
  pub room_id : Option Text
  pub since_seq : Option ℕ
  pub since_ts_ms : Option ℕ
  pub states : Option (List State)
  pub limit : Option ℕ

-- `(bool, u64, u64)` in the order of tuples.
abbrev pub EvictKey : Type 0
EvictKey = Bool × ℕ × ℕ

pub key_le : EvictKey → EvictKey → Bool
key_le (false, ts, seq) (true, ts', seq') = true
key_le (true, ts, seq) (false, ts', seq') = false
key_le (true, ts, seq) (true, ts', seq') = ltb ts ts' || (ts == ts' && leb seq seq')
key_le (false, ts, seq) (false, ts', seq') = ltb ts ts' || (ts == ts' && leb seq seq')

-- Durations are milliseconds; `as u64` keeps 64 bits.
unfoldable pub cutoff : InboxPolicy → ℕ → ℕ
cutoff p now = elim p.max_age [ none ↦ 0 | some a ↦ now - a % 2 ^ 64 ]

module _ {Json : Type 0} where
  unfoldable pub contains : Inbox Json → Text → Bool
  contains i id = contains_key id i.seen_ids

  unfoldable pub high_water : Inbox Json → ℕ
  high_water i = i.next_seq - 1

  pub count_state : Inbox Json → State → ℕ
  count_state i s = count (λ e. state_eq (state e) s) i.entries

  pub unread_count : Inbox Json → ℕ
  unfolding count_state
  unread_count i = count_state i new

  pub open_count : Inbox Json → ℕ
  open_count i = count (λ e. any (state_eq (state e)) (open_states i.policy)) i.entries

  -- What the policy allows at all, whatever the number of entries.
  unfoldable pub allowed : InboxPolicy → ℕ → InboxEntry Json → Bool
  allowed p now e = (p.accept_media || not (is_media_kind e.kind)) && leb (cutoff p now) e.ts_ms

  pub evict_key : Bool → InboxEntry Json → EvictKey
  evict_key hard e = (not hard && state_eq (state e) seen, e.ts_ms, e.seq)

  -- May be evicted over the cap.
  pub evictable : Bool → InboxEntry Json → Bool
  evictable hard e = hard || not (is_new e)

  -- The sequence numbers that `prune_at` drops: the first `excess` in the eviction order.
  pub drop_set : Bool → ℕ → List (InboxEntry Json) → List ℕ
  drop_set hard excess entries =
      map (λ k. k.2)
        (take excess (sort key_le (map (evict_key hard) (filter (evictable hard) entries))))

  unfoldable pub evict : InboxPolicy → List (InboxEntry Json) → List (InboxEntry Json)
  evict p entries =
      let excess = length entries - p.max_entries in
      if ltb 0 excess
      then filter (λ e. not (mem e.seq (drop_set p.hard_cap excess entries))) entries
      else entries

  unfoldable pub prune_at : Inbox Json → ℕ → Inbox Json × Pruned
  prune_at i now =
      let entries = evict i.policy (filter (allowed i.policy now) i.entries) in
      let i' = record i {
        entries = entries;
        seen_ids =
            if is_some i.policy.max_age
            then filter (λ s. leb (cutoff i.policy now) s.1) i.seen_ids
            else i.seen_ids;
      } in
      (
        i',
        record {
          removed = length i.entries - length entries;
          unread = count is_new i.entries - count is_new entries;
        },
      )

  -- The high-water mark is written first, then the entries; each write is atomic.
  pub persist : Fault → Inbox Json → Inbox Json
  persist fault i =
      let high = high_water i in
      let marked = record i {
        persisted_seq = high;
        disk = record (i.disk) { seq_file = some high };
      } in
      let ready = if high == i.persisted_seq then i else marked in
      let rewritten = record ready { disk = record (ready.disk) { lines = map some i.entries } } in
      elim fault [
        | no_fault ↦ rewritten
        | seq_write_fails ↦ if high == i.persisted_seq then rewritten else i
        | entries_write_fails ↦ ready
      ]

  unfoldable pub enforce_at : Fault → Inbox Json → ℕ → Inbox Json × Pruned
  enforce_at fault i now =
      let (i', pruned) = prune_at i now in
      (if ltb 0 pruned.removed then persist fault i' else i', pruned)

  -- Refused at once: already ingested, media on an instance that refuses it, or too old.
  unfoldable pub refuses : Inbox Json → NewEntry Json → ℕ → Bool
  refuses i n now =
      contains i n.event_id
      || (not i.policy.accept_media && is_media_kind n.kind)
      || ltb n.ts_ms (cutoff i.policy now)

  pub push_entry : Inbox Json → NewEntry Json → Inbox Json
  push_entry i n = record i {
    entries = i.entries ++ entry_of n i.next_seq ∷ [];
    seen_ids = insert n.event_id n.ts_ms i.seen_ids;
    next_seq = i.next_seq + 1;
  }

  pub ingest_at : Fault → Inbox Json → NewEntry Json → ℕ → Inbox Json × Option ℕ
  ingest_at fault i n now =
      if refuses i n now
      then (i, none)
      else let seq = i.next_seq in
        let (i', pruned) = prune_at (push_entry i n) now in
        let kept = any (λ e. e.seq == seq) i'.entries in
        (
          if kept || ltb 0 pruned.removed then persist fault i' else i',
          if kept then some seq else none,
        )
