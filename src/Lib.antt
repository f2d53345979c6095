-- ===== src/Lib.antt =====
-- Verification of the core of the Aqua Matrix connector.
--
-- The connector lets coding sessions and agents talk to allow-listed people over Matrix. Its parts
-- here, each a module of this library, with paths from the repository's root:
--
-- RateLimit: crates/aqua-messenger/src/ratelimit.rs. `RateLimiter` keeps, per recipient, a queue of
--   the instants of its reservations. The engine asks `try_acquire` before each send and calls
--   `release` when nothing reached the recipient. RateLimit.antt has the state and the operations;
--   its submodules prove what they promise.
-- AllowList: crates/aqua-messenger/src/allowlist.rs. AllowList.antt has the entries and the
--   structural checks, AllowList/Parse the checks of a file, AllowList/Reload the list with `reload`
--   and its constructors, AllowList/Targets the lookups. The file as `toml` decodes it, its time and
--   read errors are arguments; error messages are data. The engine asks this list before it sends
--   to, or hears from, anybody.
-- Inbox: crates/aqua-messenger/src/inbox.rs. `Inbox` is the durable list of inbound messages that
--   sessions read and mark. Inbox/Entry has policies, states and entries; Inbox.antt has the state
--   with its two files, `ingest_at`, `prune_at`, `enforce_at` and `persist`; Inbox/Marks has
--   `mark_seen` and `mark_processed`; Inbox/Reads has `query`, `get` and `get_by_event_id`;
--   Inbox/Load has `load_with`. The fields `seen` and `processed` of an entry are `seen_by` and
--   `processed_by` here, and the inbox's `seen` map is `seen_ids`.
-- Journal: crates/aqua-matrix-agent/src/durable.rs. `WorkJournal` holds each accepted message until
--   its answer is delivered. Journal.antt has the operations, its submodules what they promise.
-- Pending: crates/aqua-matrix-gating/src/pending.rs. Pending.antt has `PendingMap` with one-shot
--   channels as numbers, `try_resolve`, and `ask` in two halves, `register` and `finish`.
-- Retry: crates/aqua-matrix-agent/src/net_retry.rs. Retry.antt has `Backoff` and `OutageTracker`,
--   Retry/Classify `classify_connect_error`, Retry/Attempts the loop of `connect_with_outage_retry`
--   over the rounds it meets. The jitter, computed on floats from a random number, is a function
--   given with each round.
-- Gating: crates/aqua-matrix-gating/src/destructive.rs. The table of dangerous requests with
--   `normalise`, `classify` and `looks_destructive`; `str::to_lowercase` is an argument.
-- Dm: crates/aqua-matrix-agent/src/dm.rs. Which joined room is the direct chat with a user: Dm.antt
--   has the observers, the verdict on a room and `pick_dm_candidate`, Dm/Rooms `find_dm_room` and
--   `is_one_to_one_dm`. The members of a room, its direct mark and its latest message are data.
-- Format: crates/aqua-messenger/src/format.rs. The labels and notes that callers give, the tags
--   around a sent text, and in Format/Calendar the dates.
-- Profile: crates/aqua-messenger/src/profile.rs, with the tool names of jsonrpc.rs in Profile/Tools.
--   `Profile` says which tools an identity offers, and its limits.
-- Attachments: crates/aqua-messenger/src/attachments.rs. Attachments/Name has `sanitize_filename`,
--   Attachments/Store the files with `store`, `prune` and, as `find_cached`, the store's `lookup`.
-- Engine: crates/aqua-messenger/src/engine.rs, the policy behind the tools, over the modules
--   above. Engine/Types has `Request` (proto.rs), responses, and the state `Engine`, which also keeps
--   what was audited and what the transport was asked. Engine/Resolve has the arguments' meaning,
--   Engine/Paths `sensitive_path_in`, Engine/Inbound `classify_inbound` and `ingest`, Engine/Send
--   `send`, Engine/Requests and Engine/Reads the arms of `handle`, Engine/Fetch `fetch_attachment`,
--   Engine/Wait `wait_for_reply`, Engine/Handle `handle`. A `World` is what one request meets: each
--   look at the allow-list's file, clocks, failing writes, the transport's answers, and the messages
--   that arrive while it waits. A call of the `Transport` is a value; its answer is a function of it.
--   The constructors of `Request` are prefixed `ask_`, those of `Outgoing` `out_`, and the methods of
--   `Transport` are `call_text`, `call_file`, `call_mention`, `call_edit` and `call_fetch`.
-- Common: shared tests, lists, texts (lists of code points), association lists, sorting.
--
-- Stateful code takes the state and returns the new one; an operation under a mutex is one step. A
-- hash map is an association list, of which only lookups are observed. Files are fields of the
-- state: each operation that writes takes which of its atomic writes fails, or whether it succeeds,
-- and a crash at that point leaves the same files. Sorting is by insertion, which agrees with the
-- source's on the keys used, as these are distinct. Loops over lists are structural recursion; only
-- the digits of a number are on fuel, one more than the number, which is enough (Common/Decimal).
--
-- Bounds: counters of messages and milliseconds are natural numbers; they are u64 in the source,
-- which no count of messages reaches. A duration is cut to 64 bits where the source casts it.
--
-- Not modelled: JSON and TOML encoding (serde, toml: a line of a file parses or not), logging,
-- sockets, matrix-sdk, the clock (an argument), file permissions, requests to the engine that
-- interleave while one awaits the transport, paths that are not UTF-8, the relay, the rest of the
-- gating and the bridges.
pub mod Common
pub mod RateLimit
pub mod AllowList
pub mod Inbox
pub mod Journal
pub mod Pending
pub mod Retry
pub mod Format
pub mod Profile
pub mod Attachments
pub mod Engine
pub mod Dm
pub mod Gating
