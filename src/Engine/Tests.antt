-- ===== src/Engine/Tests.antt =====
-- Runs on a small engine, and the properties at it.
use aqua_matrix_connector.Engine.Waits.{wait_loop-answers}
use aqua_matrix_connector.Engine.Replies.{parse_reply_to-decimal}
use aqua_matrix_connector.Engine.Heard.{classify_inbound-twice, classify_inbound-accepts}
use aqua_matrix_connector.Common.Decimal.{decimal}
use aqua_matrix_connector.Inbox.Valid.{IsValid}
use aqua_matrix_connector.Inbox.{refuses, Query, contains}
use aqua_matrix_connector.Engine.Wait.{wait_query, look, wait_loop}
use aqua_matrix_connector.Format.{tag_markdown}
use aqua_matrix_connector.Format.Origin.{sanitize_origin}
use aqua_matrix_connector.Inbox.{high_water}
use aqua_matrix_connector.Engine.Wait.{if_found}
use aqua_matrix_connector.RateLimit.{try_acquire, queue, set_queue, pop_expired}
use aqua_matrix_connector.Common.Sort.{sort}
use aqua_matrix_connector.Inbox.Reads.{get, query, fits, newest}
use aqua_matrix_connector.Common.Decimal.{parse_digits, digits_value, parse_u64}
use aqua_matrix_connector.Retry.Classify.{begins, holds_text}
use aqua_matrix_connector.Attachments.Name.{last_dot}
use aqua_matrix_connector.Engine.Paths.{sensitive_path_in, file_name}
use aqua_matrix_connector.Profile.Tools.{dedup_tools}
use aqua_matrix_connector.Engine.Requests.{if_enabled, send_message, send_file}
use aqua_matrix_connector.Common.{
  ℕ, some, none, Option, ◌≡◌, false, [], ◌∷◌, ◌⊎◌, true, is_some, ◌++◌, refl, not, ◌+◌, arith, ◌&&◌,
  ◌||◌,
}
use aqua_matrix_connector.Engine.Types.{
  Sent, ask_send_message, Engine, ListFile, TransportCall, World, Request, ask_send_file,
  ask_wait_for_reply, Resolved, Info, call_text, to_person, out_text, timed_out, call_file,
  not_allowlisted, sensitive_file, not_delivered, inbound_dropped, Arrival, WaitAnswer, from_sender,
  replied,
}
use aqua_matrix_connector.Engine.Handle.{handle}
use aqua_matrix_connector.Engine.Handled.{handle-Grew}
use aqua_matrix_connector.Engine.Permitted.{IsPermitted}
use aqua_matrix_connector.Engine.Slots.{spent, is_ok, send-IsPaid}
use aqua_matrix_connector.Engine.Shown.{ShowsNoSource, entries_without_source}
use aqua_matrix_connector.Attachments.Store.{Fetched, Bytes, no_store_fault}
use aqua_matrix_connector.AllowList.Reload.{
  not_found, AllowList, rereads, reload, same_time, take_reading, closed, is_empty_list,
}
use aqua_matrix_connector.AllowList.{Recipient, is_valid_room_id}
use aqua_matrix_connector.Inbox.Entry.{
  InboxEntry, Actor, default_policy, is_media_kind, state, state_eq, is_new, NewEntry, entry_of,
  public,
}
use aqua_matrix_connector.Inbox.{Inbox, no_fault, enforce_at, prune_at, allowed, cutoff, evict}
use aqua_matrix_connector.Common.Text.{
  codes, Text, eq_ignore_ascii_case, len, is_whitespace, trim, to_lower, strip_prefix,
}
use aqua_matrix_connector.Engine.Resolve.{
  find_target, allow_current, mention_for, to_or_default, resolve_from, target_of, resolve_reply,
  parse_reply_to, refusal, resolve_to, apply_from, audit, is_in_conversation, reply_ref, find_from,
  by_seq,
}
use aqua_matrix_connector.Engine.Send.{
  send, check_reply, send_to, reserve_and_send, after_acquire, finish_send, transport_call,
}
use aqua_matrix_connector.Engine.Reads.{read_inbox}
use aqua_matrix_connector.Profile.{host, has_tool}
use aqua_matrix_connector.AllowList.Parse.{Result, ok, err}
use aqua_matrix_connector.Engine.Inbound.{classify_inbound, room_name_of, person_name_of}
use aqua_matrix_connector.RateLimit.{remaining}
use aqua_matrix_connector.Engine.Wait.{wait_for_reply, look, if_found}
use aqua_matrix_connector.AllowList.Targets.{
  is_listed_room, by_mxid, room_by_id, take_audit, resolve, resolve_target, resolve_room,
}
use aqua_matrix_connector.Common.Assoc.{lookup, insert}
use aqua_matrix_connector.Common.Elem.{Elem}

abbrev tim : Recipient
tim = record { name = codes "tim"; mxid = codes "@t:x"; note = none }

-- A list without a file.
abbrev list : AllowList
list = record {
  path = none;
  mtime = none;
  fixed = tim ∷ [];
  recipients = tim ∷ [];
  rooms = [];
  observers = [];
  reserved = [];
  ever_observed = [];
  load_error = none;
  observer_error = none;
  loaded = true;
  pending_audit = [];
  label = codes "agent";
  approver = codes "the agent's owner";
}

abbrev photo : InboxEntry ℕ
photo = record {
  seq = 1;
  event_id = codes "$1";
  room_id = codes "!d:x";
  sender = codes "@t:x";
  sender_name = some (codes "tim");
  room = none;
  ts_ms = 5;
  kind = codes "image";
  body = codes "p.png";
  filename = none;
  media = some (record { source = 7; mimetype = none; size = some 3 });
  in_reply_to = none;
  thread_root = none;
  read = false;
  seen_by = none;
  processed_by = none;
}

abbrev inbox : Inbox ℕ
inbox = record {
  entries = photo ∷ [];
  seen_ids = (codes "$1", 5) ∷ [];
  next_seq = 2;
  persisted_seq = 1;
  policy = default_policy;
  disk = record { seq_file = some 1; lines = [] };
}

abbrev engine : Engine ℕ
engine = record {
  profile = host;
  state_dir = codes "state" ∷ [];
  allow = list;
  inbox = inbox;
  rate = record { budget = 2; window = 100; sends = [] };
  status = record {
    connected = true;
    did = none;
    user_id = none;
    device_id = none;
    last_error = none;
  };
  dropped = [];
  joined_rooms = [];
  store_dir = codes "/a";
  files = [];
  audits = [];
  calls = [];
}

abbrev no_list : ListFile
no_list = record { mtime = none; reading = not_found }

-- A transport that delivers everything but file uploads.
abbrev deliver : TransportCall ℕ → Result Text Sent
deliver (call_file d p caption r) = err (codes "offline")
deliver c = ok (record { event_id = codes "$9"; thread_root = none })

abbrev world : World ℕ
world = record {
  mention_list = no_list;
  list = no_list;
  clock = 10;
  enforce_ms = 10;
  enforce_fault = no_fault;
  mark_ms = 11;
  mark_fault = no_fault;
  home = some (codes "home" ∷ []);
  canonicalize = λ p. some (codes "home" ∷ p ∷ []);
  metadata = λ p. some (record { is_file = true; len = 12 });
  transport = deliver;
  download = λ q. err (codes "offline");
  store_s = 0;
  store_fault = no_store_fault;
  removable = λ f. true;
  arrivals = [];
}

abbrev no_hash : Bytes → Text
no_hash b = []

abbrev no_encode : Fetched → Option Bytes
no_encode f = none

abbrev no_decode : Bytes → Option Fetched
no_decode b = none

abbrev greeting : Request
greeting = ask_send_message (codes "Tim") (codes "hi") (codes "r@h") (some (codes "1")) none

greeting_sent :
    (handle no_hash no_encode no_decode 0 world engine greeting).0.calls
    ≡ call_text (to_person (codes "@t:x")) (codes "hi" ++ 10 ∷ 10 ∷ codes "<sub>via `r@h`</sub>") (
        some (record {
          event_id = codes "$1";
          sender = some (codes "@t:x");
          room_id = some (codes "!d:x");
          thread_root = none;
        }))
      ∷ []
unfolding host if_enabled handle send dedup_tools has_tool len is_whitespace take_audit trim
    mention_for to_or_default send_message resolve allow_current resolve_target parse_digits
    resolve_reply get digits_value rereads check_reply reload parse_reply_to parse_u64 to_lower
    target_of try_acquire aqua_matrix_connector.RateLimit.trim queue set_queue lookup insert
    pop_expired send_to reserve_and_send after_acquire finish_send transport_call audit
    is_in_conversation reply_ref tag_markdown sanitize_origin
greeting_sent = refl

stranger_refused :
    (handle no_hash no_encode no_decode 0 world engine
      (ask_send_message (codes "@eve:x") (codes "hi") [] none none)).1
    ≡ err (not_allowlisted (codes "@eve:x"))
unfolding host if_enabled handle send dedup_tools has_tool len is_whitespace take_audit trim
    mention_for to_or_default send_message resolve allow_current resolve_target refusal resolve_room
    is_valid_room_id strip_prefix rereads reload to_lower
stranger_refused = refl

key_refused :
    (handle no_hash no_encode no_decode 0 world engine
      (ask_send_file (codes "tim") (codes "id.pem") none [] none)).1
    ≡ err (sensitive_file (codes "a key or env file"))
unfolding is_whitespace host trim if_enabled handle to_or_default sensitive_path_in file_name
    last_dot begins to_lower dedup_tools has_tool send_file
key_refused = refl

upload_fails :
    (handle no_hash no_encode no_decode 0 world engine
      (ask_send_file (codes "tim") (codes "a.md") none [] none)).1
    ≡ err (not_delivered (codes "tim") (codes "offline"))
unfolding host if_enabled handle sensitive_path_in send file_name begins holds_text dedup_tools
    to_lower has_tool is_whitespace trim to_or_default send_file last_dot take_audit resolve_target
    rereads check_reply reload resolve_to resolve allow_current target_of try_acquire
    aqua_matrix_connector.RateLimit.trim queue set_queue lookup insert pop_expired send_to
    reserve_and_send after_acquire finish_send transport_call audit
upload_fails = refl

waits_in_vain :
    (handle no_hash no_encode no_decode 0 world engine
      (ask_wait_for_reply (codes "tim") 5 (some 1) none none)).1
    ≡ ok (timed_out 5)
unfolding host resolve_from if_enabled handle rereads dedup_tools to_lower has_tool reload
    take_audit is_whitespace trim resolve allow_current wait_for_reply resolve_target apply_from
    sort query enforce_at prune_at allowed is_media_kind cutoff evict high_water state state_eq
    is_new fits newest look if_found find_from
waits_in_vain = refl

handle-Grew_example :
    let e' = (handle no_hash no_encode no_decode 0 world engine greeting).0 in
    (e'.calls ≡ engine.calls)
    ⊎ ((c : TransportCall ℕ) × (e'.calls ≡ engine.calls ++ c ∷ [])
        × IsPermitted world.home e'.state_dir e'.allow e'.inbox c)
handle-Grew_example = handle-Grew no_hash no_encode no_decode 0 world engine greeting

abbrev to_tim : Resolved
to_tim = record { name = codes "tim"; id = codes "@t:x"; dest = to_person (codes "@t:x") }

abbrev info : Info
info = record { kind = codes "text"; bytes = 2; mention = none; filename = none; replaces = none }

finds_tim : find_target (allow_current world.list engine) (codes "tim") ≡ ok to_tim
unfolding find_target take_audit is_whitespace trim rereads target_of resolve allow_current to_lower
    resolve_target reload
finds_tim = refl

send-IsPaid_example :
    let (e', r) = send world engine (codes "tim") (out_text (codes "hi")) [] none info in
    ((remaining engine.rate to_tim.id world.clock).1
      ≡ (remaining e'.rate to_tim.id world.clock).1 + spent r)
    × ((is_ok r ≡ false)
        ⊎ ((c : TransportCall ℕ) × (e'.calls ≡ engine.calls ++ c ∷ [])
            × (is_ok (world.transport c) ≡ true)))
send-IsPaid_example =
    send-IsPaid world engine (codes "tim") to_tim (out_text (codes "hi")) [] none info finds_tim
      (omega arith)

classify_inbound-accepts_example :
    let a = (allow_current no_list engine).allow in
    let r =
      (classify_inbound no_list engine
        (codes "@b:x")
        (codes "@t:x")
        (codes "!d:x")
        (codes "$2")
        false).1 in
    (is_some r ≡ (
      not (eq_ignore_ascii_case (codes "@t:x") (codes "@b:x"))
      && (is_listed_room a (codes "!d:x") || (not false && is_some (by_mxid a (codes "@t:x"))))))
    × ((r ≡ none)
        ⊎ (r
            ≡ some (record {
              room_name = room_name_of (room_by_id a (codes "!d:x"));
              sender_name = person_name_of (by_mxid a (codes "@t:x"));
            })))
classify_inbound-accepts_example =
    classify_inbound-accepts no_list engine (codes "@b:x") (codes "@t:x") (codes "!d:x")
      (codes "$2") false

abbrev session : Actor
session = record { by = codes "r@h"; session = none }

entries_without_source_example :
    ShowsNoSource 0 (read_inbox 0 world engine none none none false true none session).1
    × ShowsNoSource 0 (wait_for_reply 0 world engine (codes "tim") 5 none session).1
entries_without_source_example =
    entries_without_source 0 world engine none none none false true none (codes "tim") 5 none
      session

parse_reply_to-decimal_example : parse_reply_to (decimal 12) ≡ ok (by_seq 12)
parse_reply_to-decimal_example = parse_reply_to-decimal 12 (omega arith)

-- A list file that is gone, at a time that was not seen before.
abbrev gone : ListFile
gone = record { mtime = some 4; reading = not_found }

abbrev with_file : Engine ℕ
with_file = record engine { allow = record list { path = some (codes "l.toml") } }

eve_dropped :
    (classify_inbound gone with_file
      (codes "@b:x")
      (codes "@e:x")
      (codes "!e:x")
      (codes "$3")
      false).0.audits
    ≡ inbound_dropped (codes "@e:x") (codes "!e:x") (codes "$3") ∷ []
unfolding rereads by_mxid to_lower same_time audit take_audit reload classify_inbound take_reading
    allow_current closed room_by_id is_empty_list
eve_dropped = refl

classify_inbound-twice_example :
    let (e', r) =
      classify_inbound gone with_file
        (codes "@b:x")
        (codes "@e:x")
        (codes "!e:x")
        (codes "$3")
        false in
    classify_inbound gone e' (codes "@b:x") (codes "@e:x") (codes "!e:x") (codes "$3") false
    ≡ (e', r)
classify_inbound-twice_example =
    classify_inbound-twice gone with_file (codes "@b:x") (codes "@e:x") (codes "!e:x") (codes "$3")
      false 4 refl

abbrev answer_text : NewEntry ℕ
answer_text = record {
  event_id = codes "$2";
  room_id = codes "!d:x";
  sender = codes "@t:x";
  sender_name = some (codes "tim");
  room = none;
  ts_ms = 20;
  kind = codes "text";
  body = codes "yes";
  filename = none;
  media = none;
  in_reply_to = none;
  thread_root = none;
}

abbrev comes : Arrival ℕ
comes = record { entry = answer_text; fault = no_fault; now = 21 }

abbrev from_tim : Query
from_tim = wait_query (some 1) (from_sender (codes "@t:x"))

inbox-IsValid : IsValid inbox
unfolding is_new lookup
inbox-IsValid = record {
  numbered = (omega arith, omega arith);
  known = (refl, tt);
  mirrored = (refl, tt);
  saved = omega arith;
}

no_limit : from_tim.limit ≡ none
unfolding apply_from wait_query
no_limit = refl

nothing_yet : (look no_fault 10 engine from_tim).1 ≡ []
unfolding sort to_lower apply_from prune_at enforce_at query wait_query allowed evict look cutoff
nothing_yet = refl

let_in : refuses (look no_fault 10 engine from_tim).0.inbox answer_text 21 ≡ false
unfolding look contains prune_at allowed refuses cutoff lookup evict enforce_at
let_in = refl

no_media : (not engine.profile.inbox.accept_media && is_media_kind answer_text.kind) ≡ false
unfolding host
no_media = refl

wanted :
    fits from_tim (entry_of answer_text (look no_fault 10 engine from_tim).0.inbox.next_seq) ≡ true
unfolding allowed to_lower state apply_from prune_at enforce_at evict wait_query fits entry_of look
    cutoff state_eq
wanted = refl

wait_loop-answers_example :
    (answer : WaitAnswer ℕ) × ((wait_loop 0 world 10 engine from_tim session 5 (comes ∷ [])).1
      ≡ ok (replied answer))
    × Elem
        (public 0 (entry_of answer_text (look no_fault 10 engine from_tim).0.inbox.next_seq))
        answer.entries
wait_loop-answers_example =
    wait_loop-answers 0 world from_tim session 5 10 engine comes [] inbox-IsValid refl no_limit
      nothing_yet no_media let_in wanted
