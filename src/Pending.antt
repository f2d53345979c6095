-- ===== src/Pending.antt =====
-- crates/aqua-matrix-gating/src/pending.rs: questions that wait for the user's next message.
-- A one-shot channel is a number; a sender in the map is the number of its channel. What `ask` does
-- between its awaits is one step each; the mutex, never held across an await, is not poisoned here.
pub mod Events
pub mod Answers
mod Tests
use aqua_matrix_connector.Common.{
  ℕ, some, none, [], Option, if◌then◌else◌, Bool, filter, ◌==◌, not, false, ◌+◌, true,
}
use aqua_matrix_connector.Common.Text.{Text, text_eq}
use aqua_matrix_connector.Common.Assoc.{Assoc, lookup, insert, contains_key}

-- The receiver's side of a channel.
pub data Channel : Type 0 where
  unused : Channel
  waiting : Channel
  answered : Text → Channel
  dropped : Channel

pub record PendingMap : Type 0 where
  pub inner : Assoc ℕ
  pub channels : ℕ → Channel
  pub next : ℕ

pub no_questions : PendingMap
no_questions = record { inner = []; channels = λ id. unused; next = 0 }

pub is_pending : PendingMap → Text → Bool
is_pending m target = contains_key target m.inner

pub set_channel : ℕ → Channel → (ℕ → Channel) → ℕ → Channel
set_channel id c channels n = if n == id then c else channels n

-- A sender that is dropped without sending ends a wait.
pub drop_sender : Option ℕ → (ℕ → Channel) → ℕ → Channel
drop_sender none channels = channels
drop_sender (some id) channels = elim (channels id) [
  | waiting ↦ set_channel id dropped channels
  | c ↦ channels
]

pub remove : Text → Assoc ℕ → Assoc ℕ
remove target m = filter (λ e. not (text_eq e.0 target)) m

pub clear : PendingMap → Text → PendingMap
clear m target = record m {
  inner = remove target m.inner;
  channels = drop_sender (lookup target m.inner) m.channels;
}

-- The first half of `ask`: the channel is registered before the question is sent.
pub register : PendingMap → Text → PendingMap × ℕ
register m target = (
  record m {
    inner = insert target m.next m.inner;
    channels = set_channel m.next waiting (drop_sender (lookup target m.inner) m.channels);
    next = m.next + 1;
  },
  m.next,
)

-- `try_resolve`: the answer is sent to the receiver if that still waits.
pub try_resolve : PendingMap → Text → Text → PendingMap × Bool
try_resolve m target body = elim (lookup target m.inner) [
  | none ↦ (m, false)
  | some id ↦ (
    record m {
      inner = remove target m.inner;
      channels = elim (m.channels id) [
        | waiting ↦ set_channel id (answered body) m.channels
        | c ↦ m.channels
      ];
    },
    true,
  )
]

-- How the wait of `ask` ends.
pub data WaitEnd : Type 0 where
  send_failed : WaitEnd
  timed_out : WaitEnd
  channel_ends : WaitEnd

-- The second half of `ask`: what it returns, the entry cleared on a failure or a timeout.
pub finish : PendingMap → Text → ℕ → WaitEnd → PendingMap × Option Text
finish m target id send_failed = (clear m target, none)
finish m target id timed_out = (clear m target, none)
finish m target id channel_ends = elim (m.channels id) [
  | answered body ↦ (m, some body)
  | c ↦ (m, none)
]
