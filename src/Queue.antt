-- ===== src/Queue.antt =====
-- The message queue over Redis streams, backend/internal/service/queue.go. The commands on streams
-- are parameters; what the code relies on in them is stated in Queue/Laws. Logs are left out, and
-- the texts that errors are wrapped in.
pub mod Laws
pub mod Usage
pub mod Traffic
pub mod Fresh
pub mod Memory
use astron_claw.Prelude.{
  ℕ, String, Bool, true, false, Option, none, some, List, [], ◌∷◌, if◌then◌else◌, str_eq,
}
use astron_claw.Prelude.Int.{ℤ}
use astron_claw.Text.{contains}
use astron_claw.Redis.{Reply, ok, nil, failed, Call}
use astron_claw.Dispatch.{Polled, poll_failed, poll_empty, entry}

-- an entry of a stream: its id, and the text of its field `data` if it has one
abbrev pub StreamEntry : Type 0
StreamEntry = String × Option String

-- A read names a stream, a group and a consumer, and asks for one entry; it returns the entries of
-- each stream.
pub record Streams : Type 1 where
  pub Server : Type 0
  -- with `MAXLEN ~`
  pub xadd : String → ℤ → String → Call Server String
  pub xread_group : String → String → String → ℕ → Call Server (List (List StreamEntry))
  pub xack : String → String → String → Call Server ℕ
  pub xdel : String → String → Call Server ℕ
  pub del : String → Call Server ℕ
  -- to at most so many entries
  pub xtrim : String → ℕ → Call Server ℕ
  -- with MKSTREAM, from `$` on
  pub xgroup_create : String → String → Call Server Unit

pub record RedisStreamQueue : Type 0 where
  pub max_len : ℤ

-- NewQueue, none for the error
unfoldable pub new_queue : String → ℤ → Option RedisStreamQueue
new_queue queue_type max_stream_len =
    if str_eq queue_type "redis_stream" then some (record { max_len = max_stream_len }) else none

-- whether the error of a command is nil
abbrev pub succeeded : {A : Type 0} → Reply A → Bool
succeeded (ok a) = true
succeeded nil = false
succeeded (failed e) = false

abbrev pub value : {A : Type 0} → Reply A → Option A
value (ok a) = some a
value nil = none
value (failed e) = none

-- result[0].Messages[0]
abbrev pub first_message : List (List StreamEntry) → Option StreamEntry
first_message [] = none
first_message ([] ∷ streams) = none
first_message ((m ∷ messages) ∷ streams) = some m

abbrev pub data_of : Option String → String
data_of none = ""
data_of (some text) = text

abbrev pub message_of : Option StreamEntry → Polled
message_of none = poll_empty
message_of (some (id, text)) = entry id (data_of text)

abbrev pub exists_already : Reply Unit → Bool
exists_already (ok a) = false
exists_already nil = false
exists_already (failed e) = contains e "BUSYGROUP"

module _ (R : Streams) where
  -- Publish, none for an error
  unfoldable pub publish : RedisStreamQueue → String → String → R.Server → Option String × R.Server
  publish q queue message s = let (r, s') = R.xadd queue q.max_len message s in (value r, s')

  -- EnsureGroup: whether the error is nil
  unfoldable pub ensure_group : String → String → R.Server → Bool × R.Server
  ensure_group queue group s =
      let (r, s') = R.xgroup_create queue group s in
      (if succeeded r then true else exists_already r, s')

  unfoldable pub on_read :
      String → String → Reply (List (List StreamEntry)) → R.Server → Polled × R.Server
  on_read queue group (ok streams) s = (message_of (first_message streams), s)
  on_read queue group nil s = (poll_empty, s)
  on_read queue group (failed e) s =
      if contains e "NOGROUP"
      then (poll_empty, (ensure_group queue group s).1)
      else (poll_failed, s)

  -- Consume
  unfoldable pub consume : String → String → String → ℕ → R.Server → Polled × R.Server
  consume queue group consumer block_ms s =
      let (r, s') = R.xread_group queue group consumer block_ms s in on_read queue group r s'

  -- Ack, DeleteMessage, DeleteQueue and Purge: whether the error is nil
  unfoldable pub ack : String → String → String → R.Server → Bool × R.Server
  ack queue group id s = let (r, s') = R.xack queue group id s in (succeeded r, s')

  unfoldable pub delete_message : String → String → R.Server → Bool × R.Server
  delete_message queue id s = let (r, s') = R.xdel queue id s in (succeeded r, s')

  unfoldable pub delete_queue : String → R.Server → Bool × R.Server
  delete_queue queue s = let (r, s') = R.del queue s in (succeeded r, s')

  unfoldable pub purge : String → R.Server → Bool × R.Server
  purge queue s = let (r, s') = R.xtrim queue 0 s in (succeeded r, s')
