-- ===== src/Queue/Usage.antt =====
-- The calls of publishers and of the consumers of one group on one queue, one after another.
use astron_claw.Prelude.{ℕ, suc, String, Option, none, some, List, [], ◌∷◌, ◌++◌}
use astron_claw.Prelude.Int.{pos}
use astron_claw.Dispatch.{Polled, poll_failed, poll_empty, entry}
use astron_claw.Queue.{StreamEntry, Streams, RedisStreamQueue, publish, consume, ack}

pub data Use : Type 0 where
  send : String → Use
  take : String → Use
  acknowledge : String → Use

pub record Traffic (R : Streams) : Type 0 where
  pub server : R.Server
  pub sent : List StreamEntry
  pub taken : List Polled

-- what a consumer is to be given for an entry: its id and its text
abbrev pub shown : StreamEntry → Polled
shown (id, some text) = entry id text
shown (id, none) = entry id ""

abbrev pub count_sends : List Use → ℕ
count_sends [] = 0
count_sends (send m ∷ us) = suc (count_sends us)
count_sends (take c ∷ us) = count_sends us
count_sends (acknowledge id ∷ us) = count_sends us

abbrev pub queue_of : ℕ → RedisStreamQueue
queue_of max = record { max_len = pos max }

module _ (R : Streams) where
  abbrev pub after_send : String → Traffic R → Option String × R.Server → Option (Traffic R)
  after_send m t (none, s) = none
  after_send m t (some id, s) =
      some (record { server = s; sent = t.sent ++ (id, some m) ∷ []; taken = t.taken })

  abbrev pub after_take : Traffic R → Polled × R.Server → Option (Traffic R)
  after_take t (poll_failed, s) = none
  after_take t (poll_empty, s) = some (record t { server = s })
  after_take t (entry id text, s) =
      some (record { server = s; sent = t.sent; taken = t.taken ++ entry id text ∷ [] })

  -- none once a publication or a read has failed
  unfoldable pub use_once :
      RedisStreamQueue → String → String → ℕ → Use → Traffic R → Option (Traffic R)
  use_once q queue group block (send m) t = after_send m t (publish R q queue m t.server)
  use_once q queue group block (take c) t = after_take t (consume R queue group c block t.server)
  use_once q queue group block (acknowledge id) t =
      some (record t { server = (ack R queue group id t.server).1 })

  unfoldable pub use_all :
      RedisStreamQueue → String → String → ℕ → List Use → Traffic R → Option (Traffic R)
  use_all q queue group block [] t = some t
  use_all q queue group block (u ∷ us) t = elim (use_once q queue group block u t) [
    | none ↦ none
    | some t' ↦ use_all q queue group block us t'
  ]
