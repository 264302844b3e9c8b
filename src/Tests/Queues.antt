-- ===== src/Tests/Queues.antt =====
-- The witness on the message queue.
use astron_claw.Prelude.{◌≡◌, refl, Option, none, some, length, List, [], ◌∷◌, ◌++◌, map, arith}
use astron_claw.Text.{contains}
use astron_claw.Queue.{StreamEntry, ensure_group, purge, publish, consume, on_read, ack}
use astron_claw.Queue.Usage.{
  Traffic, Use, send, take, acknowledge, shown, use_all, use_once, queue_of,
}
use astron_claw.Queue.Fresh.{fresh_inbox-order}
use astron_claw.Queue.Memory.{StreamStore, streams, waiting_in, size_in, streams-StreamLaws}

-- an inbox in which an earlier turn has left an entry
abbrev left_over : StreamStore
left_over = record { size = λ k. 1; waiting = λ k g. some (("id-old", some "old") ∷ []) }

abbrev uses : List Use
uses = send "a" ∷ take "c1" ∷ send "b" ∷ acknowledge "id-a" ∷ take "c2" ∷ take "c1" ∷ send "c" ∷ []

abbrev fresh : StreamStore
fresh = (ensure_group streams "inbox" "sse" (purge streams "inbox" left_over).1).1

abbrev begun : Traffic streams
begun = record { server = fresh; sent = []; taken = [] }

abbrev or_begun : Option (Traffic streams) → Traffic streams
or_begun none = begun
or_begun (some t) = t

abbrev after_uses : Traffic streams
after_uses = or_begun (use_all streams (queue_of 3) "inbox" "sse" 5 uses begun)

fresh_inbox-order_example :
    (rest : List StreamEntry) × (waiting_in after_uses.server "inbox" "sse" ≡ some rest)
    × (after_uses.taken ++ map shown rest ≡ map shown after_uses.sent)
unfolding purge ensure_group use_all use_once publish consume on_read ack contains
fresh_inbox-order_example =
    fresh_inbox-order streams waiting_in size_in streams-StreamLaws 3 "inbox" "sse" 5 uses left_over
      after_uses refl refl (omega arith) refl

two_taken : length after_uses.taken ≡ 2
unfolding purge ensure_group use_all use_once publish consume on_read ack contains
two_taken = refl
