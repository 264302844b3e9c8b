-- ===== src/Tests/Workers.antt =====
-- The witnesses on a worker over time.
use astron_claw.Prelude.{String, ◌≡◌, ◌⊎◌, none, some}
use astron_claw.Prelude.Int.{pos}
use astron_claw.Prelude.Dict.{lookup}
use astron_claw.Redis.Memory.{memory, empty}
use astron_claw.Bridge.{World, register_bot, unregister_bot, drop_conn}
use astron_claw.Bridge.Local.{IsConsistent}
use astron_claw.Reconcile.{do_reconcile}
use astron_claw.Removal.{remove_bot}
use astron_claw.Shutdown.{shutdown}
use astron_claw.Dispatch.{InboxMessage}
use astron_claw.Worker.{
  Steps, registers, unregisters, reconciles, removes, drops_conn, in_parts, others, stop, next,
  started,
}
use astron_claw.Worker.Invariant.{reachable-IsConsistent}
use astron_claw.Worker.Quiet.{shutdown-Quiet}
use astron_claw.Tests.Common.{joined, moved}

abbrev encode : InboxMessage → String
encode m = m.token

abbrev begun : World memory
begun = started memory "w1" empty

abbrev registered : World memory
registered = (register_bot memory "t" 1 (pos 100) begun).1

abbrev raced : World memory
raced = record registered { server = moved.server }

abbrev swept : World memory
swept = do_reconcile memory 4 raced

abbrev removed : World memory
removed = remove_bot encode memory "t" swept

-- an eviction of "u" that has begun
abbrev evicting : World memory
evicting = record removed { bridge = drop_conn "u" removed.bridge }

history : Steps encode memory begun evicting
history =
    next
      (next
        (next
          (next (next (stop begun) (registers "t" 1 (pos 100) begun))
            (others moved.server registered))
          (reconciles 4 raced))
        (removes "t" swept))
      (drops_conn "u" removed)

reachable-IsConsistent_example :
    IsConsistent (in_parts encode memory begun evicting history) evicting.bridge
reachable-IsConsistent_example = reachable-IsConsistent encode memory "w1" empty evicting history

abbrev closing : World memory
closing = shutdown memory joined

abbrev late : World memory
late = (register_bot memory "u" 2 (pos 120) closing).1

closing_history : Steps encode memory closing (unregister_bot memory "t" (some 1) late)
closing_history =
    next (next (stop closing) (registers "u" 2 (pos 120) closing)) (unregisters "t" (some 1) late)

shutdown-Quiet_example :
    (lookup "u" (unregister_bot memory "t" (some 1) late).bridge.bots ≡ none)
    ⊎ (lookup "u" (unregister_bot memory "t" (some 1) late).bridge.bots
        ≡ lookup "u" joined.bridge.bots)
shutdown-Quiet_example =
    shutdown-Quiet encode memory joined (unregister_bot memory "t" (some 1) late) closing_history
      "u"
