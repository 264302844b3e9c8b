-- ===== src/Tests/Heartbeats.antt =====
-- The witnesses on heartbeats.
use astron_claw.Prelude.{◌≡◌, refl, [], ◌∷◌, not}
use astron_claw.Prelude.Int.{pos}
use astron_claw.Keys.{bot_alive_key}
use astron_claw.Redis.Laws.{elem}
use astron_claw.Redis.Memory.{memory, view}
use astron_claw.Redis.Memory.Lawful.{memory_laws}
use astron_claw.Alive.{
  is_bot_connected, get_connections_summary, bulk_check_bot_online, gone_on, cleanup_expired_bots,
}
use astron_claw.Alive.Checks.{fresh, readers_agree}
use astron_claw.Alive.Expiry.{Swept, cleanup_expired-Swept}
use astron_claw.Tests.Common.{memory-Reachable, memory-Readable, joined}

cleanup_expired-Swept_example :
    Swept memory view memory_laws memory-Reachable memory-Readable
      (pos 140)
      joined.server
      (cleanup_expired_bots memory (pos 140) joined).server
      "t"
cleanup_expired-Swept_example =
    cleanup_expired-Swept memory view memory_laws memory-Reachable memory-Readable (pos 140) joined
      "t"

readers_agree_example :
    (let online = fresh (pos 120) (view.score joined.server bot_alive_key "t") in
      ((is_bot_connected memory "t" (pos 120) joined.server).0 ≡ online)
      × (elem "t" (get_connections_summary memory (pos 120) joined.server).0 ≡ online)
      × (elem "t" (bulk_check_bot_online memory (pos 120) ("t" ∷ []) joined.server).0 ≡ online)
      × (gone_on (pos 120) (memory.zscore bot_alive_key "t" joined.server).0 ≡ not online))
readers_agree_example =
    readers_agree memory view memory_laws memory-Readable (pos 120) "t" ("t" ∷ []) joined.server
      refl
