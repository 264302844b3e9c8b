-- ===== src/Removal.antt =====
-- RemoveBotSessions of backend/internal/service/bridge.go, which the deletion of a token by an
-- administrator calls: the sessions of the token go, and its bot, at whichever worker it is. The
-- lists of sessions and the records of bots stand under different keys of one Redis server, and
-- are two states here.
pub mod Removed
pub mod Deletion
use astron_claw.Prelude.{ℕ, String, Bool, true, false, Option, none, some, if◌then◌else◌}
use astron_claw.Prelude.Dict.{lookup}
use astron_claw.Redis.{Redis, Reply, ok, nil, failed}
use astron_claw.Bridge.{World, close, unregister_bot, cleanup_shared_bot_state}
use astron_claw.Reconcile.{get_bot_owner}
use astron_claw.Dispatch.{InboxMessage, publish_disconnect_to_worker_inbox}
use astron_claw.Sessions.{Cache, Database, Store, remove_sessions}

module _ (encode : InboxMessage → String) (R : Redis) where
  -- the bot is connected to this worker; with model.ErrWSTokenDeleted
  unfoldable pub remove_here : String → ℕ → World R → World R
  remove_here token conn w =
      let closed = close conn 4003 "Token deleted" w.bridge.closed in
      unregister_bot R token none (record w { bridge = record w.bridge { closed = closed } })

  -- ResolveBotRoute, and the message to the worker that it names
  unfoldable pub publish_to_route : String → Reply String × R.Server → R.Server
  publish_to_route token (ok worker, s) =
      (publish_disconnect_to_worker_inbox encode R worker token s).1
  publish_to_route token (nil, s) = s
  publish_to_route token (failed e, s) = s

  -- the bot is not connected to this worker; what follows the message is what
  -- cleanupSharedBotState does
  unfoldable pub remove_elsewhere : String → World R → World R
  unfolding publish_to_route
  remove_elsewhere token w =
      cleanup_shared_bot_state R token true
        (record w { server = publish_to_route token (get_bot_owner R token w.server) })

  unfoldable pub remove_bot : String → World R → World R
  remove_bot token w = elim (lookup token w.bridge.bots) [
    | none ↦ remove_elsewhere token w
    | some conn ↦ remove_here token conn w
  ]

  -- RemoveBotSessions: whether the sessions could be removed
  unfoldable pub remove_bot_sessions :
      (C : Cache) (D : Database) → String → Store C D × World R → Bool × (Store C D × World R)
  remove_bot_sessions C D token (store, w) =
      let (gone, store') = remove_sessions C D token store in
      if gone then (true, (store', remove_bot token w)) else (false, (store', w))
