-- ===== src/Cleanup.antt =====
-- The cleanup that one worker at a time carries out, and the cleanup of a token's inboxes:
-- doCleanup, releaseCleanupLock and cleanupChatInboxes of backend/internal/service/bridge.go, and
-- doArtifactCleanup of bridge_cleanup.go. The renewal of the lock runs beside the cleanup: how often
-- it comes is an argument.
pub mod Effects
use astron_claw.Prelude.{
  ℕ, zero, suc, String, Bool, true, false, List, [], ◌∷◌, ltb, ◌==◌, if◌then◌else◌,
}
use Prim.Native.String.{◌++◌}
use astron_claw.Prelude.Int.{ℤ}
use astron_claw.Redis.{Redis, Reply, ok, nil, failed}
use astron_claw.Bridge.{Bridge, World}
use astron_claw.Alive.{cleanup_expired_bots}

abbrev pub cleanup_lock_key : String
cleanup_lock_key = "bridge:cleanup_lock"

unfoldable pub chat_inbox_index : String → String
chat_inbox_index token = "bridge:chat_inbox_idx:" ++ token

unfoldable pub bot_inbox_key : String → String
bot_inbox_key token = "bridge:bot_inbox:" ++ token

-- the reply of SETNX: 1 if the lock was set
unfoldable pub acquired : Reply ℕ → Bool
acquired (ok n) = n == 1
acquired nil = false
acquired (failed e) = false

module _ (R : Redis) where
  -- TrackChatInbox
  unfoldable pub track_chat_inbox : String → String → R.Server → R.Server
  track_chat_inbox token inbox s = (R.sadd (chat_inbox_index token) inbox s).1

  -- UntrackChatInbox
  unfoldable pub untrack_chat_inbox : String → String → R.Server → R.Server
  untrack_chat_inbox token inbox s = (R.srem (chat_inbox_index token) inbox s).1

  unfoldable pub delete_all : List String → R.Server → R.Server
  delete_all [] s = s
  delete_all (k ∷ ks) s = delete_all ks (R.del k s).1

  unfoldable pub delete_inboxes : String → Reply (List String) × R.Server → R.Server
  unfolding delete_all
  delete_inboxes token (ok keys, s) = (R.del (chat_inbox_index token) (delete_all keys s)).1
  delete_inboxes token (nil, s) = s
  delete_inboxes token (failed e, s) = s

  -- cleanupChatInboxes
  unfoldable pub cleanup_chat_inboxes : String → R.Server → R.Server
  unfolding delete_inboxes
  cleanup_chat_inboxes token s = delete_inboxes token (R.smembers (chat_inbox_index token) s)

  -- doArtifactCleanup; DeleteQueue is DEL
  unfoldable pub do_artifact_cleanup : String → R.Server → R.Server
  unfolding cleanup_chat_inboxes
  do_artifact_cleanup token s = cleanup_chat_inboxes token (R.del (bot_inbox_key token) s).1

  -- the renewals of renewCleanupLock that come before it is stopped, for two minutes each
  unfoldable pub renew_cleanup_lock : ℕ → String → R.Server → R.Server
  renew_cleanup_lock zero worker s = s
  renew_cleanup_lock (suc n) worker s =
      renew_cleanup_lock n worker (R.extend_lock cleanup_lock_key worker 120 s).1

  -- releaseCleanupLock
  unfoldable pub release_cleanup_lock : String → R.Server → R.Server
  release_cleanup_lock worker s = (R.release_lock cleanup_lock_key worker s).1

  -- doCleanup, with the number of renewals after the cleanup itself
  unfoldable pub do_cleanup : ℤ → ℕ → World R → World R
  unfolding renew_cleanup_lock release_cleanup_lock
  do_cleanup now renewals w =
      let worker = w.bridge.worker_id in
      let (reply, s) = R.set_nx cleanup_lock_key worker 120 w.server in
      let cleaned = cleanup_expired_bots R now (record w { server = s }) in
      let done : World R = record cleaned {
        server = release_cleanup_lock worker (renew_cleanup_lock renewals worker cleaned.server);
      } in
      if acquired reply then done else record w { server = s }
