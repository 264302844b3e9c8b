-- ===== src/Worker/Kept.antt =====
-- What every operation but a registration does to the local state of a worker is put together from
-- a few changes: a relation that holds of those holds of the operations.
use astron_claw.Prelude.{
  ℕ, String, ◌≡◌, refl, sym, subst, true, Option, none, some, List, [], ◌∷◌, arith, str_eq, if_by,
  length, ◌==◌,
}
use astron_claw.Prelude.Int.{ℤ, ◌-ℤ◌}
use astron_claw.Prelude.Dict.{Dict, lookup}
use astron_claw.Keys.{bot_alive_key}
use astron_claw.Redis.{Redis, neg_inf, incl}
use astron_claw.Ring.{next_batch}
use astron_claw.Bridge.{
  Bridge, World, close, forget, evict_local, enqueue_artifact_cleanup, is_stale,
  cleanup_shared_bot_state, unregister_bot,
}
use astron_claw.Alive.{do_heartbeat, cleanup_expired_bots, drop_expired, expired, or_empty, bot_ttl}
use astron_claw.Cleanup.{
  do_cleanup, acquired, cleanup_lock_key, release_cleanup_lock, renew_cleanup_lock,
}
use astron_claw.Reconcile.{
  owner_moved, reconcile_gen, reconcile_token, reconcile_all, do_reconcile, get_bot_owner,
}
use astron_claw.Dispatch.{InboxMessage, Inbox, take_message}
use astron_claw.Dispatch.Acks.{write_to-bridge}
use astron_claw.Removal.{remove_here, remove_elsewhere, remove_bot}
use astron_claw.Shutdown.{shutdown_bot, shutdown_all, shutdown}

pub record Kept (P : Bridge → Bridge → Type 0) : Type 0 where
  pub refl_of : (b : Bridge) → P b b
  pub trans_of : (b c d : Bridge) → P b c → P c d → P b d
  -- frames that are sent, artifacts that are noted: the tables and the flag stay
  pub aside :
      (b c : Bridge)
      → c.bots ≡ b.bots
      → c.gens ≡ b.gens
      → c.ring ≡ b.ring
      → c.shutting_down ≡ b.shutting_down
      → P b c
  pub forgets : (token : String) (b : Bridge) → P b (forget token b)
  pub visits : (size : ℕ) (b : Bridge) → P b (record b { ring = (next_batch size b.ring).1 })
  pub closes : (b : Bridge) → P b (record b { shutting_down = true })

module _ (P : Bridge → Bridge → Type 0) (K : Kept P) where
  evict_local-Kept : (token : String) (b : Bridge) → P b (evict_local token b)
  unfolding evict_local
  evict_local-Kept token b =
      K.trans_of b (forget token b) (evict_local token b) (K.forgets token b)
        (K.aside (forget token b) (evict_local token b) refl refl refl refl)

  enqueue-Kept : (token : String) (b : Bridge) → P b (enqueue_artifact_cleanup token b)
  unfolding enqueue_artifact_cleanup
  enqueue-Kept token b =
      K.aside b (enqueue_artifact_cleanup token b) (ground arith) (ground arith) (ground arith)
        (ground arith)

  pub take_message-Kept :
      (m : Option InboxMessage) (i : Inbox) → P i.bridge (take_message m i).bridge
  unfolding take_message
  take_message-Kept none i = K.refl_of i.bridge
  take_message-Kept (some m) i =
      if_by (λ (x : Inbox). P i.bridge x.bridge) (str_eq m.token "") _ _ (λ e. K.refl_of i.bridge)
        (λ e.
          if_by (λ (x : Inbox). P i.bridge x.bridge) m.disconnect _ _
            (λ f. evict_local-Kept m.token i.bridge)
            (λ f.
              subst (P i.bridge) (sym (write_to-bridge (lookup m.token i.bridge.bots) m.request i))
                (K.refl_of i.bridge)))

  module _ (R : Redis) where
    pub unregister_bot-Kept :
        (token : String) (conn : Option ℕ) (w : World R)
        → P w.bridge (unregister_bot R token conn w).bridge
    unfolding unregister_bot cleanup_shared_bot_state
    unregister_bot-Kept token conn w =
        if_by (λ (x : World R). P w.bridge x.bridge) (is_stale conn (lookup token w.bridge.bots)) _
          _ (λ e. K.refl_of w.bridge)
          (λ e.
            if_by (λ (x : World R). P w.bridge x.bridge) _ _ _ (λ f. K.forgets token w.bridge)
              (λ f.
                K.trans_of w.bridge (forget token w.bridge) _ (K.forgets token w.bridge)
                  (enqueue-Kept token (forget token w.bridge))))

    pub do_heartbeat-Kept : (now : ℤ) (w : World R) → P w.bridge (do_heartbeat R now w).bridge
    unfolding do_heartbeat
    do_heartbeat-Kept now w =
        if_by (λ (x : World R). P w.bridge x.bridge) _ _ _ (λ e. K.refl_of w.bridge)
          (λ e. K.refl_of w.bridge)

    drop_expired-Kept :
        (tokens : List String) (w : World R) → P w.bridge (drop_expired R tokens w).bridge
    unfolding drop_expired
    drop_expired-Kept [] w = K.refl_of w.bridge
    drop_expired-Kept (tok ∷ toks) w =
        K.trans_of w.bridge (enqueue_artifact_cleanup tok w.bridge) _ (enqueue-Kept tok w.bridge)
          (drop_expired-Kept toks _)

    cleanup_expired_bots-Kept :
        (now : ℤ) (w : World R) → P w.bridge (cleanup_expired_bots R now w).bridge
    unfolding cleanup_expired_bots
    cleanup_expired_bots-Kept now w =
        let toks = or_empty (expired R now w.server).0 in
        let read : World R = record w { server = (expired R now w.server).1 } in
        let dropped = drop_expired R toks read in
        if_by (λ (x : World R). P w.bridge x.bridge) (length toks == 0) read
          (record dropped {
            server =
                (R.zrem_range_by_score bot_alive_key neg_inf (incl (now -ℤ bot_ttl))
                  dropped.server).1;
          })
          (λ e. K.refl_of w.bridge) (λ e. drop_expired-Kept toks read)

    pub do_cleanup-Kept : (now : ℤ) (n : ℕ) (w : World R) → P w.bridge (do_cleanup R now n w).bridge
    unfolding do_cleanup
    do_cleanup-Kept now n w =
        let (reply, s) = R.set_nx cleanup_lock_key w.bridge.worker_id 120 w.server in
        let cleaned = cleanup_expired_bots R now (record w { server = s }) in
        if_by (λ (x : World R). P w.bridge x.bridge) (acquired reply)
          (record cleaned {
            server =
                release_cleanup_lock R w.bridge.worker_id
                  (renew_cleanup_lock R n w.bridge.worker_id cleaned.server);
          })
          (record w { server = s }) (λ e. cleanup_expired_bots-Kept now (record w { server = s }))
          (λ e. K.refl_of w.bridge)

    reconcile_gen-Kept :
        (local : Option ℤ) (token : String) (w : World R)
        → P w.bridge (reconcile_gen R local token w).bridge
    unfolding reconcile_gen
    reconcile_gen-Kept none token w = K.refl_of w.bridge
    reconcile_gen-Kept (some local) token w =
        if_by (λ (x : World R). P w.bridge x.bridge) _ _ _ (λ e. evict_local-Kept token w.bridge)
          (λ e. K.refl_of w.bridge)

    reconcile_token-Kept :
        (token : String) (w : World R) → P w.bridge (reconcile_token R token w).bridge
    unfolding reconcile_token
    reconcile_token-Kept token w =
        let (owner, s) = get_bot_owner R token w.server in
        if_by (λ (x : World R). P w.bridge x.bridge) (owner_moved w.bridge.worker_id owner)
          (record { bridge = evict_local token w.bridge; server = s })
          (reconcile_gen R (lookup token w.bridge.gens) token (record w { server = s }))
          (λ e. evict_local-Kept token w.bridge)
          (λ e. reconcile_gen-Kept (lookup token w.bridge.gens) token (record w { server = s }))

    reconcile_all-Kept :
        (tokens : List String) (w : World R) → P w.bridge (reconcile_all R tokens w).bridge
    unfolding reconcile_all
    reconcile_all-Kept [] w = K.refl_of w.bridge
    reconcile_all-Kept (t ∷ ts) w =
        K.trans_of w.bridge (reconcile_token R t w).bridge _ (reconcile_token-Kept t w)
          (reconcile_all-Kept ts _)

    pub do_reconcile-Kept : (size : ℕ) (w : World R) → P w.bridge (do_reconcile R size w).bridge
    unfolding do_reconcile
    do_reconcile-Kept size w =
        K.trans_of w.bridge (record w.bridge { ring = (next_batch size w.bridge.ring).1 }) _
          (K.visits size w.bridge) (reconcile_all-Kept (next_batch size w.bridge.ring).0 _)

    pub remove_bot-Kept :
        (encode : InboxMessage → String) (token : String) (w : World R)
        → P w.bridge (remove_bot encode R token w).bridge
    unfolding remove_bot remove_here remove_elsewhere cleanup_shared_bot_state
    remove_bot-Kept encode token w =
        elim (lookup token w.bridge.bots)
          as (λ o.
            P w.bridge
              (elim o as (λ x. World R) [
                | none ↦ remove_elsewhere encode R token w
                | some c ↦ remove_here encode R token c w
              ]).bridge) [
                | none ↦ enqueue-Kept token w.bridge
                | some conn ↦
                    K.trans_of w.bridge
                      (record w.bridge { closed = close conn 4003 "Token deleted" w.bridge.closed })
                      _ (K.aside w.bridge _ refl refl refl refl) (unregister_bot-Kept token none _)
              ]

    shutdown_bot-Kept :
        (token : String) (conn : ℕ) (w : World R) → P w.bridge (shutdown_bot R token conn w).bridge
    unfolding shutdown_bot cleanup_shared_bot_state
    shutdown_bot-Kept token conn w =
        let b : Bridge = record w.bridge {
          closed = close conn 4000 "Server restarting" w.bridge.closed;
        } in
        let aside = K.aside w.bridge b refl refl refl refl in
        if_by (λ (x : World R). P w.bridge x.bridge) _ _ _ (λ e. aside)
          (λ e. K.trans_of w.bridge b _ aside (enqueue-Kept token b))

    shutdown_all-Kept : (bots : Dict ℕ) (w : World R) → P w.bridge (shutdown_all R bots w).bridge
    unfolding shutdown_all
    shutdown_all-Kept [] w = K.refl_of w.bridge
    shutdown_all-Kept ((token, conn) ∷ bots) w =
        K.trans_of w.bridge (shutdown_bot R token conn w).bridge _ (shutdown_bot-Kept token conn w)
          (shutdown_all-Kept bots _)

    pub shutdown-Kept : (w : World R) → P w.bridge (shutdown R w).bridge
    unfolding shutdown
    shutdown-Kept w =
        K.trans_of w.bridge (record w.bridge { shutting_down = true }) _ (K.closes w.bridge)
          (shutdown_all-Kept w.bridge.bots _)
