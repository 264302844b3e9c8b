-- ===== src/Worker.antt =====
-- A worker over time: the operations of ConnectionBridge, in any order and with any arguments, of
-- backend/internal/service/bridge.go and the files beside it, with what other workers do to the
-- shared server in between. A step is a whole operation, or a part of a reconciliation or of
-- a message of the inbox: these run without `regMu`, so that their evictions may overlap with others.
pub mod Kept
pub mod Quiet
pub mod Invariant
use astron_claw.Prelude.{Bool, false, ◌||◌, str_eq, ℕ, String, Option, []}
use astron_claw.Prelude.Int.{ℤ}
use astron_claw.Redis.{Redis}
use astron_claw.Bridge.{
  World, new_bridge, register_bot, unregister_bot, drop_conn, drop_gen, drop_place, close,
}
use astron_claw.Ring.{next_batch}
use astron_claw.Alive.{do_heartbeat}
use astron_claw.Cleanup.{do_cleanup}
use astron_claw.Reconcile.{do_reconcile}
use astron_claw.Dispatch.{InboxMessage, take_message}
use astron_claw.Removal.{remove_bot}
use astron_claw.Shutdown.{shutdown}

module _ (encode : InboxMessage → String) (R : Redis) where
  pub data Step : World R → World R → Type 0 where
    registers :
        (token : String) (conn : ℕ) (now : ℤ) (w : World R)
        → Step w (register_bot R token conn now w).1
    unregisters :
        (token : String) (conn : Option ℕ) (w : World R) → Step w (unregister_bot R token conn w)
    beats : (now : ℤ) (w : World R) → Step w (do_heartbeat R now w)
    cleans : (now : ℤ) (renewals : ℕ) (w : World R) → Step w (do_cleanup R now renewals w)
    reconciles : (size : ℕ) (w : World R) → Step w (do_reconcile R size w)
    -- a message of the worker's inbox, or an entry that is none
    receives :
        (m : Option InboxMessage) (w : World R)
        → Step w (record w {
          bridge = (take_message m (record { bridge = w.bridge; acked = []; written = [] })).bridge;
        })
    removes : (token : String) (w : World R) → Step w (remove_bot encode R token w)
    shuts_down : (w : World R) → Step w (shutdown R w)
    -- the parts of a reconciliation that others overlap with: the ring is read, and each deletion of
    -- an eviction is a step, as in an eviction by the inbox; then the connection is closed
    visits :
        (size : ℕ) (w : World R)
        → Step w
            (record w { bridge = record w.bridge { ring = (next_batch size w.bridge.ring).1 } })
    drops_conn :
        (token : String) (w : World R) → Step w (record w { bridge = drop_conn token w.bridge })
    drops_gen :
        (token : String) (w : World R) → Step w (record w { bridge = drop_gen token w.bridge })
    drops_place :
        (token : String) (w : World R) → Step w (record w { bridge = drop_place token w.bridge })
    closes :
        (conn : ℕ) (w : World R)
        → Step w (record w {
          bridge = record w.bridge {
            closed = close conn 4005 "Evicted by newer connection" w.bridge.closed;
          };
        })
    -- other workers, other parts of this one, and time
    others : (s : R.Server) (w : World R) → Step w (record w { server = s })

  pub data Steps : World R → World R → Type 0 where
    stop : (w : World R) → Steps w w
    next : {u v w : World R} → Steps u v → Step v w → Steps u w

  -- whether a part of an eviction of the token is among the steps
  unfoldable pub is_part : (v w : World R) → Step v w → String → Bool
  is_part v w (drops_conn token u) t = str_eq token t
  is_part v w (drops_gen token u) t = str_eq token t
  is_part v w (drops_place token u) t = str_eq token t
  is_part v w _ t = false

  unfoldable pub in_parts : (v w : World R) → Steps v w → String → Bool
  unfolding is_part
  in_parts v w (stop u) t = false
  in_parts v w (next {v = u} ss s) t = in_parts v u ss t || is_part u w s t

-- a worker as NewConnectionBridge makes it
abbrev pub started : (R : Redis) → String → R.Server → World R
started R worker s = record { bridge = new_bridge worker; server = s }
