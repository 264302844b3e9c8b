-- ===== src/Shutdown.antt =====
-- ConnectionBridge.Shutdown of backend/internal/service/bridge.go. The order in which Range visits
-- the bots is that of the association list.
use astron_claw.Prelude.{ℕ, String, ◌≡◌, refl, ◌∙◌, true, [], ◌∷◌, some, if◌then◌else◌, arith}
use astron_claw.Prelude.Int.{ℤ}
use astron_claw.Prelude.Dict.{Dict, lookup}
use astron_claw.Redis.{Redis}
use astron_claw.Bridge.{
  Bridge, World, close, gen_or_zero, should_skip_shared_cleanup, cleanup_shared_bot_state,
  register_bot, shutting_down, enqueue_artifact_cleanup,
}
use astron_claw.Bridge.Register.{register_bot-shutting_down}

module _ (R : Redis) where
  -- the function that Range calls, with model.ErrWSServerRestart
  unfoldable pub shutdown_bot : String → ℕ → World R → World R
  shutdown_bot token conn w =
      let local = gen_or_zero (lookup token w.bridge.gens) in
      let b : Bridge = record w.bridge {
        closed = close conn 4000 "Server restarting" w.bridge.closed;
      } in
      let (skip, s) = should_skip_shared_cleanup R token local w.server in
      let w' : World R = record { bridge = b; server = s } in
      if skip then w' else cleanup_shared_bot_state R token true w'

  unfoldable pub shutdown_all : Dict ℕ → World R → World R
  unfolding shutdown_bot
  shutdown_all [] w = w
  shutdown_all ((token, conn) ∷ bots) w = shutdown_all bots (shutdown_bot token conn w)

  -- Shutdown
  unfoldable pub shutdown : World R → World R
  unfolding shutdown_all
  shutdown w =
      shutdown_all w.bridge.bots (record w { bridge = record w.bridge { shutting_down = true } })

  enqueue-shutting_down :
      (token : String) (b : Bridge)
      → (enqueue_artifact_cleanup token b).shutting_down ≡ b.shutting_down
  unfolding enqueue_artifact_cleanup
  enqueue-shutting_down token b = ground arith

  shutdown_bot-shutting_down :
      (token : String) (conn : ℕ) (w : World R)
      → (shutdown_bot token conn w).bridge.shutting_down ≡ w.bridge.shutting_down
  unfolding shutdown_bot cleanup_shared_bot_state
  shutdown_bot-shutting_down token conn w =
      let b : Bridge = record w.bridge {
        closed = close conn 4000 "Server restarting" w.bridge.closed;
      } in
      ground (arith, enqueue-shutting_down token b)

  shutdown_all-shutting_down :
      (bots : Dict ℕ) (w : World R)
      → (shutdown_all bots w).bridge.shutting_down ≡ w.bridge.shutting_down
  unfolding shutdown_all
  shutdown_all-shutting_down [] w = refl
  shutdown_all-shutting_down ((token, conn) ∷ bots) w =
      shutdown_all-shutting_down bots (shutdown_bot token conn w)
      ∙ shutdown_bot-shutting_down token conn w

  pub shutdown-shutting_down : (w : World R) → (shutdown w).bridge.shutting_down ≡ true
  unfolding shutdown
  shutdown-shutting_down w = shutdown_all-shutting_down w.bridge.bots _

  -- Once a worker has shut down, it refuses every registration, and the refusal changes nothing.
  pub shutdown-register_bot :
      (w : World R) (token : String) (conn : ℕ) (now : ℤ)
      → register_bot R token conn now (shutdown w) ≡ (some shutting_down, shutdown w)
  unfolding shutdown
  shutdown-register_bot w token conn now =
      register_bot-shutting_down R token conn now (shutdown w)
        (shutdown_all-shutting_down w.bridge.bots _)
