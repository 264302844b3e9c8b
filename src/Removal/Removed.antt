-- ===== src/Removal/Removed.antt =====
-- What is left of a token after RemoveBotSessions, and what the worker does that is told of it.
use astron_claw.Prelude.{
  ℕ, String, ◌≡◌, refl, ap, ◌∙◌, Bool, true, false, ◌||◌, Option, none, some, List, [], ◌∷◌, ◌++◌,
  arith, ◌==◌, eq_refl, if◌then◌else◌,
}
use astron_claw.Prelude.Dict.{lookup}
use astron_claw.Keys.{bot_gen_key}
use astron_claw.Redis.{Redis}
use astron_claw.Redis.Laws.{View, RedisLaws}
use astron_claw.Bridge.{
  Bridge, World, CloseFrame, close, was_closed, forget, is_stale, unregister_bot, gen_or_zero,
  enqueue_artifact_cleanup, cleanup_shared_bot_state,
}
use astron_claw.Bridge.Shared.{Reachable, newer_gen, Cleared, cleanup-Cleared}
use astron_claw.Bridge.Unregister.{unregister_bot-bots, unregister_bot-Cleared}
use astron_claw.Reconcile.{get_bot_owner}
use astron_claw.Dispatch.{InboxMessage}
use astron_claw.Removal.{remove_here, remove_elsewhere, remove_bot, publish_to_route}

was_closed-append :
    (conn : ℕ) (fs : List CloseFrame) (f : CloseFrame)
    → was_closed conn (fs ++ f ∷ []) ≡ was_closed conn fs || (f.conn == conn)
unfolding was_closed
was_closed-append conn [] f = ground arith
was_closed-append conn (g ∷ fs) f = ground (arith, was_closed-append conn fs f)

pub was_closed-close :
    (conn code : ℕ) (reason : String) (fs : List CloseFrame)
    → was_closed conn (close conn code reason fs) ≡ true
unfolding close
was_closed-close conn code reason fs =
    ground (arith, was_closed-append conn fs (record { conn = conn; code = code; reason = reason }))

pub unregister_bot-closed :
    (R : Redis) (token : String) (w : World R)
    → (unregister_bot R token none w).bridge.closed ≡ w.bridge.closed
unfolding unregister_bot is_stale cleanup_shared_bot_state enqueue_artifact_cleanup forget
unregister_bot-closed R token w = ground arith

enqueue-bots : (token : String) (b : Bridge) → (enqueue_artifact_cleanup token b).bots ≡ b.bots
unfolding enqueue_artifact_cleanup
enqueue-bots token b = ground arith

pub not_stale : (current : Option ℕ) → is_stale none current ≡ false
unfolding is_stale
not_stale current = refl

abbrev closed_of : Option ℕ → List CloseFrame → Bool
closed_of none fs = true
closed_of (some conn) fs = was_closed conn fs

-- what is left at the worker that removes the token's bot, and in Redis
pub record Removed (R : Redis) (V : View R.Server) (token : String) (w w' : World R) : Type 0 where
  -- the worker holds no connection of the token, and has closed the one that it held
  pub gone : lookup token w'.bridge.bots ≡ none
  pub closed : closed_of (lookup token w.bridge.bots) w'.bridge.closed ≡ true
  -- Redis has no record of the token
  pub cleared : Cleared V w'.server token

-- a newer connection of the token is recorded than the one that this worker holds
abbrev pub superseded_at : (R : Redis) → View R.Server → String → Option ℕ → World R → Bool
superseded_at R V token none w = false
superseded_at R V token (some conn) w =
    newer_gen (V.text w.server (bot_gen_key token)) (gen_or_zero (lookup token w.bridge.gens))

module _ (encode : InboxMessage → String) (R : Redis) (V : View R.Server) (L : RedisLaws R V)
    (up : Reachable R) where
  pub remove_here-Removed :
      (token : String) (conn : ℕ) (w : World R)
      → lookup token w.bridge.bots ≡ some conn
      → newer_gen (V.text w.server (bot_gen_key token)) (gen_or_zero (lookup token w.bridge.gens))
        ≡ false
      → Removed R V token w (remove_here encode R token conn w)
  unfolding remove_here
  remove_here-Removed token conn w here old =
      let closed = close conn 4003 "Token deleted" w.bridge.closed in
      let w1 : World R = record w { bridge = record w.bridge { closed = closed } } in
      record {
        gone =
            unregister_bot-bots R token none w1 token (not_stale (lookup token w.bridge.bots))
            ∙ ap (λ b. if b then none else lookup token w.bridge.bots) (eq_refl token);
        closed =
            ap (λ o. closed_of o (unregister_bot R token none w1).bridge.closed) here
            ∙ ap (was_closed conn) (unregister_bot-closed R token w1)
            ∙ was_closed-close conn 4003 "Token deleted" w.bridge.closed;
        cleared =
            unregister_bot-Cleared R V L up token none w1 (not_stale (lookup token w.bridge.bots))
              old;
      }

  remove_elsewhere-Removed :
      (token : String) (w : World R)
      → lookup token w.bridge.bots ≡ none
      → Removed R V token w (remove_elsewhere encode R token w)
  unfolding remove_elsewhere cleanup_shared_bot_state
  remove_elsewhere-Removed token w away = record {
    gone = ap (lookup token) (enqueue-bots token w.bridge) ∙ away;
    closed = ap (λ o. closed_of o (enqueue_artifact_cleanup token w.bridge).closed) away;
    cleared =
        cleanup-Cleared R V L up token
          (record w { server = publish_to_route encode R token (get_bot_owner R token w.server) });
  }

  pub remove_bot-Removed :
      (token : String) (w : World R)
      → superseded_at R V token (lookup token w.bridge.bots) w ≡ false
      → Removed R V token w (remove_bot encode R token w)
  unfolding remove_bot
  remove_bot-Removed token w = split (lookup token w.bridge.bots) refl
    where
      split :
          (o : Option ℕ)
          → lookup token w.bridge.bots ≡ o
          → superseded_at R V token o w ≡ false
          → Removed R V token w (elim o as (λ x. World R) [
            | none ↦ remove_elsewhere encode R token w
            | some conn ↦ remove_here encode R token conn w
          ])
      split none e h = remove_elsewhere-Removed token w e
      split (some conn) e h = remove_here-Removed token conn w e h
