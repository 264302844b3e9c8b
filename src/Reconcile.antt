-- ===== src/Reconcile.antt =====
-- doReconcile of backend/internal/service/bridge_reconcile.go, with GetBotOwner of
-- bridge_owner_store.go: a worker drops the bots that another worker has taken over.
pub mod Tables
pub mod Lost
use astron_claw.Prelude.{
  String, Bool, true, false, not, ◌&&◌, Option, none, some, List, [], ◌∷◌, ℕ, if◌then◌else◌, str_eq,
}
use astron_claw.Prelude.Int.{ℤ}
use astron_claw.Prelude.Dict.{lookup}
use astron_claw.Keys.{bot_gen_key, bot_owner_key}
use astron_claw.Redis.{Redis, Reply, ok, nil, failed}
use astron_claw.Ring.{next_batch}
use astron_claw.Bridge.{Bridge, World, evict_local, skip_on}

-- `err == nil && owner != "" && owner != b.workerID`
unfoldable pub owner_moved : String → Reply String → Bool
owner_moved me (ok owner) = not (str_eq owner "") && not (str_eq owner me)
owner_moved me nil = false
owner_moved me (failed e) = false

module _ (R : Redis) where
  -- GetBotOwner
  abbrev pub get_bot_owner : String → R.Server → Reply String × R.Server
  get_bot_owner token = R.get (bot_owner_key token)

  -- the comparison of generations, for a token that has a local one
  unfoldable pub reconcile_gen : Option ℤ → String → World R → World R
  reconcile_gen none token w = w
  reconcile_gen (some local) token w =
      let (raw, s) = R.get (bot_gen_key token) w.server in
      if skip_on local raw
      then record { bridge = evict_local token w.bridge; server = s }
      else record w { server = s }

  -- the body of the loop
  unfoldable pub reconcile_token : String → World R → World R
  unfolding reconcile_gen
  reconcile_token token w =
      let (owner, s) = get_bot_owner token w.server in
      let kept = reconcile_gen (lookup token w.bridge.gens) token (record w { server = s }) in
      if owner_moved w.bridge.worker_id owner
      then record { bridge = evict_local token w.bridge; server = s }
      else kept

  unfoldable pub reconcile_all : List String → World R → World R
  unfolding reconcile_token
  reconcile_all [] w = w
  reconcile_all (token ∷ tokens) w = reconcile_all tokens (reconcile_token token w)

  -- doReconcile, with the batch size
  unfoldable pub do_reconcile : ℕ → World R → World R
  do_reconcile size w =
      let (tokens, ring) = next_batch size w.bridge.ring in
      reconcile_all tokens (record w { bridge = record w.bridge { ring = ring } })
