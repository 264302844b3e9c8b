-- ===== src/Alive.antt =====
-- Who is alive: the heartbeat of bridge.go, its expiry and the readers of the sorted set
-- `bridge:bot_alive` in bridge.go, token_manager.go and bot_status_monitor.go. Scores are Unix
-- seconds, which float64 holds exactly: integers here. Times are arguments.
pub mod Checks
pub mod Expiry
use astron_claw.Prelude.{
  ℕ, String, Bool, true, false, not, ◌&&◌, ◌||◌, Option, none, some, List, [], ◌∷◌, ◌++◌, map,
  if◌then◌else◌, length, ◌==◌,
}
use astron_claw.Prelude.Int.{ℤ, pos, ◌-ℤ◌, ltb_ℤ}
use astron_claw.Prelude.Dict.{Dict}
use astron_claw.Keys.{bot_alive_key, bot_gen_key, bot_owner_key}
use astron_claw.Redis.{Redis, Reply, ok, nil, failed, Bound, neg_inf, pos_inf, incl, excl}
use astron_claw.Bridge.{Bridge, World, enqueue_artifact_cleanup}

-- BotTTL, botTTL and the literals of token_manager.go
abbrev pub bot_ttl : ℤ
bot_ttl = pos 30

abbrev pub or_empty : Reply (List String) → List String
or_empty (ok l) = l
or_empty nil = []
or_empty (failed e) = []

-- the members of doHeartbeat
unfoldable pub heartbeat_members : ℤ → Dict ℕ → List (String × ℤ)
heartbeat_members now [] = []
heartbeat_members now ((token, conn) ∷ bots) = (token, now) ∷ heartbeat_members now bots

-- the answer of IsBotConnected
unfoldable pub connected_on : ℤ → Reply ℤ → Bool
connected_on now (ok score) = ltb_ℤ (now -ℤ score) bot_ttl
connected_on now nil = false
connected_on now (failed e) = false

-- the test of BulkCheckBotOnline
unfoldable pub online_on : ℤ → Reply ℤ → Bool
online_on now (ok score) = ltb_ℤ (now -ℤ bot_ttl) score
online_on now nil = false
online_on now (failed e) = false

-- Whether checkAllBots takes a bot for gone: it is not in the set, or its heartbeat timed out. A
-- Redis error is skipped.
unfoldable pub gone_on : ℤ → Reply ℤ → Bool
gone_on now nil = true
gone_on now (failed e) = false
gone_on now (ok score) = not (ltb_ℤ (now -ℤ score) bot_ttl)

module _ (R : Redis) where
  -- doHeartbeat
  unfoldable pub do_heartbeat : ℤ → World R → World R
  do_heartbeat now w = if length (heartbeat_members now w.bridge.bots) == 0 then w else record w {
    server = (R.zadd bot_alive_key (heartbeat_members now w.bridge.bots) w.server).1;
  }

  -- the loop of cleanupExpiredBots
  unfoldable pub drop_expired : List String → World R → World R
  drop_expired [] w = w
  drop_expired (tok ∷ toks) w =
      let s = (R.del (bot_owner_key tok) w.server).1 in
      drop_expired toks (record {
        bridge = enqueue_artifact_cleanup tok w.bridge;
        server = (R.del (bot_gen_key tok) s).1;
      })

  -- the list that cleanupExpiredBots reads
  abbrev pub expired : ℤ → R.Server → Reply (List String) × R.Server
  expired now = R.zrange_by_score bot_alive_key neg_inf (incl (now -ℤ bot_ttl))

  -- cleanupExpiredBots
  unfoldable pub cleanup_expired_bots : ℤ → World R → World R
  cleanup_expired_bots now w =
      let (reply, s) = expired now w.server in
      let toks = or_empty reply in
      let w' = drop_expired toks (record w { server = s }) in
      if length toks == 0 then record w { server = s } else record w' {
        server = (R.zrem_range_by_score bot_alive_key neg_inf (incl (now -ℤ bot_ttl)) w'.server).1;
      }

  -- IsBotConnected
  unfoldable pub is_bot_connected : String → ℤ → R.Server → Bool × R.Server
  is_bot_connected token now s =
      let (reply, s') = R.zscore bot_alive_key token s in (connected_on now reply, s')

  -- GetConnectionsSummary: the tokens that the returned map sends to `true`
  unfoldable pub get_connections_summary : ℤ → R.Server → List String × R.Server
  get_connections_summary now s =
      let (reply, s') = R.zrange_by_score bot_alive_key (excl (now -ℤ bot_ttl)) pos_inf s in
      (or_empty reply, s')

  -- the pipeline of ZSCORE commands in BulkCheckBotOnline and checkAllBots
  unfoldable pub pipe_scores : List String → R.Server → List (String × Reply ℤ) × R.Server
  pipe_scores [] s = ([], s)
  pipe_scores (t ∷ ts) s =
      let (reply, s') = R.zscore bot_alive_key t s in
      let (replies, s'') = pipe_scores ts s' in ((t, reply) ∷ replies, s'')

  -- the loop over the commands in BulkCheckBotOnline
  unfoldable pub online_tokens : ℤ → List (String × Reply ℤ) → List String
  online_tokens now [] = []
  online_tokens now ((t, reply) ∷ replies) =
      let rest = online_tokens now replies in if online_on now reply then t ∷ rest else rest

  -- BulkCheckBotOnline: the tokens that the returned map sends to `true`
  unfoldable pub bulk_check_bot_online : ℤ → List String → R.Server → List String × R.Server
  bulk_check_bot_online now tokens s =
      let (replies, s') = pipe_scores tokens s in (online_tokens now replies, s')
