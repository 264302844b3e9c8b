-- ===== src/Bridge.antt =====
-- ConnectionBridge of backend/internal/service/bridge.go: the local state of one worker and the
-- operations that register and remove bots. An operation is one step. The code holds `regMu` over
-- RegisterBot and over the local part of UnregisterBot, which gives it back before it reads and
-- cleans Redis; the model takes the two halves together. Logs and traces are left out, and so NotifyBotConnected and
-- NotifyBotDisconnected, which only log. Time is an argument, in seconds.
pub mod Local
pub mod Shared
pub mod Register
pub mod Unregister
pub mod Handover
pub mod Overlap
use astron_claw.Prelude.{
  ℕ, ◌+◌, String, Bool, true, false, not, ◌&&◌, ◌||◌, Option, none, some, List, [], ◌∷◌, ◌++◌, ltb,
  ◌==◌, if◌then◌else◌, length, str_eq,
}
use astron_claw.Prelude.Int.{ℤ, pos, ltb_ℤ}
use astron_claw.Prelude.Dict.{Dict, lookup, insert, remove}
use astron_claw.Keys.{bot_alive_key, bot_gen_key, bot_owner_key}
use astron_claw.ParseInt.{parse_int}
use astron_claw.Redis.{Redis, Reply, ok, nil, failed}
use astron_claw.Ring
use astron_claw.Ring.{Ring}

-- A close frame that was sent: the connection, the code and the reason.
pub record CloseFrame : Type 0 where
  pub conn : ℕ
  pub code : ℕ
  pub reason : String

-- A connection stands for the address of its BotConn.
pub record Bridge : Type 0 where
  pub worker_id : String
  pub bots : Dict ℕ
  pub gens : Dict ℤ
  pub ring : Ring
  pub shutting_down : Bool
  pub closed : List CloseFrame
  -- the channel artifactCleanupCh, and the tokens handed to goroutines when it was full
  pub artifact_ch : List String
  pub artifact_spawned : List String

pub record World (R : Redis) : Type 0 where
  pub bridge : Bridge
  pub server : R.Server

-- NewConnectionBridge
abbrev pub new_bridge : String → Bridge
new_bridge worker = record {
  worker_id = worker;
  bots = [];
  gens = [];
  ring = Ring.empty;
  shutting_down = false;
  closed = [];
  artifact_ch = [];
  artifact_spawned = [];
}

abbrev pub artifact_ch_cap : ℕ
artifact_ch_cap = 2048

unfoldable pub was_closed : ℕ → List CloseFrame → Bool
was_closed conn [] = false
was_closed conn (f ∷ fs) = f.conn == conn || was_closed conn fs

-- BotConn.Close: `closed.Do` runs once for a connection.
unfoldable pub close : ℕ → ℕ → String → List CloseFrame → List CloseFrame
close conn code reason fs =
    if was_closed conn fs
    then fs
    else fs ++ record { conn = conn; code = code; reason = reason } ∷ []

close_loaded : Option ℕ → ℕ → String → List CloseFrame → List CloseFrame
close_loaded none code reason fs = fs
close_loaded (some conn) code reason fs = close conn code reason fs

-- enqueueArtifactCleanup
unfoldable pub enqueue_artifact_cleanup : String → Bridge → Bridge
enqueue_artifact_cleanup token b =
    if ltb (length b.artifact_ch) artifact_ch_cap
    then record b { artifact_ch = b.artifact_ch ++ token ∷ [] }
    else record b { artifact_spawned = b.artifact_spawned ++ token ∷ [] }

-- the three local deletions of evictLocal and UnregisterBot
abbrev pub drop_conn : String → Bridge → Bridge
drop_conn token b = record b { bots = remove token b.bots }

abbrev pub drop_gen : String → Bridge → Bridge
drop_gen token b = record b { gens = remove token b.gens }

abbrev pub drop_place : String → Bridge → Bridge
drop_place token b = record b { ring = Ring.untrack token b.ring }

unfoldable pub forget : String → Bridge → Bridge
forget token b = drop_place token (drop_gen token (drop_conn token b))

-- evictLocal, with model.ErrWSEvicted, where nothing comes between its deletions. RegisterBot calls it
-- under `regMu`; reconciliation and the worker inbox call it without that lock: Overlap is about
-- a registration that comes in between, and Worker has the deletions as steps of their own.
unfoldable pub evict_local : String → Bridge → Bridge
unfolding close_loaded forget
evict_local token b =
    let f = forget token b in
    record f {
      closed = close_loaded (lookup token b.bots) 4005 "Evicted by newer connection" b.closed;
    }

-- the same-worker eviction of RegisterBot
unfoldable pub evict_if_loaded : String → Bridge → Bridge
evict_if_loaded token b = elim (lookup token b.bots) [ none ↦ b | some conn ↦ evict_local token b ]

-- the local stores at the end of RegisterBot
unfoldable pub store_local : String → ℕ → ℤ → Bridge → Bridge
store_local token conn gen b = record b {
  bots = insert token conn b.bots;
  gens = insert token gen b.gens;
  ring = Ring.track token b.ring;
}

pub data RegisterError : Type 0 where
  shutting_down claim_generation set_owner : RegisterError

abbrev pub is_ok : {A : Type 0} → Reply A → Bool
is_ok (ok a) = true
is_ok nil = false
is_ok (failed e) = false

-- the local generation, 0 if none is stored
abbrev pub gen_or_zero : Option ℤ → ℤ
gen_or_zero none = pos 0
gen_or_zero (some g) = g

-- `remoteGen > localGen`, false where the remote one is missing or no int64
abbrev pub newer_than : ℤ → Option ℤ → Bool
newer_than local none = false
newer_than local (some remote) = ltb_ℤ local remote

unfoldable pub skip_on : ℤ → Reply String → Bool
skip_on local (ok raw) = newer_than local (parse_int raw)
skip_on local nil = false
skip_on local (failed e) = false

-- the same-worker guard: a connection is named, one is stored, and they differ
unfoldable pub is_stale : Option ℕ → Option ℕ → Bool
is_stale (some conn) (some current) = not (current == conn)
is_stale none current = false
is_stale (some conn) none = false

module _ (R : Redis) where
  -- SetBotOwner
  abbrev pub set_bot_owner : String → String → R.Server → Reply Unit × R.Server
  set_bot_owner token worker = R.set (bot_owner_key token) worker

  unfoldable pub register_claimed :
      String → ℕ → ℤ → Bridge → ℤ → R.Server → Option RegisterError × World R
  register_claimed token conn now b gen s =
      let s' = (R.zadd bot_alive_key ((token, now) ∷ []) s).1 in
      let (owner, t) = set_bot_owner token b.worker_id s' in
      if is_ok owner
      then (none, record { bridge = store_local token conn gen b; server = t })
      else (some set_owner, record { bridge = b; server = t })

  unfoldable pub claim_then :
      String → ℕ → ℤ → Bridge → Reply ℤ × R.Server → Option RegisterError × World R
  claim_then token conn now b (ok gen, s) = register_claimed token conn now b gen s
  claim_then token conn now b (nil, s) = (some claim_generation, record { bridge = b; server = s })
  claim_then token conn now b (failed e, s) =
      (some claim_generation, record { bridge = b; server = s })

  -- RegisterBot
  unfoldable pub register_bot : String → ℕ → ℤ → World R → Option RegisterError × World R
  unfolding claim_then register_claimed
  register_bot token conn now w =
      let claimed =
        claim_then token conn now (evict_if_loaded token w.bridge)
          (R.incr (bot_gen_key token) w.server) in
      if w.bridge.shutting_down then (some shutting_down, w) else claimed

  -- shouldSkipSharedCleanup
  unfoldable pub should_skip_shared_cleanup : String → ℤ → R.Server → Bool × R.Server
  should_skip_shared_cleanup token local s =
      let (raw, s') = R.get (bot_gen_key token) s in (skip_on local raw, s')

  unfoldable pub delete_gen : Bool → String → R.Server → R.Server
  delete_gen true token s = (R.del (bot_gen_key token) s).1
  delete_gen false token s = s

  -- cleanupSharedBotState
  unfoldable pub cleanup_shared_bot_state : String → Bool → World R → World R
  unfolding delete_gen
  cleanup_shared_bot_state token with_gen w =
      let s1 = (R.zrem bot_alive_key token w.server).1 in
      let s2 = (R.del (bot_owner_key token) s1).1 in
      record {
        bridge = enqueue_artifact_cleanup token w.bridge;
        server = delete_gen with_gen token s2;
      }

  -- UnregisterBot; `none` for a nil connection
  unfoldable pub unregister_bot : String → Option ℕ → World R → World R
  unregister_bot token conn w =
      let local = gen_or_zero (lookup token w.bridge.gens) in
      let b = forget token w.bridge in
      let (skip, s) = should_skip_shared_cleanup token local w.server in
      let w' : World R = record { bridge = b; server = s } in
      if is_stale conn (lookup token w.bridge.bots)
      then w
      else if skip
      then w'
      else cleanup_shared_bot_state token true w'
