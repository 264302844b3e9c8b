-- ===== src/Monitor.antt =====
-- BotStatusMonitor of backend/internal/service/bot_status_monitor.go: the streams that wait for a
-- bot, and the notices that they get when it is gone. A connection stands for the address of its
-- SSEConnection; its channel DisconnectC, of capacity one, is full when it is in `notified`.
pub mod Notices
use astron_claw.Prelude.{
  ℕ, String, Bool, true, false, not, ◌&&◌, ◌||◌, Option, none, some, List, [], ◌∷◌, ◌++◌,
  if◌then◌else◌, str_eq, ◌==◌, length,
}
use astron_claw.Prelude.Int.{ℤ}
use astron_claw.Prelude.Dict.{Dict, lookup, insert, remove}
use astron_claw.Redis.{Redis, Reply}
use astron_claw.Redis.Laws.{elem}
use astron_claw.Alive.{gone_on, pipe_scores}

pub record SseConnection : Type 0 where
  pub token : String
  pub session_id : String
  pub address : ℕ

pub record Monitor : Type 0 where
  pub connections : Dict SseConnection
  pub notified : List ℕ

-- RegisterSSEConnection, with the address of the new connection
unfoldable pub register_sse : String → String → String → ℕ → Monitor → Monitor
register_sse token session inbox address m = record m {
  connections =
      insert inbox (record { token = token; session_id = session; address = address })
        m.connections;
}

-- UnregisterSSEConnection
unfoldable pub unregister_sse : String → Monitor → Monitor
unregister_sse inbox m = record m { connections = remove inbox m.connections }

-- GetSSEConnection
abbrev pub get_sse : String → Monitor → Option SseConnection
get_sse inbox m = lookup inbox m.connections

unfoldable pub is_notified : ℕ → List ℕ → Bool
is_notified a [] = false
is_notified a (b ∷ bs) = (b == a) || is_notified a bs

-- the send that does not block
unfoldable pub push : ℕ → List ℕ → List ℕ
push a bs = if is_notified a bs then bs else a ∷ bs

-- the loop of notifyBotDisconnected
unfoldable pub notify_all : String → Dict SseConnection → List ℕ → List ℕ
unfolding push
notify_all token [] bs = bs
notify_all token ((inbox, conn) ∷ conns) bs =
    notify_all token conns (if str_eq conn.token token then push conn.address bs else bs)

-- notifyBotDisconnected
unfoldable pub notify_bot_disconnected : String → Monitor → Monitor
unfolding notify_all
notify_bot_disconnected token m = record m { notified = notify_all token m.connections m.notified }

-- the tokens of the connections, each once
unfoldable pub unique_tokens : Dict SseConnection → List String
unique_tokens [] = []
unique_tokens ((inbox, conn) ∷ conns) =
    let rest = unique_tokens conns in if elem conn.token rest then rest else conn.token ∷ rest

-- the loop over the replies in checkAllBots
unfoldable pub notify_gone : ℤ → List (String × Reply ℤ) → Monitor → Monitor
unfolding notify_bot_disconnected
notify_gone now [] m = m
notify_gone now ((token, reply) ∷ replies) m =
    notify_gone now replies (if gone_on now reply then notify_bot_disconnected token m else m)

module _ (R : Redis) where
  -- checkAllBots
  unfoldable pub check_all_bots : ℤ → Monitor → R.Server → Monitor × R.Server
  unfolding notify_gone
  check_all_bots now m s =
      let (replies, s') = pipe_scores R (unique_tokens m.connections) s in
      if length (unique_tokens m.connections) == 0 then (m, s) else (notify_gone now replies m, s')
