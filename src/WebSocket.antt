-- ===== src/WebSocket.antt =====
-- wsBot of backend/internal/router/websocket.go: the life of a bot's connection, from the check of
-- its token to the removal of its entries. What other handlers and loops do to the worker and to
-- Redis while the connection waits for its next message is an argument. Logs and traces are left
-- out.
pub mod Gone
pub mod Ended
use astron_claw.Prelude.{
  ℕ, String, Bool, not, Option, none, some, List, [], ◌∷◌, if◌then◌else◌, str_eq,
}
use astron_claw.Prelude.Int.{ℤ}
use astron_claw.Json.{Value, Fields}
use astron_claw.Redis.{Redis}
use astron_claw.Tokens.{TokenTable, validate}
use astron_claw.Bridge.{World, RegisterError, register_bot, unregister_bot}
use astron_claw.Messages.{handle_bot_message}

-- How a connection ends. The close message has model.ErrWSInvalidToken.
pub data BotEnd : Type 0 where
  upgrade_failed : BotEnd
  invalid_token : ℕ → String → BotEnd
  not_registered : RegisterError → BotEnd
  disconnected : BotEnd

-- the token of the query, or of the header
abbrev pub or_header : String → String → String
or_header query header = if str_eq query "" then header else query

-- A message that ReadMessage returns, as json.Unmarshal leaves it, and what happened before.
pub record Read (R : Redis) : Type 0 where
  pub meanwhile : World R → World R
  pub message : Option Fields

module _ (marshal : Value → String) (R : Redis) where
  -- the loop over the messages; at the error of a read the deferred UnregisterBot runs
  unfoldable pub serve : String → ℕ → List (Read R) → (World R → World R) → World R → World R
  serve token conn [] last w = unregister_bot R token (some conn) (last w)
  serve token conn (r ∷ rs) last w =
      serve token conn rs last (handle_bot_message marshal R token r.message (r.meanwhile w))

  unfoldable pub on_registered :
      String
      → ℕ
      → List (Read R)
      → (World R → World R)
      → Option RegisterError × World R
      → BotEnd × World R
  on_registered token conn reads last (some e, w) = (not_registered e, w)
  on_registered token conn reads last (none, w) = (disconnected, serve token conn reads last w)

  -- wsBot, whose upgrade succeeds or fails; the times are those of Validate and of RegisterBot
  unfoldable pub ws_bot :
      (T : TokenTable)
      → T.State
      → String
      → String
      → Bool
      → ℕ
      → ℤ
      → ℤ
      → List (Read R)
      → (World R → World R)
      → World R
      → BotEnd × World R
  ws_bot T tokens query header upgraded conn now seconds reads last w =
      let token = or_header query header in
      let served = on_registered token conn reads last (register_bot R token conn seconds w) in
      let rejected : BotEnd =
        if upgraded then invalid_token 4001 "Invalid or missing bot token" else upgrade_failed in
      if not (validate T token now tokens)
      then (rejected, w)
      else if not upgraded
      then (upgrade_failed, w)
      else served
