-- ===== src/Messages.antt =====
-- HandleBotMessage and sendToSession of backend/internal/service/bridge.go: what a message of a bot
-- causes. The message is given as json.Unmarshal leaves it, `none` for an error; `marshal` stands
-- for json.Marshal, of a value within an event and of a whole event. The trace context that is read
-- from Redis is left out: it reaches only spans.
pub mod Routing
pub mod Delivery
use astron_claw.Prelude.{
  ℕ, String, Bool, true, false, not, ◌&&◌, ◌||◌, Option, none, some, List, [], ◌∷◌, ◌++◌, ltb,
  if◌then◌else◌, str_eq,
}
use astron_claw.Prelude.Dict.{Dict, lookup}
use astron_claw.Json.{Value, str, obj, Fields, get, get_in, as_string, as_map}
use astron_claw.Event.{translate_bot_event, text_event, nested_string, or_default}
use astron_claw.Redis.{Redis, Reply, ok, nil, failed}
use astron_claw.Bridge.{Bridge, World}
use astron_claw.Chat.{inbox_key}

-- A "pong" to a connection, or an event for a session.
pub data Action : Type 0 where
  pong : ℕ → Action
  deliver : String → Fields → Action

-- sent unless the session id is empty
unfoldable pub to_session : String → Fields → List Action
to_session session event = if str_eq session "" then [] else deliver session event ∷ []

unfoldable pub answer_ping : Option ℕ → List Action
answer_ping none = []
answer_ping (some conn) = pong conn ∷ []

-- the message of a JSON-RPC error
unfoldable pub error_message : Option Fields → String
error_message err = elim (get_in err "message") [ some (str m) ↦ m | _ ↦ "Unknown error from bot" ]

-- the session of a JSON-RPC error: in its data, or beside it
unfoldable pub error_session : Option Fields → Fields → String
error_session err msg =
    or_default (as_string (get_in (as_map (get_in err "data")) "sessionId"))
      (as_string (get "sessionId" msg))

unfoldable pub on_error : Option Value → Fields → List Action
unfolding to_session error_message error_session
on_error none msg = []
on_error (some e) msg =
    let err = as_map (some e) in
    to_session (error_session err msg) (text_event "error" (error_message err))

abbrev pub is_there : Option Value → Bool
is_there none = false
is_there (some v) = true

-- the part on results and errors
unfoldable pub on_reply : Fields → List Action
unfolding on_error
on_reply msg =
    let actions = on_error (get "error" msg) msg in
    if is_there (get "id" msg) && not (is_there (get "result" msg)) then actions else []

unfoldable pub on_event : Option Fields → String → List Action
unfolding to_session
on_event none session = []
on_event (some event) session = to_session session event

module _ (marshal : Value → String) where
  -- the part on notifications
  unfoldable pub on_notification : String → Option Fields → List Action
  unfolding on_event
  on_notification method params =
      let actions =
        on_event (translate_bot_event marshal method params) (nested_string params "sessionId") in
      if str_eq method "" then [] else actions

  unfoldable pub on_message : Dict ℕ → String → Fields → List Action
  unfolding on_notification on_reply answer_ping
  on_message bots token msg =
      let actions =
        on_notification (as_string (get "method" msg)) (as_map (get "params" msg))
        ++ on_reply msg in
      if str_eq (as_string (get "type" msg)) "ping"
      then answer_ping (lookup token bots)
      else actions

  -- what HandleBotMessage does, in order
  unfoldable pub actions_of : Dict ℕ → String → Option Fields → List Action
  actions_of bots token none = []
  actions_of bots token (some msg) = on_message bots token msg

  module _ (R : Redis) where
    abbrev pub exists_on : Reply ℕ → Bool
    exists_on (ok n) = ltb 0 n
    exists_on nil = false
    exists_on (failed e) = false

    -- sendToSession, on the server
    unfoldable pub send_to_session : Bool → String → String → Fields → R.Server → R.Server
    send_to_session shutting_down token session event s =
        let inbox = inbox_key token session in
        let (reply, s') = R.exists inbox s in
        let (id, s'') = R.xadd inbox (marshal (obj event)) s' in
        if shutting_down then s else if exists_on reply then s'' else s'

    unfoldable pub perform : Bool → String → List Action → R.Server → R.Server
    unfolding send_to_session
    perform shutting_down token [] s = s
    perform shutting_down token (pong conn ∷ actions) s = perform shutting_down token actions s
    perform shutting_down token (deliver session event ∷ actions) s =
        perform shutting_down token actions (send_to_session shutting_down token session event s)

    -- HandleBotMessage
    unfoldable pub handle_bot_message : String → Option Fields → World R → World R
    unfolding perform actions_of
    handle_bot_message token raw w = record w {
      server = perform w.bridge.shutting_down token (actions_of w.bridge.bots token raw) w.server;
    }
