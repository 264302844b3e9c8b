-- ===== src/Dispatch.antt =====
-- The way of a request from any worker to the bot: SendToBot and SendCancelToBot of
-- backend/internal/service/bridge.go, ResolveBotRoute of bridge_owner_store.go, and
-- PublishToWorkerInbox and runWorkerInboxConsumer of bridge_worker_inbox.go. `encode` and `decode`
-- stand for the JSON coding of a workerInboxMessage, `ensure_encoded_url` for the function of that
-- name, over net/url; the request's id and the trace context are arguments.
pub mod Delivery
pub mod Acks
use astron_claw.Prelude.{
  ℕ, String, Bool, true, false, not, ◌&&◌, Option, none, some, List, [], ◌∷◌, ◌++◌, ◌⊎◌, inl, inr,
  if◌then◌else◌, str_eq, map, length, ◌==◌,
}
use Prim.Native.String.{◌++◌ as ◌+++◌}
use astron_claw.Prelude.Dict.{lookup}
use astron_claw.Json.{Value, str, arr, obj, Items, no_items, item, Fields, end, field}
use astron_claw.Redis.{Redis, Reply, ok, nil, failed}
use astron_claw.Bridge.{Bridge, World, evict_local}
use astron_claw.Reconcile.{get_bot_owner}

-- workerInboxMessage; `none` for a nil request
pub record InboxMessage : Type 0 where
  pub token : String
  pub request : Option Value
  pub disconnect : Bool

abbrev pub worker_inbox_name : String → String
worker_inbox_name worker = "bridge:worker_inbox:" +++ worker

abbrev pub trace_key : String → String
trace_key session = "bridge:trace_ctx:" +++ session

pub data SendError : Type 0 where
  missing_session empty_content no_route publish_failed : SendError

abbrev pub content_item : String → String → Value
content_item kind content = obj (field "type" (str kind) (field "content" (str content) end))

unfoldable pub url_items : (String → String) → List String → Items
url_items ensure_encoded_url [] = no_items
url_items ensure_encoded_url (u ∷ us) =
    item (content_item "url" (ensure_encoded_url u)) (url_items ensure_encoded_url us)

-- contentItems
unfoldable pub content_items : (String → String) → String → List String → Items
unfolding url_items
content_items ensure_encoded_url message urls =
    let rest = url_items ensure_encoded_url urls in
    if str_eq message "" then rest else item (content_item "text" message) rest

abbrev pub is_empty : Items → Bool
is_empty no_items = true
is_empty (item v items) = false

abbrev pub prompt_request : String → String → Items → Value
prompt_request id session items = obj (
    field "jsonrpc" (str "2.0") (
      field "id" (str id) (
        field "method" (str "session/prompt") (
          field "params"
            (obj (
              field "sessionId" (str session)
                (field "prompt" (obj (field "content" (arr items) end)) end)))
            end))))

abbrev pub cancel_request : String → Value
cancel_request session = obj (
    field "jsonrpc" (str "2.0") (
      field "method" (str "session/cancel")
        (field "params" (obj (field "sessionId" (str session) end)) end)))

module _ (encode : InboxMessage → String) (R : Redis) where
  published : Reply String × R.Server → Option SendError × R.Server
  published (ok id, s) = (none, s)
  published (nil, s) = (some publish_failed, s)
  published (failed e, s) = (some publish_failed, s)

  -- PublishToWorkerInbox
  unfoldable pub publish_to_worker_inbox :
      String → String → Value → R.Server → Option SendError × R.Server
  unfolding published
  publish_to_worker_inbox worker token request s = published (
      R.xadd (worker_inbox_name worker)
        (encode (record { token = token; request = some request; disconnect = false })) s)

  -- PublishDisconnectToWorkerInbox
  unfoldable pub publish_disconnect_to_worker_inbox :
      String → String → R.Server → Option SendError × R.Server
  unfolding published
  publish_disconnect_to_worker_inbox worker token s = published (
      R.xadd (worker_inbox_name worker)
        (encode (record { token = token; request = none; disconnect = true })) s)

  route_cancel : Reply String × R.Server → String → String → Option SendError × R.Server
  unfolding publish_to_worker_inbox
  route_cancel (ok worker, s) token session =
      publish_to_worker_inbox worker token (cancel_request session) s
  route_cancel (nil, s) token session = (some no_route, s)
  route_cancel (failed e, s) token session = (some no_route, s)

  -- SendCancelToBot
  unfoldable pub send_cancel_to_bot : String → String → R.Server → Option SendError × R.Server
  unfolding route_cancel
  send_cancel_to_bot token session s = route_cancel (get_bot_owner R token s) token session

  -- from the route on: the trace context is stored for 600 seconds, then the request is published
  unfoldable pub route_prompt :
      String
      → String
      → String
      → Items
      → String
      → Reply String × R.Server
      → Option SendError × R.Server
  unfolding publish_to_worker_inbox
  route_prompt id carrier token items session (ok worker, s) =
      let s' = (R.set_ex (trace_key session) carrier 600 s).1 in
      publish_to_worker_inbox worker token (prompt_request id session items) s'
  route_prompt id carrier token items session (nil, s) = (some no_route, s)
  route_prompt id carrier token items session (failed e, s) = (some no_route, s)

  -- SendToBot
  unfoldable pub send_to_bot :
      (String → String)
      → String
      → String
      → String
      → String
      → List String
      → String
      → R.Server
      → Option SendError × R.Server
  unfolding content_items route_prompt
  send_to_bot ensure_encoded_url id carrier token message urls session s =
      let items = content_items ensure_encoded_url message urls in
      let out = route_prompt id carrier token items session (get_bot_owner R token s) in
      if str_eq session ""
      then (some missing_session, s)
      else if is_empty items
      then (some empty_content, s)
      else out

-- What one worker's consumers have done: the bridge, the entries acknowledged, and what was written
-- to which connection.
pub record Inbox : Type 0 where
  pub bridge : Bridge
  pub acked : List String
  pub written : List (ℕ × Value)

abbrev pub write_to : Option ℕ → Option Value → Inbox → Inbox
write_to (some conn) (some request) i = record i { written = i.written ++ (conn, request) ∷ [] }
write_to _ _ i = i

-- a message that was read and acknowledged
unfoldable pub take_message : Option InboxMessage → Inbox → Inbox
take_message none i = i
take_message (some m) i =
    if str_eq m.token ""
    then i
    else if m.disconnect
    then record i { bridge = evict_local m.token i.bridge }
    else write_to (lookup m.token i.bridge.bots) m.request i

-- what Queue.Consume returned: an entry has its id and its data
pub data Polled : Type 0 where
  poll_failed poll_empty : Polled
  entry : String → String → Polled

module _ (decode : String → Option InboxMessage) where
  -- one round of runWorkerInboxConsumer while the worker runs
  unfoldable pub inbox_step : Polled → Inbox → Inbox
  unfolding take_message
  inbox_step poll_failed i = i
  inbox_step poll_empty i = i
  inbox_step (entry id text) i =
      take_message (decode text) (record i { acked = i.acked ++ id ∷ [] })

  unfoldable pub inbox_run : List Polled → Inbox → Inbox
  unfolding inbox_step
  inbox_run [] i = i
  inbox_run (p ∷ ps) i = inbox_run ps (inbox_step p i)
