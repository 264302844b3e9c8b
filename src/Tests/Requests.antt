-- ===== src/Tests/Requests.antt =====
-- The witnesses on requests: the checks, the way to the bot and back.
use astron_claw.Prelude.{
  false, String, ◌≡◌, ◌≢◌, refl, Bool, true, ◌&&◌, ◌||◌, Option, none, some, List, [], ◌∷◌, ◌++◌,
  inl, inr, str_eq, eq_iff, if◌then◌else◌,
}
use astron_claw.Prelude.Int.{pos}
use astron_claw.Json.{Value, str, num, obj, Fields, end, field, get}
use astron_claw.Event.{translate_bot_event, translate_params, translate_update}
use astron_claw.Redis.{ok}
use astron_claw.Redis.Memory.{memory, view, empty}
use astron_claw.Redis.Memory.Lawful.{memory_laws}
use astron_claw.Bridge.{World, register_bot}
use astron_claw.Bridge.Register.{register_bot-Registered}
use astron_claw.Chat.{
  MediaItem, ChatRequest, Answers, empty_message, chat, check_body, with_urls, dispatch_to,
  media_urls, check_empty, resolve_session, after_send, named_session, is_web_url,
}
use astron_claw.Chat.Refusals.{Streams, chat-Streams, is_early}
use astron_claw.Messages.{
  actions_of, on_message, on_reply, on_error, on_notification, error_session, error_message,
  to_session,
}
use astron_claw.Messages.Routing.{has_kind}
use astron_claw.Reconcile.{reconcile_token, get_bot_owner}
use astron_claw.Reconcile.Lost.{moved_to, outrun, reconcile_token-bots}
use astron_claw.Dispatch.{InboxMessage, Inbox, Polled, entry, poll_empty, inbox_step}
use astron_claw.Dispatch.Delivery.{request_message, registered-delivery}
use astron_claw.Monitor.{
  Monitor, register_sse, unregister_sse, get_sse, is_notified, notify_bot_disconnected,
}
use astron_claw.Monitor.Notices.{unregister_sse-superseded, waits}
use astron_claw.Keys.{bot_gen_key, bot_owner_key}
use astron_claw.Prelude.Dict.{lookup, insert}
use astron_claw.Tests.Common.{memory-Reachable, first, joined, moved, registering}

abbrev picture : MediaItem
picture = record { kind = "url"; content = "https://a/b" }

abbrev request : ChatRequest
request = record { content = "hi"; session_id = none; media = picture ∷ [] }

abbrev answers : Bool → Answers
answers up = record {
  connected = up;
  get_session = λ id. none;
  create_session = some ("s1", pos 1);
  sent = some "req_1";
  flusher = true;
}

abbrev silent : ChatRequest
silent = record { content = ""; session_id = none; media = [] }

is_refused : (chat (answers true) "t" (some silent)).0 ≡ inl empty_message
unfolding chat with_urls check_body media_urls check_empty
is_refused = refl

early : is_early empty_message ≡ true
unfolding is_early
early = refl

begins : (chat (answers true) "t" (some request)).0 ≡ inr ("s1", pos 1)
unfolding chat with_urls check_body media_urls check_empty dispatch_to resolve_session after_send
    named_session is_web_url
begins = refl

chat-Streams_example :
    Streams (answers true) "t" request ("s1", pos 1) (chat (answers true) "t" (some request)).1
chat-Streams_example = chat-Streams (answers true) "t" request ("s1", pos 1) begins

abbrev no_json : Value → String
no_json v = ""

abbrev failure : Fields
failure =
    field "id" (num (pos 1))
      (field "error" (obj (field "message" (str "bad") end)) (field "sessionId" (str "s1") end))

abbrev final : Fields
final = field "method" (str "session/update") (
    field "params"
      (obj (
        field "sessionId" (str "s1")
          (field "update" (obj (field "sessionUpdate" (str "agent_message_final") end)) end)))
      end)

fails : has_kind "error" (actions_of no_json [] "t" (some failure)) ≡ true
unfolding actions_of on_message on_notification on_reply on_error error_session error_message
    has_kind get to_session
fails = refl

finishes : has_kind "done" (actions_of no_json [] "t" (some final)) ≡ true
unfolding actions_of on_message on_notification on_reply has_kind get to_session translate_bot_event
    translate_params translate_update
finishes = refl

abbrev closing : World memory
closing = record { bridge = record first { shutting_down = true }; server = empty }

abbrev fresh_first : World memory
fresh_first = record { bridge = first; server = empty }

-- the first worker over the server that the second one has registered at
abbrev behind : World memory
behind = record { bridge = joined.bridge; server = moved.server }

reconcile_token-bots_example : lookup "t" (reconcile_token memory "t" behind).bridge.bots ≡ (
    if str_eq "t" "t"
      && (moved_to behind.bridge.worker_id (view.text behind.server (bot_owner_key "t"))
          || outrun (lookup "t" behind.bridge.gens) (view.text behind.server (bot_gen_key "t")))
    then none
    else lookup "t" behind.bridge.bots)
reconcile_token-bots_example =
    reconcile_token-bots memory view memory_laws memory-Reachable "t" "t" behind

abbrev encode : InboxMessage → String
encode m = "m"

abbrev decode : String → Option InboxMessage
decode text = if str_eq text "m" then some (request_message "t" (str "prompt")) else none

abbrev inbox : Inbox
inbox = record { bridge = joined.bridge; acked = []; written = [] }

abbrev polls : List Polled
polls = entry "1-0" "m" ∷ poll_empty ∷ entry "2-0" "bad" ∷ []

joins_here : register_bot memory "t" 1 (pos 100) fresh_first ≡ (none, joined)
unfolding registering
joins_here = refl

t_named : ◌≢◌ {A = String} "t" ""
t_named = λ e. (let wrong : str_eq "t" "" ≡ true = (eq_iff "t" "").1 e in cc)

registered-delivery_example :
    ((get_bot_owner memory "t" joined.server).0 ≡ ok "w1")
    × ((inbox_step decode (entry "1-0" (encode (request_message "t" (str "prompt")))) inbox).written
        ≡ [] ++ (1, str "prompt") ∷ [])
registered-delivery_example =
    registered-delivery memory view memory_laws memory-Reachable "t" 1 first joined
      (register_bot-Registered memory view memory_laws "t" 1 (pos 100) fresh_first joined
        joins_here).0
      (register_bot-Registered memory view memory_laws "t" 1 (pos 100) fresh_first joined
        joins_here).1
      encode decode "1-0" (str "prompt") inbox refl t_named refl

abbrev idle : Monitor
idle = record { connections = []; notified = [] }

abbrev both_watch : Monitor
both_watch = register_sse "t" "s1" "inbox" 8 (register_sse "t" "s1" "inbox" 7 idle)

unregister_sse-superseded_example :
    (get_sse "inbox" both_watch ≡ some (record { token = "t"; session_id = "s1"; address = 8 }))
    × (is_notified 8 (notify_bot_disconnected "t" both_watch).notified ≡ true)
    × (get_sse "inbox" (unregister_sse "inbox" both_watch) ≡ none)
    × (is_notified 8 (notify_bot_disconnected "t" (unregister_sse "inbox" both_watch)).notified
        ≡ false)
unfolding register_sse waits is_notified insert
unregister_sse-superseded_example = unregister_sse-superseded "t" "s1" "inbox" 7 8 idle refl refl
