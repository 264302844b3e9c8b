-- ===== src/Messages/Routing.antt =====
-- Which events a bot's message can cause, and for which sessions.
use astron_claw.Prelude.{
  ℕ, String, ◌≡◌, ◌≢◌, refl, Bool, true, false, not, ◌&&◌, ◌||◌, Option, none, some, List, [], ◌∷◌,
  ◌++◌, inl, inr, arith, if◌then◌else◌, str_eq, eq_iff, str_eq_ne, Option-cases,
}
use astron_claw.Prelude.Dict.{Dict, lookup}
use astron_claw.Json.{Value, Fields, get, as_string, as_map}
use astron_claw.Event.{translate_bot_event, text_event, nested_string}
use astron_claw.Event.Types.{type_of, translate-type, translate-no_error}
use astron_claw.Messages.{
  Action, pong, deliver, to_session, answer_ping, on_error, on_reply, on_event, on_notification,
  on_message, actions_of, is_there, error_message, error_session,
}

-- an event of a kind is delivered
unfoldable pub has_kind : String → List Action → Bool
has_kind kind [] = false
has_kind kind (pong conn ∷ actions) = has_kind kind actions
has_kind kind (deliver session event ∷ actions) =
    str_eq (type_of event) kind || has_kind kind actions

-- no event is delivered to the empty session id
unfoldable pub all_named : List Action → Bool
all_named [] = true
all_named (pong conn ∷ actions) = all_named actions
all_named (deliver session event ∷ actions) = not (str_eq session "") && all_named actions

has_kind-append :
    (kind : String) (xs ys : List Action)
    → has_kind kind (xs ++ ys) ≡ has_kind kind xs || has_kind kind ys
unfolding has_kind
has_kind-append kind [] ys = refl
has_kind-append kind (pong conn ∷ xs) ys = has_kind-append kind xs ys
has_kind-append kind (deliver session event ∷ xs) ys = ground (arith, has_kind-append kind xs ys)

all_named-append : (xs ys : List Action) → all_named (xs ++ ys) ≡ all_named xs && all_named ys
unfolding all_named
all_named-append [] ys = refl
all_named-append (pong conn ∷ xs) ys = all_named-append xs ys
all_named-append (deliver session event ∷ xs) ys = ground (arith, all_named-append xs ys)

to_session-all_named :
    (session : String) (event : Fields) → all_named (to_session session event) ≡ true
unfolding all_named to_session
to_session-all_named session event = ground arith

to_session-kind :
    (kind session : String) (event : Fields)
    → type_of event ≢ kind
    → has_kind kind (to_session session event) ≡ false
unfolding has_kind to_session
to_session-kind kind session event ne = ground (arith, str_eq_ne ne)

answer_ping-all_named : (o : Option ℕ) → all_named (answer_ping o) ≡ true
unfolding all_named answer_ping
answer_ping-all_named none = refl
answer_ping-all_named (some conn) = refl

answer_ping-kind : (kind : String) (o : Option ℕ) → has_kind kind (answer_ping o) ≡ false
unfolding has_kind answer_ping
answer_ping-kind kind none = refl
answer_ping-kind kind (some conn) = refl

on_error-all_named : (e : Option Value) (msg : Fields) → all_named (on_error e msg) ≡ true
unfolding all_named on_error
on_error-all_named none msg = refl
on_error-all_named (some e) msg =
    to_session-all_named (error_session (as_map (some e)) msg)
      (text_event "error" (error_message (as_map (some e))))

on_event-all_named :
    (ev : Option Fields) (session : String) → all_named (on_event ev session) ≡ true
unfolding all_named on_event
on_event-all_named none session = refl
on_event-all_named (some e) session = to_session-all_named session e

on_event-kind :
    (kind : String) (ev : Option Fields) (session : String)
    → ((e : Fields) → ev ≡ some e → type_of e ≢ kind)
    → has_kind kind (on_event ev session) ≡ false
unfolding has_kind on_event
on_event-kind kind none session f = refl
on_event-kind kind (some e) session f = to_session-kind kind session e (f e refl)

error_ne_done : ◌≢◌ {A = String} "error" "done"
error_ne_done e = (let wrong : str_eq "error" "done" ≡ true = (eq_iff "error" "done").1 e in cc)

on_error-done : (e : Option Value) (msg : Fields) → has_kind "done" (on_error e msg) ≡ false
unfolding has_kind on_error get
on_error-done none msg = refl
on_error-done (some e) msg =
    to_session-kind "done" (error_session (as_map (some e)) msg)
      (text_event "error" (error_message (as_map (some e)))) error_ne_done

on_reply-done : (msg : Fields) → has_kind "done" (on_reply msg) ≡ false
unfolding on_reply has_kind
on_reply-done msg = ground (arith, on_error-done (get "error" msg) msg)

on_reply-all_named : (msg : Fields) → all_named (on_reply msg) ≡ true
unfolding on_reply all_named
on_reply-all_named msg = ground (arith, on_error-all_named (get "error" msg) msg)

on_error-there :
    (kind : String) (e : Option Value) (msg : Fields)
    → has_kind kind (on_error e msg) ≡ true
    → is_there e ≡ true
unfolding on_error has_kind
on_error-there kind none msg h = cc
on_error-there kind (some e) msg h = refl

on_reply-error :
    (msg : Fields)
    → has_kind "error" (on_reply msg) ≡ true
    → is_there (get "id" msg) && (is_there (get "error" msg) && not (is_there (get "result" msg)))
      ≡ true
unfolding on_reply has_kind
on_reply-error msg h = ground (arith, on_error-there "error" (get "error" msg) msg)

module _ (marshal : Value → String) (bots : Dict ℕ) (token : String) where
  on_notification-all_named :
      (method : String) (params : Option Fields)
      → all_named (on_notification marshal method params) ≡ true
  unfolding on_notification all_named
  on_notification-all_named method params = ground (
    arith,
    on_event-all_named (translate_bot_event marshal method params)
        (nested_string params "sessionId"),
  )

  -- Whatever a bot sends, each event that HandleBotMessage delivers goes to a session that the message
  -- names: none goes to the empty session id.
  pub actions_of-all_named :
      (raw : Option Fields) → all_named (actions_of marshal bots token raw) ≡ true
  unfolding actions_of on_message all_named
  actions_of-all_named none = refl
  actions_of-all_named (some msg) = ground (
    arith,
    all_named-append
        (on_notification marshal (as_string (get "method" msg)) (as_map (get "params" msg)))
        (on_reply msg),
    answer_ping-all_named (lookup token bots),
    on_notification-all_named (as_string (get "method" msg)) (as_map (get "params" msg)),
    on_reply-all_named msg,
  )

  on_notification-error :
      (method : String) (params : Option Fields)
      → has_kind "error" (on_notification marshal method params) ≡ false
  unfolding on_notification has_kind
  on_notification-error method params = ground (
    arith,
    on_event-kind "error" (translate_bot_event marshal method params)
        (nested_string params "sessionId") (translate-no_error marshal method params),
  )

  on_message-kind :
      (kind : String) (msg : Fields)
      → has_kind kind (actions_of marshal bots token (some msg)) ≡ (
          if str_eq (as_string (get "type" msg)) "ping"
          then false
          else has_kind kind
              (on_notification marshal (as_string (get "method" msg)) (as_map (get "params" msg)))
            || has_kind kind (on_reply msg))
  unfolding actions_of on_message
  on_message-kind kind msg = ground (
    arith,
    has_kind-append kind
        (on_notification marshal (as_string (get "method" msg)) (as_map (get "params" msg)))
        (on_reply msg),
    answer_ping-kind kind (lookup token bots),
  )

  on_notification-done :
      (method : String) (params : Option Fields)
      → has_kind "done" (on_notification marshal method params) ≡ true
      → method ≡ "session/update"
  unfolding on_notification has_kind on_event
  on_notification-done method params h =
      elim (Option-cases (translate_bot_event marshal method params)) [
        | inl e ↦ let wrong = rw e at h in ground arith
        | inr (ev, e) ↦ (translate-type marshal method params ev e).0
      ]

  -- A bot ends a turn with an error event only by a JSON-RPC error: a message that has an id and
  -- an error and no result.
  pub actions_of-error :
      (msg : Fields)
      → has_kind "error" (actions_of marshal bots token (some msg)) ≡ true
      → is_there (get "id" msg) && (is_there (get "error" msg) && not (is_there (get "result" msg)))
        ≡ true
  actions_of-error msg h = on_reply-error msg (
      ground (
        arith,
        on_message-kind "error" msg,
        on_notification-error (as_string (get "method" msg)) (as_map (get "params" msg)),
      ))

  -- A bot ends a turn with a done event only by a session/update notification.
  pub actions_of-done :
      (msg : Fields)
      → has_kind "done" (actions_of marshal bots token (some msg)) ≡ true
      → as_string (get "method" msg) ≡ "session/update"
  actions_of-done msg h =
      on_notification-done (as_string (get "method" msg)) (as_map (get "params" msg))
        (ground (arith, on_message-kind "done" msg, on_reply-done msg))
