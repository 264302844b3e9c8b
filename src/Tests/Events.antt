-- ===== src/Tests/Events.antt =====
-- The witnesses on the translation of a bot's notifications.
use astron_claw.Prelude.{String, ◌≡◌, refl, Option, some}
use astron_claw.Json.{Value, str, obj, Fields, end, field, get}
use astron_claw.Event.{translate_bot_event, translate_params, translate_update, text_event}
use astron_claw.Event.Types.{type_of}

abbrev no_json : Value → String
no_json v = ""

abbrev final_update : Fields
final_update =
    field "sessionUpdate" (str "agent_message_final")
      (field "content" (obj (field "text" (str "bye") end)) end)

abbrev params : Option Fields
params = some (field "update" (obj final_update) end)

translated : translate_bot_event no_json "session/update" params ≡ some (text_event "done" "bye")
unfolding translate_bot_event translate_params translate_update get
translated = refl

is_done : type_of (text_event "done" "bye") ≡ "done"
unfolding get
is_done = refl
