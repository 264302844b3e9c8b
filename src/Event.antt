-- ===== src/Event.antt =====
-- TranslateBotEvent of backend/internal/service/bridge.go: from a bot's JSON-RPC notification to
-- the event that a chat receives. `marshal` stands for json.Marshal of a value that is no text.
pub mod Types
use astron_claw.Prelude.{String, Bool, true, false, Option, none, some, str_eq, if◌then◌else◌}
use astron_claw.Json.{
  Value, null, bool, num, str, arr, obj, Fields, end, field, get, get_in, as_string, as_map,
}

-- getNestedString, whose second result no caller reads
abbrev pub nested_string : Option Fields → String → String
nested_string m k = as_string (get_in m k)

abbrev pub or_default : String → String → String
or_default s d = if str_eq s "" then d else s

-- an event with one text field
abbrev pub text_event : String → String → Fields
text_event kind text = field "type" (str kind) (field "content" (str text) end)

abbrev pub content_of : Fields → Option Fields
content_of update = as_map (get "content" update)

-- the fallback of the `default` case
fallback_event : Option Fields → Option Fields
fallback_event none = none
fallback_event (some content) = elim (get "text" content) [
  | some (str text) ↦ some (text_event "chunk" text)
  | _ ↦ none
]

with_caption : String → Fields → Fields
with_caption caption rest = if str_eq caption "" then rest else field "caption" (str caption) rest

media_url_event : Option Fields → String → Option Fields
media_url_event content url =
    let payload =
      field "type" (str "url")
        (field "content" (str url) (with_caption (nested_string content "text") end)) in
    if str_eq url ""
    then none
    else some (field "type" (str "media") (field "data" (obj payload) end))

media_event : Option Fields → Option Fields
unfolding media_url_event with_caption
media_event none = none
media_event (some content) = elim (as_map (get "media" content)) [
  | none ↦ none
  | some media ↦ media_url_event (some content) (as_string (get "downloadUrl" media))
]

module _ (marshal : Value → String) where
  -- the content of a tool result: a text, the text of an object, or the value in JSON
  result_text : Option Value → String
  result_text none = ""
  result_text (some (str s)) = s
  result_text (some (obj m)) = as_string (get "text" m)
  result_text (some null) = ""
  result_text (some v) = marshal v

  -- the input of a tool call: a text, or the value in JSON
  input_text : Option Value → String
  input_text none = ""
  input_text (some (str s)) = s
  input_text (some null) = ""
  input_text (some v) = marshal v

  tool_result_event : Fields → Fields
  unfolding result_text
  tool_result_event update = field "type" (str "tool_result") (
      field "name" (str (or_default (as_string (get "title" update)) "tool")) (
        field "status" (str (or_default (as_string (get "status" update)) "completed"))
          (field "content" (str (result_text (get "content" update))) end)))

  tool_call_event : Fields → Fields
  unfolding input_text
  tool_call_event update = field "type" (str "tool_call") (
      field "name" (str (or_default (as_string (get "title" update)) "tool"))
        (field "input" (str (input_text (get "content" update))) end))

  -- the `switch` over update["sessionUpdate"]
  unfoldable pub translate_update : String → Fields → Option Fields
  unfolding fallback_event media_event tool_result_event tool_call_event
  translate_update kind update =
      let content = content_of update in
      if str_eq kind "agent_message_chunk"
      then some (text_event "chunk" (nested_string content "text"))
      else if str_eq kind "agent_message_final"
      then some (text_event "done" (nested_string content "text"))
      else if str_eq kind "tool_result"
      then some (tool_result_event update)
      else if str_eq kind "agent_thought_chunk"
      then some (text_event "thinking" (nested_string content "text"))
      else if str_eq kind "tool_call"
      then some (tool_call_event update)
      else if str_eq kind "agent_media"
      then media_event content
      else fallback_event content

  unfoldable pub translate_params : Option Fields → Option Fields
  unfolding translate_update
  translate_params params = elim (as_map (get_in params "update")) [
    | none ↦ none
    | some update ↦ translate_update (as_string (get "sessionUpdate" update)) update
  ]

  -- TranslateBotEvent; `none` for the nil map
  unfoldable pub translate_bot_event : String → Option Fields → Option Fields
  unfolding translate_params
  translate_bot_event method params =
      if str_eq method "session/update" then translate_params params else none
