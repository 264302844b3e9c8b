-- ===== src/Stream.antt =====
-- The streaming loop of chatSSE in backend/internal/router/sse.go. Each round gets what the
-- environment does as a `Tick`: which channel of a `select` is ready (where both are, Go picks
-- one), the clock, and what Queue.Consume returns. Spans, logs and metrics are left out, apart
-- from the close reason and the code that they report. `unmarshal` stands for json.Unmarshal
-- into a map: `none` for an error.
pub mod Frames
pub mod Replies
pub mod Ending
pub mod Runs
pub mod Idle
use astron_claw.Prelude.{
  ℕ, String, Bool, true, false, not, ◌&&◌, ◌||◌, Option, none, some, List, [], ◌∷◌, ◌++◌, str_eq,
  if◌then◌else◌,
}
use astron_claw.Prelude.Int.{ℤ, pos, ◌+ℤ◌, ◌-ℤ◌, ltb_ℤ}
use astron_claw.Json.{Value, num, str, obj, Fields, end, field, get, delete, as_string, as_map}

-- sseTimeout and heartbeatInterval, in seconds
abbrev pub sse_timeout : ℤ
sse_timeout = pos 600

abbrev pub heartbeat_interval : ℤ
heartbeat_interval = pos 15

-- What is written to the client: an event of a type, or a heartbeat comment.
pub data Frame : Type 0 where
  event : String → Fields → Frame
  comment : Frame

pub data CloseReason : Type 0 where
  done client_disconnect bot_disconnect timeout error write_error : CloseReason

-- What a `select` over the client's context and the monitor's channel finds.
pub data Signal : Type 0 where
  quiet client_done bot_gone : Signal

pub data Consumed : Type 0 where
  failed : Consumed
  nothing : Consumed
  message : String → String → Consumed

pub record Tick : Type 0 where
  pub signal : Signal
  pub now : ℤ
  pub consumed : Consumed
  -- the `select` after an empty read, and the clock after the read
  pub late_signal : Signal
  pub later : ℤ

pub record Stream : Type 0 where
  pub deadline : ℤ
  pub last_heartbeat : ℤ
  pub has_chunks : Bool
  pub reply : List String
  pub frames : List Frame
  pub acked : List String
  pub close_reason : CloseReason
  pub code : ℕ
  -- whether a session/cancel was sent to the bot
  pub cancelled : Bool

-- The loop goes on, or the handler returns.
pub data Round : Type 0 where
  go_on : Stream → Round
  stop : Stream → Round

abbrev pub state_of : Round → Stream
state_of (go_on s) = s
state_of (stop s) = s

abbrev pub write : Frame → Stream → Stream
write f s = record s { frames = s.frames ++ f ∷ [] }

-- an error event with its message
abbrev pub error_frame : String → Frame
error_frame text = event "error" (field "content" (str text) end)

abbrev pub chunk_frame : String → Frame
chunk_frame text = event "chunk" (field "content" (str text) end)

-- the returns of a signal: to the client's disconnect nothing is written
close_client : Stream → Stream
close_client s = record s { close_reason = client_disconnect; cancelled = true }

close_with : CloseReason → ℕ → String → Stream → Stream
close_with reason code text s = record s {
  close_reason = reason;
  code = code;
  frames = s.frames ++ error_frame text ∷ [];
}

on_signal : Signal → Stream → Round → Round
unfolding close_client close_with
on_signal quiet s rest = rest
on_signal client_done s rest = stop (close_client s)
on_signal bot_gone s rest = stop (close_with bot_disconnect 10201 "No bot connected" s)

-- the heartbeat after an empty read
beat : ℤ → Stream → Stream
beat now s =
    if ltb_ℤ (now -ℤ s.last_heartbeat) heartbeat_interval
    then s
    else record s { frames = s.frames ++ comment ∷ []; last_heartbeat = now }

-- `contentStr, ok := eventData["content"].(string)`
unfoldable pub content_text : Fields → Option String
content_text d = elim (get "content" d) [ some (str t) ↦ some t | _ ↦ none ]

unfoldable pub add_reply : Option String → Stream → Stream
add_reply none s = s
add_reply (some t) s = record s { reply = s.reply ++ t ∷ [] }

-- a chunk event is noted
unfoldable pub note_chunk : Bool → Fields → Stream → Stream
unfolding add_reply content_text
note_chunk false d s = s
note_chunk true d s = add_reply (content_text d) (record s { has_chunks = true })

-- the chunk that is put in front of a `done` that no chunk preceded
unfoldable pub inject : Option String → Stream → Stream
inject none s = s
inject (some t) s =
    if str_eq t ""
    then s
    else record s { reply = s.reply ++ t ∷ []; frames = s.frames ++ chunk_frame t ∷ [] }

unfoldable pub inject_if : Bool → Fields → Stream → Stream
unfolding inject content_text
inject_if false d s = s
inject_if true d s = inject (content_text d) s

-- the end of a round that has an event
unfoldable pub finish : String → Stream → Round
finish kind s =
    if str_eq kind "error"
    then stop (record s { close_reason = error; code = 10700 })
    else if str_eq kind "done"
    then stop s
    else go_on s

unfoldable pub deliver : String → Fields → Stream → Round
unfolding note_chunk inject_if finish
deliver kind d s =
    let s1 = note_chunk (str_eq kind "chunk") d s in
    let s2 = inject_if (str_eq kind "done" && not s1.has_chunks) d s1 in
    finish kind (write (event kind d) s2)

-- the payload of a media event, or the event without its type
event_data : String → Fields → Option Fields
event_data kind rest = if str_eq kind "media" then as_map (get "data" rest) else some rest

kind_of : Fields → String
kind_of ev = let t = as_string (get "type" ev) in if str_eq t "" then "message" else t

dispatch : Option Fields → Stream → Round
unfolding deliver event_data kind_of
dispatch none s = go_on s
dispatch (some ev) s = elim (event_data (kind_of ev) (delete "type" ev)) [
  | none ↦ go_on s
  | some d ↦ deliver (kind_of ev) d s
]

module _ (unmarshal : String → Option Fields) where
  -- what Queue.Consume returned
  receive : Consumed → Signal → ℤ → Stream → Round
  unfolding on_signal beat dispatch close_with
  receive failed late later s = stop (close_with error 10205 "Internal server error" s)
  receive nothing late later s = on_signal late s (go_on (beat later s))
  receive (message id text) late later s =
      dispatch (unmarshal text)
        (record s { acked = s.acked ++ id ∷ []; deadline = later +ℤ sse_timeout })

  -- one round of the loop
  unfoldable pub round : Tick → Stream → Round
  unfolding receive
  round t s = on_signal t.signal s (
      if ltb_ℤ s.deadline t.now
      then stop (close_with timeout 10204 "Stream timeout" s)
      else receive t.consumed t.late_signal t.later s)

  -- the rounds until the handler returns, or for as long as ticks are given
  unfoldable pub run : List Tick → Stream → Round
  run [] s = go_on s
  run (t ∷ ts) s = elim (round t s) [ go_on s' ↦ run ts s' | stop s' ↦ stop s' ]

-- the first event of a stream
abbrev pub session_frame : String → ℤ → Frame
session_frame id number =
    event "session" (field "sessionId" (str id) (field "sessionNumber" (num number) end))

-- The stream once the session event is written, at a time.
abbrev pub start : String → ℤ → ℤ → Stream
start id number now = record {
  deadline = now +ℤ sse_timeout;
  last_heartbeat = now;
  has_chunks = false;
  reply = [];
  frames = session_frame id number ∷ [];
  acked = [];
  close_reason = done;
  code = 0;
  cancelled = false;
}

-- From the first write on: if it fails the handler returns at once.
unfoldable pub stream : (String → Option Fields) → Bool → String → ℤ → ℤ → List Tick → Round
stream unmarshal written id number now ticks =
    if written
    then run unmarshal ticks (start id number now)
    else stop
        (record (start id number now) { frames = []; close_reason = write_error; code = 10205 })
