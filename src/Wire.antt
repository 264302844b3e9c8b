-- ===== src/Wire.antt =====
-- The texts of server-sent events, in backend/internal/pkg/sse.go. `marshal` stands for
-- json.Marshal of an event's data.
pub mod Written
use Prim.Native.String.{◌++◌}
use astron_claw.Prelude.{String, List, [], ◌∷◌}
use astron_claw.Json.{Fields}
use astron_claw.Stream.{Frame, event, comment}

-- FormatSSEEvent, of data that is already a text
unfoldable pub format_sse_event : String → String → String
format_sse_event kind text = "event: " ++ (kind ++ ("\ndata: " ++ (text ++ "\n\n")))

-- FormatSSEComment
unfoldable pub format_sse_comment : String
format_sse_comment = ": heartbeat\n\n"

module _ (marshal : Fields → String) where
  unfoldable pub frame_text : Frame → String
  unfolding format_sse_event format_sse_comment
  frame_text (event kind d) = format_sse_event kind (marshal d)
  frame_text comment = format_sse_comment

  -- all that is written to the client
  unfoldable pub body_text : List Frame → String
  unfolding frame_text
  body_text [] = ""
  body_text (f ∷ fs) = frame_text f ++ body_text fs
