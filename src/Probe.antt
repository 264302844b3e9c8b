-- ===== src/Probe.antt =====
-- The probe's reading of a chat's answer, Chat in probe/client/sse.go. bufio.Scanner is modelled
-- on the whole body: its lines, of which none may reach the buffer of 64 KiB, and whether the
-- connection failed after the body. What json.Unmarshal leaves in a field is a parameter, and
-- the time to the first byte is left out.
pub mod Scanning
pub mod Reading
pub mod Answers
use Prim.Native.String.{len}
use astron_claw.Prelude.{
  ℕ, String, Bool, true, false, Option, none, some, List, [], ◌∷◌, ltb, ◌==◌, str_eq, starts_with,
  if◌then◌else◌,
}
use astron_claw.Prelude.Int.{ℤ, pos, negsuc}
use astron_claw.Text.{lines_of, drop_cr, trim_prefix}

-- The fields that json.Unmarshal finds in a text; a field that it does not find stays zero.
pub record Decoder : Type 0 where
  pub session_id_of : String → String
  pub content_of : String → String
  pub code_of : String → ℤ
  pub error_of : String → String

pub record ChatResult : Type 0 where
  pub session_id : String
  pub content : String
  pub has_error : Bool
  pub error_msg : String

-- the texts of the errors
pub data Reason : Type 0 where
  new_request request_failed read_stream no_session no_end : Reason
  http : ℕ → String → Reason

pub data Outcome : Type 0 where
  result : ChatResult → Outcome
  code_error : ℤ → Reason → Outcome

abbrev pub no_result : ChatResult
no_result = record { session_id = ""; content = ""; has_error = false; error_msg = "" }

-- The loop goes on with a result and an event type, or Chat returns.
pub data Line : Type 0 where
  goes : ChatResult → String → Line
  returns : Outcome → Line

-- the longest line that fits the scanner's buffer with its newline, in bytes
abbrev pub max_line : ℕ
max_line = 65536

-- after the loop
unfoldable pub at_end : Bool → ChatResult → Outcome
at_end true r = code_error (negsuc 0) read_stream
at_end false r = code_error (negsuc 0) (if str_eq r.session_id "" then no_session else no_end)

module _ (dec : Decoder) where
  -- the switch on the event type, for one `data: ` line
  unfoldable pub on_data : ChatResult → String → String → Line
  on_data r kind text =
      if str_eq kind "session"
      then goes (record r { session_id = dec.session_id_of text }) ""
      else if str_eq kind "done"
      then returns (result (record r { content = dec.content_of text }))
      else if str_eq kind "error"
      then returns (result (record r { has_error = true; error_msg = dec.content_of text }))
      else goes r ""

  unfoldable pub on_line : ChatResult → String → String → Line
  unfolding on_data
  on_line r kind line =
      if starts_with line "event: "
      then goes r (trim_prefix line "event: ")
      else if starts_with line "data: "
      then on_data r kind (trim_prefix line "data: ")
      else goes r kind

  -- one line of the body, as it is scanned
  unfoldable pub scan : ChatResult → String → String → Line
  unfolding on_line drop_cr
  scan r kind line =
      if ltb (len line) max_line
      then on_line r kind (drop_cr line)
      else returns (code_error (negsuc 0) read_stream)

  unfoldable pub read_lines : Bool → ChatResult → String → List String → Outcome
  unfolding scan at_end
  read_lines broken r kind [] = at_end broken r
  read_lines broken r kind (l ∷ ls) = elim (scan r kind l) [
    | goes r' kind' ↦ read_lines broken r' kind' ls
    | returns o ↦ o
  ]

-- What http.DefaultClient.Do gives: a status and a body, which may break off.
pub data Response : Type 0 where
  unusable unreachable : Response
  answered : ℕ → String → Bool → Response

unfoldable pub status_error : ℕ → ℤ → String → Outcome
status_error status (pos n) text =
    code_error (if n == 0 then pos status else pos n) (http status text)
status_error status (negsuc n) text = code_error (negsuc n) (http status text)

-- Chat
unfoldable pub read_chat : Decoder → Response → Outcome
unfolding read_lines lines_of status_error
read_chat dec unusable = code_error (negsuc 0) new_request
read_chat dec unreachable = code_error (negsuc 0) request_failed
read_chat dec (answered status body broken) =
    if status == 200
    then read_lines dec broken no_result "" (lines_of body)
    else status_error status (dec.code_of body) (dec.error_of body)
