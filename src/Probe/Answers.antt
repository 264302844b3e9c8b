-- ===== src/Probe/Answers.antt =====
-- What the probe reports of a chat, by how the stream's handler returned.
use astron_claw.Prelude.{
  String, Bool, true, false, not, ◌||◌, ◌≡◌, ◌⊎◌, inl, inr, refl, sym, ap, ◌∙◌, subst, Option, none,
  some, List, [], ◌∷◌, ◌++◌, str_eq, if◌then◌else◌, arith, ++_nil,
}
use astron_claw.Prelude.Int.{ℤ}
use astron_claw.Json.{Value, Fields, get, as_string, null, bool, num, str, arr, obj}
use astron_claw.Stream.{
  Frame, event, comment, Stream, Tick, stop, run, start, content_text, done, client_disconnect,
}
use astron_claw.Stream.Frames.{is_end, has_no_end}
use astron_claw.Stream.Ending.{Ended, Kept, is_failure, said}
use astron_claw.Stream.Runs.{stream-Kept}
use astron_claw.Text.{one_line}
use astron_claw.Text.Lines.{and_left, and_right}
use astron_claw.Wire.{body_text}
use astron_claw.Wire.Written.{plain_kinds}
use astron_claw.Probe.{Decoder, Outcome, result, code_error, at_end, answered, read_chat}
use astron_claw.Probe.Reading.{in_session, reading, AllDecode, all_short, read_chat-reading}

-- the session's id after frames
unfoldable last_session : String → List Frame → String
last_session id [] = id
last_session id (comment ∷ fs) = last_session id fs
last_session id (event kind d ∷ fs) =
    last_session (if str_eq kind "session" then as_string (get "sessionId" d) else id) fs

not_end :
    (kind : String)
    → not (str_eq kind "error" || str_eq kind "done") ≡ true
    → (str_eq kind "done" ≡ false) × (str_eq kind "error" ≡ false)
not_end kind h = (ground arith, ground arith)

reading-append :
    (broken : Bool) (id : String) (before rest : List Frame)
    → has_no_end before ≡ true
    → reading broken id (before ++ rest) ≡ reading broken (last_session id before) rest
unfolding reading has_no_end is_end last_session
reading-append broken id [] rest h = refl
reading-append broken id (comment ∷ fs) rest h = reading-append broken id fs rest h
reading-append broken id (event kind d ∷ fs) rest h =
    let ne = not_end kind (and_left _ _ h) in
    rw (ne.0, ne.1)
      (reading-append broken (if str_eq kind "session" then as_string (get "sessionId" d) else id)
        fs rest (and_right _ _ h))

said-content : (o : Option Value) → as_string o ≡ said (elim o [ some (str t) ↦ some t | _ ↦ none ])
said-content none = refl
said-content (some null) = refl
said-content (some (bool b)) = refl
said-content (some (num n)) = refl
said-content (some (str t)) = refl
said-content (some (arr xs)) = refl
said-content (some (obj m)) = refl

unfoldable pub is_code_error : Outcome → Bool
is_code_error (result r) = false
is_code_error (code_error c why) = true

-- What Chat returns for a stream: an error of its own if the client had left, or else the
-- session's id with the text of the done event or of the error event.
abbrev pub Answers : Stream → Outcome → Type 0
Answers s o =
    (s.close_reason ≡ client_disconnect) × (is_code_error o ≡ true)
    ⊎ ((id : String) × (d : Fields) × (before : List Frame) × (s.close_reason ≡ done)
        × (s.frames ≡ before ++ event "done" d ∷ [])
        × (o ≡ result (record (in_session id) { content = said (content_text d) })))
    ⊎ ((id : String) × (d : Fields) × (before : List Frame) × (is_failure s.close_reason ≡ true)
        × (s.frames ≡ before ++ event "error" d ∷ [])
        × (o
            ≡ result
                (record (in_session id) { has_error = true; error_msg = said (content_text d) })))

at_end-is_code_error : (broken : Bool) (id : String) → is_code_error (reading broken id []) ≡ true
unfolding reading at_end is_code_error
at_end-is_code_error true id = refl
at_end-is_code_error false id = refl

reading-Answers : (broken : Bool) (s : Stream) → Ended s → Answers s (reading broken "" s.frames)
unfolding content_text reading
reading-Answers broken s (told, (before, no_end, inl (left, e))) = inl (
  left,
  ap (λ fs. is_code_error (reading broken "" fs)) (e ∙ sym (++_nil before))
      ∙ ap is_code_error (reading-append broken "" before [] no_end)
      ∙ at_end-is_code_error broken (last_session "" before),
)
reading-Answers broken s (told, (before, no_end, inr (inl (d, (why, e, spoken))))) = inr (
    inl (
      last_session "" before,
      d,
      before,
      why,
      e,
      ap (reading broken "") e
          ∙ reading-append broken "" before _ no_end
          ∙ ap (λ t. result (record (in_session (last_session "" before)) { content = t }))
              (said-content (get "content" d)),
    ))
reading-Answers broken s (told, (before, no_end, inr (inr (d, (why, e))))) = inr (
    inr (
      last_session "" before,
      d,
      before,
      why,
      e,
      ap (reading broken "") e
          ∙ reading-append broken "" before _ no_end
          ∙ ap
              (λ t.
                result (record (in_session (last_session "" before)) {
                  has_error = true;
                  error_msg = t;
                }))
              (said-content (get "content" d)),
    ))

-- A chat's handler that has returned and the probe agree on how the chat ended. If the client
-- had left, the probe has an error of its own. If the stream closed as done, the probe has the
-- text of the done event, without an error, and if it closed as a failure, the text of the error
-- event. The conditions on the coding are those of the reading of frames.
pub read_chat-run :
    (dec : Decoder) (marshal : Fields → String) (broken : Bool) (unmarshal : String → Option Fields)
    (id : String) (number now : ℤ) (ticks : List Tick) (s : Stream)
    → run unmarshal ticks (start id number now) ≡ stop s
    → ((d : Fields) → one_line (marshal d) ≡ true)
    → plain_kinds s.frames ≡ true
    → all_short marshal s.frames ≡ true
    → AllDecode dec marshal s.frames
    → Answers s (read_chat dec (answered 200 (body_text marshal s.frames) broken))
read_chat-run dec marshal broken unmarshal id number now ticks s ran plain h short decodes =
    subst (Answers s) (sym (read_chat-reading dec marshal broken s.frames plain h short decodes))
      (reading-Answers broken s (subst Kept ran (stream-Kept unmarshal id number now ticks)))
