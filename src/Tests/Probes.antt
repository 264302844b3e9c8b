-- ===== src/Tests/Probes.antt =====
-- The witnesses on the probe's reading of a stream.
use Prim.Native.String.{◌++◌}
use astron_claw.Prelude.{
  String, Bool, true, false, ◌≡◌, refl, List, [], ◌∷◌, str_eq, starts_with, if◌then◌else◌,
  Bool-cases, inl, inr, ◌∙◌,
}
use astron_claw.Prelude.Int.{pos, ◌+ℤ◌, ◌-ℤ◌}
use astron_claw.Json.{str, Fields, end, field, get, delete, as_string}
use astron_claw.Stream.{
  Frame, event, comment, Stream, run, round, start, session_frame, chunk_frame, state_of,
}
use astron_claw.Text.{one_line, trim_prefix}
use astron_claw.Text.Lines.{one_line-append}
use astron_claw.Wire.{body_text}
use astron_claw.Wire.Written.{plain_kinds, has_plain_kind}
use astron_claw.Probe.{Decoder, answered, read_chat}
use astron_claw.Probe.Reading.{reading, AllDecode, all_short, read_chat-reading}
use astron_claw.Probe.Answers.{Answers, read_chat-run}
use astron_claw.Tests.Streams.{decode, ticks}

-- A coding of the two fields that are read, for texts without line breaks.
abbrev one_of : Bool → String → String
one_of true t = t
one_of false t = ""

unfoldable encode : Fields → String
unfolding one_line
encode d =
    let s = as_string (get "sessionId" d) in
    let c = as_string (get "content" d) in
    if str_eq c "" then "s:" ++ one_of (one_line s) s else "c:" ++ one_of (one_line c) c

one_of-one_line : (b : Bool) (t : String) → one_line t ≡ b → one_line (one_of b t) ≡ true
unfolding one_line
one_of-one_line true t e = e
one_of-one_line false t e = refl

encode_plain : (d : Fields) → one_line (encode d) ≡ true
unfolding encode one_line
encode_plain d =
    let s = as_string (get "sessionId" d) in
    let c = as_string (get "content" d) in
    elim (Bool-cases (str_eq c "")) [
      | inl e ↦
          rw e (one_line-append "s:" (one_of (one_line s) s) ∙ one_of-one_line (one_line s) s refl)
      | inr e ↦
          rw e (one_line-append "c:" (one_of (one_line c) c) ∙ one_of-one_line (one_line c) c refl)
    ]

abbrev cut : String → String → String
cut p t = if starts_with t p then trim_prefix t p else ""

abbrev decoder : Decoder
decoder = record {
  session_id_of = cut "s:";
  content_of = cut "c:";
  code_of = λ _. pos 0;
  error_of = λ _. "";
}

abbrev frames : List Frame
frames =
    session_frame "s1" (pos 1)
    ∷ comment
    ∷ chunk_frame "hel"
    ∷ event "done" (field "content" (str "hello") end)
    ∷ []

read_chat-reading_example :
    read_chat decoder (answered 200 (body_text encode frames) false) ≡ reading false "" frames
unfolding encode one_line plain_kinds all_short AllDecode trim_prefix get has_plain_kind
read_chat-reading_example =
    read_chat-reading decoder encode false frames encode_plain refl refl
      ((refl, refl), (tt, ((refl, refl), ((refl, refl), tt))))

abbrev ran : Stream
ran = state_of (run decode ticks (start "s1" (pos 1) (pos 0)))

read_chat-run_example :
    Answers ran (read_chat decoder (answered 200 (body_text encode ran.frames) false))
unfolding encode one_line plain_kinds all_short AllDecode trim_prefix run get round ◌+ℤ◌ ◌-ℤ◌ delete
    has_plain_kind
read_chat-run_example =
    read_chat-run decoder encode false decode "s1" (pos 1) (pos 0) ticks ran refl encode_plain refl
      refl ((refl, refl), ((refl, refl), ((refl, refl), tt)))
