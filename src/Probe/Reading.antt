-- ===== src/Probe/Reading.antt =====
-- What the probe reads of a stream that chatSSE has written.
use Prim.Native.String.{len, ◌++◌}
use astron_claw.Prelude.{
  String, Bool, true, ◌&&◌, ◌≡◌, refl, ap, ◌∙◌, List, [], ◌∷◌, ltb, str_eq, if◌then◌else◌,
  Bool-cases, inl, inr,
}
use astron_claw.Json.{Fields, get, as_string}
use astron_claw.Stream.{Frame, event, comment}
use astron_claw.Text.{one_line}
use astron_claw.Text.Lines.{and_left, and_right}
use astron_claw.Wire.{body_text}
use astron_claw.Wire.Written.{frame_lines, body_lines, plain_kinds, has_plain_kind, lines-body}
use astron_claw.Probe.{
  Decoder, ChatResult, Outcome, result, Line, goes, returns, at_end, on_data, read_lines, answered,
  read_chat, no_result, max_line,
}
use astron_claw.Probe.Scanning.{
  scan-event, scan-data, scan-blank, scan-comment, data-done, data-error, data-goes, read-goes,
  read-returns,
}

-- a result that has a session's id only
abbrev pub in_session : String → ChatResult
in_session id = record no_result { session_id = id }

-- What the frames say to a reader that has seen a session's id: the text of the first `done` or
-- `error` event, or none of both.
unfoldable pub reading : Bool → String → List Frame → Outcome
unfolding at_end
reading broken id [] = at_end broken (in_session id)
reading broken id (comment ∷ fs) = reading broken id fs
reading broken id (event kind d ∷ fs) =
    let next =
      reading broken (if str_eq kind "session" then as_string (get "sessionId" d) else id) fs in
    if str_eq kind "done"
    then result (record (in_session id) { content = as_string (get "content" d) })
    else if str_eq kind "error"
    then result
        (record (in_session id) { has_error = true; error_msg = as_string (get "content" d) })
    else next

module _ (dec : Decoder) (marshal : Fields → String) where
  -- The fields of a frame's data survive the coding.
  abbrev pub Decodes : Frame → Type 0
  Decodes (event kind d) =
      (dec.session_id_of (marshal d) ≡ as_string (get "sessionId" d))
      × (dec.content_of (marshal d) ≡ as_string (get "content" d))
  Decodes comment = Unit

  unfoldable pub AllDecode : List Frame → Type 0
  AllDecode [] = Unit
  AllDecode (f ∷ fs) = Decodes f × AllDecode fs

-- the lines of a frame fit the scanner's buffer
unfoldable pub is_short : (Fields → String) → Frame → Bool
is_short marshal (event kind d) =
    ltb (len ("event: " ++ kind)) max_line && ltb (len ("data: " ++ marshal d)) max_line
is_short marshal comment = true

unfoldable pub all_short : (Fields → String) → List Frame → Bool
unfolding is_short
all_short marshal [] = true
all_short marshal (f ∷ fs) = is_short marshal f && all_short marshal fs

module _ (dec : Decoder) where
  module _ (marshal : Fields → String) where
    -- a frame's two lines
    pub read-event :
        (broken : Bool) (r : ChatResult) (kind : String) (d : Fields) (ls : List String)
        → one_line kind ≡ true
        → one_line (marshal d) ≡ true
        → is_short marshal (event kind d) ≡ true
        → (after : Line) → on_data dec r kind (marshal d) ≡ after
        → read_lines dec broken r "" (("event: " ++ kind) ∷ ("data: " ++ marshal d) ∷ ls)
          ≡ elim after [ goes r' k ↦ read_lines dec broken r' k ls | returns o ↦ o ]
    unfolding is_short
    read-event broken r kind d ls hk hd short (goes r' k) e =
        read-goes dec broken r r "" kind ("event: " ++ kind) _
          (scan-event dec r "" kind hk (and_left _ _ short))
        ∙ read-goes dec broken r r' kind k ("data: " ++ marshal d) ls
            (scan-data dec r kind (marshal d) hd (and_right _ _ short) ∙ e)
    read-event broken r kind d ls hk hd short (returns o) e =
        read-goes dec broken r r "" kind ("event: " ++ kind) _
          (scan-event dec r "" kind hk (and_left _ _ short))
        ∙ read-returns dec broken r kind ("data: " ++ marshal d) ls o
            (scan-data dec r kind (marshal d) hd (and_right _ _ short) ∙ e)

    module _ (plain : (d : Fields) → one_line (marshal d) ≡ true) where
      read_lines-reading :
          (broken : Bool) (id : String) (fs : List Frame)
          → plain_kinds fs ≡ true
          → all_short marshal fs ≡ true
          → AllDecode dec marshal fs
          → read_lines dec broken (in_session id) "" (body_lines marshal fs) ≡ reading broken id fs
      unfolding body_lines frame_lines reading plain_kinds has_plain_kind all_short is_short
          AllDecode read_lines
      read_lines-reading broken id [] h short dc = refl
      read_lines-reading broken id (comment ∷ fs) h short (_, dc) =
          read-goes dec broken _ _ "" "" ": heartbeat" ("" ∷ body_lines marshal fs)
            (scan-comment dec (in_session id) "")
          ∙ read-goes dec broken _ _ "" "" "" (body_lines marshal fs)
              (scan-blank dec (in_session id) "")
          ∙ read_lines-reading broken id fs h short dc
      read_lines-reading broken id (event kind d ∷ fs) h short ((ds, dc), dcs) =
          let ih = λ (i : String).
            read_lines-reading broken i fs (and_right _ _ h) (and_right _ _ short) dcs in
          let read =
            read-event broken (in_session id) kind d ("" ∷ body_lines marshal fs) (and_left _ _ h)
              (plain d) (and_left _ _ short) in
          elim (Bool-cases (str_eq kind "done")) [
            | inl e ↦ read _ (data-done dec (in_session id) kind (marshal d) e) ∙ rw (e, dc) refl
            | inr n ↦ elim (Bool-cases (str_eq kind "error")) [
              | inl e ↦
                  read _ (data-error dec (in_session id) kind (marshal d) n e) ∙ rw (n, e, dc) refl
              | inr m ↦
                  read _ (data-goes dec (in_session id) kind (marshal d) n m)
                  ∙ read-goes dec broken _ _ "" "" "" (body_lines marshal fs) (scan-blank dec _ "")
                  ∙ ih _
                  ∙ rw (n, m, ds) refl
            ]
          ]

-- What the probe reads of the frames that chatSSE has written is what the frames say: the
-- session of the last session event before the first done or error event, and that event's text,
-- or that there is none of both. The events' kinds are single lines, each written line is
-- shorter than 64 KiB, JSON texts have no line breaks, and the two fields that are read survive
-- the coding.
pub read_chat-reading :
    (dec : Decoder) (marshal : Fields → String) (broken : Bool) (fs : List Frame)
    → ((d : Fields) → one_line (marshal d) ≡ true)
    → plain_kinds fs ≡ true
    → all_short marshal fs ≡ true
    → AllDecode dec marshal fs
    → read_chat dec (answered 200 (body_text marshal fs) broken) ≡ reading broken "" fs
unfolding read_chat
read_chat-reading dec marshal broken fs plain h short decodes =
    ap (read_lines dec broken no_result "") (lines-body marshal plain fs h)
    ∙ read_lines-reading dec marshal plain broken "" fs h short decodes
