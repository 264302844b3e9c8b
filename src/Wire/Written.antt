-- ===== src/Wire/Written.antt =====
-- The lines of what is written to a client.
use Prim.Native.String.{◌++◌}
use text.Mathlib.TextLemmas.{append_assoc, nil-append}
use astron_claw.Prelude.{String, Bool, true, ◌&&◌, ◌≡◌, refl, sym, ap, ◌∙◌, List, [], ◌∷◌}
use astron_claw.Json.{Fields}
use astron_claw.Stream.{Frame, event, comment}
use astron_claw.Text.{lines_of, one_line}
use astron_claw.Text.Lines.{lines_of-line, one_line-append, and_left, and_right}
use astron_claw.Wire.{format_sse_event, format_sse_comment, frame_text, body_text}

-- the lines of a frame, each of them ended
unfoldable pub frame_lines : (Fields → String) → Frame → List String → List String
frame_lines marshal (event kind d) rest = ("event: " ++ kind) ∷ ("data: " ++ marshal d) ∷ "" ∷ rest
frame_lines marshal comment rest = ": heartbeat" ∷ "" ∷ rest

unfoldable pub body_lines : (Fields → String) → List Frame → List String
unfolding frame_lines
body_lines marshal [] = []
body_lines marshal (f ∷ fs) = frame_lines marshal f (body_lines marshal fs)

-- the kind of a frame is one line
unfoldable pub has_plain_kind : Frame → Bool
has_plain_kind (event kind d) = one_line kind
has_plain_kind comment = true

unfoldable pub plain_kinds : List Frame → Bool
plain_kinds [] = true
plain_kinds (f ∷ fs) = has_plain_kind f && plain_kinds fs

blank_line : (rest : String) → lines_of ("\n" ++ rest) ≡ "" ∷ lines_of rest
unfolding one_line
blank_line rest = ap lines_of (sym (nil-append ("\n" ++ rest))) ∙ lines_of-line "" rest refl

-- a text after two ends of lines
two_ends :
    (l rest : String)
    → one_line l ≡ true
    → lines_of ((l ++ "\n\n") ++ rest) ≡ l ∷ "" ∷ lines_of rest
two_ends l rest h =
    ap lines_of (append_assoc l "\n\n" rest ∙ ap (λ t. l ++ t) (append_assoc "\n" "\n" rest))
    ∙ lines_of-line l ("\n" ++ rest) h
    ∙ ap (λ ls. l ∷ ls) (blank_line rest)

event_text :
    (kind text rest : String)
    → format_sse_event kind text ++ rest
      ≡ ("event: " ++ kind) ++ ("\n" ++ ((("data: " ++ text) ++ "\n\n") ++ rest))
unfolding format_sse_event
event_text kind text rest =
    let body = text ++ "\n\n" in
    append_assoc "event: " (kind ++ ("\ndata: " ++ body)) rest
    ∙ ap (λ t. "event: " ++ t)
        (append_assoc kind ("\ndata: " ++ body) rest
          ∙ ap (λ t. kind ++ t)
              (ap (λ t. t ++ rest) (append_assoc "\n" "data: " body)
                ∙ append_assoc "\n" ("data: " ++ body) rest
                ∙ ap (λ t. "\n" ++ (t ++ rest)) (sym (append_assoc "data: " text "\n\n"))))
    ∙ sym (append_assoc "event: " kind ("\n" ++ ((("data: " ++ text) ++ "\n\n") ++ rest)))

lines-event :
    (kind text rest : String)
    → one_line kind ≡ true
    → one_line text ≡ true
    → lines_of (format_sse_event kind text ++ rest)
      ≡ ("event: " ++ kind) ∷ ("data: " ++ text) ∷ "" ∷ lines_of rest
unfolding one_line
lines-event kind text rest hk ht =
    ap lines_of (event_text kind text rest)
    ∙ lines_of-line ("event: " ++ kind) ((("data: " ++ text) ++ "\n\n") ++ rest)
        (one_line-append "event: " kind ∙ hk)
    ∙ ap (λ ls. ("event: " ++ kind) ∷ ls)
        (two_ends ("data: " ++ text) rest (one_line-append "data: " text ∙ ht))

module _ (marshal : Fields → String) (plain : (d : Fields) → one_line (marshal d) ≡ true) where
  pub lines-body :
      (fs : List Frame)
      → plain_kinds fs ≡ true
      → lines_of (body_text marshal fs) ≡ body_lines marshal fs
  unfolding body_text frame_text body_lines frame_lines plain_kinds has_plain_kind one_line lines_of
      format_sse_comment
  lines-body [] h = refl
  lines-body (event kind d ∷ fs) h =
      lines-event kind (marshal d) (body_text marshal fs) (and_left _ _ h) (plain d)
      ∙ ap (λ ls. ("event: " ++ kind) ∷ ("data: " ++ marshal d) ∷ "" ∷ ls)
          (lines-body fs (and_right _ _ h))
  lines-body (comment ∷ fs) h =
      two_ends ": heartbeat" (body_text marshal fs) refl
      ∙ ap (λ ls. ": heartbeat" ∷ "" ∷ ls) (lines-body fs h)
