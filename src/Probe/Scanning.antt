-- ===== src/Probe/Scanning.antt =====
-- What the probe does with each line that chatSSE writes.
use Prim.Native.String.{len, ◌++◌}
use text.Mathlib.TextPositions.{starts_with-append}
use astron_claw.Prelude.{
  String, Bool, true, false, ◌≡◌, refl, ap, ◌∙◌, List, ◌∷◌, ltb, str_eq, if◌then◌else◌, Bool-cases,
  inl, inr,
}
use astron_claw.Stream.Replies.{not_other}
use astron_claw.Text.{drop_cr, one_line}
use astron_claw.Text.Lines.{
  drop_cr-one_line, one_line-append, trim_prefix-append, starts_with-diverge,
}
use astron_claw.Keys.{diverge}
use astron_claw.Probe.{
  Decoder, ChatResult, Outcome, result, goes, returns, on_data, on_line, scan, read_lines, max_line,
}

module _ (dec : Decoder) where
  scan-short :
      (r : ChatResult) (kind l : String)
      → one_line l ≡ true
      → ltb (len l) max_line ≡ true
      → scan dec r kind l ≡ on_line dec r kind l
  unfolding scan
  scan-short r kind l h short = rw (short, drop_cr-one_line l h) refl

  pub scan-event :
      (r : ChatResult) (kind k : String)
      → one_line k ≡ true
      → ltb (len ("event: " ++ k)) max_line ≡ true
      → scan dec r kind ("event: " ++ k) ≡ goes r k
  unfolding on_line one_line
  scan-event r kind k h short =
      scan-short r kind ("event: " ++ k) (one_line-append "event: " k ∙ h) short
      ∙ rw (starts_with-append "event: " k) (ap (λ t. goes r t) (trim_prefix-append "event: " k))

  pub scan-data :
      (r : ChatResult) (kind text : String)
      → one_line text ≡ true
      → ltb (len ("data: " ++ text)) max_line ≡ true
      → scan dec r kind ("data: " ++ text) ≡ on_data dec r kind text
  unfolding on_line one_line diverge
  scan-data r kind text h short =
      scan-short r kind ("data: " ++ text) (one_line-append "data: " text ∙ h) short
      ∙ rw (starts_with-diverge "event: " "data: " text refl, starts_with-append "data: " text)
          (ap (λ t. on_data dec r kind t) (trim_prefix-append "data: " text))

  pub scan-blank : (r : ChatResult) (kind : String) → scan dec r kind "" ≡ goes r kind
  unfolding scan on_line drop_cr
  scan-blank r kind = refl

  pub scan-comment : (r : ChatResult) (kind : String) → scan dec r kind ": heartbeat" ≡ goes r kind
  unfolding scan on_line drop_cr
  scan-comment r kind = refl

  pub data-done :
      (r : ChatResult) (kind text : String)
      → str_eq kind "done" ≡ true
      → on_data dec r kind text ≡ returns (result (record r { content = dec.content_of text }))
  unfolding on_data
  data-done r kind text e = rw (not_other kind "done" "session" e refl, e) refl

  pub data-error :
      (r : ChatResult) (kind text : String)
      → str_eq kind "done" ≡ false
      → str_eq kind "error" ≡ true
      → on_data dec r kind text
        ≡ returns (result (record r { has_error = true; error_msg = dec.content_of text }))
  unfolding on_data
  data-error r kind text n e = rw (not_other kind "error" "session" e refl, n, e) refl

  pub data-goes :
      (r : ChatResult) (kind text : String)
      → str_eq kind "done" ≡ false
      → str_eq kind "error" ≡ false
      → on_data dec r kind text
        ≡ goes
            (record r {
              session_id = if str_eq kind "session" then dec.session_id_of text else r.session_id;
            })
            ""
  unfolding on_data
  data-goes r kind text n m = elim (Bool-cases (str_eq kind "session")) [
    | inl e ↦ rw (e) refl
    | inr e ↦ rw (e, n, m) refl
  ]

  pub read-goes :
      (broken : Bool) (r r' : ChatResult) (kind kind' l : String) (ls : List String)
      → scan dec r kind l ≡ goes r' kind'
      → read_lines dec broken r kind (l ∷ ls) ≡ read_lines dec broken r' kind' ls
  unfolding read_lines
  read-goes broken r r' kind kind' l ls e = rw (e, read_lines) refl

  pub read-returns :
      (broken : Bool) (r : ChatResult) (kind l : String) (ls : List String) (o : Outcome)
      → scan dec r kind l ≡ returns o
      → read_lines dec broken r kind (l ∷ ls) ≡ o
  unfolding read_lines
  read-returns broken r kind l ls o e = rw (e, read_lines) refl
