-- ===== src/Stream/Ending.antt =====
-- What a stream has written when its handler returns.
use astron_claw.Prelude.{
  String, Bool, true, false, ◌||◌, ◌≡◌, ◌⊎◌, inl, inr, refl, sym, ap, ◌∙◌, subst, Option, none,
  some, List, [], ◌∷◌, ◌++◌, str_eq, if◌then◌else◌, arith, eq_iff, Bool-cases,
}
use astron_claw.Json.{Fields, get}
use astron_claw.Stream.{
  Frame, event, content_text, Stream, Round, go_on, stop, deliver, note_chunk, inject_if, inject,
  finish, CloseReason, done, client_disconnect, bot_disconnect, timeout, error, write_error,
  chunk_frame, write,
}
use astron_claw.Stream.Frames.{
  is_end, has_no_end, text_of, texts, is_chunk, has_chunk, has_no_end-snoc, has_chunk-snoc,
  texts-silent, texts-says,
}
use astron_claw.Stream.Replies.{Open, not_other}

-- whether a reason stands for a failure that is told to the client
unfoldable pub is_failure : CloseReason → Bool
is_failure bot_disconnect = true
is_failure timeout = true
is_failure error = true
is_failure done = false
is_failure client_disconnect = false
is_failure write_error = false

abbrev pub said : Option String → String
said none = ""
said (some t) = t

-- a `done` event that ends the frames, after a chunk if it has a text
abbrev pub EndsDone : Stream → List Frame → Fields → Type 0
EndsDone s before d =
    (s.close_reason ≡ done)
    × (s.frames ≡ before ++ event "done" d ∷ [])
    × ((str_eq (said (content_text d)) "" || has_chunk before) ≡ true)

-- an `error` event that ends the frames
abbrev pub EndsFailed : Stream → List Frame → Fields → Type 0
EndsFailed s before d =
    (is_failure s.close_reason ≡ true) × (s.frames ≡ before ++ event "error" d ∷ [])

-- A stream whose handler has returned: what the client has read before the end, and the end.
abbrev pub Ended : Stream → Type 0
Ended s =
    (s.reply ≡ texts s.frames)
    × ((before : List Frame) × (has_no_end before ≡ true)
        × ((s.close_reason ≡ client_disconnect) × (s.frames ≡ before)
            ⊎ ((d : Fields) × EndsDone s before d)
            ⊎ ((d : Fields) × EndsFailed s before d)))

-- the last frame by the name that its kind equals
pub named :
    (kind k : String) (fs : List Frame) (d : Fields)
    → str_eq kind k ≡ true
    → fs ++ event kind d ∷ [] ≡ fs ++ event k d ∷ []
named kind k fs d e = ap (λ n. fs ++ event n d ∷ []) ((eq_iff kind k).0 e)

pub has_chunk_last : (b c : Bool) → c ≡ true → (b || c) ≡ true
has_chunk_last b c e = ground arith

pub error_end :
    (kind : String) (d : Fields) (s : Stream)
    → str_eq kind "error" ≡ true
    → Open s
    → Ended (record (write (event kind d) s) { close_reason = error; code = 10700 })
unfolding text_of is_failure
error_end kind d s e (no_end, why, (told, seen)) = (
  told ∙ sym (texts-silent s.frames _ (ground (arith, not_other kind "error" "chunk"))),
  (s.frames, no_end, inr (inr (d, (refl, named kind "error" s.frames d e)))),
)

inject-empty : (t : String) (s : Stream) → str_eq t "" ≡ true → inject (some t) s ≡ s
unfolding inject
inject-empty t s e = simp e

inject-full :
    (t : String) (s : Stream)
    → str_eq t "" ≡ false
    → inject (some t) s
      ≡ record s { reply = s.reply ++ t ∷ []; frames = s.frames ++ chunk_frame t ∷ [] }
unfolding inject
inject-full t s e = simp e

pub done_frames :
    (kind : String) (d : Fields) (s : Stream)
    → str_eq kind "done" ≡ true
    → has_no_end s.frames ≡ true
    → s.close_reason ≡ done
    → s.reply ≡ texts s.frames
    → (str_eq (said (content_text d)) "" || has_chunk s.frames) ≡ true
    → Ended (write (event kind d) s)
unfolding text_of
done_frames kind d s c no_end why told spoken = (
  told ∙ sym (texts-silent s.frames _ (ground (arith, not_other kind "done" "chunk"))),
  (s.frames, no_end, inr (inl (d, (why, named kind "done" s.frames d c, spoken)))),
)

pub done_end :
    (kind : String) (d : Fields) (s : Stream) (text : Option String)
    → content_text d ≡ text
    → str_eq kind "done" ≡ true
    → Open s
    → Ended (write (event kind d) (inject text s))
unfolding inject text_of is_end is_chunk content_text get
done_end kind d s none e c (no_end, why, (told, seen)) =
    done_frames kind d s c no_end why told
      (ap (λ (o : Option String). str_eq (said o) "" || has_chunk s.frames) e)
done_end kind d s (some t) e c (no_end, why, (told, seen)) = elim (Bool-cases (str_eq t "")) [
  | inl empty ↦
      subst (λ s'. Ended (write (event kind d) s')) (sym (inject-empty t s empty))
        (done_frames kind d s c no_end why told
          (ap (λ (o : Option String). str_eq (said o) "" || has_chunk s.frames) e ∙ ground arith))
  | inr full ↦
      subst (λ s'. Ended (write (event kind d) s')) (sym (inject-full t s full))
        (done_frames kind d
          (record s { reply = s.reply ++ t ∷ []; frames = s.frames ++ chunk_frame t ∷ [] }) c
          (has_no_end-snoc s.frames _ no_end refl) why
          (ap (λ ts. ts ++ t ∷ []) told ∙ sym (texts-says s.frames (chunk_frame t) (t ∷ []) refl))
          (has_chunk_last (str_eq (said (content_text d)) "") _
            (has_chunk-snoc s.frames _ ∙ ground arith)))
]

-- what a round makes of a stream
abbrev pub Kept : Round → Type 0
Kept (go_on s) = Open s
Kept (stop s) = Ended s

pub deliver-chunk :
    (kind : String) (d : Fields) (s : Stream)
    → str_eq kind "chunk" ≡ true
    → str_eq kind "done" ≡ false
    → str_eq kind "error" ≡ false
    → deliver kind d s ≡ go_on (write (event kind d) (note_chunk true d s))
unfolding deliver inject_if finish
deliver-chunk kind d s c nd ne = simp (c, nd, ne)

pub deliver-error :
    (kind : String) (d : Fields) (s : Stream)
    → str_eq kind "chunk" ≡ false
    → str_eq kind "done" ≡ false
    → str_eq kind "error" ≡ true
    → deliver kind d s
      ≡ stop (record (write (event kind d) s) { close_reason = error; code = 10700 })
unfolding deliver note_chunk inject_if finish
deliver-error kind d s nc nd e = simp (nc, nd, e)

pub deliver-done :
    (kind : String) (d : Fields) (s : Stream) (seen : Bool)
    → str_eq kind "chunk" ≡ false
    → str_eq kind "done" ≡ true
    → str_eq kind "error" ≡ false
    → s.has_chunks ≡ seen
    → deliver kind d s ≡ stop (write (event kind d) (if seen then s else inject (content_text d) s))
unfolding deliver note_chunk inject_if finish
deliver-done kind d s true nc c ne seen = simp (nc, c, ne, seen)
deliver-done kind d s false nc c ne seen = simp (nc, c, ne, seen)

pub deliver-other :
    (kind : String) (d : Fields) (s : Stream)
    → str_eq kind "chunk" ≡ false
    → str_eq kind "done" ≡ false
    → str_eq kind "error" ≡ false
    → deliver kind d s ≡ go_on (write (event kind d) s)
unfolding deliver note_chunk inject_if finish
deliver-other kind d s nc nd ne = simp (nc, nd, ne)
