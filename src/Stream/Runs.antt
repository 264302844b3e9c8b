-- ===== src/Stream/Runs.antt =====
-- The rounds of a stream, from its first event to the return of its handler.
use astron_claw.Prelude.{
  ℕ, String, Bool, true, false, ◌≡◌, inl, inr, refl, sym, ◌∙◌, subst, Option, none, some, List, [],
  ◌∷◌, str_eq, if◌then◌else◌, arith, Bool-cases,
}
use astron_claw.Prelude.Int.{ℤ, ltb_ℤ}
use astron_claw.Json.{Fields, delete, field, end, str}
use astron_claw.Stream.{
  event, comment, content_text, Stream, Round, go_on, stop, Tick, Signal, Consumed, quiet,
  client_done, bot_gone, failed, nothing, message, deliver, inject, dispatch, receive, round, run,
  beat, close_with, close_client, on_signal, CloseReason, bot_disconnect, timeout, error,
  event_data, kind_of, write, start,
}
use astron_claw.Stream.Frames.{
  is_end, has_no_end, text_of, texts, is_chunk, has_chunk, has_no_end-snoc, has_chunk-snoc,
  texts-silent,
}
use astron_claw.Stream.Replies.{Open, other_event, chunk_event, not_other}
use astron_claw.Stream.Ending.{
  Ended, Kept, deliver-chunk, deliver-error, deliver-done, deliver-other, done_end, done_frames,
  has_chunk_last, said, error_end, is_failure,
}

done-Kept :
    (kind : String) (d : Fields) (s : Stream) (seen : Bool)
    → str_eq kind "done" ≡ true
    → s.has_chunks ≡ seen
    → Open s
    → Ended (write (event kind d) (if seen then s else inject (content_text d) s))
done-Kept kind d s true c e (no_end, why, (told, seen)) =
    done_frames kind d s c no_end why told
      (has_chunk_last (str_eq (said (content_text d)) "") _ (sym seen ∙ e))
done-Kept kind d s false c e h = done_end kind d s (content_text d) refl c h

deliver-Kept : (kind : String) (d : Fields) (s : Stream) → Open s → Kept (deliver kind d s)
deliver-Kept kind d s h = elim (Bool-cases (str_eq kind "chunk")) [
  | inl c ↦
      subst Kept
        (sym (
          deliver-chunk kind d s c (not_other kind "chunk" "done" c refl)
            (not_other kind "chunk" "error" c refl)))
        (chunk_event kind d s c h)
  | inr nc ↦ elim (Bool-cases (str_eq kind "done")) [
    | inl c ↦
        subst Kept
          (sym
            (deliver-done kind d s s.has_chunks nc c (not_other kind "done" "error" c refl) refl))
          (done-Kept kind d s s.has_chunks c refl h)
    | inr nd ↦ elim (Bool-cases (str_eq kind "error")) [
      | inl c ↦ subst Kept (sym (deliver-error kind d s nc nd c)) (error_end kind d s c h)
      | inr ne ↦
          subst Kept (sym (deliver-other kind d s nc nd ne)) (other_event kind d s nc ne nd h)
    ]
  ]
]

data_Kept :
    (kind : String) (found : Option Fields) (s : Stream)
    → Open s
    → Kept (elim found [ none ↦ go_on s | some d ↦ deliver kind d s ])
data_Kept kind none s h = h
data_Kept kind (some d) s h = deliver-Kept kind d s h

dispatch-Kept : (ev : Option Fields) (s : Stream) → Open s → Kept (dispatch ev s)
unfolding dispatch
dispatch-Kept none s h = h
dispatch-Kept (some ev) s h =
    data_Kept (kind_of ev) (event_data (kind_of ev) (delete "type" ev)) s h

close_client-Ended : (s : Stream) → Open s → Ended (close_client s)
unfolding close_client
close_client-Ended s (no_end, why, (told, seen)) = (told, (s.frames, no_end, inl (refl, refl)))

close_with-Ended :
    (reason : CloseReason) (code : ℕ) (text : String) (s : Stream)
    → is_failure reason ≡ true
    → Open s
    → Ended (close_with reason code text s)
unfolding close_with text_of
close_with-Ended reason code text s e (no_end, why, (told, seen)) = (
  told ∙ sym (texts-silent s.frames _ refl),
  (s.frames, no_end, inr (inr (field "content" (str text) end, (e, refl)))),
)

on_signal-Kept : (g : Signal) (s : Stream) (r : Round) → Open s → Kept r → Kept (on_signal g s r)
unfolding on_signal is_failure
on_signal-Kept quiet s r h k = k
on_signal-Kept client_done s r h k = close_client-Ended s h
on_signal-Kept bot_gone s r h k = close_with-Ended bot_disconnect 10201 "No bot connected" s refl h

if_keeps {ℓ} :
    {A : Type ℓ} (P : A → Type 0) (b : Bool) (x y : A) → P x → P y → P (if b then x else y)
if_keeps P true x y p q = p
if_keeps P false x y p q = q

beat-Open : (now : ℤ) (s : Stream) → Open s → Open (beat now s)
unfolding beat is_end text_of is_chunk
beat-Open now s (no_end, why, (told, seen)) =
    if_keeps Open _ _ _ (no_end, why, (told, seen))
      (
        has_no_end-snoc s.frames comment no_end refl,
        why,
        (
          told ∙ sym (texts-silent s.frames comment refl),
          seen ∙ sym (has_chunk-snoc s.frames comment ∙ ground arith),
        ),
      )

next_Kept :
    (r : Round) (rest : Stream → Round)
    → Kept r
    → ((s : Stream) → Open s → Kept (rest s))
    → Kept (elim r [ go_on s ↦ rest s | stop s ↦ stop s ])
next_Kept (go_on s) rest k f = f s k
next_Kept (stop s) rest k f = k

module _ (unmarshal : String → Option Fields) where
  receive-Kept :
      (c : Consumed) (late : Signal) (later : ℤ) (s : Stream)
      → Open s
      → Kept (receive unmarshal c late later s)
  unfolding receive is_failure
  receive-Kept failed late later s h = close_with-Ended error 10205 "Internal server error" s refl h
  receive-Kept nothing late later s h = on_signal-Kept late s _ h (beat-Open later s h)
  receive-Kept (message id text) late later s h = dispatch-Kept (unmarshal text) _ h

  round-Kept : (t : Tick) (s : Stream) → Open s → Kept (round unmarshal t s)
  unfolding round is_failure
  round-Kept t s h = on_signal-Kept t.signal s _ h (
      if_keeps Kept (ltb_ℤ s.deadline t.now) (stop (close_with timeout 10204 "Stream timeout" s)) _
        (close_with-Ended timeout 10204 "Stream timeout" s refl h)
        (receive-Kept t.consumed t.late_signal t.later s h))

  run-Kept : (ts : List Tick) (s : Stream) → Open s → Kept (run unmarshal ts s)
  unfolding run
  run-Kept [] s h = h
  run-Kept (t ∷ ts) s h = next_Kept (round unmarshal t s) _ (round-Kept t s h) (run-Kept ts)

start-Open : (id : String) (number now : ℤ) → Open (start id number now)
unfolding has_no_end is_end texts text_of has_chunk is_chunk
start-Open id number now = (refl, refl, (refl, refl))

module _ (unmarshal : String → Option Fields) where
  -- However a stream runs from its session event: while it goes on, it has written no event of
  -- the kinds "done" and "error". When its handler has returned, either the client had left and
  -- there is none, or there is one and it is the last frame: "error" with the close reason of a
  -- failure, or "done" with the close reason done, and then, if it has a text, a chunk stands
  -- before it. The reply kept is the texts of the chunks written, in their order.
  pub stream-Kept :
      (id : String) (number now : ℤ) (ticks : List Tick)
      → Kept (run unmarshal ticks (start id number now))
  stream-Kept id number now ticks = run-Kept unmarshal ticks _ (start-Open id number now)
