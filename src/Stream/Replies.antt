-- ===== src/Stream/Replies.antt =====
-- What a stream that goes on has written: no end, and the texts of its reply.
use astron_claw.Prelude.{
  String, true, false, ◌≡◌, refl, sym, ap, ◌∙◌, subst, Option, none, some, [], ◌∷◌, ◌++◌, str_eq,
  arith, eq_iff,
}
use astron_claw.Json.{Fields}
use astron_claw.Stream.{event, content_text, Stream, note_chunk, add_reply, done, write}
use astron_claw.Stream.Frames.{
  is_end, has_no_end, text_of, texts, is_chunk, has_chunk, has_no_end-snoc, has_chunk-snoc,
  texts-silent, texts-says,
}

-- The reply that is kept for the log is what the chunks have said, and the flag tells whether
-- there was a chunk.
abbrev pub Told : Stream → Type 0
Told s = (s.reply ≡ texts s.frames) × (s.has_chunks ≡ has_chunk s.frames)

-- A stream that goes on.
abbrev pub Open : Stream → Type 0
Open s = (has_no_end s.frames ≡ true) × (s.close_reason ≡ done) × Told s

-- any event but a chunk and an end
pub other_event :
    (kind : String) (d : Fields) (s : Stream)
    → str_eq kind "chunk" ≡ false
    → str_eq kind "error" ≡ false
    → str_eq kind "done" ≡ false
    → Open s
    → Open (write (event kind d) s)
unfolding text_of is_end is_chunk
other_event kind d s nc ne nd (no_end, why, (told, seen)) = (
  has_no_end-snoc s.frames _ no_end (ground arith),
  why,
  (
    told ∙ sym (texts-silent s.frames _ (ground arith)),
    seen ∙ sym (has_chunk-snoc s.frames _ ∙ ground arith),
  ),
)

pub not_other :
    (kind a b : String) → str_eq kind a ≡ true → str_eq a b ≡ false → str_eq kind b ≡ false
not_other kind a b e ne = subst (λ k. str_eq k b ≡ false) (sym ((eq_iff kind a).0 e)) ne

chunk_reply :
    (kind : String) (d : Fields) (s : Stream) (text : Option String)
    → content_text d ≡ text
    → str_eq kind "chunk" ≡ true
    → Open s
    → Open (write (event kind d) (add_reply text (record s { has_chunks = true })))
unfolding add_reply text_of is_end is_chunk
chunk_reply kind d s none e c (no_end, why, (told, seen)) = (
  has_no_end-snoc s.frames _ no_end
      (ground (arith, not_other kind "chunk" "error", not_other kind "chunk" "done")),
  why,
  (
    told ∙ sym (texts-silent s.frames _ (rw (c, e))),
    sym (has_chunk-snoc s.frames _ ∙ ground arith),
  ),
)
chunk_reply kind d s (some t) e c (no_end, why, (told, seen)) = (
  has_no_end-snoc s.frames _ no_end
      (ground (arith, not_other kind "chunk" "error", not_other kind "chunk" "done")),
  why,
  (
    ap (λ ts. ts ++ t ∷ []) told ∙ sym (texts-says s.frames _ (t ∷ []) (rw (c, e))),
    sym (has_chunk-snoc s.frames _ ∙ ground arith),
  ),
)

pub chunk_event :
    (kind : String) (d : Fields) (s : Stream)
    → str_eq kind "chunk" ≡ true
    → Open s
    → Open (write (event kind d) (note_chunk true d s))
unfolding note_chunk
chunk_event kind d s c h = chunk_reply kind d s (content_text d) refl c h
