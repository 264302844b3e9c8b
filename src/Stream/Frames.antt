-- ===== src/Stream/Frames.antt =====
-- What the frames of a stream say: which end it, and the texts that they carry.
use astron_claw.Prelude.{
  String, Bool, true, false, not, ◌&&◌, ◌||◌, ◌≡◌, sym, ap, ◌∙◌, Option, none, some, List, [], ◌∷◌,
  ◌++◌, str_eq, if◌then◌else◌, arith, ++_nil, ++_assoc,
}
use astron_claw.Stream.{Frame, event, comment, content_text}

-- an event after which the handler writes nothing
unfoldable pub is_end : Frame → Bool
is_end (event kind d) = str_eq kind "error" || str_eq kind "done"
is_end comment = false

unfoldable pub has_no_end : List Frame → Bool
has_no_end [] = true
has_no_end (f ∷ fs) = not (is_end f) && has_no_end fs

abbrev pub opt_list : Option String → List String
opt_list none = []
opt_list (some t) = t ∷ []

-- the text of a chunk
unfoldable pub text_of : Frame → List String
text_of (event kind d) = if str_eq kind "chunk" then opt_list (content_text d) else []
text_of comment = []

-- the texts of the chunks, in the order of writing
unfoldable pub texts : List Frame → List String
texts [] = []
texts (f ∷ fs) = text_of f ++ texts fs

unfoldable pub is_chunk : Frame → Bool
is_chunk (event kind d) = str_eq kind "chunk"
is_chunk comment = false

unfoldable pub has_chunk : List Frame → Bool
has_chunk [] = false
has_chunk (f ∷ fs) = is_chunk f || has_chunk fs

pub has_no_end-snoc :
    (fs : List Frame) (f : Frame)
    → has_no_end fs ≡ true
    → is_end f ≡ false
    → has_no_end (fs ++ f ∷ []) ≡ true
unfolding has_no_end
has_no_end-snoc [] f _ e = simp e
has_no_end-snoc (x ∷ fs) f h e = ground (arith, has_no_end-snoc fs f)

pub texts-snoc : (fs : List Frame) (f : Frame) → texts (fs ++ f ∷ []) ≡ texts fs ++ text_of f
unfolding texts
texts-snoc [] f = ++_nil (text_of f)
texts-snoc (x ∷ fs) f =
    ap (λ ts. text_of x ++ ts) (texts-snoc fs f) ∙ sym (++_assoc (text_of x) (texts fs) (text_of f))

pub has_chunk-snoc :
    (fs : List Frame) (f : Frame) → has_chunk (fs ++ f ∷ []) ≡ (has_chunk fs || is_chunk f)
unfolding has_chunk
has_chunk-snoc [] f = ground arith
has_chunk-snoc (x ∷ fs) f = ground (arith, has_chunk-snoc fs f)

pub texts-says :
    (fs : List Frame) (f : Frame) (ts : List String)
    → text_of f ≡ ts
    → texts (fs ++ f ∷ []) ≡ texts fs ++ ts
texts-says fs f ts e = texts-snoc fs f ∙ ap (λ us. texts fs ++ us) e

pub texts-silent : (fs : List Frame) (f : Frame) → text_of f ≡ [] → texts (fs ++ f ∷ []) ≡ texts fs
texts-silent fs f e = texts-says fs f [] e ∙ ++_nil (texts fs)
