-- ===== src/Media/Stored.antt =====
-- What an upload that is answered with a URL has put into the object storage.
use Prim.Native.String.{◌++◌ as ◌+++◌}
use astron_claw.Prelude.{
  ℕ, String, ◌≡◌, ◌≢◌, refl, sym, ap, ◌∙◌, Bool, true, false, not, ◌&&◌, ◌||◌, Option, none, some,
  List, if◌then◌else◌, str_eq, starts_with,
}
use astron_claw.Prelude.Int.{ℤ, pos, ltb_ℤ}
use astron_claw.Media.{
  Reader, ObjectStorage, StorageBody, MediaResult, StoreOutcome, stored, refused, Upload,
  UploadAnswer, uploaded, error, respond, StoreError, file_too_large, file_empty, mime_rejected,
  read_failed, rewind_failed, put_failed, is_mime_allowed, max_file_size, safe_name, is_generic,
  or_new, or_text, rewind_for_storage, put_body, store_sniffed, store, upload_media,
}
use astron_claw.Media.Put.{
  ReaderLaws, pair_path, delivers, Put, put_body-Put, rewind-delivers, safe_name-plain,
}

respond-uploaded : (o : StoreOutcome) (r : MediaResult) → respond o ≡ uploaded r → o ≡ stored r
respond-uploaded (stored q) r h = cc h
respond-uploaded (refused file_too_large) r h = absurd (cc h)
respond-uploaded (refused file_empty) r h = absurd (cc h)
respond-uploaded (refused mime_rejected) r h = absurd (cc h)
respond-uploaded (refused read_failed) r h = absurd (cc h)
respond-uploaded (refused rewind_failed) r h = absurd (cc h)
respond-uploaded (refused put_failed) r h = absurd (cc h)

refused_if :
    {S : Type 0} (e : StoreError) (b : Bool) (out : StoreOutcome × S) (r : MediaResult) (t t' : S)
    → ◌≡◌ {A = StoreOutcome × S} (if b then (refused e, t) else out) (stored r, t')
    → (b ≡ false) × ◌≡◌ {A = StoreOutcome × S} out (stored r, t')
refused_if e true out r t t' h = absurd (cc (ap (λ x. x.0) h))
refused_if e false out r t t' h = (refl, h)

allowed_if :
    {S : Type 0} (e : StoreError) (b : Bool) (out : StoreOutcome × S) (r : MediaResult) (t t' : S)
    → ◌≡◌ {A = StoreOutcome × S} (if b then out else (refused e, t)) (stored r, t')
    → (b ≡ true) × ◌≡◌ {A = StoreOutcome × S} out (stored r, t')
allowed_if e true out r t t' h = (refl, h)
allowed_if e false out r t t' h = absurd (cc (ap (λ x. x.0) h))

answered_if :
    {S : Type 0} (b : Bool) (out : StoreOutcome × S) (r : MediaResult) (t t' : S)
    → ◌≡◌ {A = UploadAnswer × S}
        (if b then (error 10300, t) else (respond out.0, out.1))
        (uploaded r, t')
    → out ≡ (stored r, t')
answered_if true out r t t' h = absurd (cc (ap (λ x. x.0) h))
answered_if false out r t t' h =
    pair_path (respond-uploaded out.0 r (ap (λ x. x.0) h)) (ap (λ x. x.1) h)

module _ (B : Reader) (T : ObjectStorage B.State) (detect : List ℕ → String)
    (base : String → String) (content unread : B.State → List ℕ)
    (L : ReaderLaws B content unread) where
  -- an upload, and the result that it was answered with
  pub record Stored (u : Upload B.State) (r : MediaResult) (t t' : T.Store) : Type 0 where
    pub body : StorageBody B.State
    pub put :
        T.put (r.session_id +++ ("/" +++ r.file_name)) body r.mime_type r.file_size t
        ≡ (some r.download_url, t')
    pub whole : delivers B T detect base content unread L body ≡ content u.body
    pub allowed : is_mime_allowed r.mime_type ≡ true
    pub plain : (str_eq r.file_name "" || starts_with r.file_name ".") ≡ false
    pub size : r.file_size ≡ u.size
    pub limited : ltb_ℤ max_file_size u.size ≡ false
    pub not_empty : u.size ≢ pos 0

  sniffed-Put :
      (uuid name : String) (size : ℤ) (declared session : String) (s : B.State) (r : MediaResult)
      (t t' : T.Store) (o : Option (List ℕ)) (e : (B.read_first s).0 ≡ o)
      → store_sniffed B T detect base uuid name size declared session (o, (B.read_first s).1) t
        ≡ (stored r, t')
      → (sniffed : List ℕ) × ((B.read_first s).0 ≡ some sniffed)
        × (mime : String) × (is_mime_allowed mime ≡ true)
        × Put B T detect base content unread L
            (safe_name (base name))
            size
            mime
            (or_new uuid session)
            (rewind_for_storage B T detect base sniffed (B.read_first s).1)
            r
            t
            t'
  unfolding store_sniffed
  sniffed-Put uuid name size declared session s r t t' none e h = absurd (cc (ap (λ x. x.0) h))
  sniffed-Put uuid name size declared session s r t t' (some sniffed) e h =
      let mime = if is_generic declared then detect sniffed else declared in
      let (allowed, done) =
        allowed_if mime_rejected (is_mime_allowed mime)
          (put_body B T detect base (safe_name (base name)) size mime (or_new uuid session)
            (rewind_for_storage B T detect base sniffed (B.read_first s).1) t)
          r t t' h in
      (
        sniffed,
        e,
        mime,
        allowed,
        put_body-Put B T detect base content unread L (safe_name (base name)) size mime
            (or_new uuid session) (rewind_for_storage B T detect base sniffed (B.read_first s).1) r
            t t' done,
      )

  store-Stored :
      (uuid : String) (u : Upload B.State) (name declared : String) (r : MediaResult)
      (t t' : T.Store)
      → unread u.body ≡ content u.body
      → store B T detect base uuid u.body name u.size declared u.session_id t ≡ (stored r, t')
      → Stored u r t t'
  unfolding store
  store-Stored uuid u name declared r t t' start h =
      let (small, h1) = refused_if file_too_large (ltb_ℤ max_file_size u.size) _ r t t' h in
      let (some_bytes, h2) =
        refused_if file_empty (not (ltb_ℤ u.size (pos 0)) && not (ltb_ℤ (pos 0) u.size)) _ r t t'
          h1 in
      let (sniffed, e, mime, allowed, p) =
        sniffed-Put uuid name u.size declared u.session_id u.body r t t' (B.read_first u.body).0
          refl h2 in
      let whole = sym (L.read_first-content u.body) in
      record {
        body = p.body;
        put = p.put;
        whole =
            rewind-delivers B T detect base content unread L sniffed (B.read_first u.body).1 p.body
              (L.read_first-content u.body ∙ sym start ∙ L.read_first-ok sniffed u.body e) p.given
            ∙ L.read_first-content u.body;
        allowed = ap (λ (x : MediaResult). is_mime_allowed x.mime_type) p.same ∙ allowed;
        plain =
            ap (λ (x : MediaResult). str_eq x.file_name "" || starts_with x.file_name ".") p.same
            ∙ safe_name-plain (base name);
        size = ap (λ (x : MediaResult). x.file_size) p.same;
        limited = small;
        not_empty = λ z.
            absurd
              (cc (sym some_bytes ∙ ap (λ n. not (ltb_ℤ n (pos 0)) && not (ltb_ℤ (pos 0) n)) z));
      }

  -- An upload that is answered with a result has put one object into the storage, under the
  -- result's session and file name, with its type and size: the object has all bytes of the
  -- body, also those that were read to find the type, its type is allowed, its size is that of
  -- the file, not zero and at most 500 MB, and its name is neither empty nor begins with a dot.
  -- The body is taken to be at its start.
  pub upload_media-Stored :
      (uuid : String) (u : Upload B.State) (r : MediaResult) (t t' : T.Store)
      → unread u.body ≡ content u.body
      → upload_media B T detect base uuid (some u) t ≡ (uploaded r, t')
      → Stored u r t t'
  unfolding upload_media
  upload_media-Stored uuid u r t t' start h =
      store-Stored uuid u (or_text "unnamed" u.file_name)
        (or_text "application/octet-stream" u.content_type) r t t' start
        (answered_if (ltb_ℤ max_file_size u.size) _ r t t' h)
