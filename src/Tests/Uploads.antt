-- ===== src/Tests/Uploads.antt =====
-- The witness on uploads.
use astron_claw.Prelude.{
  ℕ, String, ◌≡◌, refl, ap, sym, Bool, true, false, Option, none, some, List, [], ◌∷◌, ◌++◌,
}
use astron_claw.Prelude.Int.{pos}
use astron_claw.Media.{
  Reader, ObjectStorage, MediaResult, Upload, upload_media, store, store_sniffed, put_body,
  rewind_for_storage, safe_name, is_mime_allowed, any_prefix,
}
use astron_claw.Media.Put.{ReaderLaws}
use astron_claw.Media.Stored.{Stored, upload_media-Stored}

-- a body that cannot seek: the first byte has been read, or not
abbrev Body : Type 0
Body = Bool × (ℕ × List ℕ)

abbrev first : Body → Option (List ℕ) × Body
first (false, (b, bs)) = (some (b ∷ []), (true, (b, bs)))
first (true, (b, bs)) = (none, (true, (b, bs)))

abbrev content : Body → List ℕ
content (r, (b, bs)) = b ∷ bs

abbrev unread : Body → List ℕ
unread (false, (b, bs)) = b ∷ bs
unread (true, (b, bs)) = bs

abbrev body_reader : Reader
body_reader = record {
  State = Body;
  read_first = first;
  seek_start = λ s. none;
  read_all = λ s. (some (unread s), s);
}

first-ok : (bs : List ℕ) (s : Body) → (first s).0 ≡ some bs → unread s ≡ bs ++ unread (first s).1
first-ok bs (false, (b, rest)) h = ap (λ x. x ++ rest) (same h)
  where
    same : some (b ∷ []) ≡ some bs → b ∷ [] ≡ bs
    same e = cc
first-ok bs (true, (b, rest)) h = absurd (cc h)

first-content : (s : Body) → content (first s).1 ≡ content s
first-content (false, (b, rest)) = refl
first-content (true, (b, rest)) = refl

body_laws : ReaderLaws body_reader content unread
body_laws = record {
  read_first-ok = first-ok;
  read_first-content = first-content;
  seek_start-ok = λ s s' h. absurd (cc h);
  read_all-ok = λ bs s h. sym (given h);
}
  where
    given : {xs ys : List ℕ} → some xs ≡ some ys → xs ≡ ys
    given e = cc

-- a storage that keeps the keys
abbrev shelf : ObjectStorage Body
shelf = record { Store = List String; put = λ k b mime n t. (some k, k ∷ t) }

abbrev upload : Upload Body
upload = record {
  body = (false, (137, 80 ∷ 78 ∷ []));
  size = pos 3;
  content_type = "";
  file_name = "..";
  session_id = "s1";
}

abbrev result : MediaResult
result = record {
  file_name = "unnamed";
  mime_type = "image/png";
  file_size = pos 3;
  session_id = "s1";
  download_url = "s1/unnamed";
}

upload_media-Stored_example :
    Stored body_reader shelf
      (λ bs. "image/png")
      (λ name. name)
      content
      unread
      body_laws
      upload
      result
      []
      ("s1/unnamed" ∷ [])
unfolding upload_media store store_sniffed put_body rewind_for_storage safe_name is_mime_allowed
    any_prefix
upload_media-Stored_example =
    upload_media-Stored body_reader shelf (λ bs. "image/png") (λ name. name) content unread
      body_laws "u" upload result [] ("s1/unnamed" ∷ []) refl refl
