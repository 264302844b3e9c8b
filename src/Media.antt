-- ===== src/Media.antt =====
-- Uploads: backend/internal/service/media_manager.go and backend/internal/router/media.go. The
-- reader of the body, the sniffing of net/http, the base name of path/filepath, the UUID and the
-- object storage are parameters. A body is a list of bytes. Logs and the texts that errors are
-- wrapped in are left out.
pub mod Put
pub mod Stored
use Prim.Native.String.{String, ◌++◌ as ◌+++◌}
use astron_claw.Prelude.{
  ℕ, Bool, true, false, not, ◌&&◌, ◌||◌, Option, none, some, List, [], ◌∷◌, ◌++◌, if◌then◌else◌,
  str_eq, starts_with,
}
use astron_claw.Prelude.Int.{ℤ, pos, ltb_ℤ}

-- MaxFileSize
abbrev pub max_file_size : ℤ
max_file_size = pos 524288000

-- allowedMIMEPrefixes
abbrev pub allowed_mime_prefixes : List String
allowed_mime_prefixes =
    "image/" ∷ "audio/" ∷ "video/" ∷ "application/pdf" ∷ "application/zip"
    ∷ "application/octet-stream" ∷ "text/" ∷ []

unfoldable pub any_prefix : List String → String → Bool
any_prefix [] mime = false
any_prefix (p ∷ ps) mime = starts_with mime p || any_prefix ps mime

-- isMIMEAllowed
unfoldable pub is_mime_allowed : String → Bool
unfolding any_prefix
is_mime_allowed mime = if str_eq mime "" then false else any_prefix allowed_mime_prefixes mime

-- MediaResult
pub record MediaResult : Type 0 where
  pub file_name : String
  pub mime_type : String
  pub file_size : ℤ
  pub session_id : String
  pub download_url : String

pub data StoreError : Type 0 where
  file_too_large file_empty mime_rejected : StoreError
  -- a read, a seek or the storage failed
  read_failed rewind_failed put_failed : StoreError

-- a file of a form, with what the handler reads of its header and of the other fields
pub record Upload (S : Type 0) : Type 0 where
  pub body : S
  pub size : ℤ
  pub content_type : String
  pub file_name : String
  pub session_id : String

pub data StoreOutcome : Type 0 where
  stored : MediaResult → StoreOutcome
  refused : StoreError → StoreOutcome

-- The body of a file: the first read of at least one byte into 512, none for an error; the seek to
-- the start, none where the reader cannot seek, with whether it succeeded; and the read to the end.
pub record Reader : Type 1 where
  pub State : Type 0
  pub read_first : State → Option (List ℕ) × State
  pub seek_start : State → Option (Bool × State)
  pub read_all : State → Option (List ℕ) × State

-- the reader that the storage is given: the body's, or one over bytes
pub data StorageBody (S : Type 0) : Type 0 where
  reader : S → StorageBody S
  bytes : List ℕ → StorageBody S

-- PutObject of a key, a body, a content type and a length: the URL, none for an error
pub record ObjectStorage (S : Type 0) : Type 1 where
  pub Store : Type 0
  pub put : String → StorageBody S → String → ℤ → Store → Option String × Store

abbrev pub is_generic : String → Bool
is_generic mime = str_eq mime "" || str_eq mime "application/octet-stream"

-- the sanitized base name
unfoldable pub safe_name : String → String
safe_name base =
    if str_eq base "" || (str_eq base "." || starts_with base ".") then "unnamed" else base

abbrev pub or_new : String → String → String
or_new uuid id = if str_eq id "" then uuid else id

pub data UploadAnswer : Type 0 where
  uploaded : MediaResult → UploadAnswer
  error : ℕ → UploadAnswer

abbrev pub respond : StoreOutcome → UploadAnswer
respond (stored r) = uploaded r
respond (refused file_too_large) = error 10300
respond (refused file_empty) = error 10301
respond (refused mime_rejected) = error 10301
respond (refused read_failed) = error 10205
respond (refused rewind_failed) = error 10205
respond (refused put_failed) = error 10205

abbrev pub or_text : String → String → String
or_text d text = if str_eq text "" then d else text

module _ (B : Reader) (T : ObjectStorage B.State) (detect : List ℕ → String)
    (base : String → String) where
  abbrev pub buffered : List ℕ → Option (List ℕ) → Option (StorageBody B.State)
  buffered sniffed none = none
  buffered sniffed (some rest) = some (bytes (sniffed ++ rest))

  abbrev pub sought : Bool × B.State → Option (StorageBody B.State)
  sought (true, s) = some (reader s)
  sought (false, s) = none

  -- rewindForStorage
  unfoldable pub rewind_for_storage : List ℕ → B.State → Option (StorageBody B.State)
  rewind_for_storage sniffed s = elim (B.seek_start s) [
    | some moved ↦ sought moved
    | none ↦ buffered sniffed (B.read_all s).0
  ]

  abbrev pub answer : MediaResult → Option String → StoreOutcome
  answer r none = refused put_failed
  answer r (some url) = stored (record r { download_url = url })

  -- from the body for the storage on
  unfoldable pub put_body :
      String → ℤ → String → String → Option (StorageBody B.State) → T.Store → StoreOutcome × T.Store
  put_body name size mime sid none t = (refused rewind_failed, t)
  put_body name size mime sid (some body) t =
      let (url, t') = T.put (sid +++ ("/" +++ name)) body mime size t in
      (
        answer
            (record {
              file_name = name;
              mime_type = mime;
              file_size = size;
              session_id = sid;
              download_url = "";
            })
            url,
        t',
      )

  -- from the first bytes on
  unfoldable pub store_sniffed :
      String
      → String
      → ℤ
      → String
      → String
      → Option (List ℕ) × B.State
      → T.Store
      → StoreOutcome × T.Store
  unfolding put_body
  store_sniffed uuid name size declared session (none, s) t = (refused read_failed, t)
  store_sniffed uuid name size declared session (some sniffed, s) t =
      let mime = if is_generic declared then detect sniffed else declared in
      let out =
        put_body (safe_name (base name)) size mime (or_new uuid session)
          (rewind_for_storage sniffed s) t in
      if is_mime_allowed mime then out else (refused mime_rejected, t)

  -- Store
  unfoldable pub store :
      String → B.State → String → ℤ → String → String → T.Store → StoreOutcome × T.Store
  unfolding store_sniffed
  store uuid s name size declared session t =
      let out = store_sniffed uuid name size declared session (B.read_first s) t in
      if ltb_ℤ max_file_size size
      then (refused file_too_large, t)
      else if not (ltb_ℤ size (pos 0)) && not (ltb_ℤ (pos 0) size)
      then (refused file_empty, t)
      else out

  -- uploadMedia: none where the form has no file
  unfoldable pub upload_media : String → Option (Upload B.State) → T.Store → UploadAnswer × T.Store
  upload_media uuid none t = (error 10301, t)
  upload_media uuid (some u) t =
      let (out, t') =
        store uuid u.body (or_text "unnamed" u.file_name) u.size
          (or_text "application/octet-stream" u.content_type) u.session_id t in
      if ltb_ℤ max_file_size u.size then (error 10300, t) else (respond out, t')
