-- ===== src/Chat.antt =====
-- What chatSSE of backend/internal/router/sse.go does before it streams: the checks of a request,
-- the session, and the dispatch to the bot. The body is given as ShouldBindJSON leaves it, `none`
-- for an error. What the bridge, the session store and the HTTP writer answer is an argument, an
-- `Answers`; what is done to them is returned as a list of effects, in order.
pub mod Checks
pub mod Refusals
use astron_claw.Prelude.{
  ℕ, String, Bool, true, false, not, ◌&&◌, ◌||◌, Option, none, some, List, [], ◌∷◌, ltb, ◌==◌,
  if◌then◌else◌, length, str_eq, starts_with, ◌⊎◌, inl, inr,
}
use astron_claw.Prelude.Int.{ℤ}
use Prim.Native.String.{◌++◌}

pub record MediaItem : Type 0 where
  pub kind : String
  pub content : String

pub record ChatRequest : Type 0 where
  pub content : String
  pub session_id : Option String
  pub media : List MediaItem

pub data Refusal : Type 0 where
  invalid_req media_too_many bad_url_scheme unsupported_type empty_message : Refusal
  no_bot session_not_found session_create_failed send_failed stream_unsupported : Refusal

pub data Effect : Type 0 where
  -- Queue.Purge, Queue.EnsureGroup and Bridge.TrackChatInbox
  purge ensure_group track_inbox : String → Effect
  -- Bridge.SendToBot: the content, the media URLs and the session
  send : String → List String → String → Effect

pub record Answers : Type 0 where
  pub connected : Bool
  -- GetSession and CreateSession, with the session's number
  pub get_session : String → Option (String × ℤ)
  pub create_session : Option (String × ℤ)
  -- SendToBot, with the request's id
  pub sent : Option String
  -- whether the writer is a http.Flusher
  pub flusher : Bool

unfoldable pub is_web_url : String → Bool
is_web_url url = starts_with url "http://" || starts_with url "https://"

-- the loop over the media: the URLs, or the first refusal
unfoldable pub media_urls : List MediaItem → Refusal ⊎ List String
media_urls [] = inr []
media_urls (item ∷ items) =
    let rest = media_urls items in
    if str_eq item.kind "url"
    then (if is_web_url item.content
        then elim rest [ inl r ↦ inl r | inr urls ↦ inr (item.content ∷ urls) ]
        else inl bad_url_scheme)
    else inl unsupported_type

unfoldable pub check_empty : String → Refusal ⊎ List String → Refusal ⊎ List String
check_empty content (inl r) = inl r
check_empty content (inr urls) =
    if str_eq content "" && length urls == 0 then inl empty_message else inr urls

unfoldable pub check_body : ChatRequest → Refusal ⊎ List String
check_body body =
    let urls = check_empty body.content (media_urls body.media) in
    if ltb 10 (length body.media) then inl media_too_many else urls

-- a session is named and its id is not empty
unfoldable pub named_session : Option String → Option String
named_session none = none
named_session (some id) = if str_eq id "" then none else some id

unfoldable pub or_refuse : Refusal → Option (String × ℤ) → Refusal ⊎ (String × ℤ)
or_refuse r none = inl r
or_refuse r (some s) = inr s

unfoldable pub resolve_session : Answers → Option String → Refusal ⊎ (String × ℤ)
unfolding named_session or_refuse
resolve_session a wanted = elim (named_session wanted) [
  | none ↦ or_refuse session_create_failed a.create_session
  | some id ↦ or_refuse session_not_found (a.get_session id)
]

abbrev pub inbox_key : String → String → String
inbox_key token session = "bridge:chat_inbox:" ++ (token ++ (":" ++ session))

-- the effects once a session is resolved
abbrev pub dispatch_effects : String → String → List String → String → List Effect
dispatch_effects token content urls session =
    let inbox = inbox_key token session in
    purge inbox ∷ ensure_group inbox ∷ track_inbox inbox ∷ send content urls session ∷ []

unfoldable pub after_send : Answers → String × ℤ → Refusal ⊎ (String × ℤ)
after_send a session = elim a.sent [
  | none ↦ inl send_failed
  | some _ ↦ if a.flusher then inr session else inl stream_unsupported
]

unfoldable pub dispatch_to :
    Answers
    → String
    → String
    → List String
    → Refusal ⊎ (String × ℤ)
    → (Refusal ⊎ (String × ℤ)) × List Effect
unfolding after_send
dispatch_to a token content urls (inl r) = (inl r, [])
dispatch_to a token content urls (inr session) =
    (after_send a session, dispatch_effects token content urls session.0)

unfoldable pub with_urls :
    Answers → String → ChatRequest → Refusal ⊎ List String → (Refusal ⊎ (String × ℤ)) × List Effect
unfolding dispatch_to resolve_session
with_urls a token body (inl r) = (inl r, [])
with_urls a token body (inr urls) =
    let resolved = resolve_session a body.session_id in
    let out = dispatch_to a token body.content urls resolved in
    if a.connected then out else (inl no_bot, [])

-- chatSSE up to its stream: a refusal, or the session to stream
unfoldable pub chat : Answers → String → Option ChatRequest → (Refusal ⊎ (String × ℤ)) × List Effect
unfolding with_urls check_body
chat a token none = (inl invalid_req, [])
chat a token (some body) = with_urls a token body (check_body body)
