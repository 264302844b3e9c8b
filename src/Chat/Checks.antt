-- ===== src/Chat/Checks.antt =====
-- Which requests pass the checks on their body.
use astron_claw.Prelude.{
  ℕ, String, ◌≡◌, refl, ap, ◌∙◌, Bool, true, false, not, ◌&&◌, Option, none, some, List, [], ◌∷◌,
  ◌⊎◌, inl, inr, arith, leb, ltb, ◌==◌, length, str_eq, if◌then◌else◌,
}
use astron_claw.Chat.{
  MediaItem, ChatRequest, Refusal, is_web_url, media_urls, check_empty, check_body, bad_url_scheme,
  unsupported_type, media_too_many,
}

-- every item is a URL over HTTP
unfoldable pub all_web : List MediaItem → Bool
all_web [] = true
all_web (item ∷ items) = (str_eq item.kind "url" && is_web_url item.content) && all_web items

unfoldable pub acceptable : ChatRequest → Bool
acceptable body =
    leb (length body.media) 10
    && all_web body.media
    && not (str_eq body.content "" && length body.media == 0)

abbrev pub contents : List MediaItem → List String
contents [] = []
contents (item ∷ items) = item.content ∷ contents items

abbrev pub accepted : Refusal ⊎ List String → Option (List String)
accepted (inl r) = none
accepted (inr urls) = some urls

-- one round of the loop
media_step :
    (is_url web all : Bool) (content : String) (rest : Refusal ⊎ List String) (urls : List String)
    → accepted rest ≡ (if all then some urls else none)
    → accepted (
        if is_url
        then (if web
            then elim rest [ inl r ↦ inl r | inr us ↦ inr (content ∷ us) ]
            else inl bad_url_scheme)
        else inl unsupported_type)
      ≡ (if (is_url && web) && all then some (content ∷ urls) else none)
media_step false web all content rest urls h = refl
media_step true false all content rest urls h = refl
media_step true true true content (inl r) urls h = cc
media_step true true true content (inr us) urls h = cc
media_step true true false content (inl r) urls h = refl
media_step true true false content (inr us) urls h = cc

media_urls-all_web :
    (items : List MediaItem)
    → accepted (media_urls items) ≡ (if all_web items then some (contents items) else none)
unfolding all_web media_urls
media_urls-all_web [] = refl
media_urls-all_web (item ∷ items) =
    media_step (str_eq item.kind "url") (is_web_url item.content) (all_web items) item.content
      (media_urls items) (contents items) (media_urls-all_web items)

length-contents : (items : List MediaItem) → length (contents items) ≡ length items
length-contents [] = refl
length-contents (item ∷ items) = omega (arith, length-contents items)

full :
    (content : String) (n : ℕ) (us : List String)
    → length us ≡ n
    → accepted (check_empty content (inr us))
      ≡ (if not (str_eq content "" && n == 0) then some us else none)
unfolding check_empty
full content n us e = ground arith

empty_step :
    (content : String) (all : Bool) (few : Bool) (n : ℕ) (rest : Refusal ⊎ List String)
    (urls : List String)
    → length urls ≡ n
    → accepted rest ≡ (if all then some urls else none)
    → accepted (if not few then inl media_too_many else check_empty content rest)
      ≡ (if few && all && not (str_eq content "" && n == 0) then some urls else none)
unfolding check_empty
empty_step content all false n rest urls len h = refl
empty_step content true true n (inl r) urls len h = cc
empty_step content false true n (inl r) urls len h = refl
empty_step content false true n (inr us) urls len h = cc
empty_step content true true n (inr us) urls len h =
    let same : us ≡ urls = cc in
    let count : length us ≡ n = ap length same ∙ len in
    full content n us count
    ∙ ap (λ (o : List String). if not (str_eq content "" && n == 0) then some o else none) same

few_items : (n : ℕ) → ltb 10 n ≡ not (leb n 10)
few_items n = ground arith

-- A body passes the checks exactly when it has at most ten media items, all of them URLs over
-- HTTP, and a text or a media item; the URLs are then the items' contents, in their order.
pub check_body-acceptable :
    (body : ChatRequest)
    → accepted (check_body body) ≡ (if acceptable body then some (contents body.media) else none)
unfolding check_body acceptable
check_body-acceptable body =
    ap
      (λ (few : Bool).
        accepted
          (if few then inl media_too_many else check_empty body.content (media_urls body.media)))
      (few_items (length body.media))
    ∙ empty_step body.content (all_web body.media) (leb (length body.media) 10) (length body.media)
        (media_urls body.media) (contents body.media) (length-contents body.media)
        (media_urls-all_web body.media)
