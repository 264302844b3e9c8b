-- ===== src/Chat/Refusals.antt =====
-- What a refused request leaves behind, and what an accepted one has done.
use astron_claw.Prelude.{
  String, ◌≡◌, ◌∙◌, sym, ap, refl, Bool, true, false, ◌&&◌, ◌==◌, ◌≤◌, length, str_eq,
  if◌then◌else◌, arith, ◌∷◌, Option, none, some, List, [], ◌⊎◌, inl, inr, Bool-cases, Option-cases,
}
use astron_claw.Prelude.Int.{ℤ}
use Prim.Native.String.{◌++◌}
use astron_claw.Chat.Checks.{all_web, acceptable, accepted, contents, check_body-acceptable}
use astron_claw.Chat.{
  purge, ensure_group, track_inbox, send, or_refuse, session_create_failed, session_not_found,
  named_session, ChatRequest, Refusal, Effect, Answers, send_failed, stream_unsupported, check_body,
  resolve_session, dispatch_effects, after_send, dispatch_to, with_urls, chat,
}

-- The refusals that come before the request reaches the bot.
unfoldable pub is_early : Refusal → Bool
is_early send_failed = false
is_early stream_unsupported = false
is_early _ = true

same_refusal : {q r : Refusal} → ◌≡◌ {A = Refusal ⊎ (String × ℤ)} (inl q) (inl r) → q ≡ r
same_refusal e = cc

same_session : {s t : String × ℤ} → ◌≡◌ {A = Refusal ⊎ (String × ℤ)} (inr s) (inr t) → s ≡ t
same_session e = cc

late : (q r : Refusal) → is_early q ≡ false → q ≡ r → is_early r ≡ false
late q r e same = ap is_early (sym same) ∙ e

after_send-late :
    (a : Answers) (s : String × ℤ) (r : Refusal) → after_send a s ≡ inl r → is_early r ≡ false
unfolding after_send is_early
after_send-late a s r h = elim (Option-cases a.sent) [
  | inl e ↦
      let found : ◌≡◌ {A = Refusal ⊎ (String × ℤ)} (inl send_failed) (inl r) =
        rw (e, after_send) at h in
      late send_failed r refl (same_refusal found)
  | inr (id, e) ↦ elim (Bool-cases a.flusher) [
    | inl f ↦ let wrong = rw (e, f, after_send) at h in cc
    | inr f ↦
        let found : ◌≡◌ {A = Refusal ⊎ (String × ℤ)} (inl stream_unsupported) (inl r) =
          rw (e, f, after_send) at h in
        late stream_unsupported r refl (same_refusal found)
  ]
]

after_send-same : (a : Answers) (t s : String × ℤ) → after_send a t ≡ inr s → t ≡ s
unfolding after_send
after_send-same a t s h = elim (Option-cases a.sent) [
  | inl e ↦ let wrong = rw (e, after_send) at h in cc
  | inr (id, e) ↦ elim (Bool-cases a.flusher) [
    | inl f ↦ same_session (rw (e, f, after_send) at h)
    | inr f ↦ let wrong = rw (e, f, after_send) at h in cc
  ]
]

acceptable-parts :
    (body : ChatRequest)
    → acceptable body ≡ true
    → (length body.media ≤ 10)
      × (all_web body.media ≡ true)
      × (str_eq body.content "" && length body.media == 0 ≡ false)
unfolding acceptable
acceptable-parts body h = (ground (arith, h), ground (arith, h), ground (arith, h))

module _ (a : Answers) (token : String) where
  dispatch_to-early :
      (content : String) (urls : List String) (resolved : Refusal ⊎ (String × ℤ)) (r : Refusal)
      → (dispatch_to a token content urls resolved).0 ≡ inl r
      → is_early r ≡ true
      → (dispatch_to a token content urls resolved).1 ≡ []
  unfolding dispatch_to
  dispatch_to-early content urls (inl q) r h e = refl
  dispatch_to-early content urls (inr s) r h e = cc (after_send-late a s r h)

  with_urls-early :
      (body : ChatRequest) (urls : Refusal ⊎ List String) (r : Refusal)
      → (with_urls a token body urls).0 ≡ inl r
      → is_early r ≡ true
      → (with_urls a token body urls).1 ≡ []
  unfolding with_urls
  with_urls-early body (inl q) r h e = refl
  with_urls-early body (inr urls) r h e = elim (Bool-cases a.connected) [
    | inl c ↦ rw c (dispatch_to-early body.content urls _ r (rw c at h) e)
    | inr c ↦ rw c refl
  ]

  -- A request that is refused for anything but a failed dispatch or a writer that cannot stream
  -- has touched no inbox and sent nothing to the bot.
  pub chat-early :
      (body : Option ChatRequest) (r : Refusal)
      → (chat a token body).0 ≡ inl r
      → is_early r ≡ true
      → (chat a token body).1 ≡ []
  unfolding chat
  chat-early none r h e = refl
  chat-early (some body) r h e = with_urls-early body (check_body body) r h e

  -- The session of a request: the one that it names, as it was found, or a new one where it names
  -- none, or the empty one.
  abbrev pub Chosen : Option String → String × ℤ → Type 0
  Chosen none s = a.create_session ≡ some s
  Chosen (some id) s = (if str_eq id "" then a.create_session else a.get_session id) ≡ some s

  -- What has happened when a stream begins.
  pub record Streams (body : ChatRequest) (s : String × ℤ) (effects : List Effect) : Type 0 where
    pub connected : a.connected ≡ true
    pub chosen : Chosen body.session_id s
    pub few : length body.media ≤ 10
    pub on_web : all_web body.media ≡ true
    pub not_empty : str_eq body.content "" && length body.media == 0 ≡ false
    pub done :
        (let inbox = "bridge:chat_inbox:" ++ (token ++ (":" ++ s.0)) in
          effects
          ≡ purge inbox
            ∷ ensure_group inbox
            ∷ track_inbox inbox
            ∷ send body.content (contents body.media) s.0
            ∷ [])

  or_refuse-some :
      (r : Refusal) (o : Option (String × ℤ)) (s : String × ℤ) → or_refuse r o ≡ inr s → o ≡ some s
  unfolding or_refuse
  or_refuse-some r none s h = cc
  or_refuse-some r (some t) s h = ap some (same_session h)

  resolve_session-Chosen :
      (wanted : Option String) (s : String × ℤ) → resolve_session a wanted ≡ inr s → Chosen wanted s
  unfolding resolve_session named_session
  resolve_session-Chosen none s h = or_refuse-some session_create_failed a.create_session s h
  resolve_session-Chosen (some id) s h = elim (Bool-cases (str_eq id "")) [
    | inl e ↦ rw e (
        or_refuse-some session_create_failed a.create_session s
          (rw (e, resolve_session, named_session) at h))
    | inr e ↦ rw e (
        or_refuse-some session_not_found (a.get_session id) s
          (rw (e, resolve_session, named_session) at h))
  ]

  if_some :
      {A : Type 0} {x y : A} (b : Bool)
      → (if b then some x else none) ≡ some y
      → (b ≡ true) × (x ≡ y)
  if_some true h = (refl, cc h)
  if_some false h = cc

  checked-acceptable :
      (body : ChatRequest) (urls : List String)
      → check_body body ≡ inr urls
      → (acceptable body ≡ true) × (contents body.media ≡ urls)
  checked-acceptable body urls h =
      if_some (acceptable body) (sym (check_body-acceptable body) ∙ ap accepted h)

  dispatch_to-Streams :
      (content : String) (urls : List String) (resolved : Refusal ⊎ (String × ℤ)) (s : String × ℤ)
      → (dispatch_to a token content urls resolved).0 ≡ inr s
      → (resolved ≡ inr s)
        × ((dispatch_to a token content urls resolved).1 ≡ dispatch_effects token content urls s.0)
  unfolding dispatch_to
  dispatch_to-Streams content urls (inl q) s h = cc
  dispatch_to-Streams content urls (inr t) s h =
      let same : t ≡ s = after_send-same a t s h in
      (ap inr same, ap (λ (u : String × ℤ). dispatch_effects token content urls u.0) same)

  with_urls-Streams :
      (body : ChatRequest) (urls : Refusal ⊎ List String) (s : String × ℤ)
      → check_body body ≡ urls
      → (with_urls a token body urls).0 ≡ inr s
      → Streams body s (with_urls a token body urls).1
  unfolding with_urls
  with_urls-Streams body (inl q) s c h = cc
  with_urls-Streams body (inr urls) s c h = elim (Bool-cases a.connected) [
    | inl e ↦
        let (resolved, effects) = dispatch_to-Streams body.content urls _ s (rw e at h) in
        let (fits, same) = checked-acceptable body urls c in
        let parts = acceptable-parts body fits in
        record {
          connected = e;
          chosen = resolve_session-Chosen body.session_id s resolved;
          few = parts.0;
          on_web = parts.1;
          not_empty = parts.2;
          done = rw e effects ∙ ap (λ us. dispatch_effects token body.content us s.0) (sym same);
        }
    | inr e ↦ let wrong = rw e at h in cc
  ]

  -- A stream begins only if the bot is connected, the body has at most ten media items, all of
  -- them URLs over HTTP, and a text or an item, and its session is the one that it names, as it
  -- was found, or a new one if it names none or the empty one. Exactly these effects have
  -- happened, in this order: the chat inbox of that session was purged, its group ensured, the
  -- inbox tracked, and the text and the URLs, in their order, were sent to the bot.
  pub chat-Streams :
      (body : ChatRequest) (s : String × ℤ)
      → (chat a token (some body)).0 ≡ inr s
      → Streams body s (chat a token (some body)).1
  unfolding chat
  chat-Streams body s h = with_urls-Streams body (check_body body) s refl h
