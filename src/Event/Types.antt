-- ===== src/Event/Types.antt =====
-- Which chat events a bot can cause.
use astron_claw.Prelude.{
  String, ◌≡◌, ◌≢◌, refl, sym, ◌∙◌, ap, inl, inr, Bool, true, false, Option, none, some, arith,
  str_eq, eq_iff, if◌then◌else◌, Bool-cases, Option-cases,
}
use astron_claw.Json.{Value, Fields, get, as_string, as_map, get_in}
use astron_claw.Event.{
  translate_bot_event, translate_params, translate_update, media_event, media_url_event,
  fallback_event, tool_call_event, tool_result_event, content_of,
}

-- the type by which the stream handler tells events apart
abbrev pub type_of : Fields → String
type_of ev = as_string (get "type" ev)

fallback_type :
    (content : Option Fields) (ev : Fields)
    → fallback_event content ≡ some ev
    → type_of ev ≡ "chunk"
unfolding fallback_event get
fallback_type none ev h = cc
fallback_type (some content) ev h = ground arith

media_url_type :
    (content : Option Fields) (url : String) (ev : Fields)
    → media_url_event content url ≡ some ev
    → type_of ev ≡ "media"
unfolding media_url_event get
media_url_type content url ev h = ground arith

media_type :
    (content : Option Fields) (ev : Fields) → media_event content ≡ some ev → type_of ev ≡ "media"
unfolding media_event
media_type none ev h = cc
media_type (some content) ev h = elim (Option-cases (as_map (get "media" content))) [
  | inl e ↦ let wrong = rw (e, media_event) at h in cc
  | inr (m, e) ↦ media_url_type (some content) _ ev (rw (e, media_event) at h)
]

-- the type of the event that each kind of update becomes
abbrev pub type_for : String → String
type_for kind =
    if str_eq kind "agent_message_chunk"
    then "chunk"
    else if str_eq kind "agent_message_final"
    then "done"
    else if str_eq kind "tool_result"
    then "tool_result"
    else if str_eq kind "agent_thought_chunk"
    then "thinking"
    else if str_eq kind "tool_call"
    then "tool_call"
    else if str_eq kind "agent_media"
    then "media"
    else "chunk"

-- A property of a choice holds if it holds of both sides.
if_cases {ℓ} :
    (P : String → Type ℓ) (b : Bool) (x y : String)
    → (b ≡ true → P x)
    → P y
    → P (if b then x else y)
if_cases P true x y p q = p refl
if_cases P false x y p q = q

other_kind : (kind t : String) → str_eq t "done" ≡ false → t ≡ "done" → kind ≡ "agent_message_final"
other_kind kind t ne e = cc (sym ne ∙ (eq_iff t "done").1 e)

type_for-done : (kind : String) → type_for kind ≡ "done" → kind ≡ "agent_message_final"
type_for-done kind =
    let P : String → Type 0 = λ t. t ≡ "done" → kind ≡ "agent_message_final" in
    if_cases P _ _ _ (λ _. other_kind kind "chunk" refl)
      (if_cases P _ _ _ (λ e _. (eq_iff kind "agent_message_final").0 e)
        (if_cases P _ _ _ (λ _. other_kind kind "tool_result" refl)
          (if_cases P _ _ _ (λ _. other_kind kind "thinking" refl)
            (if_cases P _ _ _ (λ _. other_kind kind "tool_call" refl)
              (if_cases P _ _ _ (λ _. other_kind kind "media" refl)
                (other_kind kind "chunk" refl))))))

no_error : (t : String) → str_eq t "error" ≡ false → t ≢ "error"
no_error t ne e = cc (sym ne ∙ (eq_iff t "error").1 e)

type_for-ne-error : (kind : String) → type_for kind ≢ "error"
type_for-ne-error kind =
    let P : String → Type 0 = λ t. t ≢ "error" in
    if_cases P _ _ _ (λ _. no_error "chunk" refl)
      (if_cases P _ _ _ (λ _. no_error "done" refl)
        (if_cases P _ _ _ (λ _. no_error "tool_result" refl)
          (if_cases P _ _ _ (λ _. no_error "thinking" refl)
            (if_cases P _ _ _ (λ _. no_error "tool_call" refl)
              (if_cases P _ _ _ (λ _. no_error "media" refl) (no_error "chunk" refl))))))

module _ (marshal : Value → String) where
  tool_result_type : (update : Fields) → type_of (tool_result_event marshal update) ≡ "tool_result"
  unfolding tool_result_event get
  tool_result_type update = refl

  tool_call_type : (update : Fields) → type_of (tool_call_event marshal update) ≡ "tool_call"
  unfolding tool_call_event get
  tool_call_type update = refl

  translate_update_type :
      (kind : String) (update ev : Fields)
      → translate_update marshal kind update ≡ some ev
      → type_of ev ≡ type_for kind
  unfolding translate_update get
  translate_update_type kind update ev h = ground (
    arith,
    tool_result_type update,
    tool_call_type update,
    media_type (content_of update) ev,
    fallback_type (content_of update) ev,
  )

  translate_params_type :
      (params : Option Fields) (ev : Fields)
      → translate_params marshal params ≡ some ev
      → (update : Fields) × (as_map (get_in params "update") ≡ some update)
        × (type_of ev ≡ type_for (as_string (get "sessionUpdate" update)))
  unfolding translate_params
  translate_params_type params ev h = elim (Option-cases (as_map (get_in params "update"))) [
    | inl e ↦ let wrong = rw (e, translate_params) at h in cc
    | inr (update, e) ↦
        let found = rw (e, translate_params) at h in
        (update, e, translate_update_type (as_string (get "sessionUpdate" update)) update ev found)
  ]

  -- A notification becomes an event only if its method is session/update and it holds an update
  -- object, whose kind alone decides the event's type.
  pub translate-type :
      (method : String) (params : Option Fields) (ev : Fields)
      → translate_bot_event marshal method params ≡ some ev
      → (method ≡ "session/update")
        × ((update : Fields) × (as_map (get_in params "update") ≡ some update)
            × (type_of ev ≡ type_for (as_string (get "sessionUpdate" update))))
  unfolding translate_bot_event
  translate-type method params ev h = elim (Bool-cases (str_eq method "session/update")) [
    | inl e ↦
        let found = rw (e, translate_bot_event) at h in
        ((eq_iff method "session/update").0 e, translate_params_type params ev found)
    | inr e ↦ let wrong = rw (e, translate_bot_event) at h in cc
  ]

  -- A bot's notification becomes a done event only if it is an agent_message_final.
  pub translate-done :
      (method : String) (params : Option Fields) (ev : Fields)
      → translate_bot_event marshal method params ≡ some ev
      → type_of ev ≡ "done"
      → as_string (get_in (as_map (get_in params "update")) "sessionUpdate") ≡ "agent_message_final"
  translate-done method params ev h done =
      let (_, (update, e, kind)) = translate-type method params ev h in
      ap (λ (m : Option Fields). as_string (get_in m "sessionUpdate")) e
      ∙ type_for-done (as_string (get "sessionUpdate" update)) (sym kind ∙ done)

  -- No notification of a bot becomes an error event.
  pub translate-no_error :
      (method : String) (params : Option Fields) (ev : Fields)
      → translate_bot_event marshal method params ≡ some ev
      → type_of ev ≢ "error"
  translate-no_error method params ev h error =
      let (_, (update, _, kind)) = translate-type method params ev h in
      type_for-ne-error (as_string (get "sessionUpdate" update)) (sym kind ∙ error)
