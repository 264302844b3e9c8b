-- ===== src/WebSocket/Gone.antt =====
-- A connection whose handler has returned is in no table.
use astron_claw.Prelude.{
  ℕ, String, ◌≡◌, ◌≢◌, sym, ◌∙◌, ap, subst, inl, inr, Bool, true, false, not, if◌then◌else◌, Option,
  none, some, List, [], ◌∷◌, arith, eq_refl, if_by, Bool-cases,
}
use astron_claw.Prelude.Int.{ℤ}
use astron_claw.Prelude.Dict.{lookup, lookup-remove}
use astron_claw.Json.{Value}
use astron_claw.Redis.{Redis, Reply, ok, nil, failed}
use astron_claw.Tokens.{TokenTable, validate}
use astron_claw.Bridge.{
  Bridge, World, RegisterError, register_bot, unregister_bot, claim_then, register_claimed,
  evict_if_loaded, evict_local, forget, store_local, set_owner, is_stale,
}
use astron_claw.Bridge.Unregister.{unregister_bot-bots, unregister_bot-guarded}
use astron_claw.WebSocket.{BotEnd, or_header, Read, serve, on_registered, ws_bot}

module _ (R : Redis) (token : String) (conn : ℕ) where
  abbrev pub Gone : World R → Type 0
  Gone w = lookup token w.bridge.bots ≢ some conn

  some-ne-none : {o : Option ℕ} → o ≡ none → o ≢ some conn
  some-ne-none e h = absurd (cc (e, h))

  stale-other : (o : Option ℕ) → is_stale (some conn) o ≡ true → o ≢ some conn
  unfolding is_stale
  stale-other none h g = cc
  stale-other (some c) h g = ground (arith, h, g)

  -- UnregisterBot leaves no entry of the connection that it is given.
  unregister_bot-Gone : (w : World R) → Gone (unregister_bot R token (some conn) w)
  unregister_bot-Gone w = elim (Bool-cases (is_stale (some conn) (lookup token w.bridge.bots))) [
    | inl e ↦
        subst Gone (sym (unregister_bot-guarded R token (some conn) w e))
          (stale-other (lookup token w.bridge.bots) e)
    | inr e ↦ some-ne-none (
        unregister_bot-bots R token (some conn) w token e
        ∙ ap (λ (b : Bool). if b then none else lookup token w.bridge.bots) (eq_refl token))
  ]

  serve-Gone :
      (marshal : Value → String) (reads : List (Read R)) (last : World R → World R) (w : World R)
      → Gone (serve marshal R token conn reads last w)
  unfolding serve
  serve-Gone marshal [] last w = unregister_bot-Gone (last w)
  serve-Gone marshal (r ∷ rs) last w = serve-Gone marshal rs last _

  evict_if_loaded-none : (b : Bridge) → lookup token (evict_if_loaded token b).bots ≡ none
  unfolding evict_if_loaded evict_local forget
  evict_if_loaded-none b = ground (arith, lookup-remove token token b.bots, eq_refl token)

  module _ (marshal : Value → String) (reads : List (Read R)) (last : World R → World R) where
    abbrev served : Option RegisterError × World R → World R
    served r = (on_registered marshal R token conn reads last r).1

    registered-Gone :
        (b : Bridge) (s t : R.Server) (ok : Bool)
        → lookup token b.bots ≡ none
        → (gen : ℤ)
        → Gone (
            served (
              if ok
              then (none, record { bridge = store_local token conn gen b; server = t })
              else (some set_owner, record { bridge = b; server = t })))
    unfolding on_registered
    registered-Gone b s t true e gen = serve-Gone marshal reads last _
    registered-Gone b s t false e gen = some-ne-none e

    claim_then-Gone :
        (b : Bridge) (now : ℤ) (r : Reply ℤ) (s : R.Server)
        → lookup token b.bots ≡ none
        → Gone (served (claim_then R token conn now b (r, s)))
    unfolding claim_then register_claimed on_registered
    claim_then-Gone b now (ok gen) s e = registered-Gone b s _ _ e gen
    claim_then-Gone b now nil s e = some-ne-none e
    claim_then-Gone b now (failed x) s e = some-ne-none e

    register_bot-Gone :
        (now : ℤ) (w : World R) → Gone w → Gone (served (register_bot R token conn now w))
    unfolding register_bot on_registered
    register_bot-Gone now w gone =
        if_by (λ (x : Option RegisterError × World R). Gone (served x)) w.bridge.shutting_down _ _
          (λ e. gone)
          (λ e.
            claim_then-Gone (evict_if_loaded token w.bridge) now _ _
              (evict_if_loaded-none w.bridge))

-- However the handler of a connection ends, and whatever else happens to the worker and to Redis
-- while it waits, this connection is not the one that the worker has for the token afterwards,
-- if it was not before.
pub ws_bot-Gone :
    (marshal : Value → String) (R : Redis) (T : TokenTable) (tokens : T.State)
    (query header : String) (upgraded : Bool) (conn : ℕ) (now seconds : ℤ) (reads : List (Read R))
    (last : World R → World R) (w : World R)
    → lookup (or_header query header) w.bridge.bots ≢ some conn
    → lookup
        (or_header query header)
        (ws_bot marshal R T tokens query header upgraded conn now seconds reads last
          w).1.bridge.bots
      ≢ some conn
unfolding ws_bot
ws_bot-Gone marshal R T tokens query header upgraded conn now seconds reads last w gone =
    let token = or_header query header in
    if_by (λ (x : BotEnd × World R). Gone R token conn x.1) (not (validate T token now tokens)) _ _
      (λ e. gone)
      (λ e.
        if_by (λ (x : BotEnd × World R). Gone R token conn x.1) (not upgraded) _ _ (λ f. gone)
          (λ f. register_bot-Gone R token conn marshal reads last seconds w gone))
