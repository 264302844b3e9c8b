-- ===== src/WebSocket/Ended.antt =====
-- The end of a connection whose token nobody else has touched.
use astron_claw.Prelude.{
  ℕ, String, ◌≡◌, ◌≢◌, refl, ◌∙◌, ap, subst, Bool, true, false, not, Option, none, some, List, [],
  ◌∷◌, arith, eq_refl, if_by, if◌then◌else◌,
}
use astron_claw.Prelude.Int.{ℤ, ltb_ℤ}
use astron_claw.Prelude.Dict.{lookup}
use astron_claw.Keys.{bot_gen_key}
use astron_claw.ParseInt.{parse_int}
use astron_claw.Json.{Value, Fields}
use astron_claw.Redis.{Redis}
use astron_claw.Redis.Laws.{View, RedisLaws}
use astron_claw.Tokens.{TokenTable, validate}
use astron_claw.Bridge.{World, RegisterError, register_bot, unregister_bot, gen_or_zero, is_stale}
use astron_claw.Bridge.Shared.{Reachable, Cleared, newer_gen}
use astron_claw.Bridge.Register.{register_bot-Registered}
use astron_claw.Bridge.Unregister.{unregister_bot-bots, unregister_bot-Cleared}
use astron_claw.Messages.{handle_bot_message}
use astron_claw.Messages.Delivery.{handle_bot_message-SameBot}
use astron_claw.WebSocket.{
  BotEnd, disconnected, upgrade_failed, invalid_token, or_header, Read, serve, on_registered,
  ws_bot,
}

module _ (R : Redis) (V : View R.Server) (token : String) where
  -- The worker's connection and generation of the token are the same in two states, and so is the
  -- generation in Redis.
  pub record Untouched (w x : World R) : Type 0 where
    pub bots : lookup token x.bridge.bots ≡ lookup token w.bridge.bots
    pub gens : lookup token x.bridge.gens ≡ lookup token w.bridge.gens
    pub shared : V.text x.server (bot_gen_key token) ≡ V.text w.server (bot_gen_key token)

  -- The worker has no connection of the token, and Redis has no record of it.
  abbrev pub Ended : World R → Type 0
  Ended w = (lookup token w.bridge.bots ≡ none) × Cleared V w.server token

  -- what happens between the messages leaves the token alone
  pub data AllUntouched : List (Read R) → Type 0 where
    nothing : AllUntouched []
    before :
        {r : Read R} {rs : List (Read R)}
        → ((w : World R) → Untouched w (r.meanwhile w))
        → AllUntouched rs
        → AllUntouched (r ∷ rs)

module _ (marshal : Value → String) (R : Redis) (V : View R.Server) (L : RedisLaws R V)
    (up : Reachable R) (token : String) (conn : ℕ) where
  -- The worker holds the connection under the generation that Redis holds.
  record Held (gen : ℤ) (w : World R) : Type 0 where
    bots : lookup token w.bridge.bots ≡ some conn
    gens : lookup token w.bridge.gens ≡ some gen
    shared :
        (v : String) × (V.text w.server (bot_gen_key token) ≡ some v) × (parse_int v ≡ some gen)

  Untouched-Held : {gen : ℤ} {w x : World R} → Untouched R V token w x → Held gen w → Held gen x
  Untouched-Held u h =
      let (v, at, parsed) = h.shared in
      record { bots = u.bots ∙ h.bots; gens = u.gens ∙ h.gens; shared = (v, u.shared ∙ at, parsed) }

  handled-Held :
      {gen : ℤ} (m : Option Fields) (w : World R)
      → Held gen w
      → Held gen (handle_bot_message marshal R token m w)
  unfolding handle_bot_message
  handled-Held m w = Untouched-Held (record {
    bots = refl;
    gens = refl;
    shared = (handle_bot_message-SameBot marshal R V L token m w token).gen;
  })

  live :
      (w : World R)
      → lookup token w.bridge.bots ≡ some conn
      → is_stale (some conn) (lookup token w.bridge.bots) ≡ false
  unfolding is_stale
  live w e = ground (arith, e)

  not_newer : (gen : ℤ) → ltb_ℤ gen gen ≡ false
  not_newer gen = ground arith

  current :
      {gen : ℤ} (w : World R)
      → Held gen w
      → newer_gen (V.text w.server (bot_gen_key token)) (gen_or_zero (lookup token w.bridge.gens))
        ≡ false
  current {gen} w h =
      let (v, at, parsed) = h.shared in let e = not_newer gen in rw (at, h.gens, parsed) e

  unregister-Ended :
      {gen : ℤ} (w : World R) → Held gen w → Ended R V token (unregister_bot R token (some conn) w)
  unregister-Ended w h = (
    unregister_bot-bots R token (some conn) w token (live w h.bots)
        ∙ ap (λ (b : Bool). if b then none else lookup token w.bridge.bots) (eq_refl token),
    unregister_bot-Cleared R V L up token (some conn) w (live w h.bots) (current w h),
  )

  serve-Ended :
      {gen : ℤ} (reads : List (Read R)) (last : World R → World R) (w : World R)
      → AllUntouched R V token reads
      → ((x : World R) → Untouched R V token x (last x))
      → Held gen w
      → Ended R V token (serve marshal R token conn reads last w)
  unfolding serve
  serve-Ended [] last w nothing same h = unregister-Ended (last w) (Untouched-Held (same w) h)
  serve-Ended (r ∷ rs) last w (before s ss) same h =
      serve-Ended rs last _ ss same
        (handled-Held r.message (r.meanwhile w) (Untouched-Held (s w) h))

  registered-Ended :
      (now : ℤ) (reads : List (Read R)) (last : World R → World R) (w x : World R)
      (r : Option RegisterError × World R)
      → register_bot R token conn now w ≡ r
      → AllUntouched R V token reads
      → ((x : World R) → Untouched R V token x (last x))
      → on_registered marshal R token conn reads last r ≡ (disconnected, x)
      → Ended R V token x
  unfolding on_registered
  registered-Ended now reads last w x (some e, w') made all same h = absurd (cc (ap (λ y. y.0) h))
  registered-Ended now reads last w x (none, w') made all same h =
      let (gen, reg) = register_bot-Registered R V L token conn now w w' made in
      subst (Ended R V token) (ap (λ y. y.1) h) (
        serve-Ended reads last w' all same (record {
          bots =
              reg.bots token
              ∙ ap (λ (b : Bool). if b then some conn else lookup token w.bridge.bots)
                  (eq_refl token);
          gens =
              reg.gens token
              ∙ ap (λ (b : Bool). if b then some gen else lookup token w.bridge.gens)
                  (eq_refl token);
          shared = reg.shared_gen;
        }))

rejected-ne-disconnected :
    (upgraded : Bool)
    → (if upgraded then invalid_token 4001 "Invalid or missing bot token" else upgrade_failed)
      ≢ disconnected
rejected-ne-disconnected true = λ h. cc
rejected-ne-disconnected false = λ h. cc

-- A connection that was served until its reads ended had a valid token. If, while it waited,
-- nobody else changed the entries of the token at this worker or its generation in Redis, then
-- afterwards the worker has no connection of the token, and Redis has no generation, owner or
-- heartbeat of it, whatever messages the bot has sent. Redis is reachable.
pub ws_bot-Ended :
    (marshal : Value → String) (R : Redis) (V : View R.Server) (L : RedisLaws R V)
    (up : Reachable R) (T : TokenTable) (tokens : T.State) (query header : String) (upgraded : Bool)
    (conn : ℕ) (now seconds : ℤ) (reads : List (Read R)) (last : World R → World R) (w x : World R)
    → AllUntouched R V (or_header query header) reads
    → ((y : World R) → Untouched R V (or_header query header) y (last y))
    → ws_bot marshal R T tokens query header upgraded conn now seconds reads last w
      ≡ (disconnected, x)
    → (validate T (or_header query header) now tokens ≡ true) × Ended R V (or_header query header) x
unfolding ws_bot
ws_bot-Ended marshal R V L up T tokens query header upgraded conn now seconds reads last w x all
      same h =
    let token = or_header query header in
    let Goal : BotEnd × World R → Type 0 =
      λ p. p ≡ (disconnected, x) → (validate T token now tokens ≡ true) × Ended R V token x in
    if_by Goal (not (validate T token now tokens)) _ _
      (λ e g. absurd (rejected-ne-disconnected upgraded (ap (λ y. y.0) g)))
      (λ e.
        if_by Goal (not upgraded) _ _ (λ f g. absurd (cc (ap (λ y. y.0) g)))
          (λ f g. (
            ground (arith, e),
            registered-Ended marshal R V L up token conn seconds reads last w x _ refl all same g,
          )))
      h
