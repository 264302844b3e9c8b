-- ===== src/Bridge/Register.antt =====
-- RegisterBot: what a successful registration leaves behind, and what a refused one does.
use astron_claw.Prelude.{
  Bool, ℕ, String, ◌≡◌, ◌≢◌, refl, sym, ◌∙◌, ap, subst, inl, inr, true, false, Option, none, some,
  arith, eq_iff, str_eq, if◌then◌else◌, str_eq_ne, Bool-cases, [], ◌∷◌,
}
use astron_claw.Prelude.Int.{ℤ}
use astron_claw.Prelude.Dict.{lookup, lookup-insert, lookup-remove}
use astron_claw.Keys.{bot_alive_key, bot_gen_key, bot_owner_key, owner-ne-gen, alive-ne-gen}
use astron_claw.ParseInt.{parse_int}
use astron_claw.Redis.{Redis, Reply, ok, nil, failed}
use astron_claw.Redis.Laws.{View, RedisLaws}
use astron_claw.Bridge.{
  Bridge, World, RegisterError, shutting_down, evict_if_loaded, evict_local, store_local, is_ok,
  register_bot, claim_then, register_claimed,
}
use astron_claw.Bridge.Local.{IsConsistent, evict_if_loaded-IsConsistent, store_local-IsConsistent}

-- A worker that shuts down accepts no bot: the call is refused and changes nothing, here or in
-- Redis.
pub register_bot-shutting_down :
    (R : Redis) (token : String) (conn : ℕ) (now : ℤ) (w : World R)
    → w.bridge.shutting_down ≡ true
    → register_bot R token conn now w ≡ (some shutting_down, w)
unfolding register_bot
register_bot-shutting_down R token conn now w h = rw (h, register_bot)

evict_if_loaded-worker_id :
    (token : String) (b : Bridge) → (evict_if_loaded token b).worker_id ≡ b.worker_id
unfolding evict_if_loaded evict_local
evict_if_loaded-worker_id token b = ground arith

evict_if_loaded-bots :
    (token : String) (b : Bridge) (u : String)
    → token ≢ u
    → lookup u (evict_if_loaded token b).bots ≡ lookup u b.bots
unfolding evict_if_loaded evict_local
evict_if_loaded-bots token b u ne = ground (arith, lookup-remove token u b.bots, str_eq_ne ne)

evict_if_loaded-gens :
    (token : String) (b : Bridge) (u : String)
    → token ≢ u
    → lookup u (evict_if_loaded token b).gens ≡ lookup u b.gens
unfolding evict_if_loaded evict_local
evict_if_loaded-gens token b u ne = ground (arith, lookup-remove token u b.gens, str_eq_ne ne)

module _ (R : Redis) (token : String) (conn : ℕ) (now : ℤ) where
  -- Whatever the outcome, the local tables still agree.
  claim_then-IsConsistent :
      {p : String → Bool} (b : Bridge) (r : Reply ℤ) (s : R.Server)
      → IsConsistent p b
      → IsConsistent p (claim_then R token conn now b (r, s)).1.bridge
  unfolding claim_then register_claimed
  claim_then-IsConsistent {p} b (ok gen) s c =
      elim (Bool-cases (
        is_ok
          (R.set (bot_owner_key token) b.worker_id
            (R.zadd bot_alive_key ((token, now) ∷ []) s).1).0)) [
              | inl e ↦ rw e (store_local-IsConsistent token conn gen b c)
              | inr e ↦ rw e c
            ]
  claim_then-IsConsistent {p} b nil s c = c
  claim_then-IsConsistent {p} b (failed e) s c = c

  register_bot-accepted :
      (w : World R)
      → w.bridge.shutting_down ≡ false
      → register_bot R token conn now w
        ≡ claim_then R token conn now
            (evict_if_loaded token w.bridge)
            (R.incr (bot_gen_key token) w.server)
  unfolding register_bot
  register_bot-accepted w e = simp e

  -- A registration keeps the local tables in agreement, whether it succeeds or fails, and at
  -- whatever point Redis fails.
  pub register_bot-IsConsistent :
      {p : String → Bool} (w : World R)
      → IsConsistent p w.bridge
      → IsConsistent p (register_bot R token conn now w).1.bridge
  register_bot-IsConsistent {p} w c = elim (Bool-cases w.bridge.shutting_down) [
    | inl e ↦
        subst (λ (r : Option RegisterError × World R). IsConsistent p r.1.bridge)
          (sym (register_bot-shutting_down R token conn now w e)) c
    | inr e ↦
        subst (λ (r : Option RegisterError × World R). IsConsistent p r.1.bridge)
          (sym (register_bot-accepted w e))
          (claim_then-IsConsistent _ _ _ (evict_if_loaded-IsConsistent token w.bridge c))
  ]

-- A registration of `conn` for `token` that took place between two states of a worker.
pub record Registered (R : Redis) (V : View R.Server) (token : String) (conn : ℕ) (b : Bridge)
    (w : World R) (gen : ℤ) : Type 0 where
  pub bots :
      (u : String)
      → lookup u w.bridge.bots ≡ (if str_eq token u then some conn else lookup u b.bots)
  pub gens :
      (u : String) → lookup u w.bridge.gens ≡ (if str_eq token u then some gen else lookup u b.gens)
  pub shared_gen :
      (v : String) × (V.text w.server (bot_gen_key token) ≡ some v) × (parse_int v ≡ some gen)
  pub owner : V.text w.server (bot_owner_key token) ≡ some b.worker_id

module _ (R : Redis) (V : View R.Server) (L : RedisLaws R V) (token : String) (conn : ℕ)
    (now : ℤ) where
  reply_ok : (r : Reply Unit) → is_ok r ≡ true → r ≡ ok tt
  reply_ok (ok tt) h = refl
  reply_ok nil h = cc
  reply_ok (failed e) h = cc

  store_local-Registered :
      (b : Bridge) (gen : ℤ) (s : R.Server)
      → (v : String) × (V.text s (bot_gen_key token) ≡ some v) × (parse_int v ≡ some gen)
      → (let s' = (R.zadd bot_alive_key ((token, now) ∷ []) s).1 in
          let r = R.set (bot_owner_key token) b.worker_id s' in
          r.0 ≡ ok tt
          → Registered R V token conn b
              (record { bridge = store_local token conn gen b; server = r.1 })
              gen)
  unfolding store_local
  store_local-Registered b gen s (v, at, parsed) h =
      let s' = (R.zadd bot_alive_key ((token, now) ∷ []) s).1 in
      record {
        bots = λ u. lookup-insert token u conn b.bots;
        gens = λ u. lookup-insert token u gen b.gens;
        shared_gen = (
          v,
          (L.set-frame (bot_owner_key token) (b.worker_id) (bot_gen_key token) s'
                (owner-ne-gen token token)).text
              ∙ (L.zadd-frame bot_alive_key _ (bot_gen_key token) s (alive-ne-gen token)).text
              ∙ at,
          parsed,
        );
        owner = L.set-ok (bot_owner_key token) b.worker_id s' h;
      }

  claim_then-Registered :
      (b : Bridge) (r : Reply ℤ) (s : R.Server) {w : World R}
      → ((gen : ℤ)
          → r ≡ ok gen
          → (v : String) × (V.text s (bot_gen_key token) ≡ some v) × (parse_int v ≡ some gen))
      → claim_then R token conn now b (r, s) ≡ (none, w)
      → (gen : ℤ) × (r ≡ ok gen) × Registered R V token conn b w gen
  unfolding claim_then register_claimed
  claim_then-Registered b (ok gen) s {w} stored h =
      elim (Bool-cases (
        is_ok
          (R.set (bot_owner_key token) b.worker_id
            (R.zadd bot_alive_key ((token, now) ∷ []) s).1).0)) [
              | inl e ↦
                  let reg = store_local-Registered b gen s (stored gen refl) (reply_ok _ e) in
                  let done = rw e at h in
                  (
                    gen,
                    refl,
                    subst (λ (x : World R). Registered R V token conn b x gen)
                        (ap (λ (p : Option RegisterError × World R). p.1) done) reg,
                  )
              | inr e ↦ let wrong = rw e at h in cc
            ]
  claim_then-Registered b nil s stored h = cc
  claim_then-Registered b (failed e) s stored h = cc

  before_eviction :
      (b : Bridge) (w : World R) (gen : ℤ)
      → Registered R V token conn (evict_if_loaded token b) w gen
      → Registered R V token conn b w gen
  before_eviction b w gen reg = record {
    bots = λ u. ground (arith, reg.bots u, evict_if_loaded-bots token b u, eq_iff token u);
    gens = λ u. ground (arith, reg.gens u, evict_if_loaded-gens token b u, eq_iff token u);
    shared_gen = reg.shared_gen;
    owner = reg.owner ∙ ap some (evict_if_loaded-worker_id token b);
  }

  pub register_bot-claimed :
      (w w' : World R)
      → register_bot R token conn now w ≡ (none, w')
      → (gen : ℤ) × ((R.incr (bot_gen_key token) w.server).0 ≡ ok gen)
        × Registered R V token conn w.bridge w' gen
  register_bot-claimed w w' h = elim (Bool-cases w.bridge.shutting_down) [
    | inl e ↦ cc (register_bot-shutting_down R token conn now w e)
    | inr e ↦
        let (gen, claimed, reg) =
          claim_then-Registered (evict_if_loaded token w.bridge)
            (R.incr (bot_gen_key token) w.server).0 (R.incr (bot_gen_key token) w.server).1
            (λ g claimed. L.incr-ok _ g w.server claimed)
            (sym (register_bot-accepted R token conn now w e) ∙ h) in
        (gen, claimed, before_eviction w.bridge w' gen reg)
  ]

  -- After a successful registration the worker holds the connection under the generation that
  -- Redis holds, Redis names the worker as the token's owner, and the worker's other bots are as
  -- they were.
  pub register_bot-Registered :
      (w w' : World R)
      → register_bot R token conn now w ≡ (none, w')
      → (gen : ℤ) × Registered R V token conn w.bridge w' gen
  register_bot-Registered w w' h = let (gen, _, reg) = register_bot-claimed w w' h in (gen, reg)
