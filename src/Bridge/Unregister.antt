-- ===== src/Bridge/Unregister.antt =====
-- UnregisterBot: the guard against stale connections, the guard against other workers, and what
-- is removed where neither holds.
use astron_claw.Prelude.{
  ℕ, String, ◌≡◌, ◌≢◌, refl, sym, ◌∙◌, ap, subst, inl, inr, Bool, true, false, Option, none, some,
  arith, if◌then◌else◌, ◌==◌, str_eq, Bool-cases,
}
use astron_claw.Prelude.Int.{ℤ}
use astron_claw.Prelude.Dict.{lookup, lookup-remove}
use astron_claw.Keys.{bot_gen_key}
use astron_claw.Redis.{Redis}
use astron_claw.Redis.Laws.{View, RedisLaws}
use astron_claw.Bridge.{
  World, forget, is_stale, gen_or_zero, should_skip_shared_cleanup, cleanup_shared_bot_state,
  unregister_bot,
}
use astron_claw.Bridge.Local.{
  IsConsistent, forget-IsConsistent, SameTables, SameTables-IsConsistent, enqueue-SameTables,
}
use astron_claw.Bridge.Shared.{
  Reachable, newer_gen, SameBot, SameBot-trans, Cleared, cleanup-Cleared, cleanup-SameBot,
  should_skip-newer_gen, should_skip-SameBot,
}

-- A connection that was replaced at this worker removes nothing when it ends: neither the local
-- tables nor Redis change.
pub unregister_bot-stale :
    (R : Redis) (token : String) (conn current : ℕ) (w : World R)
    → lookup token w.bridge.bots ≡ some current
    → conn ≢ current
    → unregister_bot R token (some conn) w ≡ w
unfolding unregister_bot is_stale
unregister_bot-stale R token conn current w here ne =
    let e : (current == conn) ≡ false = ground arith in simp (here, e)

pub unregister_bot-guarded :
    (R : Redis) (token : String) (conn : Option ℕ) (w : World R)
    → is_stale conn (lookup token w.bridge.bots) ≡ true
    → unregister_bot R token conn w ≡ w
unfolding unregister_bot
unregister_bot-guarded R token conn w e = simp e

module _ (R : Redis) (token : String) (conn : Option ℕ) (w : World R)
    (live : is_stale conn (lookup token w.bridge.bots) ≡ false) where
  abbrev local : ℤ
  local = gen_or_zero (lookup token w.bridge.gens)

  abbrev skip : Bool × R.Server
  skip = should_skip_shared_cleanup R token local w.server

  abbrev forgotten : World R
  forgotten = record { bridge = forget token w.bridge; server = skip.1 }

  unregister_bot-skipped : skip.0 ≡ true → unregister_bot R token conn w ≡ forgotten
  unfolding unregister_bot
  unregister_bot-skipped e = simp (live, e)

  unregister_bot-cleaned :
      skip.0 ≡ false
      → unregister_bot R token conn w ≡ cleanup_shared_bot_state R token true forgotten
  unfolding unregister_bot
  unregister_bot-cleaned e = simp (live, e)

  -- The tables are those without the token, whatever Redis answers.
  unregister_bot-tables : SameTables (forget token w.bridge) (unregister_bot R token conn w).bridge
  unfolding cleanup_shared_bot_state
  unregister_bot-tables = elim (Bool-cases skip.0) [
    | inl e ↦
        subst (λ (x : World R). SameTables (forget token w.bridge) x.bridge)
          (sym (unregister_bot-skipped e)) (record { bots = refl; gens = refl; ring = refl })
    | inr e ↦
        subst (λ (x : World R). SameTables (forget token w.bridge) x.bridge)
          (sym (unregister_bot-cleaned e)) (enqueue-SameTables token (forget token w.bridge))
  ]

-- UnregisterBot keeps the local tables in agreement, on every branch.
pub unregister_bot-IsConsistent :
    {p : String → Bool} (R : Redis) (token : String) (conn : Option ℕ) (w : World R)
    → IsConsistent p w.bridge
    → IsConsistent p (unregister_bot R token conn w).bridge
unregister_bot-IsConsistent {p} R token conn w c =
    elim (Bool-cases (is_stale conn (lookup token w.bridge.bots))) [
      | inl e ↦
          subst (λ (x : World R). IsConsistent p x.bridge)
            (sym (unregister_bot-guarded R token conn w e)) c
      | inr e ↦
          SameTables-IsConsistent (unregister_bot-tables R token conn w e)
            (forget-IsConsistent token w.bridge c)
    ]

-- Unless the connection is stale, UnregisterBot forgets the token at this worker and keeps the
-- worker's other bots, whatever Redis answers.
pub unregister_bot-bots :
    (R : Redis) (token : String) (conn : Option ℕ) (w : World R) (u : String)
    → is_stale conn (lookup token w.bridge.bots) ≡ false
    → lookup u (unregister_bot R token conn w).bridge.bots
      ≡ (if str_eq token u then none else lookup u w.bridge.bots)
unfolding forget
unregister_bot-bots R token conn w u live =
    ap (lookup u) (unregister_bot-tables R token conn w live).bots
    ∙ lookup-remove token u w.bridge.bots

module _ (R : Redis) (V : View R.Server) (L : RedisLaws R V) (up : Reachable R) (token : String)
    (conn : Option ℕ) (w : World R) where
  abbrev superseded : Bool
  superseded =
      newer_gen (V.text w.server (bot_gen_key token)) (gen_or_zero (lookup token w.bridge.gens))

  -- Where Redis holds a newer generation of the token, UnregisterBot leaves the shared records
  -- of every token as they are.
  pub unregister_bot-superseded :
      is_stale conn (lookup token w.bridge.bots) ≡ false
      → superseded ≡ true
      → (u : String) → SameBot V w.server (unregister_bot R token conn w).server u
  unregister_bot-superseded live newer u =
      subst (λ (x : World R). SameBot V w.server x.server u)
        (sym (
          unregister_bot-skipped R token conn w live
            (should_skip-newer_gen R V L up token _ w.server ∙ newer)))
        (should_skip-SameBot R V L up token _ w.server u)

  cleaned_up :
      (live : is_stale conn (lookup token w.bridge.bots) ≡ false)
      → superseded ≡ false
      → unregister_bot R token conn w
        ≡ cleanup_shared_bot_state R token true (forgotten R token conn w live)
  cleaned_up live old =
      unregister_bot-cleaned R token conn w live
        (should_skip-newer_gen R V L up token _ w.server ∙ old)

  -- Where Redis holds no newer generation, UnregisterBot clears the token's generation, owner
  -- and heartbeat, whichever worker is recorded as the owner.
  pub unregister_bot-Cleared :
      is_stale conn (lookup token w.bridge.bots) ≡ false
      → superseded ≡ false
      → Cleared V (unregister_bot R token conn w).server token
  unregister_bot-Cleared live old =
      subst (λ (x : World R). Cleared V x.server token) (sym (cleaned_up live old))
        (cleanup-Cleared R V L up token _)

  -- Where Redis holds no newer generation, UnregisterBot leaves the records of the other tokens
  -- as they are.
  pub unregister_bot-others :
      (u : String)
      → is_stale conn (lookup token w.bridge.bots) ≡ false
      → superseded ≡ false
      → token ≢ u
      → SameBot V w.server (unregister_bot R token conn w).server u
  unregister_bot-others u live old ne =
      subst (λ (x : World R). SameBot V w.server x.server u) (sym (cleaned_up live old))
        (SameBot-trans V (should_skip-SameBot R V L up token _ w.server u)
          (cleanup-SameBot R V L up token u _ ne))
