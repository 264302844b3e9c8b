-- ===== src/Bridge/Shared.antt =====
-- The shared records of a token in Redis: its generation, its owner and its place among the
-- alive bots.
use astron_claw.Prelude.{
  ℕ, String, ◌≡◌, ◌≢◌, sym, ◌∙◌, ap, ◌⊎◌, inl, inr, Bool, true, false, Option, none, some,
  if◌then◌else◌, eq_refl, str_eq_ne,
}
use astron_claw.Prelude.Int.{ℤ}
use astron_claw.Keys.{
  bot_alive_key, bot_gen_key, bot_owner_key, gen-ne-owner, owner-ne-gen, alive-ne-gen,
  alive-ne-owner, gen-ne-alive, owner-ne-alive, gen_key-injective, owner_key-injective,
}
use astron_claw.ParseInt.{parse_int}
use astron_claw.Redis.{Redis, Bound, ok, nil}
use astron_claw.Redis.Laws.{View, RedisLaws}
use astron_claw.Bridge.{
  World, cleanup_shared_bot_state, should_skip_shared_cleanup, newer_than, skip_on,
}

-- The commands of a cleanup succeed: Redis is reachable.
pub record Reachable (R : Redis) : Type 0 where
  pub get :
      (k : String) (s : R.Server) → ((v : String) × ((R.get k s).0 ≡ ok v)) ⊎ ((R.get k s).0 ≡ nil)
  pub zrem : (k m : String) (s : R.Server) → (n : ℕ) × ((R.zrem k m s).0 ≡ ok n)
  pub zrem_range :
      (k : String) (lo hi : Bound) (s : R.Server)
      → (n : ℕ) × ((R.zrem_range_by_score k lo hi s).0 ≡ ok n)
  pub del : (k : String) (s : R.Server) → (n : ℕ) × ((R.del k s).0 ≡ ok n)

-- Whether Redis holds a generation of the token that is newer than `local`.
abbrev pub newer_gen : Option String → ℤ → Bool
newer_gen none local = false
newer_gen (some raw) local = newer_than local (parse_int raw)

module _ {S : Type 0} (V : View S) where
  -- The shared records of a token are the same in two states.
  pub record SameBot (s t : S) (token : String) : Type 0 where
    pub gen : V.text t (bot_gen_key token) ≡ V.text s (bot_gen_key token)
    pub owner : V.text t (bot_owner_key token) ≡ V.text s (bot_owner_key token)
    pub alive : V.score t bot_alive_key token ≡ V.score s bot_alive_key token

  -- Nothing is recorded of a token.
  pub record Cleared (s : S) (token : String) : Type 0 where
    pub gen : V.text s (bot_gen_key token) ≡ none
    pub owner : V.text s (bot_owner_key token) ≡ none
    pub alive : V.score s bot_alive_key token ≡ none

module _ {S : Type 0} (V : View S) where
  pub SameBot-trans : {s t u : S} {k : String} → SameBot V s t k → SameBot V t u k → SameBot V s u k
  SameBot-trans h g = record {
    gen = g.gen ∙ h.gen;
    owner = g.owner ∙ h.owner;
    alive = g.alive ∙ h.alive;
  }

module _ (R : Redis) (V : View R.Server) (L : RedisLaws R V) (up : Reachable R) where
  -- A cleanup clears the token's records.
  pub cleanup-Cleared :
      (token : String) (w : World R)
      → Cleared V (cleanup_shared_bot_state R token true w).server token
  unfolding cleanup_shared_bot_state
  cleanup-Cleared token w =
      let s1 = (R.zrem bot_alive_key token w.server).1 in
      let s2 = (R.del (bot_owner_key token) s1).1 in
      record {
        gen = L.del-ok _ _ s2 (up.del (bot_gen_key token) s2).1;
        owner =
            (L.del-frame (bot_gen_key token) (bot_owner_key token) s2
              (gen-ne-owner token token)).text
            ∙ L.del-ok _ _ s1 (up.del (bot_owner_key token) s1).1;
        alive =
            (L.del-frame (bot_gen_key token) bot_alive_key s2 (gen-ne-alive token)).score token
            ∙ (L.del-frame (bot_owner_key token) bot_alive_key s1 (owner-ne-alive token)).score
                token
            ∙ L.zrem-ok _ token _ token w.server (up.zrem bot_alive_key token w.server).1
            ∙ ap (λ (b : Bool). if b then none else V.score w.server bot_alive_key token)
                (eq_refl token);
      }

  -- A cleanup of one token leaves every other token's records as they were.
  pub cleanup-SameBot :
      (token other : String) (w : World R)
      → token ≢ other
      → SameBot V w.server (cleanup_shared_bot_state R token true w).server other
  unfolding cleanup_shared_bot_state
  cleanup-SameBot token other w ne =
      let s1 = (R.zrem bot_alive_key token w.server).1 in
      let s2 = (R.del (bot_owner_key token) s1).1 in
      record {
        gen =
            (L.del-frame (bot_gen_key token) _ s2 (λ e. ne (gen_key-injective _ _ e))).text
            ∙ (L.del-frame (bot_owner_key token) _ s1 (owner-ne-gen token other)).text
            ∙ (L.zrem-frame bot_alive_key token _ w.server (alive-ne-gen other)).text;
        owner =
            (L.del-frame (bot_gen_key token) _ s2 (gen-ne-owner token other)).text
            ∙ (L.del-frame (bot_owner_key token) _ s1 (λ e. ne (owner_key-injective _ _ e))).text
            ∙ (L.zrem-frame bot_alive_key token _ w.server (alive-ne-owner other)).text;
        alive =
            (L.del-frame (bot_gen_key token) _ s2 (gen-ne-alive token)).score other
            ∙ (L.del-frame (bot_owner_key token) _ s1 (owner-ne-alive token)).score other
            ∙ L.zrem-ok _ token _ other w.server (up.zrem bot_alive_key token w.server).1
            ∙ ap (λ (b : Bool). if b then none else V.score w.server bot_alive_key other)
                (str_eq_ne ne);
      }

  -- The cross-worker guard answers whether Redis holds a newer generation.
  pub should_skip-newer_gen :
      (token : String) (local : ℤ) (s : R.Server)
      → (should_skip_shared_cleanup R token local s).0
        ≡ newer_gen (V.text s (bot_gen_key token)) local
  unfolding should_skip_shared_cleanup skip_on
  should_skip-newer_gen token local s = elim (up.get (bot_gen_key token) s) [
    | inl (v, e) ↦
        ap (skip_on local) e
        ∙ ap (λ (o : Option String). newer_gen o local) (sym (L.get-ok _ v s e))
    | inr e ↦
        ap (skip_on local) e ∙ ap (λ (o : Option String). newer_gen o local) (sym (L.get-nil _ s e))
  ]

  pub should_skip-SameBot :
      (token : String) (local : ℤ) (s : R.Server) (other : String)
      → SameBot V s (should_skip_shared_cleanup R token local s).1 other
  unfolding should_skip_shared_cleanup
  should_skip-SameBot token local s other = record {
    gen = (L.get-same _ _ s).text;
    owner = (L.get-same _ _ s).text;
    alive = (L.get-same _ _ s).score other;
  }
