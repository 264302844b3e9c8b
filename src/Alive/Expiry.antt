-- ===== src/Alive/Expiry.antt =====
-- The expiry of bots without a heartbeat: cleanupExpiredBots.
use astron_claw.Prelude.{
  String, ◌≡◌, refl, sym, ◌∙◌, ap, ap₂, inl, inr, Bool, true, false, ◌||◌, Option, none, List, [],
  ◌∷◌, arith, if◌then◌else◌, str_eq, eq_iff, Bool-cases, length, ◌==◌, subst,
}
use astron_claw.Prelude.Int.{ℤ, ◌-ℤ◌}
use astron_claw.Keys.{
  bot_alive_key, bot_gen_key, bot_owner_key, gen-ne-owner, owner-ne-gen, alive-ne-gen,
  alive-ne-owner, gen-ne-alive, owner-ne-alive, gen_key-injective, owner_key-injective,
}
use astron_claw.Redis.{Redis, Reply, neg_inf, incl, Bound}
use astron_claw.Redis.Laws.{View, RedisLaws, elem, in_range}
use astron_claw.Bridge.{World, enqueue_artifact_cleanup}
use astron_claw.Bridge.Shared.{Reachable}
use astron_claw.Alive.{bot_ttl, or_empty, expired, drop_expired, cleanup_expired_bots}
use astron_claw.Alive.Checks.{Readable}

abbrev cleared_if : {A : Type 0} → Bool → Option A → Option A
cleared_if b o = if b then none else o

module _ (R : Redis) (V : View R.Server) (L : RedisLaws R V) (up : Reachable R) where
  del-owner :
      (tok u : String) (s : R.Server)
      → V.text (R.del (bot_owner_key tok) s).1 (bot_owner_key u)
        ≡ cleared_if (str_eq tok u) (V.text s (bot_owner_key u))
  del-owner tok u s = elim (Bool-cases (str_eq tok u)) [
    | inl e ↦
        let same = (eq_iff tok u).0 e in
        rw (e, ← same) (L.del-ok (bot_owner_key tok) _ s (up.del (bot_owner_key tok) s).1)
    | inr e ↦
        rw e
          (L.del-frame (bot_owner_key tok) _ s (λ k.
            let same : tok ≡ u = owner_key-injective tok u k in ground (arith, eq_iff tok u))).text
  ]

  del-gen :
      (tok u : String) (s : R.Server)
      → V.text (R.del (bot_gen_key tok) s).1 (bot_gen_key u)
        ≡ cleared_if (str_eq tok u) (V.text s (bot_gen_key u))
  del-gen tok u s = elim (Bool-cases (str_eq tok u)) [
    | inl e ↦
        let same = (eq_iff tok u).0 e in
        rw (e, ← same) (L.del-ok (bot_gen_key tok) _ s (up.del (bot_gen_key tok) s).1)
    | inr e ↦
        rw e
          (L.del-frame (bot_gen_key tok) _ s (λ k.
            let same : tok ≡ u = gen_key-injective tok u k in ground (arith, eq_iff tok u))).text
  ]

  -- The loop deletes the owner and the generation of the listed tokens, and nothing else.
  pub record Dropped (toks : List String) (s t : R.Server) (u : String) : Type 0 where
    pub owner : V.text t (bot_owner_key u) ≡ cleared_if (elem u toks) (V.text s (bot_owner_key u))
    pub gen : V.text t (bot_gen_key u) ≡ cleared_if (elem u toks) (V.text s (bot_gen_key u))
    pub score : V.score t bot_alive_key u ≡ V.score s bot_alive_key u

  cleared_twice :
      (tok u : String) (rest : Bool) (x y z : Option String)
      → x ≡ cleared_if rest y
      → y ≡ cleared_if (str_eq tok u) z
      → x ≡ cleared_if (str_eq u tok || rest) z
  cleared_twice tok u rest x y z h g = ground (arith, eq_iff tok u, eq_iff u tok)

  drop_expired-Dropped :
      (toks : List String) (w : World R) (u : String)
      → Dropped toks w.server (drop_expired R toks w).server u
  unfolding drop_expired
  drop_expired-Dropped [] w u = record { owner = refl; gen = refl; score = refl }
  drop_expired-Dropped (tok ∷ toks) w u =
      let s1 = (R.del (bot_owner_key tok) w.server).1 in
      let s2 = (R.del (bot_gen_key tok) s1).1 in
      let ih =
        drop_expired-Dropped toks
          (record { bridge = enqueue_artifact_cleanup tok w.bridge; server = s2 }) u in
      record {
        owner =
            cleared_twice tok u (elem u toks) _ (V.text s2 (bot_owner_key u))
              (V.text w.server (bot_owner_key u)) ih.owner
              ((L.del-frame (bot_gen_key tok) _ s1 (gen-ne-owner tok u)).text
                ∙ del-owner tok u w.server);
        gen =
            cleared_twice tok u (elem u toks) _ (V.text s2 (bot_gen_key u))
              (V.text w.server (bot_gen_key u)) ih.gen
              (del-gen tok u s1
                ∙ ap (cleared_if (str_eq tok u))
                    (L.del-frame (bot_owner_key tok) _ w.server (owner-ne-gen tok u)).text);
        score =
            ih.score
            ∙ (L.del-frame (bot_gen_key tok) bot_alive_key s1 (gen-ne-alive tok)).score u
            ∙ (L.del-frame (bot_owner_key tok) bot_alive_key w.server (owner-ne-alive tok)).score u;
      }

-- a recorded heartbeat of 30 seconds ago or more
abbrev pub stale : ℤ → Option ℤ → Bool
stale now o = in_range neg_inf (incl (now -ℤ bot_ttl)) o

module _ (R : Redis) (V : View R.Server) (L : RedisLaws R V) (up : Reachable R) (reads : Readable R)
    (now : ℤ) where
  abbrev hi : Bound
  hi = incl (now -ℤ bot_ttl)

  listed_stale :
      (s : R.Server) (u : String)
      → elem u (or_empty (expired R now s).0) ≡ stale now (V.score s bot_alive_key u)
  listed_stale s u =
      let (out, e) = reads.zrange bot_alive_key neg_inf hi s in
      ap (λ (r : Reply (List String)). elem u (or_empty r)) e ∙ L.zrange-ok _ _ _ out u s e

  none_listed : (l : List String) (u : String) → (length l == 0) ≡ true → elem u l ≡ false
  none_listed [] u h = refl
  none_listed (x ∷ l) u h = absurd (ground arith)

  -- What the expiry leaves of a token's records.
  pub record Swept (s t : R.Server) (u : String) : Type 0 where
    pub owner :
        V.text t (bot_owner_key u)
        ≡ cleared_if (stale now (V.score s bot_alive_key u)) (V.text s (bot_owner_key u))
    pub gen :
        V.text t (bot_gen_key u)
        ≡ cleared_if (stale now (V.score s bot_alive_key u)) (V.text s (bot_gen_key u))
    pub score :
        V.score t bot_alive_key u
        ≡ cleared_if (stale now (V.score s bot_alive_key u)) (V.score s bot_alive_key u)

  abbrev read_server : World R → R.Server
  read_server w = (expired R now w.server).1

  abbrev listed : World R → List String
  listed w = or_empty (expired R now w.server).0

  abbrev dropped : World R → World R
  dropped w = drop_expired R (listed w) (record w { server = read_server w })

  kept : (b : Bool) (o : Option String) → b ≡ false → o ≡ cleared_if b o
  kept b o h = rw h

  kept_score : (b : Bool) (o : Option ℤ) → b ≡ false → o ≡ cleared_if b o
  kept_score b o h = rw h

  idle-Swept :
      (w : World R) (u : String)
      → stale now (V.score w.server bot_alive_key u) ≡ false
      → Swept w.server (read_server w) u
  idle-Swept w u keeps =
      let same = L.zrange-same bot_alive_key neg_inf hi in
      record {
        owner = (same (bot_owner_key u) w.server).text ∙ kept _ _ keeps;
        gen = (same (bot_gen_key u) w.server).text ∙ kept _ _ keeps;
        score = (same bot_alive_key w.server).score u ∙ kept_score _ _ keeps;
      }

  busy-Swept :
      (w : World R) (u : String)
      → Swept w.server (R.zrem_range_by_score bot_alive_key neg_inf hi (dropped w).server).1 u
  busy-Swept w u =
      let same = L.zrange-same bot_alive_key neg_inf hi in
      let d = drop_expired-Dropped R V L up (listed w) (record w { server = read_server w }) u in
      let t = (dropped w).server in
      record {
        owner =
            (L.zrem_range-frame bot_alive_key neg_inf hi (bot_owner_key u) t
              (alive-ne-owner u)).text
            ∙ d.owner
            ∙ ap₂ cleared_if (listed_stale w.server u) (same (bot_owner_key u) w.server).text;
        gen =
            (L.zrem_range-frame bot_alive_key neg_inf hi (bot_gen_key u) t (alive-ne-gen u)).text
            ∙ d.gen
            ∙ ap₂ cleared_if (listed_stale w.server u) (same (bot_gen_key u) w.server).text;
        score =
            L.zrem_range-ok bot_alive_key neg_inf hi _ u t
              (up.zrem_range bot_alive_key neg_inf hi t).1
            ∙ ap (λ (o : Option ℤ). cleared_if (stale now o) o)
                (d.score ∙ (same bot_alive_key w.server).score u);
      }

  cleanup_expired_idle :
      (w : World R)
      → (length (listed w) == 0) ≡ true
      → (cleanup_expired_bots R now w).server ≡ read_server w
  unfolding cleanup_expired_bots
  cleanup_expired_idle w e = simp e

  cleanup_expired_busy :
      (w : World R)
      → (length (listed w) == 0) ≡ false
      → (cleanup_expired_bots R now w).server
        ≡ (R.zrem_range_by_score bot_alive_key neg_inf hi (dropped w).server).1
  unfolding cleanup_expired_bots
  cleanup_expired_busy w e = simp e

  -- Where the reads and the deletions in Redis succeed, one run of the expiry removes the
  -- heartbeat, the owner and the generation of exactly the tokens whose last heartbeat is 30
  -- seconds old or more, and keeps the records of all others.
  pub cleanup_expired-Swept :
      (w : World R) (u : String) → Swept w.server (cleanup_expired_bots R now w).server u
  cleanup_expired-Swept w u = elim (Bool-cases (length (listed w) == 0)) [
    | inl e ↦
        subst (λ (t : R.Server). Swept w.server t u) (sym (cleanup_expired_idle w e))
          (idle-Swept w u (sym (listed_stale w.server u) ∙ none_listed (listed w) u e))
    | inr e ↦
        subst (λ (t : R.Server). Swept w.server t u) (sym (cleanup_expired_busy w e))
          (busy-Swept w u)
  ]
