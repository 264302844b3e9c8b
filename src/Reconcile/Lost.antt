-- ===== src/Reconcile/Lost.antt =====
-- Which bots reconciliation drops.
use astron_claw.Prelude.{
  String, ◌≡◌, refl, ◌∙◌, Bool, false, not, ◌&&◌, ◌||◌, Option, none, some, inl, inr, ap, arith,
  if◌then◌else◌, str_eq,
}
use astron_claw.Prelude.Int.{ℤ}
use astron_claw.Prelude.Dict.{lookup, lookup-remove}
use astron_claw.Keys.{bot_gen_key, bot_owner_key}
use astron_claw.Redis.{Redis}
use astron_claw.Redis.Laws.{View, RedisLaws}
use astron_claw.Bridge.{World, Bridge, evict_local, forget, skip_on}
use astron_claw.Bridge.Shared.{Reachable, newer_gen}
use astron_claw.Reconcile.{owner_moved, reconcile_gen, reconcile_token}

-- Redis names another worker as the owner.
abbrev pub moved_to : String → Option String → Bool
moved_to me none = false
moved_to me (some owner) = not (str_eq owner "") && not (str_eq owner me)

-- Redis holds a newer generation than the local one, where there is a local one.
abbrev pub outrun : Option ℤ → Option String → Bool
outrun none remote = false
outrun (some local) remote = newer_gen remote local

evict_local-bots :
    (token u : String) (b : Bridge)
    → lookup u (evict_local token b).bots ≡ (if str_eq token u then none else lookup u b.bots)
unfolding evict_local forget
evict_local-bots token u b = lookup-remove token u b.bots

module _ (R : Redis) (V : View R.Server) (L : RedisLaws R V) (up : Reachable R) where
  owner_moved-text :
      (me token : String) (s : R.Server)
      → owner_moved me (R.get (bot_owner_key token) s).0
        ≡ moved_to me (V.text s (bot_owner_key token))
  unfolding owner_moved
  owner_moved-text me token s = elim (up.get (bot_owner_key token) s) [
    | inl (v, e) ↦ rw (e, L.get-ok (bot_owner_key token) v s e) refl
    | inr e ↦ rw (e, L.get-nil (bot_owner_key token) s e) refl
  ]

  skip_on-text :
      (local : ℤ) (token : String) (s : R.Server)
      → skip_on local (R.get (bot_gen_key token) s).0
        ≡ newer_gen (V.text s (bot_gen_key token)) local
  unfolding skip_on
  skip_on-text local token s = elim (up.get (bot_gen_key token) s) [
    | inl (v, e) ↦ rw (e, L.get-ok (bot_gen_key token) v s e) refl
    | inr e ↦ rw (e, L.get-nil (bot_gen_key token) s e) refl
  ]

  reconcile_gen-bots :
      (local : Option ℤ) (token u : String) (w : World R)
      → lookup u (reconcile_gen R local token w).bridge.bots ≡ (
          if str_eq token u && outrun local (V.text w.server (bot_gen_key token))
          then none
          else lookup u w.bridge.bots)
  unfolding reconcile_gen
  reconcile_gen-bots none token u w = ground arith
  reconcile_gen-bots (some local) token u w =
      ground (arith, skip_on-text local token w.server, evict_local-bots token u w.bridge)

  -- Where the reads of the owner and the generation succeed, reconciling a token drops that bot
  -- exactly when Redis names another worker as its owner, or holds a newer generation than this
  -- worker; every other bot stays.
  pub reconcile_token-bots :
      (token u : String) (w : World R)
      → lookup u (reconcile_token R token w).bridge.bots ≡ (
          if str_eq token u
            && (moved_to w.bridge.worker_id (V.text w.server (bot_owner_key token))
                || outrun (lookup token w.bridge.gens) (V.text w.server (bot_gen_key token)))
          then none
          else lookup u w.bridge.bots)
  unfolding reconcile_token
  reconcile_token-bots token u w =
      let s = (R.get (bot_owner_key token) w.server).1 in
      let same : V.text s (bot_gen_key token) ≡ V.text w.server (bot_gen_key token) =
        (L.get-same (bot_owner_key token) (bot_gen_key token) w.server).text in
      let rest =
        reconcile_gen-bots (lookup token w.bridge.gens) token u (record w { server = s })
        ∙ ap
            (λ (o : Option String).
              if str_eq token u && outrun (lookup token w.bridge.gens) o
              then none
              else lookup u w.bridge.bots)
            same in
      ground (
        arith,
        owner_moved-text w.bridge.worker_id token w.server,
        evict_local-bots token u w.bridge,
        rest,
      )
