-- ===== src/Bridge/Overlap.antt =====
-- An eviction by reconciliation or by the worker inbox, which does not take `regMu`, and a
-- registration of the token between its deletions.
use astron_claw.Prelude.{
  ℕ, String, ◌≡◌, ◌∙◌, ap, Bool, false, not, ◌&&◌, none, some, if◌then◌else◌, eq_refl,
}
use astron_claw.Prelude.Int.{ℤ}
use astron_claw.Prelude.Dict.{lookup, lookup-remove}
use astron_claw.Ring.Invariant
use astron_claw.Ring.Membership.{holds, holds-untrack}
use astron_claw.Redis.{Redis}
use astron_claw.Redis.Laws.{View, RedisLaws}
use astron_claw.Bridge.{World, drop_conn, drop_gen, drop_place, register_bot}
use astron_claw.Bridge.Register.{register_bot-Registered}

-- A registration that succeeds after an eviction has deleted the connection, and before it deletes
-- the generation and the place in the ring, leaves a connection without either.
pub evict_local-overlap :
    (R : Redis) (V : View R.Server) (L : RedisLaws R V) (token : String) (conn : ℕ) (now : ℤ)
    (w w' : World R)
    → register_bot R token conn now (record w { bridge = drop_conn token w.bridge }) ≡ (none, w')
    → Invariant.IsValid w'.bridge.ring
    → (let b = drop_place token (drop_gen token w'.bridge) in
        (lookup token b.bots ≡ some conn)
        × (lookup token b.gens ≡ none)
        × (holds b.ring token ≡ false))
evict_local-overlap R V L token conn now w w' h valid =
    let (gen, reg) =
      register_bot-Registered R V L token conn now (record w { bridge = drop_conn token w.bridge })
        w' h in
    (
      reg.bots token
          ∙ ap (λ (c : Bool). if c then some conn else lookup token (drop_conn token w.bridge).bots)
              (eq_refl token),
      lookup-remove token token w'.bridge.gens
          ∙ ap (λ (c : Bool). if c then none else lookup token w'.bridge.gens) (eq_refl token),
      holds-untrack token w'.bridge.ring token valid
          ∙ ap (λ (c : Bool). not c && holds w'.bridge.ring token) (eq_refl token),
    )
