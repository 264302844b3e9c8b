-- ===== src/Bridge/Handover.antt =====
-- One token, several workers: what the departure of an earlier holder does to a later one.
use astron_claw.Prelude.{ℕ, String, ◌≡◌, ◌∙◌, ap, true, false, Option, none, some, arith}
use astron_claw.Prelude.Int.{ℤ, pos, ◌+ℤ◌, ltb_ℤ, +ℤ_parts}
use astron_claw.Prelude.Dict.{lookup}
use astron_claw.Keys.{bot_gen_key, bot_owner_key}
use astron_claw.ParseInt.{parse_int}
use astron_claw.Redis.{Redis}
use astron_claw.Redis.Laws.{View, RedisLaws}
use astron_claw.Bridge.{
  Bridge, World, is_stale, gen_or_zero, newer_than, register_bot, unregister_bot,
}
use astron_claw.Bridge.Register.{Registered, register_bot-claimed}
use astron_claw.Bridge.Shared.{Reachable, newer_gen, SameBot, Cleared}
use astron_claw.Bridge.Unregister.{unregister_bot-superseded, unregister_bot-Cleared}

lt-next : (m : ℤ) → ltb_ℤ m (m +ℤ pos 1) ≡ true
lt-next m = ground (arith, +ℤ_parts m (pos 1))

not-lt_self : (m : ℤ) → ltb_ℤ m m ≡ false
not-lt_self m = ground arith

-- What Redis holds after a registration, as the cross-worker guard reads it.
newer_gen-Registered :
    (R : Redis) (V : View R.Server) (token : String) (conn : ℕ) (b : Bridge) (w : World R)
    (gen local : ℤ)
    → Registered R V token conn b w gen
    → newer_gen (V.text w.server (bot_gen_key token)) local ≡ ltb_ℤ local gen
newer_gen-Registered R V token conn b w gen local reg =
    let (v, at, parsed) = reg.shared_gen in
    ap (λ (o : Option String). newer_gen o local) at ∙ ap (newer_than local) parsed

module _ (R : Redis) (V : View R.Server) (L : RedisLaws R V) (up : Reachable R) (token : String)
    (conn : ℕ) (now : ℤ) (earlier : Bridge) (later after : World R)
    (registered : register_bot R token conn now later ≡ (none, after)) (leaving : Option ℕ)
    (live : is_stale leaving (lookup token earlier.bots) ≡ false) where
  -- While Redis answers, without errors, the commands that the guard and the cleanup send: a
  -- worker that holds the current generation of a token, and loses the token to a registration
  -- at another worker, removes nothing when its own connection ends: Redis still names the other
  -- worker as the owner, and its heartbeat and generation stay.
  pub handover :
      (v : String) (gen : ℤ)
      → lookup token earlier.gens ≡ some gen
      → V.text later.server (bot_gen_key token) ≡ some v
      → parse_int v ≡ some gen
      → (let left =
            unregister_bot R token leaving (record { bridge = earlier; server = after.server }) in
          (V.text left.server (bot_owner_key token) ≡ some later.bridge.worker_id)
          × SameBot V after.server left.server token)
  handover v gen held at parsed =
      let (new, claimed, reg) = register_bot-claimed R V L token conn now later after registered in
      let next : new ≡ gen +ℤ pos 1 = L.incr-next _ v gen new later.server claimed at parsed in
      let newer =
        newer_gen-Registered R V token conn later.bridge after new
          (gen_or_zero (lookup token earlier.gens)) reg
        ∙ ap (λ (o : Option ℤ). ltb_ℤ (gen_or_zero o) new) held
        ∙ ap (ltb_ℤ gen) next
        ∙ lt-next gen in
      let kept =
        unregister_bot-superseded R V L up token leaving
          (record { bridge = earlier; server = after.server }) live newer token in
      (kept.owner ∙ reg.owner, kept)

  -- The guard compares generations, and the generation starts again at 1 once its key was
  -- deleted. Where the commands in Redis succeed, a worker left with generation 1 from before
  -- wipes out a later registration, also at another worker, when its own connection ends.
  pub reset_generation :
      lookup token earlier.gens ≡ some (pos 1)
      → V.text later.server (bot_gen_key token) ≡ none
      → Cleared V
          (unregister_bot R token leaving
            (record { bridge = earlier; server = after.server })).server
          token
  reset_generation held absent =
      let (new, claimed, reg) = register_bot-claimed R V L token conn now later after registered in
      let first : new ≡ pos 1 = L.incr-first _ new later.server claimed absent in
      let old =
        newer_gen-Registered R V token conn later.bridge after new
          (gen_or_zero (lookup token earlier.gens)) reg
        ∙ ap (λ (o : Option ℤ). ltb_ℤ (gen_or_zero o) new) held
        ∙ ap (ltb_ℤ (pos 1)) first
        ∙ not-lt_self (pos 1) in
      unregister_bot-Cleared R V L up token leaving
        (record { bridge = earlier; server = after.server }) live old
