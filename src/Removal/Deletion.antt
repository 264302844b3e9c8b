-- ===== src/Removal/Deletion.antt =====
-- RemoveBotSessions and the other workers: what it leaves to the worker that the bot is connected
-- to, and the stale connection that hides that worker.
use astron_claw.Prelude.{
  ℕ, String, ◌≡◌, ◌≢◌, refl, sym, ap, subst, ◌∙◌, true, false, ◌&&◌, Option, none, some, [], ◌∷◌,
  ◌++◌, inl, inr, arith, eq_refl, str_eq, str_eq_ne, if◌then◌else◌, Bool-cases,
}
use astron_claw.Prelude.Int.{ℤ}
use astron_claw.Prelude.Dict.{lookup, lookup-remove}
use astron_claw.Keys.{bot_owner_key, bot_gen_key, bot_alive_key}
use astron_claw.Redis.{Redis, ok}
use astron_claw.Redis.Laws.{View, RedisLaws}
use astron_claw.Bridge.{
  Bridge, World, evict_local, forget, close, was_closed, cleanup_shared_bot_state, delete_gen,
}
use astron_claw.Bridge.Shared.{Reachable, SameBot}
use astron_claw.Bridge.Unregister.{unregister_bot-superseded, unregister_bot-bots}
use astron_claw.Reconcile.{get_bot_owner}
use astron_claw.Dispatch.{
  InboxMessage, Inbox, entry, inbox_step, take_message, worker_inbox_name,
  publish_disconnect_to_worker_inbox,
}
use astron_claw.Sessions.{Cache, Database, Store, remove_sessions}
use astron_claw.Sessions.Laws.{DatabaseLaws}
use astron_claw.Removal.{
  remove_here, remove_elsewhere, remove_bot, remove_bot_sessions, publish_to_route,
}
use astron_claw.Removal.Removed.{
  Removed, superseded_at, remove_bot-Removed, unregister_bot-closed, was_closed-close, not_stale,
}

module _ (encode : InboxMessage → String) (R : Redis) (V : View R.Server) (L : RedisLaws R V)
    (up : Reachable R) where
  outcome :
      (C : Cache) (D : Database) (token : String) (store : Store C D) (w : World R)
      → (remove_bot_sessions encode R C D token (store, w)).0 ≡ (D.delete_token token store.db).0
  unfolding remove_bot_sessions remove_sessions
  outcome C D token store w = ground arith

  ran :
      (C : Cache) (D : Database) (token : String) (store : Store C D) (w : World R)
      → (D.delete_token token store.db).0 ≡ true
      → ((remove_bot_sessions encode R C D token (store, w)).1.1 ≡ remove_bot encode R token w)
        × ((remove_bot_sessions encode R C D token (store, w)).1.0.db
            ≡ (D.delete_token token store.db).1)
  unfolding remove_bot_sessions remove_sessions
  ran C D token store w e = (ground arith, ground arith)

  -- When RemoveBotSessions has succeeded, the table has no session of the token, the worker
  -- holds no connection of it and has closed the one that it held, and Redis has no generation,
  -- owner and heartbeat of it. The commands on these records are taken to succeed, and Redis to
  -- hold no newer generation than a worker that holds a connection.
  pub remove_bot_sessions-Removed :
      (C : Cache) (D : Database) (created : D.State → String → String → Option ℤ)
      (DL : DatabaseLaws D created) (token : String) (store : Store C D) (w : World R)
      → (remove_bot_sessions encode R C D token (store, w)).0 ≡ true
      → superseded_at R V token (lookup token w.bridge.bots) w ≡ false
      → Removed R V token w (remove_bot_sessions encode R C D token (store, w)).1.1
        × ((i : String)
            → created (remove_bot_sessions encode R C D token (store, w)).1.0.db token i ≡ none)
  remove_bot_sessions-Removed C D created DL token store w h old =
      elim (Bool-cases (D.delete_token token store.db).0) [
        | inr e ↦ absurd (cc (sym (outcome C D token store w) ∙ h, e))
        | inl e ↦ (
          subst (λ x. Removed R V token w x) (sym (ran C D token store w e).0)
              (remove_bot-Removed encode R V L up token w old),
          λ i.
              ap (λ x. created x token i) (ran C D token store w e).1
              ∙ DL.delete_token-effect token token i store.db
              ∙ ap (λ b. if b && str_eq token token then none else created store.db token i) e
              ∙ ap (λ b. if b then none else created store.db token i) (eq_refl token),
        )
      ]

  abbrev closing : String → ℕ → World R → World R
  closing token conn w = record w {
    bridge = record w.bridge { closed = close conn 4003 "Token deleted" w.bridge.closed };
  }

  -- Where a worker still holds a connection of the token, Redis holds a newer generation, and
  -- Redis answers without errors, a removal at that worker drops its own connection and closes
  -- it, and nothing else of the token: Redis keeps the generation, the owner and the heartbeat
  -- of every token, also of the one that is removed.
  pub remove_bot-stale_holder :
      (token : String) (conn : ℕ) (w : World R)
      → lookup token w.bridge.bots ≡ some conn
      → superseded_at R V token (some conn) w ≡ true
      → (u : String)
      → (lookup token (remove_bot encode R token w).bridge.bots ≡ none)
        × (was_closed conn (remove_bot encode R token w).bridge.closed ≡ true)
        × SameBot V w.server (remove_bot encode R token w).server u
  unfolding remove_bot remove_here
  remove_bot-stale_holder token conn w here newer u =
      subst
        (λ o.
          let w' : World R = elim o as (λ x. World R) [
            | none ↦ remove_elsewhere encode R token w
            | some c ↦ remove_here encode R token c w
          ] in
          (lookup token w'.bridge.bots ≡ none)
          × (was_closed conn w'.bridge.closed ≡ true)
          × SameBot V w.server w'.server u)
        (sym here)
        (
          unregister_bot-bots R token none (closing token conn w) token
                (not_stale (lookup token w.bridge.bots))
              ∙ ap (λ b. if b then none else lookup token w.bridge.bots) (eq_refl token),
          ap (was_closed conn) (unregister_bot-closed R token (closing token conn w))
              ∙ was_closed-close conn 4003 "Token deleted" w.bridge.closed,
          unregister_bot-superseded R V L up token none (closing token conn w)
              (not_stale (lookup token w.bridge.bots)) newer u,
        )

abbrev pub disconnect_message : String → InboxMessage
disconnect_message token = record { token = token; request = none; disconnect = true }

evicted :
    (token : String) (j : Inbox)
    → str_eq token "" ≡ false
    → (take_message (some (disconnect_message token)) j).bridge ≡ evict_local token j.bridge
unfolding take_message
evicted token j named = rw named refl

published-server :
    (encode : InboxMessage → String) (R : Redis) (worker token : String) (s : R.Server)
    → (publish_disconnect_to_worker_inbox encode R worker token s).1
      ≡ (R.xadd (worker_inbox_name worker) (encode (disconnect_message token)) s).1
unfolding publish_disconnect_to_worker_inbox
published-server encode R worker token s = ground arith

evict_local-gone :
    (token : String) (conn : ℕ) (b : Bridge)
    → lookup token b.bots ≡ some conn
    → (lookup token (evict_local token b).bots ≡ none)
      × (was_closed conn (evict_local token b).closed ≡ true)
unfolding evict_local forget
evict_local-gone token conn b here = (
  lookup-remove token token b.bots
      ∙ ap (λ c. if c then none else lookup token b.bots) (eq_refl token),
  rw here (was_closed-close conn 4005 "Evicted by newer connection" b.closed),
)

module _ (encode : InboxMessage → String) (decode : String → Option InboxMessage) (R : Redis)
    (V : View R.Server) (L : RedisLaws R V) (up : Reachable R) (token worker : String)
    (w : World R) where
  route_read :
      V.text w.server (bot_owner_key token) ≡ some worker
      → (get_bot_owner R token w.server).0 ≡ ok worker
  route_read h = elim (up.get (bot_owner_key token) w.server) [
    | inl (v, e) ↦
        let found : some v ≡ some worker = sym (L.get-ok _ v w.server e) ∙ h in e ∙ ap ok (cc found)
    | inr e ↦ let wrong : none ≡ some worker = sym (L.get-nil _ w.server e) ∙ h in cc
  ]

  -- the server after a worker without the connection has removed the token
  published :
      lookup token w.bridge.bots ≡ none
      → (get_bot_owner R token w.server).0 ≡ ok worker
      → (remove_bot encode R token w).server ≡ (
          let s =
            (R.xadd
              (worker_inbox_name worker)
              (encode (disconnect_message token))
              (R.get (bot_owner_key token) w.server).1).1 in
          let t = (R.del (bot_owner_key token) (R.zrem bot_alive_key token s).1).1 in
          (R.del (bot_gen_key token) t).1)
  unfolding remove_bot remove_elsewhere cleanup_shared_bot_state publish_to_route delete_gen
  published away read =
      ap
        (λ o.
          (elim o as (λ x. World R) [
            | none ↦ remove_elsewhere encode R token w
            | some c ↦ remove_here encode R token c w
          ]).server)
        away
      ∙ ap
          (λ r.
            let s = publish_to_route encode R token (r, (get_bot_owner R token w.server).1) in
            let t = (R.del (bot_owner_key token) (R.zrem bot_alive_key token s).1).1 in
            (R.del (bot_gen_key token) t).1)
          read
      ∙ ap
          (λ s.
            let t = (R.del (bot_owner_key token) (R.zrem bot_alive_key token s).1).1 in
            (R.del (bot_gen_key token) t).1)
          (published-server encode R worker token (get_bot_owner R token w.server).1)

  -- Where Redis names a worker as the owner of the token, a removal at another worker, which has
  -- no connection of the token, changes Redis by exactly these commands: it reads the owner,
  -- publishes a disconnect message to the inbox of that worker, and removes the heartbeat, the
  -- owner and the generation. The worker that is named drops its connection of the token and
  -- closes it once it reads the message. The owner is taken to be readable, the message to
  -- survive its coding, and the token not to be empty.
  pub remove_elsewhere-disconnects :
      (id : String) (conn : ℕ) (i : Inbox)
      → lookup token w.bridge.bots ≡ none
      → V.text w.server (bot_owner_key token) ≡ some worker
      → decode (encode (disconnect_message token)) ≡ some (disconnect_message token)
      → token ≢ ""
      → lookup token i.bridge.bots ≡ some conn
      → ((remove_bot encode R token w).server ≡ (
          let s =
            (R.xadd
              (worker_inbox_name worker)
              (encode (disconnect_message token))
              (R.get (bot_owner_key token) w.server).1).1 in
          let t = (R.del (bot_owner_key token) (R.zrem bot_alive_key token s).1).1 in
          (R.del (bot_gen_key token) t).1))
        × (lookup token
              (inbox_step decode (entry id (encode (disconnect_message token))) i).bridge.bots
            ≡ none)
        × (was_closed conn
              (inbox_step decode (entry id (encode (disconnect_message token))) i).bridge.closed
            ≡ true)
  unfolding inbox_step
  remove_elsewhere-disconnects id conn i away owner trip named here =
      let j : Inbox = record i { acked = i.acked ++ id ∷ [] } in
      let taken : (take_message (decode (encode (disconnect_message token))) j).bridge
          ≡ evict_local token i.bridge =
        ap (λ m. (take_message m j).bridge) trip ∙ evicted token j (str_eq_ne named) in
      let left = evict_local-gone token conn i.bridge here in
      (
        published away (route_read owner),
        ap (λ (b : Bridge). lookup token b.bots) taken ∙ left.0,
        ap (λ (b : Bridge). was_closed conn b.closed) taken ∙ left.1,
      )
