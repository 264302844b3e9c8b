-- ===== src/Dispatch/Delivery.antt =====
-- A request that is published to the owner of a token reaches the connection registered there.
use astron_claw.Prelude.{
  ℕ, String, ◌≡◌, ◌≢◌, refl, sym, ◌∙◌, ap, Bool, false, Option, none, some, [], ◌∷◌, ◌++◌, inl, inr,
  eq_refl, str_eq, str_eq_ne, if◌then◌else◌,
}
use astron_claw.Prelude.Dict.{lookup}
use astron_claw.Json.{Value}
use astron_claw.Keys.{bot_owner_key}
use astron_claw.Prelude.Int.{ℤ}
use astron_claw.Redis.{Redis, ok}
use astron_claw.Redis.Laws.{View, RedisLaws}
use astron_claw.Bridge.{Bridge, World}
use astron_claw.Bridge.Shared.{Reachable}
use astron_claw.Bridge.Register.{Registered}
use astron_claw.Reconcile.{get_bot_owner}
use astron_claw.Dispatch.{InboxMessage, Inbox, entry, inbox_step, take_message}

abbrev pub request_message : String → Value → InboxMessage
request_message token request = record { token = token; request = some request; disconnect = false }

same_some : {v u : String} → some v ≡ some u → v ≡ u
same_some e = cc

written :
    (token : String) (conn : ℕ) (request : Value) (j : Inbox)
    → lookup token j.bridge.bots ≡ some conn
    → str_eq token "" ≡ false
    → (take_message (some (request_message token request)) j).written
      ≡ j.written ++ (conn, request) ∷ []
unfolding take_message
written token conn request j here ne = rw (ne, here) refl

module _ (R : Redis) (V : View R.Server) (L : RedisLaws R V) (up : Reachable R) (token : String)
    (conn : ℕ) (b : Bridge) (w : World R) (gen : ℤ) (reg : Registered R V token conn b w gen) where
  owner_read : (get_bot_owner R token w.server).0 ≡ ok b.worker_id
  owner_read = elim (up.get (bot_owner_key token) w.server) [
    | inl (v, e) ↦
        let found : some v ≡ some b.worker_id = sym (L.get-ok _ v w.server e) ∙ reg.owner in
        e ∙ ap ok (same_some found)
    | inr e ↦ let wrong : none ≡ some b.worker_id = sym (L.get-nil _ w.server e) ∙ reg.owner in cc
  ]

  -- Where reads of Redis succeed and the token is not empty: after a registration that
  -- succeeded, any worker finds the registering worker as the token's route, and a request that
  -- this worker then reads from its inbox is written to the registered connection, and to no
  -- other. The JSON coding of the message is taken to give it back.
  pub registered-delivery :
      (encode : InboxMessage → String) (decode : String → Option InboxMessage) (id : String)
      (request : Value) (i : Inbox)
      → decode (encode (request_message token request)) ≡ some (request_message token request)
      → token ≢ ""
      → i.bridge.bots ≡ w.bridge.bots
      → ((get_bot_owner R token w.server).0 ≡ ok b.worker_id)
        × ((inbox_step decode (entry id (encode (request_message token request))) i).written
            ≡ i.written ++ (conn, request) ∷ [])
  unfolding inbox_step
  registered-delivery encode decode id request i trip named same =
      let j : Inbox = record i { acked = i.acked ++ id ∷ [] } in
      let here : lookup token i.bridge.bots ≡ some conn =
        ap (lookup token) same
        ∙ reg.bots token
        ∙ ap (λ (c : Bool). if c then some conn else lookup token b.bots) (eq_refl token) in
      (
        owner_read,
        ap (λ (m : Option InboxMessage). (take_message m j).written) trip
            ∙ written token conn request j here (str_eq_ne named),
      )
