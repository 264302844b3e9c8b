-- ===== src/Messages/Delivery.antt =====
-- What a bot's message does to Redis: it reaches chat inboxes and nothing else.
use astron_claw.Prelude.{
  String, ◌≡◌, ◌≢◌, refl, sym, ◌∙◌, Bool, true, false, Option, List, [], ◌∷◌, inl, inr, Bool-cases,
  ap,
}
use text.Mathlib.TextLemmas.{append-nil}
use astron_claw.Keys.{append-ne_of_diverge, bot_alive_key, bot_gen_key, bot_owner_key, diverge}
use astron_claw.Json.{Value, Fields, obj}
use astron_claw.Redis.{Redis}
use astron_claw.Redis.Laws.{View, RedisLaws}
use astron_claw.Bridge.{World}
use astron_claw.Bridge.Shared.{SameBot, SameBot-trans}
use astron_claw.Chat.{inbox_key}
use astron_claw.Messages.{
  Action, pong, deliver, exists_on, send_to_session, perform, handle_bot_message, actions_of,
}

inbox-ne-gen : (t s u : String) → inbox_key t s ≢ bot_gen_key u
unfolding bot_gen_key diverge
inbox-ne-gen t s u = append-ne_of_diverge "bridge:chat_inbox:" "bridge:bot_gen:" _ u refl

inbox-ne-owner : (t s u : String) → inbox_key t s ≢ bot_owner_key u
unfolding bot_owner_key diverge
inbox-ne-owner t s u = append-ne_of_diverge "bridge:chat_inbox:" "bridge:bot_owner:" _ u refl

alive-ne-inbox : (t s : String) → bot_alive_key ≢ inbox_key t s
unfolding bot_alive_key diverge
alive-ne-inbox t s =
    rw (← append-nil "bridge:bot_alive")
      (append-ne_of_diverge "bridge:bot_alive" "bridge:chat_inbox:" "" _ refl)

inbox-ne-alive : (t s : String) → inbox_key t s ≢ bot_alive_key
inbox-ne-alive t s = λ e. alive-ne-inbox t s (sym e)

module _ (marshal : Value → String) (R : Redis) (V : View R.Server) (L : RedisLaws R V) where
  send_to_session-SameBot :
      (down : Bool) (token session u : String) (event : Fields) (s : R.Server)
      → SameBot V s (send_to_session marshal R down token session event s) u
  unfolding send_to_session
  send_to_session-SameBot true token session u event s = record {
    gen = refl;
    owner = refl;
    alive = refl;
  }
  send_to_session-SameBot false token session u event s =
      let inbox = inbox_key token session in
      let s' = (R.exists inbox s).1 in
      let text = marshal (obj event) in
      elim (Bool-cases (exists_on marshal R (R.exists inbox s).0)) [
        | inl e ↦ rw e (record {
          gen =
              (L.xadd-frame inbox text _ s' (inbox-ne-gen token session u)).text
              ∙ (L.exists-same inbox _ s).text;
          owner =
              (L.xadd-frame inbox text _ s' (inbox-ne-owner token session u)).text
              ∙ (L.exists-same inbox _ s).text;
          alive =
              (L.xadd-frame inbox text _ s' (inbox-ne-alive token session)).score u
              ∙ (L.exists-same inbox _ s).score u;
        })
        | inr e ↦ rw e (record {
          gen = (L.exists-same inbox _ s).text;
          owner = (L.exists-same inbox _ s).text;
          alive = (L.exists-same inbox _ s).score u;
        })
      ]

  perform-SameBot :
      (down : Bool) (token u : String) (actions : List Action) (s : R.Server)
      → SameBot V s (perform marshal R down token actions s) u
  unfolding perform
  perform-SameBot down token u [] s = record { gen = refl; owner = refl; alive = refl }
  perform-SameBot down token u (pong conn ∷ actions) s = perform-SameBot down token u actions s
  perform-SameBot down token u (deliver session event ∷ actions) s =
      SameBot-trans V (send_to_session-SameBot down token session u event s)
        (perform-SameBot down token u actions _)

  -- Whatever a bot sends, no bot's generation, owner or heartbeat changes.
  pub handle_bot_message-SameBot :
      (token : String) (raw : Option Fields) (w : World R) (u : String)
      → SameBot V w.server (handle_bot_message marshal R token raw w).server u
  unfolding handle_bot_message
  handle_bot_message-SameBot token raw w u =
      perform-SameBot w.bridge.shutting_down token u (actions_of marshal w.bridge.bots token raw)
        w.server

  perform-shutting_down :
      (token : String) (actions : List Action) (s : R.Server)
      → perform marshal R true token actions s ≡ s
  unfolding perform send_to_session
  perform-shutting_down token [] s = refl
  perform-shutting_down token (pong conn ∷ actions) s = perform-shutting_down token actions s
  perform-shutting_down token (deliver session event ∷ actions) s =
      perform-shutting_down token actions s

  -- A worker that shuts down delivers nothing: Redis stays as it is, whatever a bot sends.
  pub handle_bot_message-shutting_down :
      (token : String) (raw : Option Fields) (w : World R)
      → w.bridge.shutting_down ≡ true
      → (handle_bot_message marshal R token raw w).server ≡ w.server
  unfolding handle_bot_message
  handle_bot_message-shutting_down token raw w down =
      ap
        (λ (b : Bool).
          perform marshal R b token (actions_of marshal w.bridge.bots token raw) w.server)
        down
      ∙ perform-shutting_down token (actions_of marshal w.bridge.bots token raw) w.server
