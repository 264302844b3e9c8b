-- ===== src/Worker/Quiet.antt =====
-- Once a worker shuts down no bot joins it.
use astron_claw.Prelude.{
  String, ◌≡◌, refl, sym, ap, subst, ◌∙◌, ◌⊎◌, inl, inr, true, none, [], arith,
}
use astron_claw.Prelude.Dict.{lookup, lookup-remove}
use astron_claw.Redis.{Redis}
use astron_claw.Bridge.{Bridge, World, forget, drop_conn}
use astron_claw.Bridge.Register.{register_bot-shutting_down}
use astron_claw.Dispatch.{InboxMessage}
use astron_claw.Shutdown.{shutdown, shutdown-shutting_down}
use astron_claw.Worker.{
  Step, Steps, registers, unregisters, beats, cleans, reconciles, receives, removes, shuts_down,
  visits, drops_conn, drops_gen, drops_place, closes, others, stop, next,
}
use astron_claw.Worker.Kept.{
  Kept, unregister_bot-Kept, do_heartbeat-Kept, do_cleanup-Kept, do_reconcile-Kept,
  take_message-Kept, remove_bot-Kept, shutdown-Kept,
}

-- A shutdown that has begun goes on, and each token has the connection that it had, or none.
pub record Quiet (b c : Bridge) : Type 0 where
  pub flag : b.shutting_down ≡ true → c.shutting_down ≡ true
  pub bots : (t : String) → (lookup t c.bots ≡ none) ⊎ (lookup t c.bots ≡ lookup t b.bots)

Quiet-trans : (b c d : Bridge) → Quiet b c → Quiet c d → Quiet b d
Quiet-trans b c d p q = record {
  flag = λ h. q.flag (p.flag h);
  bots = λ t. elim (q.bots t) [
    | inl e ↦ inl e
    | inr e ↦ elim (p.bots t) [ inl f ↦ inl (e ∙ f) | inr f ↦ inr (e ∙ f) ]
  ];
}

forget-bots :
    (token : String) (b : Bridge) (t : String)
    → (lookup t (forget token b).bots ≡ none) ⊎ (lookup t (forget token b).bots ≡ lookup t b.bots)
unfolding forget
forget-bots token b t = ground (arith, lookup-remove token t b.bots)

drop_conn-bots :
    (token : String) (b : Bridge) (t : String)
    → (lookup t (drop_conn token b).bots ≡ none)
      ⊎ (lookup t (drop_conn token b).bots ≡ lookup t b.bots)
drop_conn-bots token b t = ground (arith, lookup-remove token t b.bots)

Quiet-Kept : Kept Quiet
unfolding forget
Quiet-Kept = record {
  refl_of = λ b. record { flag = λ h. h; bots = λ t. inr refl };
  trans_of = Quiet-trans;
  aside = λ b c e g r f. record { flag = λ h. f ∙ h; bots = λ t. inr (ap (lookup t) e) };
  forgets = λ token b. record { flag = λ h. h; bots = forget-bots token b };
  visits = λ size b. record { flag = λ h. h; bots = λ t. inr refl };
  closes = λ b. record { flag = λ h. refl; bots = λ t. inr refl };
}

module _ (encode : InboxMessage → String) (R : Redis) where
  Step-Quiet :
      (v w : World R) → Step encode R v w → v.bridge.shutting_down ≡ true → Quiet v.bridge w.bridge
  Step-Quiet v w (registers token conn now u) h =
      let same = register_bot-shutting_down R token conn now u h in
      subst (λ (x : World R). Quiet u.bridge x.bridge) (sym (ap (λ x. x.1) same))
        (Quiet-Kept.refl_of u.bridge)
  Step-Quiet v w (unregisters token conn u) h = unregister_bot-Kept Quiet Quiet-Kept R token conn u
  Step-Quiet v w (beats now u) h = do_heartbeat-Kept Quiet Quiet-Kept R now u
  Step-Quiet v w (cleans now n u) h = do_cleanup-Kept Quiet Quiet-Kept R now n u
  Step-Quiet v w (reconciles size u) h = do_reconcile-Kept Quiet Quiet-Kept R size u
  Step-Quiet v w (receives m u) h =
      take_message-Kept Quiet Quiet-Kept m (record { bridge = u.bridge; acked = []; written = [] })
  Step-Quiet v w (removes token u) h = remove_bot-Kept Quiet Quiet-Kept R encode token u
  Step-Quiet v w (shuts_down u) h = shutdown-Kept Quiet Quiet-Kept R u
  Step-Quiet v w (visits size u) h = Quiet-Kept.visits size u.bridge
  Step-Quiet v w (drops_conn token u) h = record {
    flag = λ f. f;
    bots = drop_conn-bots token u.bridge;
  }
  Step-Quiet v w (drops_gen token u) h = record { flag = λ f. f; bots = λ t. inr refl }
  Step-Quiet v w (drops_place token u) h = record { flag = λ f. f; bots = λ t. inr refl }
  Step-Quiet v w (closes conn u) h = record { flag = λ f. f; bots = λ t. inr refl }
  Step-Quiet v w (others s u) h = Quiet-Kept.refl_of u.bridge

  Steps-Quiet :
      (v w : World R) → Steps encode R v w → v.bridge.shutting_down ≡ true → Quiet v.bridge w.bridge
  Steps-Quiet v w (stop u) h = Quiet-Kept.refl_of u.bridge
  Steps-Quiet v w (next {v = u} ss s) h =
      let p = Steps-Quiet v u ss h in
      Quiet-trans v.bridge u.bridge w.bridge p (Step-Quiet u w s (p.flag h))

  -- From its shutdown on, whatever steps follow, also single deletions of evictions, a worker
  -- lets no bot in: each token has the connection that it had before the shutdown, or none.
  pub shutdown-Quiet :
      (v w : World R)
      → Steps encode R (shutdown R v) w
      → (t : String)
      → (lookup t w.bridge.bots ≡ none) ⊎ (lookup t w.bridge.bots ≡ lookup t v.bridge.bots)
  shutdown-Quiet v w ss t =
      let first = shutdown-Kept Quiet Quiet-Kept R v in
      let rest = Steps-Quiet (shutdown R v) w ss (shutdown-shutting_down R v) in
      (Quiet-trans v.bridge (shutdown R v).bridge w.bridge first rest).bots t
