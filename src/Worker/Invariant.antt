-- ===== src/Worker/Invariant.antt =====
-- The local tables of a worker agree, but on tokens of which an eviction was taken apart.
use astron_claw.Prelude.{
  String, Bool, true, false, not, ◌&&◌, ◌||◌, ◌≡◌, ap, ◌∙◌, inl, inr, Bool-cases, List, [], arith,
  str_eq, eq_iff, eq_refl,
}
use astron_claw.Prelude.Dict.{lookup-remove}
use astron_claw.Ring.Invariant.{untrack-IsValid}
use astron_claw.Ring.Membership.{holds, holds-untrack}
use astron_claw.Redis.{Redis}
use astron_claw.Bridge.{Bridge, World, CloseFrame, drop_conn, drop_gen, drop_place}
use astron_claw.Bridge.Local.{
  IsConsistent, IsConsistent-fewer, SameTables-IsConsistent, forget-IsConsistent,
  new_bridge-IsConsistent,
}
use astron_claw.Bridge.Register.{register_bot-IsConsistent}
use astron_claw.Reconcile.Tables.{batch-IsConsistent}
use astron_claw.Dispatch.{InboxMessage}
use astron_claw.Worker.{
  Step, Steps, registers, unregisters, beats, cleans, reconciles, receives, removes, shuts_down,
  visits, drops_conn, drops_gen, drops_place, closes, others, stop, next, started, is_part,
  in_parts,
}
use astron_claw.Worker.Kept.{
  Kept, unregister_bot-Kept, do_heartbeat-Kept, do_cleanup-Kept, do_reconcile-Kept,
  take_message-Kept, remove_bot-Kept, shutdown-Kept,
}

abbrev KeepsTables : (String → Bool) → Bridge → Bridge → Type 0
KeepsTables p b c = IsConsistent p b → IsConsistent p c

untouched :
    (p : String → Bool) (token t : String) → p token ≡ true → p t ≡ false → str_eq token t ≡ false
untouched p token t e k = elim (Bool-cases (str_eq token t)) [
  | inl same ↦ absurd (cc (ap p ((eq_iff token t).0 same), e, k))
  | inr other ↦ other
]

neither : (a b : Bool) → a || b ≡ false → (a ≡ false) × (b ≡ false)
neither a b h = (ground (arith, h), ground (arith, h))

-- a token whose eviction is a step is excepted
own :
    (p : String → Bool) (token : String)
    → ((t : String) → p t ≡ false → str_eq token t ≡ false)
    → p token ≡ true
own p token f = elim (Bool-cases (p token)) [
  | inl e ↦ e
  | inr e ↦ absurd (cc (f token e, eq_refl token))
]

module _ (p : String → Bool) where
  closed-IsConsistent :
      (b : Bridge) → IsConsistent p b → IsConsistent p (record b { shutting_down = true })
  closed-IsConsistent b k = record {
    ring_valid = k.ring_valid;
    has_gen = k.has_gen;
    in_ring = k.in_ring;
  }

  KeepsTables-Kept : Kept (KeepsTables p)
  KeepsTables-Kept = record {
    refl_of = λ b k. k;
    trans_of = λ b c d p q k. q (p k);
    aside = λ b c e g r f k.
        SameTables-IsConsistent {b = b} {c = c} (record { bots = e; gens = g; ring = r }) k;
    forgets = λ token b. forget-IsConsistent token b;
    visits = batch-IsConsistent;
    closes = closed-IsConsistent;
  }

  -- the parts of an eviction change nothing for other tokens
  drop_conn-IsConsistent :
      (token : String) (b : Bridge) → p token ≡ true → KeepsTables p b (drop_conn token b)
  drop_conn-IsConsistent token b e c = record {
    ring_valid = c.ring_valid;
    has_gen =
        λ t k. ground (arith, lookup-remove token t b.bots, untouched p token t e k, c.has_gen t k);
    in_ring =
        λ t k. ground (arith, lookup-remove token t b.bots, untouched p token t e k, c.in_ring t k);
  }

  drop_gen-IsConsistent :
      (token : String) (b : Bridge) → p token ≡ true → KeepsTables p b (drop_gen token b)
  drop_gen-IsConsistent token b e c = record {
    ring_valid = c.ring_valid;
    has_gen =
        λ t k. ground (arith, lookup-remove token t b.gens, untouched p token t e k, c.has_gen t k);
    in_ring = c.in_ring;
  }

  drop_place-IsConsistent :
      (token : String) (b : Bridge) → p token ≡ true → KeepsTables p b (drop_place token b)
  drop_place-IsConsistent token b e c = record {
    ring_valid = untrack-IsValid token b.ring c.ring_valid;
    has_gen = c.has_gen;
    in_ring = λ t k.
        holds-untrack token b.ring t c.ring_valid
        ∙ ap (λ (x : Bool). not x && holds b.ring t) (untouched p token t e k)
        ∙ c.in_ring t k;
  }

  closes-IsConsistent :
      (fs : List CloseFrame) (b : Bridge) → KeepsTables p b (record b { closed = fs })
  closes-IsConsistent fs b c = record {
    ring_valid = c.ring_valid;
    has_gen = c.has_gen;
    in_ring = c.in_ring;
  }

module _ (encode : InboxMessage → String) (R : Redis) where
  Step-IsConsistent :
      (p : String → Bool) (v w : World R) (s : Step encode R v w)
      → ((t : String) → p t ≡ false → is_part encode R v w s t ≡ false)
      → IsConsistent p v.bridge
      → IsConsistent p w.bridge
  unfolding is_part
  Step-IsConsistent p v w (registers token conn now u) f =
      register_bot-IsConsistent R token conn now u
  Step-IsConsistent p v w (unregisters token conn u) f =
      unregister_bot-Kept (KeepsTables p) (KeepsTables-Kept p) R token conn u
  Step-IsConsistent p v w (beats now u) f =
      do_heartbeat-Kept (KeepsTables p) (KeepsTables-Kept p) R now u
  Step-IsConsistent p v w (cleans now n u) f =
      do_cleanup-Kept (KeepsTables p) (KeepsTables-Kept p) R now n u
  Step-IsConsistent p v w (reconciles size u) f =
      do_reconcile-Kept (KeepsTables p) (KeepsTables-Kept p) R size u
  Step-IsConsistent p v w (receives m u) f =
      take_message-Kept (KeepsTables p) (KeepsTables-Kept p) m
        (record { bridge = u.bridge; acked = []; written = [] })
  Step-IsConsistent p v w (removes token u) f =
      remove_bot-Kept (KeepsTables p) (KeepsTables-Kept p) R encode token u
  Step-IsConsistent p v w (shuts_down u) f = shutdown-Kept (KeepsTables p) (KeepsTables-Kept p) R u
  Step-IsConsistent p v w (visits size u) f = batch-IsConsistent size u.bridge
  Step-IsConsistent p v w (drops_conn token u) f =
      drop_conn-IsConsistent p token u.bridge (own p token f)
  Step-IsConsistent p v w (drops_gen token u) f =
      drop_gen-IsConsistent p token u.bridge (own p token f)
  Step-IsConsistent p v w (drops_place token u) f =
      drop_place-IsConsistent p token u.bridge (own p token f)
  Step-IsConsistent p v w (closes conn u) f = closes-IsConsistent p _ u.bridge
  Step-IsConsistent p v w (others s u) f = λ k. k

  Steps-IsConsistent :
      (v w : World R) (ss : Steps encode R v w)
      → IsConsistent (λ _. false) v.bridge
      → IsConsistent (in_parts encode R v w ss) w.bridge
  unfolding in_parts
  Steps-IsConsistent v w (stop u) k = k
  Steps-IsConsistent v w (next {v = u} ss s) k =
      Step-IsConsistent (λ t. in_parts encode R v u ss t || is_part encode R u w s t) u w s
        (λ t h. (neither (in_parts encode R v u ss t) (is_part encode R u w s t) h).1)
        (IsConsistent-fewer
          (λ t h. (neither (in_parts encode R v u ss t) (is_part encode R u w s t) h).0)
          (Steps-IsConsistent v u ss k))

  -- In every state that a worker reaches from its start, the reconcile ring is valid, and the
  -- local tables agree on every token none of whose evictions was taken apart: it has a
  -- connection, a generation and a place in the ring together, or none of them. The steps are
  -- registrations, departures, heartbeats, cleanups, reconciliations, messages of the inbox,
  -- removals and shutdowns, and the single deletions of an eviction, as reconciliation and the
  -- inbox run them without a lock, in any order and with any arguments, with any replies of
  -- Redis, and with any change of the server by others in between.
  pub reachable-IsConsistent :
      (worker : String) (s : R.Server) (w : World R) (ss : Steps encode R (started R worker s) w)
      → IsConsistent (in_parts encode R (started R worker s) w ss) w.bridge
  reachable-IsConsistent worker s w ss =
      Steps-IsConsistent (started R worker s) w ss (new_bridge-IsConsistent worker)
