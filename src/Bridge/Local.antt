-- ===== src/Bridge/Local.antt =====
-- The local tables of a worker agree: a token has a connection, a generation and a place in the
-- reconcile ring together, or none of them.
use astron_claw.Prelude.{ℕ, String, Bool, false, ◌≡◌, refl, ◌∙◌, inl, inr, arith, Option-cases}
use astron_claw.Prelude.Int.{ℤ}
use astron_claw.Prelude.Dict.{lookup, lookup-insert, lookup-remove}
use astron_claw.Ring.Invariant
use astron_claw.Ring.Invariant.{track-IsValid, untrack-IsValid}
use astron_claw.Ring.Membership.{is_some, holds, holds-track, holds-untrack}
use astron_claw.Bridge.{
  Bridge, enqueue_artifact_cleanup, new_bridge, forget, evict_local, evict_if_loaded, store_local,
}

-- The tables agree on every token that `p` does not except.
pub record IsConsistent (p : String → Bool) (b : Bridge) : Type 0 where
  pub ring_valid : Invariant.IsValid b.ring
  pub has_gen : (t : String) → p t ≡ false → is_some (lookup t b.gens) ≡ is_some (lookup t b.bots)
  pub in_ring : (t : String) → p t ≡ false → holds b.ring t ≡ is_some (lookup t b.bots)

pub IsConsistent-fewer :
    {p q : String → Bool} {b : Bridge}
    → ((t : String) → q t ≡ false → p t ≡ false)
    → IsConsistent p b
    → IsConsistent q b
IsConsistent-fewer f c = record {
  ring_valid = c.ring_valid;
  has_gen = λ t k. c.has_gen t (f t k);
  in_ring = λ t k. c.in_ring t (f t k);
}

pub new_bridge-IsConsistent :
    {p : String → Bool} (worker : String) → IsConsistent p (new_bridge worker)
unfolding lookup
new_bridge-IsConsistent worker = record {
  ring_valid = Invariant.empty-IsValid;
  has_gen = λ t k. refl;
  in_ring = λ t k. refl;
}

pub forget-IsConsistent :
    {p : String → Bool} (token : String) (b : Bridge)
    → IsConsistent p b
    → IsConsistent p (forget token b)
unfolding forget
forget-IsConsistent token b c = record {
  ring_valid = untrack-IsValid token b.ring c.ring_valid;
  has_gen = λ t k.
      ground (arith, lookup-remove token t b.bots, lookup-remove token t b.gens, c.has_gen t k);
  in_ring = λ t k.
      holds-untrack token b.ring t c.ring_valid
      ∙ ground (arith, lookup-remove token t b.bots, c.in_ring t k);
}

pub evict_local-IsConsistent :
    {p : String → Bool} (token : String) (b : Bridge)
    → IsConsistent p b
    → IsConsistent p (evict_local token b)
unfolding evict_local
evict_local-IsConsistent token b c =
    let f = forget-IsConsistent token b c in
    record { ring_valid = f.ring_valid; has_gen = f.has_gen; in_ring = f.in_ring }

pub evict_if_loaded-IsConsistent :
    {p : String → Bool} (token : String) (b : Bridge)
    → IsConsistent p b
    → IsConsistent p (evict_if_loaded token b)
unfolding evict_if_loaded
evict_if_loaded-IsConsistent token b c = elim (Option-cases (lookup token b.bots)) [
  | inl e ↦ rw (e, evict_if_loaded) c
  | inr (conn, e) ↦ rw (e, evict_if_loaded) (evict_local-IsConsistent token b c)
]

pub store_local-IsConsistent :
    {p : String → Bool} (token : String) (conn : ℕ) (gen : ℤ) (b : Bridge)
    → IsConsistent p b
    → IsConsistent p (store_local token conn gen b)
unfolding store_local
store_local-IsConsistent token conn gen b c = record {
  ring_valid = track-IsValid token b.ring c.ring_valid;
  has_gen = λ t k.
      ground
        (arith, lookup-insert token t conn b.bots, lookup-insert token t gen b.gens, c.has_gen t k);
  in_ring = λ t k.
      holds-track token b.ring t ∙ ground (arith, lookup-insert token t conn b.bots, c.in_ring t k);
}

-- Two states of a worker have the same tables.
pub record SameTables (b c : Bridge) : Type 0 where
  pub bots : c.bots ≡ b.bots
  pub gens : c.gens ≡ b.gens
  pub ring : c.ring ≡ b.ring

pub SameTables-IsConsistent :
    {p : String → Bool} {b c : Bridge} → SameTables b c → IsConsistent p b → IsConsistent p c
SameTables-IsConsistent {p} {b} {c} t v = record {
  ring_valid = rw t.ring v.ring_valid;
  has_gen = λ u k. rw (t.gens, t.bots) (v.has_gen u k);
  in_ring = λ u k. rw (t.ring, t.bots) (v.in_ring u k);
}

pub enqueue-SameTables :
    (token : String) (b : Bridge) → SameTables b (enqueue_artifact_cleanup token b)
unfolding enqueue_artifact_cleanup
enqueue-SameTables token b = record {
  bots = ground arith;
  gens = ground arith;
  ring = ground arith;
}
