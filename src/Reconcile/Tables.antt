-- ===== src/Reconcile/Tables.antt =====
-- A batch keeps the local tables in agreement, and a round of reconciliation changes nothing in
-- Redis.
use astron_claw.Prelude.{
  Bool, ℕ, String, ◌≡◌, refl, sym, ◌∙◌, true, ◌||◌, Option, none, some, List, [], ◌∷◌, inl, inr,
  Bool-cases, subst, ap, arith, leb, ◌==◌, ◌≤◌, length,
}
use astron_claw.Prelude.Int.{ℤ}
use astron_claw.Prelude.Dict.{Dict, lookup}
use astron_claw.Keys.{bot_gen_key, bot_owner_key}
use astron_claw.Redis.{Redis}
use astron_claw.Redis.Laws.{View, RedisLaws}
use astron_claw.Ring.{Ring, next_batch}
use astron_claw.Ring.Invariant.{IsValid}
use astron_claw.Ring.Membership.{is_some}
use astron_claw.Ring.Batch.{next_batch-Reads}
use astron_claw.Bridge.{Bridge, World, skip_on}
use astron_claw.Bridge.Local.{IsConsistent}
use astron_claw.Bridge.Shared.{SameBot, SameBot-trans}
use astron_claw.Reconcile.{owner_moved, reconcile_gen, reconcile_token, reconcile_all, do_reconcile}

-- A batch moves only the cursor, and leaves it in bounds.
record Moved (r r' : Ring) : Type 0 where
  tokens : r'.tokens ≡ r.tokens
  pos : r'.pos ≡ r.pos
  cursor_le : r'.cursor ≤ length r'.tokens

next_batch-none :
    (size : ℕ) (r : Ring)
    → (leb size 0 || length r.tokens == 0) ≡ true
    → next_batch size r ≡ ([], r)
unfolding next_batch
next_batch-none size r e = simp e

next_batch-Moved :
    (size : ℕ) (r : Ring) → r.cursor ≤ length r.tokens → Moved r (next_batch size r).1
next_batch-Moved size r le = elim (Bool-cases (leb size 0 || length r.tokens == 0)) [
  | inl e ↦
      subst (λ (x : List String × Ring). Moved r x.1) (sym (next_batch-none size r e))
        (record { tokens = refl; pos = refl; cursor_le = le })
  | inr e ↦
      let reads = next_batch-Reads size r (ground arith) (ground arith) le in
      record {
        tokens = reads.tokens;
        pos = reads.pos;
        cursor_le = omega (arith, reads.cursor_le, ap (length {A = String}) reads.tokens);
      }
]

Moved-IsValid : {r r' : Ring} → Moved r r' → IsValid r → IsValid r'
Moved-IsValid {r} {r'} m v = record {
  held = λ t i. rw (m.tokens, m.pos) (v.held t i);
  indexed = λ t i. rw (m.tokens, m.pos) (v.indexed t i);
  cursor_le = m.cursor_le;
}

-- A batch keeps the local tables in agreement.
pub batch-IsConsistent :
    {p : String → Bool} (size : ℕ) (b : Bridge)
    → IsConsistent p b
    → IsConsistent p (record b { ring = (next_batch size b.ring).1 })
batch-IsConsistent size b c =
    let m = next_batch-Moved size b.ring c.ring_valid.cursor_le in
    record {
      ring_valid = Moved-IsValid m c.ring_valid;
      has_gen = c.has_gen;
      in_ring = λ t k. ap (λ (d : Dict ℕ). is_some (lookup t d)) m.pos ∙ c.in_ring t k;
    }

module _ (R : Redis) (V : View R.Server) (L : RedisLaws R V) where
  read-SameBot : (key u : String) (s : R.Server) → SameBot V s (R.get key s).1 u
  read-SameBot key u s = record {
    gen = (L.get-same key _ s).text;
    owner = (L.get-same key _ s).text;
    alive = (L.get-same key _ s).score u;
  }

  reconcile_gen-SameBot :
      (local : Option ℤ) (token u : String) (w : World R)
      → SameBot V w.server (reconcile_gen R local token w).server u
  unfolding reconcile_gen
  reconcile_gen-SameBot none token u w = record { gen = refl; owner = refl; alive = refl }
  reconcile_gen-SameBot (some local) token u w =
      elim (Bool-cases (skip_on local (R.get (bot_gen_key token) w.server).0)) [
        | inl e ↦ rw e (read-SameBot (bot_gen_key token) u w.server)
        | inr e ↦ rw e (read-SameBot (bot_gen_key token) u w.server)
      ]

  reconcile_token-SameBot :
      (token u : String) (w : World R) → SameBot V w.server (reconcile_token R token w).server u
  unfolding reconcile_token
  reconcile_token-SameBot token u w =
      let read = read-SameBot (bot_owner_key token) u w.server in
      elim (Bool-cases (owner_moved w.bridge.worker_id (R.get (bot_owner_key token) w.server).0)) [
        | inl e ↦ rw e read
        | inr e ↦
            rw e
              (SameBot-trans V read (reconcile_gen-SameBot (lookup token w.bridge.gens) token u _))
      ]

  reconcile_all-SameBot :
      (tokens : List String) (u : String) (w : World R)
      → SameBot V w.server (reconcile_all R tokens w).server u
  unfolding reconcile_all
  reconcile_all-SameBot [] u w = record { gen = refl; owner = refl; alive = refl }
  reconcile_all-SameBot (token ∷ tokens) u w =
      SameBot-trans V (reconcile_token-SameBot token u w)
        (reconcile_all-SameBot tokens u (reconcile_token R token w))

  -- A round of reconciliation changes the shared records of no token.
  pub do_reconcile-SameBot :
      (size : ℕ) (u : String) (w : World R) → SameBot V w.server (do_reconcile R size w).server u
  unfolding do_reconcile
  do_reconcile-SameBot size u w = reconcile_all-SameBot (next_batch size w.bridge.ring).0 u _
