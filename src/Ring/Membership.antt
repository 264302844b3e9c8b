-- ===== src/Ring/Membership.antt =====
-- Which tokens the reconcile ring holds after `track` and `untrack`.
use astron_claw.Prelude.{
  ◌-◌, String, ◌≡◌, inl, inr, Bool, true, false, ◌&&◌, ◌||◌, not, Option, none, some, arith, str_eq,
  eq_iff, Option-cases, length, get_or,
}
use astron_claw.Prelude.Dict.{lookup, lookup-insert}
use astron_claw.Ring.{Ring, track, untrack, swap_out}
use astron_claw.Ring.Invariant.{IsValid, settle_cursor-pos, swap_out-lookup, last_index}

abbrev pub is_some {ℓ} : {A : Type ℓ} → Option A → Bool
is_some none = false
is_some (some a) = true

-- Whether the ring holds a token.
abbrev pub holds : Ring → String → Bool
holds r t = is_some (lookup t r.pos)

-- Tracking a token adds that one token to the ring and no other.
pub holds-track :
    (token : String) (r : Ring) (t : String) → holds (track token r) t ≡ str_eq token t || holds r t
unfolding track
holds-track token r t =
    ground (arith, lookup-insert token t (length r.tokens) r.pos, eq_iff token t)

-- Untracking a token of a valid ring removes that one token and no other.
pub holds-untrack :
    (token : String) (r : Ring) (t : String)
    → IsValid r
    → holds (untrack token r) t ≡ not (str_eq token t) && holds r t
unfolding untrack
holds-untrack token r t v = elim (Option-cases (lookup token r.pos)) [
  | inl absent ↦ ground (arith, eq_iff token t)
  | inr (idx, found) ↦
      rw
        (
          found,
          untrack,
          settle_cursor-pos idx (swap_out token idx r),
          swap_out-lookup token r v idx found t,
        )
        (ground (
          arith,
          last_index token r v idx found,
          eq_iff token t,
          eq_iff (get_or r.tokens (length r.tokens - 1) "") t,
        ))
]
