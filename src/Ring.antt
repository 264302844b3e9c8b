-- ===== src/Ring.antt =====
-- The reconcile ring of backend/internal/service/bridge_reconcile.go: the slice
-- `reconcileTokens`, its index `reconcileTokenPos` and the round-robin `reconcileCursor`.
-- An index out of range would panic in Go; a default stands there.
pub mod Invariant
pub mod Membership
pub mod Batch
pub mod Fairness
use astron_claw.Prelude.{
  ℕ, zero, suc, ◌+◌, ◌-◌, String, Bool, ◌&&◌, ◌||◌, Option, none, some, List, [], ◌∷◌, ◌++◌, ltb,
  leb, ◌==◌, if◌then◌else◌, length, get_or, set, take,
}
use astron_claw.Prelude.Dict.{Dict, lookup, insert, remove}

pub record Ring : Type 0 where
  pub tokens : List String
  pub pos : Dict ℕ
  pub cursor : ℕ

abbrev pub empty : Ring
empty = record { tokens = []; pos = []; cursor = 0 }

-- trackReconcileToken
unfoldable pub track : String → Ring → Ring
track token r = elim (lookup token r.pos) [
  | some _ ↦ r
  | none ↦ record r { tokens = r.tokens ++ token ∷ []; pos = insert token (length r.tokens) r.pos }
]

-- the end of untrackReconcileToken, once the token is taken out of the slice and the index
unfoldable pub settle_cursor : ℕ → Ring → Ring
settle_cursor idx r =
    if length r.tokens == 0
    then record r { cursor = 0 }
    else (let c = if ltb idx r.cursor && ltb 0 r.cursor then r.cursor - 1 else r.cursor in
        record r { cursor = if leb (length r.tokens) c then 0 else c })

-- the swap with the last entry
unfoldable pub swap_out : String → ℕ → Ring → Ring
swap_out token idx r =
    let last_idx = length r.tokens - 1 in
    let last_token = get_or r.tokens last_idx "" in
    record r {
      tokens = take last_idx (set r.tokens idx last_token);
      pos = remove token (insert last_token idx r.pos);
    }

-- untrackReconcileToken
unfoldable pub untrack : String → Ring → Ring
unfolding settle_cursor
untrack token r = elim (lookup token r.pos) [
  | none ↦ r
  | some idx ↦ settle_cursor idx (swap_out token idx r)
]

-- the cursor at which the next entry is read
abbrev pub wrapped : Ring → ℕ
wrapped r = if leb (length r.tokens) r.cursor then 0 else r.cursor

-- the loop of nextReconcileBatch over the rounds that are left
unfoldable pub batch_loop : ℕ → Ring → List String × Ring
batch_loop zero r = ([], r)
batch_loop (suc n) r =
    let (out, r') = batch_loop n (record r { cursor = wrapped r + 1 }) in
    if length r.tokens == 0 then ([], r) else (get_or r.tokens (wrapped r) "" ∷ out, r')

abbrev pub batch_limit : ℕ → Ring → ℕ
batch_limit batch_size r = if ltb (length r.tokens) batch_size then length r.tokens else batch_size

-- nextReconcileBatch; `batch_size` is the field reconcileBatchSize
unfoldable pub next_batch : ℕ → Ring → List String × Ring
unfolding batch_loop
next_batch batch_size r =
    if leb batch_size 0 || length r.tokens == 0
    then ([], r)
    else batch_loop (batch_limit batch_size r) r
