-- ===== src/Ring/Batch.antt =====
-- What one batch of the reconcile ring returns: consecutive entries from the cursor on.
use native.Mathlib.Nat.{mod-eq_of_lt, mod_self, add-mod_left}
use astron_claw.Prelude.{
  ℕ, zero, suc, ◌+◌, ◌%◌, ◌≤◌, ◌<◌, String, ◌≡◌, refl, sym, ◌∙◌, ap, ◌⊎◌, inl, inr, some, List, ◌∷◌,
  arith, leb, if◌then◌else◌, length, get_elem?, get_or, get_elem?-of_lt, get_or-of_get_elem?,
}
use astron_claw.Ring.{Ring, wrapped, batch_loop, batch_limit, next_batch}

le_cases : (c n : ℕ) → c ≤ n → (c < n) ⊎ (c ≡ n)
le_cases c n h = omega arith

-- One round: the entry read is the one at the cursor modulo the length.
wrapped-eq-mod : (c n : ℕ) → 0 < n → c ≤ n → (if leb n c then 0 else c) ≡ (c + 0) % n
wrapped-eq-mod c n pos le = elim (le_cases c n le) [
  | inl lt ↦ let e : c + 0 ≡ c = omega arith in rw (e, mod-eq_of_lt lt) (ground arith)
  | inr same ↦ let e : c + 0 ≡ n = omega arith in rw (e, mod_self) (ground arith)
]

mod_step : (c n i : ℕ) → 0 < n → c ≤ n → ((if leb n c then 0 else c) + 1 + i) % n ≡ (c + suc i) % n
mod_step c n i pos le = elim (le_cases c n le) [
  | inl lt ↦ ap (λ (x : ℕ). x % n) (ground arith)
  | inr same ↦
      let e : (if leb n c then 0 else c) + 1 + i ≡ suc i = ground arith in
      rw (e, same) (sym (add-mod_left n (suc i)))
]

wrapped_lt : (r : Ring) → 0 < length r.tokens → wrapped r < length r.tokens
wrapped_lt r pos = ground arith

elem_wrapped :
    (r : Ring)
    → 0 < length r.tokens
    → get_elem? r.tokens (wrapped r) ≡ some (get_or r.tokens (wrapped r) "")
elem_wrapped r pos =
    let (a, e) = get_elem?-of_lt r.tokens (wrapped r) (wrapped_lt r pos) in
    e ∙ ap some (sym (get_or-of_get_elem? r.tokens _ "" e))

abbrev advanced : Ring → Ring
advanced r = record r { cursor = wrapped r + 1 }

batch_loop_step :
    (n : ℕ) (r : Ring)
    → 0 < length r.tokens
    → batch_loop (suc n) r ≡ (
      get_or r.tokens (wrapped r) "" ∷ (batch_loop n (advanced r)).0,
      (batch_loop n (advanced r)).1,
    )
unfolding batch_loop
batch_loop_step n r pos = ground arith

-- What `k` rounds do to a ring that is not empty.
pub record Reads (k : ℕ) (r : Ring) (out : List String) (r' : Ring) : Type 0 where
  pub count : length out ≡ k
  pub at : (i : ℕ) → i < k → get_elem? out i ≡ get_elem? r.tokens ((r.cursor + i) % length r.tokens)
  pub tokens : r'.tokens ≡ r.tokens
  pub pos : r'.pos ≡ r.pos
  pub cursor_le : r'.cursor ≤ length r.tokens
  pub cursor : r'.cursor % length r.tokens ≡ (r.cursor + k) % length r.tokens

batch_at :
    (k : ℕ) (r : Ring) (out : List String)
    → 0 < length r.tokens
    → r.cursor ≤ length r.tokens
    → ((i : ℕ)
        → i < k
        → get_elem? out i ≡ get_elem? r.tokens ((wrapped r + 1 + i) % length r.tokens))
    → (i : ℕ) → i < suc k
    → get_elem? (get_or r.tokens (wrapped r) "" ∷ out) i
      ≡ get_elem? r.tokens ((r.cursor + i) % length r.tokens)
batch_at k r out pos le h zero lt =
    sym (elem_wrapped r pos)
    ∙ ap (get_elem? r.tokens) (wrapped-eq-mod r.cursor (length r.tokens) pos le)
batch_at k r out pos le h (suc i) lt =
    h i (omega arith) ∙ ap (get_elem? r.tokens) (mod_step r.cursor (length r.tokens) i pos le)

pub batch_loop-Reads :
    (k : ℕ) (r : Ring)
    → 0 < length r.tokens
    → r.cursor ≤ length r.tokens
    → Reads k r (batch_loop k r).0 (batch_loop k r).1
unfolding batch_loop
batch_loop-Reads zero r pos le = record {
  count = refl;
  at = λ i h. elim h [ ];
  tokens = refl;
  pos = refl;
  cursor_le = le;
  cursor = ap (λ (x : ℕ). x % length r.tokens) (omega arith);
}
batch_loop-Reads (suc k) r pos le =
    let ih = batch_loop-Reads k (advanced r) pos (omega (arith, wrapped_lt r pos)) in
    rw (batch_loop_step k r pos) (record {
      count = omega (arith, ih.count);
      at = batch_at k r (batch_loop k (advanced r)).0 pos le ih.at;
      tokens = ih.tokens;
      pos = ih.pos;
      cursor_le = ih.cursor_le;
      cursor = ih.cursor ∙ mod_step r.cursor (length r.tokens) k pos le;
    })

next_batch-loop :
    (size : ℕ) (r : Ring)
    → 0 < size
    → 0 < length r.tokens
    → next_batch size r ≡ batch_loop (batch_limit size r) r
unfolding next_batch
next_batch-loop size r ps pos = ground arith

-- A batch of a ring that is not empty has as many entries as the batch size and the length
-- allow, reads the slice in order from the cursor and around the end, and moves the cursor past
-- what it has read.
pub next_batch-Reads :
    (size : ℕ) (r : Ring)
    → 0 < size
    → 0 < length r.tokens
    → r.cursor ≤ length r.tokens
    → Reads (batch_limit size r) r (next_batch size r).0 (next_batch size r).1
next_batch-Reads size r ps pos le = rw (next_batch-loop size r ps pos) (batch_loop-Reads _ r pos le)
