-- ===== src/Ring/Fairness.antt =====
-- Round robin: no token is left out, and none comes twice in a batch.
use native.Mathlib.Nat.{mod-eq_of_lt, mod-add-mod, add-mod_left, mod-eq-sub-mod}
use astron_claw.Prelude.{
  ℕ, zero, suc, ◌+◌, ◌-◌, ◌*◌, ◌%◌, ◌≤◌, ◌<◌, String, ◌≡◌, sym, ◌∙◌, ap, ◌⊎◌, inl, inr, some, List,
  [], ◌++◌, arith, ltb, if◌then◌else◌, length, get_elem?, dec_lt, get_elem?-lt_length,
  get_elem?-append_left, get_elem?-append_right,
}
use astron_claw.Prelude.Dict.{lookup}
use astron_claw.Ring.{Ring, batch_limit, next_batch}
use astron_claw.Ring.Invariant.{IsValid}
use astron_claw.Ring.Batch.{next_batch-Reads}

-- The tokens of `k` consecutive reconcile rounds.
unfoldable pub sweep : ℕ → ℕ → Ring → List String
sweep zero size r = []
sweep (suc k) size r = let (out, r') = next_batch size r in out ++ sweep k size r'

-- Entry `i` of a sweep that starts at cursor `c`.
abbrev At : List String → ℕ → List String → ℕ → Type 0
At tokens c out i = get_elem? out i ≡ get_elem? tokens ((c + i) % length tokens)

split_at : (i m : ℕ) → (i < m) ⊎ ((j : ℕ) × (i ≡ m + j))
split_at i m = elim (dec_lt i m) [ yes h ↦ inl h | no h ↦ inr (i - m, omega arith) ]

shift_mod : (c c' m j n : ℕ) → c' % n ≡ (c + m) % n → (c' + j) % n ≡ (c + (m + j)) % n
shift_mod c c' m j n e =
    sym (mod-add-mod c' n j)
    ∙ ap (λ (x : ℕ). (x + j) % n) e
    ∙ mod-add-mod (c + m) n j
    ∙ ap (λ (x : ℕ). x % n) (omega arith)

-- A batch of `m` entries followed by a sweep that goes on where it ended.
append-At :
    (tokens tokens' : List String) (c c' m : ℕ) (out rest : List String) (i : ℕ)
    → length out ≡ m
    → ((i : ℕ) → i < m → At tokens c out i)
    → tokens' ≡ tokens
    → c' % length tokens ≡ (c + m) % length tokens
    → ((j : ℕ) → i ≡ m + j → At tokens' c' rest j)
    → At tokens c (out ++ rest) i
append-At tokens tokens' c c' m out rest i count at same next later = elim (split_at i m) [
  | inl lt ↦ get_elem?-append_left out rest i (omega arith) ∙ at i lt
  | inr (j, e) ↦
      let ih : At tokens c' rest j = rw (same) at (later j e) in
      let place : i ≡ length out + j = omega arith in
      rw (place) (
        get_elem?-append_right out rest j
        ∙ ih
        ∙ ap (get_elem? tokens) (
            shift_mod c c' m j (length tokens) next
            ∙ ap (λ (x : ℕ). (c + x) % length tokens) (omega arith)))
]

limit-tokens :
    (size : ℕ) (r r' : Ring) → r'.tokens ≡ r.tokens → batch_limit size r' ≡ batch_limit size r
limit-tokens size r r' e =
    ap (λ (l : List String). if ltb (length l) size then length l else size) e

later_in : (k m m' i j : ℕ) → m' ≡ m → i ≡ m + j → i < suc k * m → j < k * m'
later_in k m m' i j e place h = rw e (omega arith)

sweep-At :
    (k size : ℕ) (r : Ring)
    → 0 < size
    → 0 < length r.tokens
    → r.cursor ≤ length r.tokens
    → (i : ℕ) → i < k * batch_limit size r
    → At r.tokens r.cursor (sweep k size r) i
unfolding sweep
sweep-At zero size r ps pos le i h = absurd (omega arith)
sweep-At (suc k) size r ps pos le i h =
    let r' = (next_batch size r).1 in
    let reads = next_batch-Reads size r ps pos le in
    let same : length r'.tokens ≡ length r.tokens = ap length reads.tokens in
    let limit = limit-tokens size r r' reads.tokens in
    append-At r.tokens r'.tokens r.cursor r'.cursor (batch_limit size r) (next_batch size r).0
      (sweep k size r') i reads.count reads.at reads.tokens reads.cursor
      (λ j e.
        sweep-At k size r' ps (omega (arith, same)) (omega (arith, same, reads.cursor_le)) j
          (later_in k _ _ i j limit e h))

-- the round in which the sweep comes to place `p`
place_of : (c p n : ℕ) → c ≤ n → p < n → (i : ℕ) × (i < n) × ((c + i) % n ≡ p)
place_of c p n le lt = elim (dec_lt p c) [
  | yes before ↦ (
    p + n - c,
    omega arith,
    (let e : c + (p + n - c) ≡ n + p = omega arith in rw e (add-mod_left n p ∙ mod-eq_of_lt lt)),
  )
  | no after ↦
      (p - c, omega arith, (let e : c + (p - c) ≡ p = omega arith in rw e (mod-eq_of_lt lt)))
]

-- In a valid ring, as many batches in a row as make up the length of the ring visit every
-- tracked token.
pub sweep-covers :
    (k size : ℕ) (r : Ring) (t : String) (p : ℕ)
    → IsValid r
    → 0 < size
    → length r.tokens ≤ k * batch_limit size r
    → lookup t r.pos ≡ some p
    → (i : ℕ) × (get_elem? (sweep k size r) i ≡ some t)
sweep-covers k size r t p v ps enough tracked =
    let here = v.held t p tracked in
    let lt = get_elem?-lt_length r.tokens p here in
    let (i, inside, at) = place_of r.cursor p (length r.tokens) v.cursor_le lt in
    (
      i,
      sweep-At k size r ps (omega arith) v.cursor_le i (omega arith)
          ∙ ap (get_elem? r.tokens) at
          ∙ here,
    )

mod_wrap :
    (c i n : ℕ)
    → i < n
    → c ≤ n
    → ((c + i < n) × ((c + i) % n ≡ c + i)) ⊎ ((n ≤ c + i) × ((c + i) % n ≡ c + i - n))
mod_wrap c i n hi le = elim (dec_lt (c + i) n) [
  | yes lt ↦ inl (lt, mod-eq_of_lt lt)
  | no ge ↦ inr (
    omega arith,
    mod-eq-sub-mod (let h : n ≤ c + i = omega arith in h)
        ∙ mod-eq_of_lt (let h : c + i - n < n = omega arith in h),
  )
]

mod_inj : (c i j n : ℕ) → i < n → j < n → c ≤ n → (c + i) % n ≡ (c + j) % n → i ≡ j
mod_inj c i j n hi hj le e = omega (arith, mod_wrap c i n hi le, mod_wrap c j n hj le)

next_batch_empty :
    (size : ℕ) (r : Ring) {t : String} (i : ℕ)
    → get_elem? (next_batch size r).0 i ≡ some t
    → (0 < size) × (0 < length r.tokens)
unfolding next_batch
next_batch_empty size r i h = ground arith

-- No token stands twice in one batch of a valid ring.
pub next_batch-distinct :
    (size : ℕ) (r : Ring) (t : String) (i j : ℕ)
    → IsValid r
    → get_elem? (next_batch size r).0 i ≡ some t
    → get_elem? (next_batch size r).0 j ≡ some t
    → i ≡ j
next_batch-distinct size r t i j v hi hj =
    let (ps, pos) = next_batch_empty size r i hi in
    let reads = next_batch-Reads size r ps pos v.cursor_le in
    let n = length r.tokens in
    let i_in : i < batch_limit size r = omega (arith, get_elem?-lt_length _ i hi, reads.count) in
    let j_in : j < batch_limit size r = omega (arith, get_elem?-lt_length _ j hj, reads.count) in
    let at_i = v.indexed t ((r.cursor + i) % n) (sym (reads.at i i_in) ∙ hi) in
    let at_j = v.indexed t ((r.cursor + j) % n) (sym (reads.at j j_in) ∙ hj) in
    let limit_le : batch_limit size r ≤ n = ground arith in
    mod_inj r.cursor i j n (omega arith) (omega arith) v.cursor_le (cc (at_i, at_j))
