-- ===== src/Ring/Invariant.antt =====
-- The index of the reconcile ring agrees with its slice, after every operation.
use astron_claw.Prelude.{
  ℕ, zero, suc, ◌-◌, ◌≤◌, ◌<◌, String, ◌≡◌, ◌≢◌, refl, sym, ◌∙◌, ap, ◌⊎◌, inl, inr, none, some,
  List, [], ◌∷◌, ◌++◌, arith, if◌then◌else◌, str_eq, eq_iff, Bool-cases, Option-cases, length,
  get_elem?, get_or, set, length-append, length-set, length-take, get_elem?-set_self,
  get_elem?-set_ne, get_elem?-lt_length, get_elem?-of_lt, get_or-of_get_elem?,
  get_elem?-append_left, get_elem?-take,
}
use astron_claw.Prelude.Dict.{lookup, insert, lookup-insert, lookup-remove}
use astron_claw.Ring.{Ring, empty, track, untrack, swap_out, settle_cursor}

-- The index and the slice are inverse to each other, and the cursor is at most one past the end.
pub record IsValid (r : Ring) : Type 0 where
  pub held : (t : String) (i : ℕ) → lookup t r.pos ≡ some i → get_elem? r.tokens i ≡ some t
  pub indexed : (t : String) (i : ℕ) → get_elem? r.tokens i ≡ some t → lookup t r.pos ≡ some i
  pub cursor_le : r.cursor ≤ length r.tokens

pub empty-IsValid : IsValid empty
unfolding lookup
empty-IsValid = record { held = λ t i h. cc; indexed = λ t i h. cc; cursor_le = omega arith }

get_elem?-concat :
    (xs : List String) (t u : String) (i : ℕ)
    → get_elem? (xs ++ t ∷ []) i ≡ some u
    → ((i ≡ length xs) × (u ≡ t)) ⊎ (get_elem? xs i ≡ some u)
get_elem?-concat [] t u zero h = inl (refl, ground arith)
get_elem?-concat [] t u (suc i) h = cc
get_elem?-concat (x ∷ xs) t u zero h = inr h
get_elem?-concat (x ∷ xs) t u (suc i) h = ground (arith, get_elem?-concat xs t u i h)

get_elem?-concat_last :
    (xs : List String) (t : String) → get_elem? (xs ++ t ∷ []) (length xs) ≡ some t
get_elem?-concat_last [] t = refl
get_elem?-concat_last (x ∷ xs) t = get_elem?-concat_last xs t

module _ (token : String) (r : Ring) (v : IsValid r) (new : lookup token r.pos ≡ none) where
  track_held :
      (t : String) (i : ℕ)
      → lookup t (insert token (length r.tokens) r.pos) ≡ some i
      → get_elem? (r.tokens ++ token ∷ []) i ≡ some t
  track_held t i h = elim (Bool-cases (str_eq token t)) [
    | inl e ↦
        let same : token ≡ t = (eq_iff token t).0 e in
        let at : length r.tokens ≡ i =
          ground (arith, lookup-insert token t (length r.tokens) r.pos) in
        rw (← at, ← same) (get_elem?-concat_last r.tokens token)
    | inr e ↦
        let old : get_elem? r.tokens i ≡ some t =
          v.held t i (ground (arith, lookup-insert token t (length r.tokens) r.pos)) in
        get_elem?-append_left r.tokens _ i (get_elem?-lt_length r.tokens i old) ∙ old
  ]

  track_indexed :
      (t : String) (i : ℕ)
      → get_elem? (r.tokens ++ token ∷ []) i ≡ some t
      → lookup t (insert token (length r.tokens) r.pos) ≡ some i
  track_indexed t i h = ground (
    arith,
    get_elem?-concat r.tokens token t i h,
    lookup-insert token t (length r.tokens) r.pos,
    v.indexed t i,
    eq_iff token t,
  )

-- Adding a token to a valid reconcile ring leaves a valid ring.
pub track-IsValid : (token : String) (r : Ring) → IsValid r → IsValid (track token r)
unfolding track
track-IsValid token r v = elim (Option-cases (lookup token r.pos)) [
  | inl new ↦
      rw (new, track)
        (record {
          held = track_held token r v new;
          indexed = track_indexed token r v new;
          cursor_le = omega (arith, v.cursor_le, length-append r.tokens (token ∷ []));
        })
  | inr (i, e) ↦ rw (e, track) v
]

module _ (token : String) (r : Ring) (v : IsValid r) (idx : ℕ)
    (found : lookup token r.pos ≡ some idx) where
  idx_in : idx < length r.tokens
  idx_in = get_elem?-lt_length r.tokens idx (v.held token idx found)

  last_held :
      get_elem? r.tokens (length r.tokens - 1) ≡ some (get_or r.tokens (length r.tokens - 1) "")
  last_held =
      let (a, e) = get_elem?-of_lt r.tokens (length r.tokens - 1) (omega (arith, idx_in)) in
      e ∙ ap some (sym (get_or-of_get_elem? r.tokens _ "" e))

  -- In a valid ring the two indexings of untrackReconcileToken are in range.
  pub untrack_in_range : (idx < length r.tokens) × (length r.tokens - 1 < length r.tokens)
  untrack_in_range = (idx_in, omega (arith, idx_in))

  pub last_index :
      lookup (get_or r.tokens (length r.tokens - 1) "") r.pos ≡ some (length r.tokens - 1)
  last_index = v.indexed _ _ last_held

  length-swap_out : length (swap_out token idx r).tokens ≡ length r.tokens - 1
  unfolding swap_out
  length-swap_out = omega (
    arith,
    length-take (length r.tokens - 1) (set r.tokens idx (get_or r.tokens (length r.tokens - 1) "")),
    length-set r.tokens idx (get_or r.tokens (length r.tokens - 1) ""),
  )

  swap_out-elem_ne :
      (i : ℕ)
      → i < length r.tokens - 1
      → idx ≢ i
      → get_elem? (swap_out token idx r).tokens i ≡ get_elem? r.tokens i
  unfolding swap_out
  swap_out-elem_ne i h ne =
      get_elem?-take (length r.tokens - 1) _ i h ∙ get_elem?-set_ne r.tokens _ ne

  swap_out-elem_self :
      idx < length r.tokens - 1
      → get_elem? (swap_out token idx r).tokens idx
        ≡ some (get_or r.tokens (length r.tokens - 1) "")
  unfolding swap_out
  swap_out-elem_self h =
      get_elem?-take (length r.tokens - 1) _ idx h ∙ get_elem?-set_self r.tokens idx _ idx_in

  -- what the index says after the swap
  pub swap_out-lookup :
      (t : String)
      → lookup t (swap_out token idx r).pos ≡ (
          if str_eq token t
          then none
          else if str_eq (get_or r.tokens (length r.tokens - 1) "") t
          then some idx
          else lookup t r.pos)
  unfolding swap_out
  swap_out-lookup t = ground (
    arith,
    lookup-remove token t (insert (get_or r.tokens (length r.tokens - 1) "") idx r.pos),
    lookup-insert (get_or r.tokens (length r.tokens - 1) "") t idx r.pos,
  )

  swap_out_held :
      (t : String) (i : ℕ)
      → lookup t (swap_out token idx r).pos ≡ some i
      → get_elem? (swap_out token idx r).tokens i ≡ some t
  swap_out_held t i h = ground (
    arith,
    swap_out-lookup t,
    eq_iff token t,
    eq_iff (get_or r.tokens (length r.tokens - 1) "") t,
    found,
    last_held,
    v.held token idx found,
    idx_in,
    swap_out-elem_self,
    swap_out-elem_ne i,
    v.held t i,
    get_elem?-lt_length r.tokens i {a = t},
  )

  swap_out_indexed :
      (t : String) (i : ℕ)
      → get_elem? (swap_out token idx r).tokens i ≡ some t
      → lookup t (swap_out token idx r).pos ≡ some i
  swap_out_indexed t i h = ground (
    arith,
    get_elem?-lt_length (swap_out token idx r).tokens i h,
    length-swap_out,
    swap_out-lookup t,
    eq_iff token t,
    eq_iff (get_or r.tokens (length r.tokens - 1) "") t,
    found,
    last_index,
    idx_in,
    swap_out-elem_self,
    swap_out-elem_ne i,
    v.indexed t i,
  )

settle_cursor-tokens : (idx : ℕ) (r : Ring) → (settle_cursor idx r).tokens ≡ r.tokens
unfolding settle_cursor
settle_cursor-tokens idx r = ground arith

pub settle_cursor-pos : (idx : ℕ) (r : Ring) → (settle_cursor idx r).pos ≡ r.pos
unfolding settle_cursor
settle_cursor-pos idx r = ground arith

settle_cursor_le :
    (idx : ℕ) (r : Ring) → (settle_cursor idx r).cursor ≤ length (settle_cursor idx r).tokens
unfolding settle_cursor
settle_cursor_le idx r = ground arith

settle_cursor-IsValid :
    (idx : ℕ) (r : Ring)
    → ((t : String) (i : ℕ) → lookup t r.pos ≡ some i → get_elem? r.tokens i ≡ some t)
    → ((t : String) (i : ℕ) → get_elem? r.tokens i ≡ some t → lookup t r.pos ≡ some i)
    → IsValid (settle_cursor idx r)
settle_cursor-IsValid idx r held indexed = record {
  held = λ t i. rw (settle_cursor-tokens idx r, settle_cursor-pos idx r) (held t i);
  indexed = λ t i. rw (settle_cursor-tokens idx r, settle_cursor-pos idx r) (indexed t i);
  cursor_le = settle_cursor_le idx r;
}

-- Taking a token out of a valid reconcile ring leaves a valid ring: the index finds each token
-- where the slice holds it, and the cursor is at most the length.
pub untrack-IsValid : (token : String) (r : Ring) → IsValid r → IsValid (untrack token r)
unfolding untrack
untrack-IsValid token r v = elim (Option-cases (lookup token r.pos)) [
  | inl none_found ↦ rw (none_found, untrack) v
  | inr (idx, found) ↦
      rw (found, untrack)
        (settle_cursor-IsValid idx (swap_out token idx r) (swap_out_held token r v idx found)
          (swap_out_indexed token r v idx found))
]
