-- ===== src/Tokens/Expiry.antt =====
-- The lifetimes of new tokens.
use Prim.Native.String.{len, ◌++◌}
use text.Mathlib.TextPositions.{len-append}
use astron_claw.Prelude.{
  ℕ, str_eq, str_eq_ne, Option-cases, inl, inr, String, Bool, true, false, not, ◌≡◌, ◌≤◌, ◌*◌, refl,
  ap, subst, ◌∙◌, Option, none, some, arith, if◌then◌else◌,
}
use astron_claw.Prelude.Int.{ℤ, pos, negsuc, +ℤ_parts, ◌+ℤ◌, ◌*ℤ◌, ltb_ℤ, wrap_int64}
use astron_claw.Tokens.{TokenTable, seconds, expiry_of, generate, validate}
use astron_claw.Tokens.Laws.{TableLaws, Near, Changed, is_live}

scaled : (n : ℕ) → pos n *ℤ pos 1000000000 ≡ pos (n * 1000000000)
unfolding ◌*ℤ◌
scaled n = ground arith

wrap_int64-large :
    (m : ℕ)
    → 9223372036854775808 ≤ m
    → m ≤ 18446744073000000000
    → ltb_ℤ (wrap_int64 (pos m)) (negsuc 600000000) ≡ true
unfolding wrap_int64
wrap_int64-large m h k = ground arith

seconds-large :
    (n : ℕ) → 9223372037 ≤ n → n ≤ 18446744073 → ltb_ℤ (seconds (pos n)) (negsuc 600000000) ≡ true
unfolding seconds
seconds-large n h k =
    ap (λ x. ltb_ℤ (wrap_int64 x) (negsuc 600000000)) (scaled n)
    ∙ wrap_int64-large (n * 1000000000) (omega arith) (omega arith)

expiry_positive : (k : ℕ) (now : ℤ) → 1 ≤ k → expiry_of now (pos k) ≡ now +ℤ seconds (pos k)
unfolding expiry_of
expiry_positive k now h = ground arith

before_now :
    (e x now : ℤ)
    → Near e (now +ℤ x)
    → ltb_ℤ x (negsuc 600000000) ≡ true
    → not (ltb_ℤ e now) ≡ false
before_now e x now (below, above) h =
    ground (arith, +ℤ_parts now x, +ℤ_parts (now +ℤ x) (pos 600000000))

pub full : (digits : String) → str_eq ("sk-" ++ digits) "" ≡ false
full digits = str_eq_ne (λ e. absurd (omega (arith, ap len e, len-append "sk-" digits)))

was_made : (b : Bool) (v w : String) → (if b then some v else none) ≡ some w → b ≡ true
was_made true v w e = refl
was_made false v w e = cc

module _ (T : TokenTable) (expires : T.State → String → Option ℤ) (L : TableLaws T expires) where
  -- the state after a token was made
  abbrev pub made_state : String → String → ℤ → ℤ → T.State → T.State
  made_state digits name expires_in now s = (generate T (some digits) name expires_in now s).1

  made_expires :
      (digits name : String) (expires_in now : ℤ) (s : T.State)
      → (generate T (some digits) name expires_in now s).0 ≡ some ("sk-" ++ digits)
      → Changed
          (some (expiry_of now expires_in))
          (expires s ("sk-" ++ digits))
          (expires (made_state digits name expires_in now s) ("sk-" ++ digits))
  unfolding generate
  made_expires digits name expires_in now s made = L.insert-ok _ s (was_made _ _ _ made)

  pub validate-live :
      (token : String) (t : ℤ) (n : ℕ) (s : T.State)
      → str_eq token "" ≡ false
      → T.count_valid token t s ≡ some n
      → validate T token t s ≡ is_live t (expires s token)
  unfolding validate
  validate-live token t n s some_token counted =
      rw (some_token, counted) (L.count_valid-ok token t n s counted)

  validate-failed :
      (token : String) (t : ℤ) (s : T.State)
      → str_eq token "" ≡ false
      → T.count_valid token t s ≡ none
      → validate T token t s ≡ false
  unfolding validate
  validate-failed token t s some_token failed = rw (some_token, failed) refl

  pub validate-dead :
      (token : String) (t : ℤ) (s : T.State)
      → str_eq token "" ≡ false
      → is_live t (expires s token) ≡ false
      → validate T token t s ≡ false
  validate-dead token t s some_token dead = elim (Option-cases (T.count_valid token t s)) [
    | inl e ↦ validate-failed token t s some_token e
    | inr (n, e) ↦ validate-live token t n s some_token e ∙ dead
  ]

  -- A token that Generate has made for 9223372037 to 18446744073 seconds, which is 292 to 584
  -- years, is not valid when it is made: the nanoseconds of its lifetime wrap around to a
  -- negative number.
  pub generate-overflow :
      (digits name : String) (k : ℕ) (now : ℤ) (s : T.State)
      → 9223372037 ≤ k
      → k ≤ 18446744073
      → (generate T (some digits) name (pos k) now s).0 ≡ some ("sk-" ++ digits)
      → validate T ("sk-" ++ digits) now (made_state digits name (pos k) now s) ≡ false
  generate-overflow digits name k now s large bounded made =
      let (e, ends, near) = made_expires digits name (pos k) now s made in
      validate-dead ("sk-" ++ digits) now _ (full digits) (
        ap (is_live now) ends
        ∙ before_now e (seconds (pos k)) now
            (subst (Near e) (expiry_positive k now (omega arith)) near)
            (seconds-large k large bounded))
