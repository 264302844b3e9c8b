-- ===== src/TokenAuth/Carried.antt =====
-- Which requests pass the check of tokens, by what Redis and the table hold.
use Prim.Native.String.{len, ◌++◌}
use text.Mathlib.TextPositions.{len-append}
use text.Mathlib.TextLemmas.{cons-append, nil-append}
use astron_claw.Prelude.{
  ℕ, String, Bool, true, false, ◌||◌, ◌≡◌, inl, inr, refl, sym, ap, subst, ◌∙◌, ◌⊎◌, Option, none,
  some, str_eq, str_eq_ne, if◌then◌else◌, arith,
}
use astron_claw.Prelude.Int.{ℤ}
use astron_claw.Text.{trim_space}
use astron_claw.Redis.{Redis, Reply, ok, nil, failed}
use astron_claw.Redis.Laws.{View, RedisLaws}
use astron_claw.Tokens.{TokenTable, validate, token_auth_key}
use astron_claw.Tokens.Laws.{TableLaws, is_live}
use astron_claw.Tokens.Expiry.{validate-live, full}
use astron_claw.TokenAuth.{
  Headers, Verdict, passes, unauthorized, is_protected, token_of, extract_bearer, after_fold,
  is_cached, validate_cached, token_auth,
}
use astron_claw.TokenAuth.Guard.{validate_cached-known}

-- How a client sends a token that Generate has made: in X-Api-Key, or else in Authorization, alone
-- or after "Bearer ".
pub data Sent (digits : String) : String → Type 0 where
  plain : Sent digits ("sk-" ++ digits)
  bearer :
      trim_space ("sk-" ++ digits) ≡ "sk-" ++ digits → Sent digits ("Bearer " ++ ("sk-" ++ digits))

bearer_folds : after_fold "Bearer " "bearer " ≡ some ""
unfolding after_fold
bearer_folds = refl

some_cancel {ℓ} : {A : Type ℓ} {a b : A} → some a ≡ some b → a ≡ b
some_cancel h = cc h

after_fold-append : (p q s : String) → after_fold p q ≡ some "" → after_fold (p ++ s) q ≡ some s
unfolding after_fold
after_fold-append p String.[] s h = ap some (ap (λ x. x ++ s) (some_cancel h) ∙ nil-append s)
after_fold-append String.[] (String.◌∷◌ d q) s h = absurd (cc h)
after_fold-append (String.◌∷◌ c p) (String.◌∷◌ d q) s h =
    rw (cons-append c p s) (ground (arith, after_fold-append p q s, h))

after_fold-key : (digits : String) → after_fold ("sk-" ++ digits) "bearer " ≡ none
unfolding after_fold
after_fold-key digits = rw (cons-append "s" "k-" digits) refl

extract : (digits raw : String) → Sent digits raw → extract_bearer raw ≡ "sk-" ++ digits
unfolding extract_bearer
extract digits raw plain = rw (extract_bearer, after_fold-key digits) refl
extract digits raw (bearer e) =
    rw (extract_bearer, after_fold-append "Bearer " "bearer " ("sk-" ++ digits) bearer_folds) e

-- a request that carries the token, in one of the two headers
pub data Carries (digits : String) (h : Headers) : Type 0 where
  in_key : Sent digits h.api_key → Carries digits h
  in_authorization : h.api_key ≡ "" → Sent digits h.authorization → Carries digits h

Sent-full : (digits raw : String) → Sent digits raw → str_eq raw "" ≡ false
Sent-full digits raw plain = full digits
Sent-full digits raw (bearer e) =
    str_eq_ne (λ w. absurd (omega (arith, ap len w, len-append "Bearer " ("sk-" ++ digits))))

token_of-carried : (digits : String) (h : Headers) → Carries digits h → token_of h ≡ "sk-" ++ digits
unfolding token_of
token_of-carried digits h (in_key sent) =
    rw (Sent-full digits h.api_key sent) (extract digits h.api_key sent)
token_of-carried digits h (in_authorization e sent) =
    ap (λ k. extract_bearer (if str_eq k "" then h.authorization else k)) e
    ∙ extract digits h.authorization sent

-- Redis holds the mark of a valid token
abbrev pub is_one : Option String → Bool
is_one none = false
is_one (some v) = str_eq v "1"

module _ (T : TokenTable) (R : Redis) (V : View R.Server) (L : RedisLaws R V)
    (expires : T.State → String → Option ℤ) (M : TableLaws T expires) where
  read_mark :
      (k : String) (c : R.Server) (r : Reply String)
      → (R.get k c).0 ≡ r
      → ((v : String) × (r ≡ ok v)) ⊎ (r ≡ nil)
      → is_cached r ≡ is_one (V.text c k)
  read_mark k c (ok v) e up = ap is_one (sym (L.get-ok k v c e))
  read_mark k c nil e up = ap is_one (sym (L.get-nil k c e))
  read_mark k c (failed x) e (inl (v, w)) = absurd (cc w)
  read_mark k c (failed x) e (inr w) = absurd (cc w)

  -- A request to a protected path that carries a token of the form that Generate makes, in
  -- X-Api-Key, or with that empty in Authorization, alone or after "Bearer ", is passed on with
  -- that token if Redis holds the text "1" under the key of the token, or the table has it with
  -- a lifetime that has not ended; otherwise it is refused. The read of Redis and the count of
  -- valid rows are taken to succeed, and the token not to end or begin with blanks where it
  -- follows "Bearer ".
  pub token_auth-carried :
      (up : (k : String) (c : R.Server)
        → ((v : String) × ((R.get k c).0 ≡ ok v)) ⊎ ((R.get k c).0 ≡ nil))
      (digits : String) (h : Headers) (now : ℤ) (s : T.State) (c : R.Server) (n : ℕ)
      → is_protected h.path ≡ true
      → Carries digits h
      → T.count_valid ("sk-" ++ digits) now s ≡ some n
      → (token_auth T R h now s c).0 ≡ (
          if is_one (V.text c (token_auth_key ("sk-" ++ digits)))
            || is_live now (expires s ("sk-" ++ digits))
          then passes (some ("sk-" ++ digits))
          else unauthorized)
  unfolding token_auth
  token_auth-carried up digits h now s c n on_path carried counted =
      let token = "sk-" ++ digits in
      let same = token_of-carried digits h carried in
      let known =
        validate_cached-known T R token now s c
        ∙ ap (λ b. b || validate T token now s)
            (read_mark (token_auth_key token) c _ refl (up (token_auth_key token) c))
        ∙ ap (λ b. is_one (V.text c (token_auth_key token)) || b)
            (validate-live T expires M token now n s (full digits) counted) in
      subst
        (λ t.
          let checked : Verdict × R.Server = (
            if (validate_cached T R t now s c).0 then passes (some t) else unauthorized,
            (validate_cached T R t now s c).1,
          ) in
          let result : Verdict × R.Server =
            if is_protected h.path
            then if str_eq t "" then (unauthorized, c) else checked
            else (passes none, c) in
          result.0 ≡ (
            if is_one (V.text c (token_auth_key token)) || is_live now (expires s token)
            then passes (some token)
            else unauthorized))
        (sym same) (rw (on_path, full digits, known) refl)
