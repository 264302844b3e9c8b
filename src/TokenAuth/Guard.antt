-- ===== src/TokenAuth/Guard.antt =====
-- What passes the check of tokens.
use astron_claw.Prelude.{
  ℕ, String, Bool, true, false, ◌||◌, ◌≡◌, ◌≢◌, inl, inr, refl, sym, ap, ◌∙◌, Option, none, some,
  str_eq, if◌then◌else◌, if_by, arith, Bool-cases,
}
use astron_claw.Prelude.Int.{ℤ}
use astron_claw.Redis.{Redis, Reply, ok, nil, failed}
use astron_claw.Redis.Laws.{View, RedisLaws}
use astron_claw.Tokens.{TokenTable, validate, token_auth_key, remove}
use astron_claw.Tokens.Laws.{TableLaws, is_live}
use astron_claw.Tokens.Expiry.{validate-dead}
use astron_claw.TokenAuth.{
  Headers, Verdict, passes, unauthorized, is_protected, token_of, is_cached, validate_cached,
  token_auth, invalidate_token_cache, admin_delete_token,
}

no_clash : false ≢ true
no_clash = λ e. cc

not_none : {r : Reply ℕ} → none ≢ some r
not_none = λ e. cc

abbrev reply_of : Option (Reply ℕ) → Reply ℕ
reply_of none = nil
reply_of (some r) = r

not_both : (v : String) → some v ≢ none
not_both v = λ e. cc

module _ (T : TokenTable) (R : Redis) where
  -- why a token is taken to be valid
  abbrev pub is_known : String → ℤ → T.State → R.Server → Bool
  is_known token now s c = is_cached (R.get (token_auth_key token) c).0 || validate T token now s

  -- A protected path is served only with a token, and only if it is known.
  abbrev pub Guarded : Headers → ℤ → T.State → R.Server → Verdict → Type 0
  Guarded h now s c (passes o) =
      (o ≡ some (token_of h))
      × (str_eq (token_of h) "" ≡ false)
      × (is_known (token_of h) now s c ≡ true)
  Guarded h now s c unauthorized =
      (str_eq (token_of h) "" || (if is_known (token_of h) now s c then false else true)) ≡ true

  pub validate_cached-known :
      (token : String) (now : ℤ) (s : T.State) (c : R.Server)
      → (validate_cached T R token now s c).0 ≡ is_known token now s c
  unfolding validate_cached
  validate_cached-known token now s c = ground arith

  -- On a protected path the check lets exactly those requests pass that carry a token which the
  -- cache holds or the table counts as valid, and gives that token to the handler; all others
  -- are refused.
  pub token_auth-Guarded :
      (h : Headers) (now : ℤ) (s : T.State) (c : R.Server)
      → is_protected h.path ≡ true
      → Guarded h now s c (token_auth T R h now s c).0
  unfolding token_auth
  token_auth-Guarded h now s c on_path =
      if_by (λ (p : Verdict × R.Server). Guarded h now s c p.0) (is_protected h.path) _ _
        (λ _.
          if_by (λ (p : Verdict × R.Server). Guarded h now s c p.0) (str_eq (token_of h) "") _ _
            (λ e. rw e refl)
            (λ e.
              if_by (Guarded h now s c) (validate_cached T R (token_of h) now s c).0 _ _
                (λ valid. (refl, e, sym (validate_cached-known (token_of h) now s c) ∙ valid))
                (λ unknown.
                  rw (e, sym (validate_cached-known (token_of h) now s c) ∙ unknown) refl)))
        (λ off_path. absurd (no_clash (sym off_path ∙ on_path)))

  no_token :
      (h : Headers) (now : ℤ) (s : T.State) (c : R.Server) (v : Verdict)
      → Guarded h now s c v
      → str_eq (token_of h) "" ≡ true
      → v ≡ unauthorized
  no_token h now s c unauthorized g e = refl
  no_token h now s c (passes o) (same, full, known) e = absurd (no_clash (sym full ∙ e))

  refused :
      (h : Headers) (now : ℤ) (s : T.State) (c : R.Server) (v : Verdict)
      → Guarded h now s c v
      → is_known (token_of h) now s c ≡ false
      → v ≡ unauthorized
  refused h now s c unauthorized g e = refl
  refused h now s c (passes o) (same, full, known) e = absurd (no_clash (sym e ∙ known))

  module _ (V : View R.Server) (L : RedisLaws R V) (expires : T.State → String → Option ℤ)
      (M : TableLaws T expires) where
    not_cached :
        (k : String) (c : R.Server) (r : Reply String)
        → (R.get k c).0 ≡ r
        → V.text c k ≡ none
        → is_cached r ≡ false
    not_cached k c (ok v) e gone = absurd (not_both v (sym (L.get-ok k v c e) ∙ gone))
    not_cached k c nil e gone = refl
    not_cached k c (failed x) e gone = refl

    unknown :
        (token : String) (now : ℤ) (s : T.State) (c : R.Server)
        → str_eq token "" ≡ false
        → V.text c (token_auth_key token) ≡ none
        → expires s token ≡ none
        → is_known token now s c ≡ false
    unknown token now s c full gone dead =
        rw (not_cached (token_auth_key token) c _ refl gone)
          (validate-dead T expires M token now s full (ap (is_live now) dead))

    both_gone :
        (sessions : R.Server → R.Server) (token : String) (s : T.State) (c : R.Server) (n : ℕ)
        → (admin_delete_token T R sessions token (s, c)).0 ≡ some (ok n)
        → (expires (admin_delete_token T R sessions token (s, c)).1.0 token ≡ none)
          × (V.text (admin_delete_token T R sessions token (s, c)).1.1 (token_auth_key token)
              ≡ none)
    unfolding admin_delete_token invalidate_token_cache remove
    both_gone sessions token s c n deleted = elim (Bool-cases (T.delete token s).0) [
      | inl e ↦ rw e (
        M.delete-ok token s e,
        L.del-ok (token_auth_key token) n _ (ap reply_of (rw e at deleted)),
      )
      | inr e ↦ absurd (not_none (rw e at deleted))
    ]

    -- After an administrator has deleted a token, with the row and the cached entry both gone, a
    -- request to a protected path that carries the token is refused, at any time, as long as the
    -- table and the cache stay as they are.
    pub admin_delete_token-refused :
        (sessions : R.Server → R.Server) (h : Headers) (now : ℤ) (s : T.State) (c : R.Server)
        (n : ℕ)
        → is_protected h.path ≡ true
        → (admin_delete_token T R sessions (token_of h) (s, c)).0 ≡ some (ok n)
        → (token_auth T R h now
            (admin_delete_token T R sessions (token_of h) (s, c)).1.0
            (admin_delete_token T R sessions (token_of h) (s, c)).1.1).0
          ≡ unauthorized
    admin_delete_token-refused sessions h now s c n on_path deleted =
        let (s', c') = (admin_delete_token T R sessions (token_of h) (s, c)).1 in
        let (dead, gone) = both_gone sessions (token_of h) s c n deleted in
        let g = token_auth-Guarded h now s' c' on_path in
        elim (Bool-cases (str_eq (token_of h) "")) [
          | inl e ↦ no_token h now s' c' _ g e
          | inr full ↦ refused h now s' c' _ g (unknown (token_of h) now s' c' full gone dead)
        ]
