-- ===== src/AdminAuth/Password.antt =====
-- What a stored password verifies.
use Prim.Native.String.{len, ◌++◌}
use astron_claw.Prelude.{
  String, Bool, true, false, ◌&&◌, ◌≡◌, ◌≢◌, refl, sym, ap, ap₂, ◌∙◌, subst, inl, inr, Option, none,
  some, ltb, str_eq, if◌then◌else◌, if_by, Bool-cases, Option-cases,
}
use astron_claw.Redis.{Redis}
use astron_claw.AdminAuth.{
  ConfigTable, Read, value, no_record, read_failed, Hashes, same, upsert_config, store_hash,
  with_hash, set_password, check_hash, on_salt, verify_password,
}
use astron_claw.Text.Lines.{and_left, and_right}
use astron_claw.AdminAuth.Laws.{read_of, ConfigLaws, HashLaws}

no_clash : false ≢ true
no_clash = λ e. cc

module _ (T : ConfigTable) (stored : T.State → String → Option String)
    (L : ConfigLaws T stored) where
  upsert_new :
      (k v : String) (s : T.State) → stored s k ≡ none → upsert_config T k v s ≡ T.create k v s
  unfolding upsert_config
  upsert_new k v s e = rw (upsert_config, L.first-read k s ∙ ap read_of e) refl

  upsert_old :
      (k v old : String) (s : T.State)
      → stored s k ≡ some old
      → upsert_config T k v s ≡ T.save k v s
  unfolding upsert_config
  upsert_old k v old s e = rw (upsert_config, L.first-read k s ∙ ap read_of e) refl

  -- a write that has succeeded has set one row
  abbrev Writes : String → String → String → T.State → Bool × T.State → Type 0
  Writes k v j s p = p.0 ≡ true → stored p.1 j ≡ (if str_eq k j then some v else stored s j)

  upsert-Writes : (k v j : String) (s : T.State) → Writes k v j s (upsert_config T k v s)
  upsert-Writes k v j s = elim (Option-cases (stored s k)) [
    | inl e ↦ subst (Writes k v j s) (sym (upsert_new k v s e)) (L.create-ok k v j s)
    | inr (old, e) ↦ subst (Writes k v j s) (sym (upsert_old k v old s e)) (L.save-ok k v j s)
  ]

  abbrev Stores : String → Bool × T.State → Type 0
  Stores hash p =
      p.0 ≡ true
      → (stored p.1 "password_salt" ≡ some "bcrypt") × (stored p.1 "password_hash" ≡ some hash)

  store_hash-Stores : (hash : String) (s : T.State) → Stores hash (store_hash T hash s)
  unfolding store_hash
  store_hash-Stores hash s =
      let s1 = (upsert_config T "password_salt" "bcrypt" s).1 in
      if_by (Stores hash)
        (((upsert_config T "password_salt" "bcrypt" s).0
            && (upsert_config T "password_hash" hash s1).0)
          && T.commit (upsert_config T "password_hash" hash s1).1)
        (true, (upsert_config T "password_hash" hash s1).1) (false, s)
        (λ both _. (
          upsert-Writes "password_hash" hash "password_salt" s1 (and_right _ _ (and_left _ _ both))
              ∙ upsert-Writes "password_salt" "bcrypt" "password_salt" s
                  (and_left _ _ (and_left _ _ both)),
          upsert-Writes "password_hash" hash "password_hash" s1 (and_right _ _ (and_left _ _ both)),
        ))
        (λ _ h. absurd (no_clash h))

  store_hash-kept :
      (hash : String) (s : T.State) → (store_hash T hash s).0 ≡ false → (store_hash T hash s).1 ≡ s
  unfolding store_hash
  store_hash-kept hash s =
      let s1 = (upsert_config T "password_salt" "bcrypt" s).1 in
      if_by (λ (p : Bool × T.State). p.0 ≡ false → p.1 ≡ s)
        (((upsert_config T "password_salt" "bcrypt" s).0
            && (upsert_config T "password_hash" hash s1).0)
          && T.commit (upsert_config T "password_hash" hash s1).1)
        (true, (upsert_config T "password_hash" hash s1).1) (false, s)
        (λ _ h. absurd (no_clash (sym h))) (λ _ _. refl)

  module _ (R : Redis) (H : Hashes) (M : HashLaws H) where
    -- the rows hold a bcrypt hash of the password
    abbrev pub Holds : String → T.State → Type 0
    Holds password s =
        (hash : String) × (stored s "password_salt" ≡ some "bcrypt")
        × (stored s "password_hash" ≡ some hash)
        × (H.compare hash password ≡ same)

    pub verify-Holds :
        (password : String) (s : T.State) (c : R.Server)
        → Holds password s
        → verify_password T R H password (s, c) ≡ (some true, (s, c))
    unfolding verify_password on_salt check_hash
    verify-Holds password s c (hash, salted, hashed, matches) =
        rw
          (
            verify_password,
            L.first-read "password_salt" s ∙ ap read_of salted,
            L.first-read "password_hash" s ∙ ap read_of hashed,
            matches,
          )
          refl

    hash-Holds :
        (password : String) (o : Option String) (s : T.State) (c : R.Server)
        → H.generate password ≡ o
        → (with_hash T R H o (s, c)).0 ≡ true
        → Holds password (with_hash T R H o (s, c)).1.0
    unfolding with_hash
    hash-Holds password none s c e h = absurd (no_clash h)
    hash-Holds password (some hash) s c e h =
        let both = store_hash-Stores hash s h in
        (hash, both.0, both.1, M.compare-generate password hash e)

    -- what a password that was set leaves
    pub set-Holds :
        (password : String) (s : T.State) (c : R.Server)
        → (set_password T R H password (s, c)).0 ≡ true
        → Holds password (set_password T R H password (s, c)).1.0
    unfolding set_password
    set-Holds password s c =
        if_by (λ (p : Bool × (T.State × R.Server)). p.0 ≡ true → Holds password p.1.0)
          (ltb 72 (len password)) (false, (s, c)) (with_hash T R H (H.generate password) (s, c))
          (λ _ h. absurd (no_clash h)) (λ _ h. hash-Holds password (H.generate password) s c refl h)

    -- A password that SetPassword has set is verified.
    pub set_password-verify :
        (password : String) (s : T.State) (c : R.Server)
        → (set_password T R H password (s, c)).0 ≡ true
        → (verify_password T R H password (set_password T R H password (s, c)).1).0 ≡ some true
    set_password-verify password s c h =
        ap (λ (r : Option Bool × (T.State × R.Server)). r.0)
          (verify-Holds password _ _ (set-Holds password s c h))

    hash-kept :
        (o : Option String) (s : T.State) (c : R.Server)
        → (with_hash T R H o (s, c)).0 ≡ false
        → (with_hash T R H o (s, c)).1 ≡ (s, c)
    unfolding with_hash
    hash-kept none s c h = refl
    hash-kept (some hash) s c h =
        ap₂ (λ (x : T.State) (y : R.Server). (x, y)) (store_hash-kept hash s h) (rw h refl)

    set-kept :
        (password : String) (s : T.State) (c : R.Server)
        → (set_password T R H password (s, c)).0 ≡ false
        → (set_password T R H password (s, c)).1 ≡ (s, c)
    unfolding set_password
    set-kept password s c =
        if_by (λ (p : Bool × (T.State × R.Server)). p.0 ≡ false → p.1 ≡ (s, c))
          (ltb 72 (len password)) (false, (s, c)) (with_hash T R H (H.generate password) (s, c))
          (λ _ _. refl) (λ _ h. hash-kept (H.generate password) s c h)

    -- where a password is verified, it stays so after it was set again, or was not
    set-verified :
        (password : String) (w : T.State × R.Server)
        → (verify_password T R H password w).0 ≡ some true
        → (verify_password T R H password (set_password T R H password w).1).0 ≡ some true
    set-verified password (s, c) h = elim (Bool-cases (set_password T R H password (s, c)).0) [
      | inl e ↦ set_password-verify password s c e
      | inr e ↦
          subst (λ w. (verify_password T R H password w).0 ≡ some true)
            (sym (set-kept password s c e)) h
    ]

    -- what is left after a password was checked against what was read
    on_salt-verified :
        (salt hash : Read) (password : String) (w : T.State × R.Server)
        → (verify_password T R H password w).0 ≡ some true
        → (verify_password T R H password (on_salt T R H salt hash password w).1).0 ≡ some true
    unfolding on_salt check_hash
    on_salt-verified no_record hash password w h = h
    on_salt-verified read_failed hash password w h = h
    on_salt-verified (value salt) no_record password w h = h
    on_salt-verified (value salt) read_failed password w h = h
    on_salt-verified (value salt) (value hash) password w h =
        let Verified = λ (r : Option Bool × (T.State × R.Server)).
          (verify_password T R H password r.1).0 ≡ some true in
        if_by Verified (str_eq salt "bcrypt") _ _ (λ _. h)
          (λ _.
            if_by Verified (str_eq (H.sha256_hex (salt ++ password)) hash) _ _
              (λ _. set-verified password w h) (λ _. h))

    after_verify :
        (password : String) (s : T.State) (c : R.Server)
        → (verify_password T R H password (s, c)).1
          ≡ (on_salt T R H
              (T.first "password_salt" s)
              (T.first "password_hash" s)
              password
              (s, c)).1
    unfolding verify_password
    after_verify password s c = refl

    -- A password that VerifyPassword has accepted is accepted again, whether it was stored as a
    -- bcrypt hash, or as a SHA-256 that the first check has replaced, or failed to replace.
    -- Reads of the settings are taken to succeed, and a hash that bcrypt has made of a password
    -- to match it.
    pub verify_password-again :
        (password : String) (s : T.State) (c : R.Server)
        → (verify_password T R H password (s, c)).0 ≡ some true
        → (verify_password T R H password (verify_password T R H password (s, c)).1).0 ≡ some true
    verify_password-again password s c h =
        subst (λ (w : T.State × R.Server). (verify_password T R H password w).0 ≡ some true)
          (sym (after_verify password s c))
          (on_salt-verified (T.first "password_salt" s) (T.first "password_hash" s) password (s, c)
            h)
