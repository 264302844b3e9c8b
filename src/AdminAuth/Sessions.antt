-- ===== src/AdminAuth/Sessions.antt =====
-- Which sessions of the administrator are valid.
use Prim.Native.String.{len}
use text.Mathlib.TextLemmas.{append-nil, append_cancel_left}
use astron_claw.Prelude.{
  ℕ, String, Bool, true, false, not, ◌&&◌, ◌≡◌, ◌≢◌, refl, ap, ◌∙◌, Option, none, some, List, [],
  ◌∷◌, ltb, str_eq, if◌then◌else◌, if_by, arith, eq_iff, str_eq_ne,
}
use astron_claw.Redis.{Redis, Reply, ok, nil, failed}
use astron_claw.Redis.Laws.{elem}
use astron_claw.Keys.{diverge, append-ne_of_diverge}
use astron_claw.AdminAuth.{
  ConfigTable, Hashes, admin_session_key, admin_session_idx, delete_sessions, delete_indexed,
  invalidate_all_sessions, create_session, stored_session, is_live, validate_session, with_hash,
  set_password,
}
use astron_claw.AdminAuth.Laws.{SessionLaws}

pub key-injective : (s t : String) → admin_session_key s ≡ admin_session_key t → s ≡ t
unfolding admin_session_key
key-injective s t e = append_cancel_left "admin:session:" s t e

idx-ne-key : (t : String) → admin_session_idx ≢ admin_session_key t
unfolding admin_session_key diverge
idx-ne-key t =
    rw (← append-nil "admin:session_idx")
      (append-ne_of_diverge "admin:session_idx" "admin:session:" "" t refl)

no_clash : false ≢ true
no_clash = λ e. cc

module _ (R : Redis) (live indexed : R.Server → String → Bool)
    (L : SessionLaws R live indexed) where
  -- every session that is there is in the index
  abbrev pub AllIndexed : R.Server → Type 0
  AllIndexed c = (t : String) → live c (admin_session_key t) && not (indexed c t) ≡ false

  live-delete_sessions :
      (ts : List String) (t : String) (c : R.Server)
      → live (delete_sessions R ts c) (admin_session_key t)
        ≡ not (elem t ts) && live c (admin_session_key t)
  unfolding delete_sessions
  live-delete_sessions [] t c = refl
  live-delete_sessions (x ∷ xs) t c =
      live-delete_sessions xs t (R.del (admin_session_key x) c).1
      ∙ ground (
        arith,
        L.del-live (admin_session_key x) (admin_session_key t) c,
        eq_iff (admin_session_key x) (admin_session_key t),
        eq_iff t x,
        key-injective x t,
        ap admin_session_key {x = t} {y = x},
      )

  none_live :
      (ts : List String) (t : String) (c : R.Server)
      → AllIndexed c
      → (R.smembers admin_session_idx c).0 ≡ ok ts
      → live (invalidate_all_sessions R c) (admin_session_key t) ≡ false
  unfolding invalidate_all_sessions delete_indexed
  none_live ts t c all read =
      let c1 = (R.smembers admin_session_idx c).1 in
      ap (λ r. live (delete_indexed R r c1) (admin_session_key t)) read
      ∙ L.del-live admin_session_idx (admin_session_key t) (delete_sessions R ts c1)
      ∙ ap (λ b. if b then false else live (delete_sessions R ts c1) (admin_session_key t))
          (str_eq_ne (idx-ne-key t))
      ∙ live-delete_sessions ts t c1
      ∙ ground (arith, L.smembers-ok ts t c read, L.smembers-live (admin_session_key t) c, all t)

  not_live :
      (k : String) (c : R.Server) (r : Reply ℕ)
      → (R.exists k c).0 ≡ r
      → live c k ≡ false
      → is_live R r ≡ false
  not_live k c (ok n) e gone = L.exists-ok k n c e ∙ gone
  not_live k c nil e gone = refl
  not_live k c (failed x) e gone = refl

  dead :
      (t : String) (c : R.Server)
      → live c (admin_session_key t) ≡ false
      → validate_session R t c ≡ false
  unfolding validate_session
  dead t c gone =
      if_by (λ b. b ≡ false) (str_eq t "") false _ (λ _. refl)
        (λ _. not_live (admin_session_key t) c (R.exists (admin_session_key t) c).0 refl gone)

  module _ (T : ConfigTable) (H : Hashes) where
    hash-ends :
        (o : Option String) (s : T.State) (c : R.Server) (ts : List String) (t : String)
        → AllIndexed c
        → (R.smembers admin_session_idx c).0 ≡ ok ts
        → (with_hash T R H o (s, c)).0 ≡ true
        → validate_session R t (with_hash T R H o (s, c)).1.1 ≡ false
    unfolding with_hash
    hash-ends none s c ts t all read h = absurd (no_clash h)
    hash-ends (some hash) s c ts t all read h = dead t _ (
        ap (λ b. live (if b then invalidate_all_sessions R c else c) (admin_session_key t)) h
        ∙ none_live ts t c all read)

    -- A change of the password ends every session of the administrator, where each one stands in
    -- the index and the index is read. Deletions are taken to succeed.
    pub set_password-ends_sessions :
        (password : String) (s : T.State) (c : R.Server) (ts : List String) (t : String)
        → AllIndexed c
        → (R.smembers admin_session_idx c).0 ≡ ok ts
        → (set_password T R H password (s, c)).0 ≡ true
        → validate_session R t (set_password T R H password (s, c)).1.1 ≡ false
    unfolding set_password
    set_password-ends_sessions password s c ts t all read =
        if_by (λ (p : Bool × (T.State × R.Server)). p.0 ≡ true → validate_session R t p.1.1 ≡ false)
          (ltb 72 (len password)) (false, (s, c)) (with_hash T R H (H.generate password) (s, c))
          (λ _ h. absurd (no_clash h)) (λ _ h. hash-ends (H.generate password) s c ts t all read h)

  created :
      (t u : String) (c : R.Server) (p : Reply Unit × R.Server)
      → (stored_session R t p).0 ≡ some u
      → p.0 ≡ ok tt
  created t u c (ok x, c1) e = refl
  created t u c (nil, c1) e = cc
  created t u c (failed x, c1) e = cc

  live-created :
      (t u : String) (p : Reply Unit × R.Server)
      → (stored_session R t p).0 ≡ some u
      → live p.1 (admin_session_key t) ≡ true
      → live (stored_session R t p).1 (admin_session_key t) ≡ true
  live-created t u (ok x, c1) e h = L.sadd-live t t c1 ∙ h
  live-created t u (nil, c1) e h = cc
  live-created t u (failed x, c1) e h = cc

  -- A session that was created is valid at once, where its key is read.
  pub create_session-validates :
      (t : String) (c : R.Server) (n : ℕ)
      → str_eq t "" ≡ false
      → (create_session R t c).0 ≡ some t
      → (R.exists (admin_session_key t) (create_session R t c).1).0 ≡ ok n
      → validate_session R t (create_session R t c).1 ≡ true
  unfolding create_session validate_session
  create_session-validates t c n some_token made read =
      let p = R.set_ex (admin_session_key t) "1" 86400 c in
      rw some_token (
        ap (is_live R) read
        ∙ L.exists-ok (admin_session_key t) n (create_session R t c).1 read
        ∙ live-created t t p made
            (L.set_ex-ok (admin_session_key t) "1" 86400 c (created t t c p made)))
