-- ===== src/AdminAuth/Handlers.antt =====
-- The handlers of the administrator's login, backend/internal/router/admin_auth.go: a body that
-- cannot be bound is none, and the cookie is part of the answer.
use Prim.Native.String.{len}
use astron_claw.Prelude.{
  String, Bool, true, false, not, ◌≡◌, refl, ap, Option, none, some, ltb, if◌then◌else◌, if_by,
}
use astron_claw.Redis.{Redis}
use astron_claw.AdminAuth.{
  ConfigTable, Hashes, is_password_set, set_password, verify_password, create_session,
  validate_session, remove_session,
}
use astron_claw.AdminAuth.Laws.{ConfigLaws, HashLaws}
use astron_claw.AdminAuth.Password.{Holds, set-Holds, verify-Holds}

pub data LoginAnswer : Type 0 where
  internal_error invalid_request password_exists password_short wrong_password : LoginAnswer
  -- success, with the session in the cookie
  logged_in : String → LoginAnswer

abbrev pub session_answer : Option String → LoginAnswer
session_answer none = internal_error
session_answer (some token) = logged_in token

abbrev need_setup : Option Bool → Bool
need_setup none = true
need_setup (some is_set) = not is_set

module _ (T : ConfigTable) (R : Redis) (H : Hashes) where
  abbrev pub Stores : Type 0
  Stores = T.State × R.Server

  -- a session for who has shown a password
  unfoldable pub with_session : String → Stores → LoginAnswer × Stores
  with_session token (s, c) = let (o, c') = create_session R token c in (session_answer o, (s, c'))

  unfoldable pub on_set : String → Bool × Stores → LoginAnswer × Stores
  on_set token (true, w) = with_session token w
  on_set token (false, w) = (internal_error, w)

  setup_with : Option String → String → Stores → LoginAnswer × Stores
  unfolding on_set with_session
  setup_with none token w = (invalid_request, w)
  setup_with (some password) token w =
      if ltb (len password) 8
      then (password_short, w)
      else on_set token (set_password T R H password w)

  setup_if : Option Bool → Option String → String → Stores → LoginAnswer × Stores
  unfolding setup_with
  setup_if none body token w = (internal_error, w)
  setup_if (some true) body token w = (password_exists, w)
  setup_if (some false) body token w = setup_with body token w

  -- adminAuthSetup
  unfoldable pub admin_auth_setup : Option String → String → Stores → LoginAnswer × Stores
  unfolding setup_if
  admin_auth_setup body token w = setup_if (is_password_set T w.0) body token w

  on_verified : String → Option Bool × Stores → LoginAnswer × Stores
  unfolding with_session
  on_verified token (none, w) = (internal_error, w)
  on_verified token (some false, w) = (wrong_password, w)
  on_verified token (some true, w) = with_session token w

  -- adminAuthLogin
  unfoldable pub admin_auth_login : Option String → String → Stores → LoginAnswer × Stores
  unfolding on_verified
  admin_auth_login none token w = (invalid_request, w)
  admin_auth_login (some password) token w = on_verified token (verify_password T R H password w)

  -- adminAuthLogout
  unfoldable pub admin_auth_logout : String → Stores → Stores
  admin_auth_logout cookie (s, c) = (s, remove_session R cookie c)

  -- adminAuthStatus: whether a password is to be set, and whether the session is valid
  unfoldable pub admin_auth_status : String → Stores → Bool × Bool
  admin_auth_status cookie (s, c) = (need_setup (is_password_set T s), validate_session R cookie c)

module _ (T : ConfigTable) (stored : T.State → String → Option String) (L : ConfigLaws T stored)
    (R : Redis) (H : Hashes) (M : HashLaws H) where
  abbrev HoldsIn : String → Stores T R H → Type 0
  HoldsIn password w = Holds T stored L R H M password w.0

  set_then :
      (password token u : String) (p : Bool × Stores T R H)
      → (p.0 ≡ true → HoldsIn password p.1)
      → (on_set T R H token p).0 ≡ logged_in u
      → HoldsIn password (on_set T R H token p).1
  unfolding on_set with_session
  set_then password token u (true, w) h e = h refl
  set_then password token u (false, w) h e = cc

  setup_then :
      (password token u : String) (w : Stores T R H) (o : Option Bool)
      → (setup_if T R H o (some password) token w).0 ≡ logged_in u
      → HoldsIn password (setup_if T R H o (some password) token w).1
  unfolding setup_if setup_with
  setup_then password token u w none e = cc
  setup_then password token u w (some true) e = cc
  setup_then password token u (s, c) (some false) e =
      if_by (λ (p : LoginAnswer × Stores T R H). p.0 ≡ logged_in u → HoldsIn password p.1)
        (ltb (len password) 8) (password_short, (s, c))
        (on_set T R H token (set_password T R H password (s, c))) (λ _ h. cc)
        (λ _ h.
          set_then password token u (set_password T R H password (s, c))
            (set-Holds T stored L R H M password s c) h)
        e

  -- After a setup that was answered with a session, a login with the same password is answered
  -- with a new session, unless that session cannot be stored. Reads of the settings are taken to
  -- succeed, and a hash that bcrypt has made of a password to match it.
  pub admin_auth_setup-login :
      (password token u token' : String) (w : Stores T R H)
      → (admin_auth_setup T R H (some password) token w).0 ≡ logged_in u
      → (admin_auth_login T R H
          (some password)
          token'
          (admin_auth_setup T R H (some password) token w).1).0
        ≡ session_answer
            (create_session R token' (admin_auth_setup T R H (some password) token w).1.1).0
  unfolding admin_auth_setup admin_auth_login on_verified with_session
  admin_auth_setup-login password token u token' w e =
      let held = setup_then password token u w (is_password_set T w.0) e in
      ap (λ (r : Option Bool × Stores T R H). (on_verified T R H token' r).0)
        (verify-Holds T stored L R H M password _ _ held)
