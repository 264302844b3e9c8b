-- ===== src/Tests/Admin.antt =====
-- The witnesses on the administrator's password and sessions.
use astron_claw.Prelude.{String, true, false, not, ◌&&◌, ◌≡◌, refl, some, [], ◌∷◌, arith, eq_iff}
use astron_claw.Prelude.Dict.{Dict, lookup}
use astron_claw.Redis.Memory.{Memory, empty, program}
use astron_claw.AdminAuth.{
  upsert_config, store_hash, set_password, verify_password, validate_session, create_session,
  admin_session_key, admin_session_idx, is_password_set, invalidate_all_sessions,
}
use astron_claw.AdminAuth.Password.{verify_password-again}
use astron_claw.AdminAuth.Sessions.{key-injective, set_password-ends_sessions}
use astron_claw.AdminAuth.Handlers.{
  admin_auth_setup, admin_auth_login, session_answer, admin_auth_setup-login,
}
use astron_claw.AdminAuth.Memory.{
  config, stored_in, config_laws, hashes, hash_laws, server, live_in, indexed_in, session_laws,
}

-- a password of the old scheme
abbrev legacy : Dict String
legacy = ("password_salt", "salt") ∷ ("password_hash", "xsaltsecret") ∷ []

verify_password-again_example :
    (verify_password config server hashes "secret"
      (verify_password config server hashes "secret" (legacy, empty)).1).0
    ≡ some true
unfolding verify_password lookup
verify_password-again_example =
    verify_password-again config stored_in config_laws server hashes hash_laws "secret" legacy empty
      refl

abbrev one_session : Memory
one_session = record {
  texts = (admin_session_key "ab", "1") ∷ [];
  zsets = [];
  sets = (admin_session_idx, "ab" ∷ []) ∷ [];
}

is_indexed :
    (t : String)
    → live_in one_session (admin_session_key t) && not (indexed_in one_session t) ≡ false
unfolding lookup
is_indexed t = ground (
  arith,
  eq_iff (admin_session_key "ab") (admin_session_key t),
  eq_iff t "ab",
  key-injective "ab" t,
)

set_password-ends_sessions_example :
    validate_session server "ab"
      (set_password config server hashes "new password" ([], one_session)).1.1
    ≡ false
unfolding set_password store_hash upsert_config program
set_password-ends_sessions_example =
    set_password-ends_sessions server live_in indexed_in session_laws config hashes "new password"
      [] one_session ("ab" ∷ []) "ab" is_indexed refl refl

admin_auth_setup-login_example :
    (admin_auth_login config server hashes
      (some "new password")
      "cd"
      (admin_auth_setup config server hashes (some "new password") "ab" ([], empty)).1).0
    ≡ session_answer
        (create_session server "cd"
          (admin_auth_setup config server hashes (some "new password") "ab" ([], empty)).1.1).0
unfolding admin_auth_setup is_password_set set_password store_hash upsert_config create_session
    invalidate_all_sessions program
admin_auth_setup-login_example =
    admin_auth_setup-login config stored_in config_laws server hashes hash_laws "new password" "ab"
      "ab" "cd" ([], empty) refl
