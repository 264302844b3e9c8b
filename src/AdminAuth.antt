-- ===== src/AdminAuth.antt =====
-- The administrator's password and sessions, backend/internal/service/admin_auth.go. The table
-- admin_config, the Redis server, bcrypt and SHA-256 are parameters.
pub mod Laws
pub mod Password
pub mod Sessions
pub mod Handlers
pub mod Memory
use Prim.Native.String.{len, ◌++◌}
use astron_claw.Prelude.{
  ℕ, String, Bool, true, false, not, ◌&&◌, Option, none, some, List, [], ◌∷◌, ltb, ◌==◌, str_eq,
  if◌then◌else◌,
}
use astron_claw.Redis.{Redis, Reply, ok, nil, failed}

abbrev pub admin_session_ttl : ℕ
admin_session_ttl = 86400

abbrev pub admin_session_idx : String
admin_session_idx = "admin:session_idx"

unfoldable pub admin_session_key : String → String
admin_session_key token = "admin:session:" ++ token

-- What a query of one row finds.
pub data Read : Type 0 where
  value : String → Read
  no_record : Read
  read_failed : Read

-- The statements on admin_config: a write tells whether it succeeded.
pub record ConfigTable : Type 1 where
  pub State : Type 0
  pub first : String → State → Read
  pub create : String → String → State → Bool × State
  pub save : String → String → State → Bool × State
  pub count : String → State → Option ℕ
  -- whether the COMMIT of a transaction that has led to a state succeeds
  pub commit : State → Bool

pub data Compared : Type 0 where
  same mismatch not_compared : Compared

-- bcrypt, with its random salt, and the hexadecimal SHA-256 of the old scheme
pub record Hashes : Type 0 where
  pub generate : String → Option String
  pub compare : String → String → Compared
  pub sha256_hex : String → String

module _ (T : ConfigTable) where
  -- IsPasswordSet
  unfoldable pub is_password_set : T.State → Option Bool
  is_password_set s = elim (T.count "password_hash" s) [ none ↦ none | some n ↦ some (ltb 0 n) ]

  -- upsertConfig
  unfoldable pub upsert_config : String → String → T.State → Bool × T.State
  upsert_config key v s = elim (T.first key s) [
    | no_record ↦ T.create key v s
    | read_failed ↦ (false, s)
    | value old ↦ T.save key v s
  ]

  -- the transaction of SetPassword, which is undone if a step or its commit fails
  unfoldable pub store_hash : String → T.State → Bool × T.State
  store_hash hash s =
      let (salted, s1) = upsert_config "password_salt" "bcrypt" s in
      let (hashed, s2) = upsert_config "password_hash" hash s1 in
      if (salted && hashed) && T.commit s2 then (true, s2) else (false, s)

module _ (R : Redis) where
  unfoldable pub delete_sessions : List String → R.Server → R.Server
  unfolding admin_session_key
  delete_sessions [] c = c
  delete_sessions (t ∷ ts) c = delete_sessions ts (R.del (admin_session_key t) c).1

  delete_indexed : Reply (List String) → R.Server → R.Server
  unfolding delete_sessions
  delete_indexed (ok ts) c = (R.del admin_session_idx (delete_sessions ts c)).1
  delete_indexed nil c = c
  delete_indexed (failed e) c = c

  -- invalidateAllSessions
  unfoldable pub invalidate_all_sessions : R.Server → R.Server
  unfolding delete_indexed
  invalidate_all_sessions c = let (r, c1) = R.smembers admin_session_idx c in delete_indexed r c1

  abbrev stored_session : String → Reply Unit × R.Server → Option String × R.Server
  stored_session token (ok u, c) = (some token, (R.sadd admin_session_idx token c).1)
  stored_session token (nil, c) = (none, c)
  stored_session token (failed e, c) = (none, c)

  -- CreateSession, with the hexadecimal digits of the random bytes
  unfoldable pub create_session : String → R.Server → Option String × R.Server
  unfolding admin_session_key
  create_session token c =
      stored_session token (R.set_ex (admin_session_key token) "1" admin_session_ttl c)

  abbrev is_live : Reply ℕ → Bool
  is_live (ok n) = not (n == 0)
  is_live nil = false
  is_live (failed e) = false

  -- ValidateSession
  unfoldable pub validate_session : String → R.Server → Bool
  unfolding admin_session_key
  validate_session token c =
      if str_eq token "" then false else is_live (R.exists (admin_session_key token) c).0

  -- RemoveSession
  unfoldable pub remove_session : String → R.Server → R.Server
  unfolding admin_session_key
  remove_session token c =
      if str_eq token ""
      then c
      else (R.srem admin_session_idx token (R.del (admin_session_key token) c).1).1

module _ (T : ConfigTable) (R : Redis) (H : Hashes) where
  with_hash : Option String → T.State × R.Server → Bool × (T.State × R.Server)
  with_hash none w = (false, w)
  with_hash (some h) (s, c) =
      let (stored, s') = store_hash T h s in
      (stored, (s', if stored then invalidate_all_sessions R c else c))

  -- SetPassword: whether it succeeded
  unfoldable pub set_password : String → T.State × R.Server → Bool × (T.State × R.Server)
  unfolding with_hash
  set_password password w =
      if ltb 72 (len password) then (false, w) else with_hash (H.generate password) w

  -- the scheme that the salt tells
  check_hash : String → String → String → T.State × R.Server → Option Bool × (T.State × R.Server)
  check_hash salt hash password w =
      if str_eq salt "bcrypt"
      then (
        elim (H.compare hash password) [
          | same ↦ some true
          | mismatch ↦ some false
          | not_compared ↦ none
        ],
        w,
      )
      else if str_eq (H.sha256_hex (salt ++ password)) hash
      then (some true, (set_password password w).1)
      else (some false, w)

  on_salt : Read → Read → String → T.State × R.Server → Option Bool × (T.State × R.Server)
  unfolding check_hash
  on_salt no_record hash password w = (some false, w)
  on_salt read_failed hash password w = (none, w)
  on_salt (value salt) (value hash) password w = check_hash salt hash password w
  on_salt (value salt) no_record password w = (none, w)
  on_salt (value salt) read_failed password w = (none, w)

  -- VerifyPassword: none for an error
  unfoldable pub verify_password : String → T.State × R.Server → Option Bool × (T.State × R.Server)
  unfolding on_salt
  verify_password password (s, c) =
      on_salt (T.first "password_salt" s) (T.first "password_hash" s) password (s, c)
