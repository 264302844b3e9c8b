-- ===== src/Api.antt =====
-- Handlers of the HTTP interface that put the services together: the sessions of
-- backend/internal/router/sse.go, the tokens of backend/internal/router/tokens.go and admin.go, and
-- the health check of health.go. The body of a request is an argument, as gin binds it. A refusal
-- has the code of its error in backend/internal/model/errors.go.
pub mod Created
pub mod Limits
use astron_claw.Prelude.{
  ℕ, ◌*◌, String, Bool, true, false, not, ◌&&◌, ◌||◌, Option, none, some, List, [], ◌∷◌,
  if◌then◌else◌,
}
use astron_claw.Prelude.Int.{ℤ, pos, ◌-ℤ◌, ltb_ℤ}
use astron_claw.Json.{Value, str, num, Fields, get}
use astron_claw.Redis.{Redis}
use astron_claw.Alive.{is_bot_connected}
use astron_claw.Tokens
use astron_claw.Tokens.{TokenTable, generate, validate, update, Updated, found, update_failed}
use astron_claw.Sessions.{
  SessionInfo, Cache, Database, Store, create_session, get_sessions, cleanup_old_sessions,
}

pub data HttpAnswer (A : Type 0) : Type 0 where
  answers : A → HttpAnswer A
  refuses : ℕ → HttpAnswer A

abbrev pub with_list : String → ℕ → List SessionInfo → String × ℕ × List SessionInfo
with_list id number infos = (id, number, infos)

module _ (C : Cache) (D : Database) where
  unfoldable pub listed_answer :
      {A : Type 0}
      → (List SessionInfo → A)
      → Option (List SessionInfo) × Store C D
      → HttpAnswer A × Store C D
  listed_answer f (none, s) = (refuses 10205, s)
  listed_answer f (some infos, s) = (answers (f infos), s)

  -- listSessions
  unfoldable pub list_sessions : String → Store C D → HttpAnswer (List SessionInfo) × Store C D
  unfolding listed_answer
  list_sessions token s = listed_answer (λ infos. infos) (get_sessions C D token s)

  unfoldable pub created_answer :
      String
      → String
      → Option ℕ × Store C D
      → HttpAnswer (String × ℕ × List SessionInfo) × Store C D
  unfolding listed_answer
  created_answer token id (none, s) = (refuses 10401, s)
  created_answer token id (some number, s) =
      listed_answer (with_list id number) (get_sessions C D token s)

  -- createSession, with the UUID that CreateSession of bridge.go makes
  unfoldable pub create_session_for :
      String → String → ℤ → Store C D → HttpAnswer (String × ℕ × List SessionInfo) × Store C D
  unfolding created_answer
  create_session_for token id now s = created_answer token id (create_session C D token id now s)

-- `v, ok := body[key].(string)` and `int(v)` of a number without a fraction
abbrev pub string_field : Option Value → Option String
string_field (some (str s)) = some s
string_field _ = none

abbrev pub int_field : Option Value → Option ℤ
int_field (some (num n)) = some n
int_field _ = none

module _ (T : TokenTable) where
  made_answer : Option String × T.State → HttpAnswer String × T.State
  made_answer (none, s) = (refuses 10205, s)
  made_answer (some token, s) = (answers token, s)

  -- createToken, whose tokens do not expire, and adminCreateToken; the digits are those of the
  -- random bytes, if there are any
  unfoldable pub create_token : Option String → String → ℤ → T.State → HttpAnswer String × T.State
  unfolding made_answer
  create_token digits name now s = made_answer (generate T digits name (pos 0) now s)

  -- the body has its default, a day, where it names no lifetime
  unfoldable pub admin_create_token :
      Option String → String → ℤ → ℤ → T.State → HttpAnswer String × T.State
  unfolding made_answer
  admin_create_token digits name expires_in now s =
      made_answer (generate T digits name expires_in now s)

  -- validateToken: whether the token is valid, and whether its bot is connected
  unfoldable pub validate_token :
      (R : Redis) → Option String → ℤ → ℤ → T.State → R.Server → HttpAnswer (Bool × Bool) × R.Server
  validate_token R none now seconds s c = (refuses 10202, c)
  validate_token R (some token) now seconds s c =
      let (connected, c') = is_bot_connected R token seconds c in
      if validate T token now s
      then (answers (true, connected), c')
      else (answers (false, false), c)

  updated_answer : Updated × T.State → HttpAnswer Unit × T.State
  updated_answer (update_failed, s) = (refuses 10205, s)
  updated_answer (found b, s) = (if b then answers tt else refuses 10500, s)

  -- adminUpdateToken
  unfoldable pub admin_update_token :
      String → Option Fields → ℤ → T.State → HttpAnswer Unit × T.State
  unfolding updated_answer
  admin_update_token token none now s = (refuses 10202, s)
  admin_update_token token (some body) now s =
      updated_answer
        (update T token (string_field (get "name" body)) (int_field (get "expires_in" body)) now s)

  cleaned_answer :
      (C : Cache) (D : Database)
      → ℤ
      → Option ℕ × T.State
      → Store C D
      → HttpAnswer (ℕ × ℕ) × (T.State × Store C D)
  cleaned_answer C D now (none, s) store = (refuses 10205, (s, store))
  cleaned_answer C D now (some tokens, s) store =
      let (sessions, store') = cleanup_old_sessions C D now (pos (30 * 86400)) store in
      (elim sessions [ none ↦ refuses 10205 | some n ↦ answers (tokens, n) ], (s, store'))

  -- adminCleanup: the numbers of tokens and sessions removed
  unfoldable pub admin_cleanup :
      (C : Cache) (D : Database)
      → ℤ
      → ℤ
      → T.State
      → Store C D
      → HttpAnswer (ℕ × ℕ) × (T.State × Store C D)
  unfolding cleaned_answer
  admin_cleanup C D now seconds s store =
      cleaned_answer C D seconds (Tokens.cleanup_expired T now s) store

-- defaultHealthCheckTimeout and healthDeadlineSlack, in nanoseconds
abbrev pub default_health_timeout : ℤ
default_health_timeout = pos 1000000000

abbrev pub health_deadline_slack : ℤ
health_deadline_slack = pos 50000000

-- newHealthCheckContext: the timeout, from the time that is left to the parent's deadline
unfoldable pub health_timeout : Option ℤ → ℤ
health_timeout none = default_health_timeout
health_timeout (some left) =
    let remaining = left -ℤ health_deadline_slack in
    if ltb_ℤ (pos 0) remaining && ltb_ℤ remaining default_health_timeout
    then remaining
    else default_health_timeout

pub record HealthReport : Type 0 where
  pub http_code : ℕ
  pub status : String
  pub mysql : Bool
  pub redis : Bool

-- healthCheck: whether there is a connection to MySQL, and whether its ping and that to Redis
-- succeed within their timeouts
unfoldable pub health_check : Bool → Bool → Bool → HealthReport
health_check has_db mysql_ping redis_ping =
    let mysql = has_db && mysql_ping in
    if not mysql || not redis_ping
    then record { http_code = 503; status = "degraded"; mysql = mysql; redis = redis_ping }
    else record { http_code = 200; status = "ok"; mysql = mysql; redis = redis_ping }
