-- ===== src/TokenAuth.antt =====
-- The check of tokens on protected paths, backend/internal/middleware/token_auth.go, and the
-- deletion of a token in backend/internal/router/admin.go.
pub mod Guard
pub mod Carried
use Prim.Native.Char.{Char, code}
use astron_claw.Prelude.{
  ℕ, String, Bool, true, false, ◌&&◌, ◌||◌, ◌+◌, ◌==◌, leb, Option, none, some, List, [], ◌∷◌,
  str_eq, starts_with, if◌then◌else◌,
}
use astron_claw.Prelude.Int.{ℤ}
use astron_claw.Text.{trim_space}
use astron_claw.Redis.{Redis, Reply, ok, nil, failed}
use astron_claw.Tokens.{TokenTable, validate, token_auth_key, remove}

abbrev pub cache_ttl : ℕ
cache_ttl = 30

unfoldable pub is_protected : String → Bool
is_protected path =
    if str_eq path "/bridge/bot"
    then false
    else starts_with path "/bridge/" || starts_with path "/api/media/"

-- a letter of ASCII in lower case
abbrev lower : ℕ → ℕ
lower n = if leb 65 n && leb n 90 then n + 32 else n

-- What follows a prefix, up to case: strings.EqualFold of the first bytes with a text in lower
-- case, of letters that only their own capitals fold to.
unfoldable pub after_fold : String → String → Option String
after_fold s String.[] = some s
after_fold String.[] (String.◌∷◌ d p) = none
after_fold (String.◌∷◌ c s) (String.◌∷◌ d p) =
    let rest = after_fold s p in if lower (code c) == code d then rest else none

unfoldable pub extract_bearer : String → String
unfolding after_fold trim_space
extract_bearer raw = elim (after_fold raw "bearer ") [ none ↦ raw | some rest ↦ trim_space rest ]

pub record Headers : Type 0 where
  pub path : String
  pub api_key : String
  pub authorization : String

-- the token that a request carries
unfoldable pub token_of : Headers → String
unfolding extract_bearer
token_of h = extract_bearer (if str_eq h.api_key "" then h.authorization else h.api_key)

-- The handler runs, with the token that is set in its context, or the request ends with 401.
pub data Verdict : Type 0 where
  passes : Option String → Verdict
  unauthorized : Verdict

abbrev pub is_cached : Reply String → Bool
is_cached (ok v) = str_eq v "1"
is_cached nil = false
is_cached (failed e) = false

module _ (T : TokenTable) (R : Redis) where
  unfoldable pub validate_cached : String → ℤ → T.State → R.Server → Bool × R.Server
  validate_cached token now s c =
      let (cached, c1) = R.get (token_auth_key token) c in
      if is_cached cached
      then (true, c1)
      else if validate T token now s
      then (true, (R.set_ex (token_auth_key token) "1" cache_ttl c1).1)
      else (false, c1)

  -- TokenAuth
  unfoldable pub token_auth : Headers → ℤ → T.State → R.Server → Verdict × R.Server
  token_auth h now s c =
      let token = token_of h in
      let (valid, c') = validate_cached token now s c in
      if is_protected h.path
      then if str_eq token ""
        then (unauthorized, c)
        else (if valid then passes (some token) else unauthorized, c')
      else (passes none, c)

  -- InvalidateTokenCache
  unfoldable pub invalidate_token_cache : String → R.Server → Reply ℕ × R.Server
  invalidate_token_cache token c = R.del (token_auth_key token) c

  -- adminDeleteToken: whether it succeeded, and the reply to the last deletion from the cache.
  -- `sessions` stands for Bridge.RemoveBotSessions, whose error is only logged.
  unfoldable pub admin_delete_token :
      (R.Server → R.Server) → String → T.State × R.Server → Option (Reply ℕ) × (T.State × R.Server)
  admin_delete_token sessions token w =
      let (gone, (s, c)) = remove T R token w in
      let (r, c') = invalidate_token_cache token (sessions c) in
      if gone then (some r, (s, c')) else (none, (s, c))
