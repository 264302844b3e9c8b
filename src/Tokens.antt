-- ===== src/Tokens.antt =====
-- The API tokens: backend/internal/service/token_manager.go, less its reads of the alive set,
-- which Alive models. The table of tokens and the random bytes are parameters. Times are in
-- nanoseconds.
pub mod Laws
pub mod Expiry
pub mod Memory
use Prim.Native.String.{◌++◌}
use astron_claw.Prelude.{
  ℕ, String, Bool, true, false, not, ◌&&◌, ◌||◌, ◌-◌, ◌*◌, ◌%◌, ◌^◌, Option, none, some, List, [],
  ◌∷◌, ltb, str_eq, if◌then◌else◌,
}
use astron_claw.Prelude.Int.{ℤ, pos, negsuc, ◌+ℤ◌, ◌*ℤ◌, ltb_ℤ, wrap_int64}
use astron_claw.Redis.{Redis}

-- a row of the table tokens, less its key
pub record Token : Type 0 where
  pub token : String
  pub name : String
  pub created_at : ℤ
  pub expires_at : ℤ

-- what an update sets
pub record Changes : Type 0 where
  pub name : Option String
  pub expires_at : Option ℤ

pub data Found : Type 0 where
  row not_found query_failed : Found

-- The statements on the table. A count or a list that fails is none.
pub record TokenTable : Type 1 where
  pub State : Type 0
  pub insert : Token → State → Bool × State
  pub count_valid : String → ℤ → State → Option ℕ
  pub first : String → State → Found
  pub update : String → Changes → State → Bool × State
  pub delete : String → State → Bool × State
  pub delete_expired : ℤ → State → Option ℕ × State

-- NeverExpires
abbrev pub never_expires : ℤ
never_expires = pos 253402300799000000000

-- time.Duration(expiresIn) * time.Second
unfoldable pub seconds : ℤ → ℤ
unfolding wrap_int64 ◌*ℤ◌
seconds n = wrap_int64 (n *ℤ pos 1000000000)

-- the end of a new token's lifetime
unfoldable pub expiry_of : ℤ → ℤ → ℤ
expiry_of now expires_in =
    if ltb_ℤ (pos 0) expires_in then now +ℤ seconds expires_in else never_expires

-- the end that an update sets
unfoldable pub updated_expiry : ℤ → ℤ → ℤ
updated_expiry now expires_in =
    if not (ltb_ℤ (pos 0) expires_in) && not (ltb_ℤ expires_in (pos 0))
    then never_expires
    else now +ℤ seconds expires_in

abbrev pub changed_expiry : ℤ → Option ℤ → Option ℤ
changed_expiry now none = none
changed_expiry now (some e) = some (updated_expiry now e)

abbrev is_none {ℓ} : {A : Type ℓ} → Option A → Bool
is_none none = true
is_none (some a) = false

abbrev pub token_auth_key : String → String
token_auth_key token = "token_auth:" ++ token

-- What Update returns: whether the token was found, or an error.
pub data Updated : Type 0 where
  found : Bool → Updated
  update_failed : Updated

module _ (T : TokenTable) where
  -- Generate, with the hexadecimal digits of the random bytes, or none if there are none
  unfoldable pub generate : Option String → String → ℤ → ℤ → T.State → Option String × T.State
  generate none name expires_in now s = (none, s)
  generate (some digits) name expires_in now s =
      let value = "sk-" ++ digits in
      let (made, s') =
        T.insert
          (record {
            token = value;
            name = name;
            created_at = now;
            expires_at = expiry_of now expires_in;
          })
          s in
      (if made then some value else none, s')

  -- Validate
  unfoldable pub validate : String → ℤ → T.State → Bool
  validate token now s =
      if str_eq token ""
      then false
      else elim (T.count_valid token now s) [ none ↦ false | some n ↦ ltb 0 n ]

  -- Update
  unfoldable pub update : String → Option String → Option ℤ → ℤ → T.State → Updated × T.State
  update token name expires_in now s = elim (T.first token s) [
    | not_found ↦ (found false, s)
    | query_failed ↦ (update_failed, s)
    | row ↦
        if is_none name && is_none expires_in
        then (found true, s)
        else let (changed, s') =
            T.update token (record { name = name; expires_at = changed_expiry now expires_in }) s in
          (if changed then found true else update_failed, s')
  ]

  -- CleanupExpired
  unfoldable pub cleanup_expired : ℤ → T.State → Option ℕ × T.State
  cleanup_expired now s = T.delete_expired now s

  -- Remove: whether it succeeded
  unfoldable pub remove : (R : Redis) → String → T.State × R.Server → Bool × (T.State × R.Server)
  remove R token (s, c) =
      let (gone, s') = T.delete token s in
      if gone then (true, (s', (R.del (token_auth_key token) c).1)) else (false, (s', c))
