-- ===== src/AdminAuth/Laws.antt =====
-- What the administrator's password and sessions rely on. `stored` is the value of a row of
-- admin_config; `live` tells whether a key is there, and `indexed` what the index of sessions
-- holds.
use astron_claw.Prelude.{
  ℕ, String, Bool, true, false, not, ◌≡◌, Option, none, some, List, ◌==◌, str_eq, if◌then◌else◌,
}
use astron_claw.Redis.{Redis, ok}
use astron_claw.Redis.Laws.{elem}
use astron_claw.AdminAuth.{
  ConfigTable, Read, value, no_record, Hashes, same, admin_session_key, admin_session_idx,
}

abbrev pub read_of : Option String → Read
read_of none = no_record
read_of (some v) = value v

pub record ConfigLaws (T : ConfigTable) (stored : T.State → String → Option String) : Type 0 where
  -- reads succeed
  pub first-read : (k : String) (s : T.State) → T.first k s ≡ read_of (stored s k)
  pub create-ok :
      (k v j : String) (s : T.State)
      → (T.create k v s).0 ≡ true
      → stored (T.create k v s).1 j ≡ (if str_eq k j then some v else stored s j)
  pub save-ok :
      (k v j : String) (s : T.State)
      → (T.save k v s).0 ≡ true
      → stored (T.save k v s).1 j ≡ (if str_eq k j then some v else stored s j)

-- a hash that bcrypt has made of a password matches it
pub record HashLaws (H : Hashes) : Type 0 where
  pub compare-generate :
      (password hash : String) → H.generate password ≡ some hash → H.compare hash password ≡ same

pub record SessionLaws (R : Redis) (live indexed : R.Server → String → Bool) : Type 0 where
  pub exists-ok :
      (k : String) (n : ℕ) (c : R.Server) → (R.exists k c).0 ≡ ok n → not (n == 0) ≡ live c k
  pub set_ex-ok :
      (k v : String) (ttl : ℕ) (c : R.Server)
      → (R.set_ex k v ttl c).0 ≡ ok tt
      → live (R.set_ex k v ttl c).1 k ≡ true
  pub sadd-live :
      (t u : String) (c : R.Server)
      → live (R.sadd admin_session_idx t c).1 (admin_session_key u) ≡ live c (admin_session_key u)
  pub smembers-ok :
      (ts : List String) (t : String) (c : R.Server)
      → (R.smembers admin_session_idx c).0 ≡ ok ts
      → elem t ts ≡ indexed c t
  pub smembers-live :
      (k : String) (c : R.Server) → live (R.smembers admin_session_idx c).1 k ≡ live c k
  -- deletions succeed
  pub del-live :
      (k j : String) (c : R.Server)
      → live (R.del k c).1 j ≡ (if str_eq k j then false else live c j)
