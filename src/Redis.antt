-- ===== src/Redis.antt =====
-- The commands of the Redis server that the backend issues through go-redis. The server is no
-- code of the repository: it is a parameter, a record of operations on an unknown state, and
-- what the code relies on is stated in Redis/Laws as the documented effect of each command.
pub mod Laws
pub mod Memory
use astron_claw.Prelude.{ℕ, String, List}
use astron_claw.Prelude.Int.{ℤ}

-- What a go-redis call returns: a value, `redis.Nil`, or another error with its text. After an
-- error the command may or may not have run.
pub data Reply (A : Type 0) : Type 0 where
  ok : A → Reply A
  nil : Reply A
  failed : String → Reply A

-- An end of a score range.
pub data Bound : Type 0 where
  neg_inf pos_inf : Bound
  incl excl : ℤ → Bound

abbrev pub Call : Type 0 → Type 0 → Type 0
Call S A = S → Reply A × S

pub record Redis : Type 1 where
  pub Server : Type 0
  pub get : String → Call Server String
  -- SET without expiry, with a lifetime in seconds, and only if the key is absent
  pub set : String → String → Call Server Unit
  pub set_ex : String → String → ℕ → Call Server Unit
  pub set_nx : String → String → ℕ → Call Server ℕ
  pub del : String → Call Server ℕ
  pub incr : String → Call Server ℤ
  pub exists : String → Call Server ℕ
  pub zadd : String → List (String × ℤ) → Call Server ℕ
  pub zrem : String → String → Call Server ℕ
  pub zscore : String → String → Call Server ℤ
  pub zrange_by_score : String → Bound → Bound → Call Server (List String)
  pub zrem_range_by_score : String → Bound → Bound → Call Server ℕ
  pub zcount : String → Bound → Bound → Call Server ℕ
  pub sadd : String → String → Call Server ℕ
  pub srem : String → String → Call Server ℕ
  pub smembers : String → Call Server (List String)
  -- the two scripts on a lock: extend it, or delete it, if it still holds this owner
  pub extend_lock : String → String → ℕ → Call Server ℕ
  pub release_lock : String → String → Call Server ℕ
  -- XADD of one `data` field, which returns the entry's id
  pub xadd : String → String → Call Server String
