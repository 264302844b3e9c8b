-- ===== src/Sessions.antt =====
-- The session store, backend/internal/service/session_store.go: sessions in MySQL, and for each
-- token a list of their ids in Redis. Both servers are parameters. Calls of one request run
-- after another; spans and logs are left out.
pub mod Laws
pub mod Spec
pub mod Cached
pub mod Writes
pub mod Refines
pub mod Numbers
pub mod Memory
use Prim.Native.String.{◌++◌}
use astron_claw.Prelude.{
  ℕ, suc, String, Bool, true, false, ◌+◌, Option, none, some, List, [], ◌∷◌, map, length, str_eq,
  if◌then◌else◌,
}
use astron_claw.Prelude.Int.{ℤ, pos, ◌-ℤ◌}
use astron_claw.Redis.{Reply, ok, nil, failed, Call}
use astron_claw.Redis.Laws.{elem}

-- a row of the table chat_sessions, less its key
pub record ChatSession : Type 0 where
  pub token : String
  pub session_id : String
  pub session_number : ℕ
  pub created_at : ℤ

pub record SessionInfo : Type 0 where
  pub id : String
  pub number : ℕ

-- The commands on lists: LRANGE 0 -1, DEL, RPUSH and EXPIRE.
pub record Cache : Type 1 where
  pub Server : Type 0
  pub lrange : String → Call Server (List String)
  pub del : String → Call Server ℕ
  pub rpush : String → List String → Call Server ℕ
  pub expire : String → ℕ → Call Server Unit

-- The queries on chat_sessions: a write tells whether it succeeded, a failed read is none.
pub record Database : Type 1 where
  pub State : Type 0
  pub insert : ChatSession → State → Bool × State
  pub delete_token : String → State → Bool × State
  pub delete_old : ℤ → State → Bool × State
  pub find_token : String → State → Option (List ChatSession)
  pub find_session : String → String → State → Option ChatSession
  pub find_old : ℤ → State → Option (List ChatSession)

unfoldable pub sessions_key : String → String
sessions_key token = "bridge:sessions:" ++ token

abbrev pub session_cache_ttl : ℕ
session_cache_ttl = 3600

abbrev pub initial_number : ℕ
initial_number = 1

abbrev pub row_info : ChatSession → SessionInfo
row_info r = record { id = r.session_id; number = r.session_number }

abbrev pub row_id : ChatSession → String
row_id r = r.session_id

-- the cached ids, numbered by their places
unfoldable pub numbered : ℕ → List String → List SessionInfo
numbered n [] = []
numbered n (i ∷ is) = record { id = i; number = n } ∷ numbered (suc n) is

-- the tokens of rows, each once
unfoldable pub affected : List ChatSession → List String
affected [] = []
affected (r ∷ rs) = let rest = affected rs in if elem r.token rest then rest else r.token ∷ rest

module _ (C : Cache) where
  -- repopulateCache
  unfoldable pub repopulate_cache : String → List ChatSession → C.Server → C.Server
  unfolding sessions_key
  repopulate_cache token [] c = (C.del (sessions_key token) c).1
  repopulate_cache token (r ∷ rs) c =
      let c1 = (C.del (sessions_key token) c).1 in
      let c2 = (C.rpush (sessions_key token) (map row_id (r ∷ rs)) c1).1 in
      (C.expire (sessions_key token) session_cache_ttl c2).1

  unfoldable pub invalidate : List String → C.Server → C.Server
  unfolding sessions_key
  invalidate [] c = c
  invalidate (t ∷ ts) c = invalidate ts (C.del (sessions_key t) c).1

module _ (C : Cache) (D : Database) where
  pub record Store : Type 0 where
    pub rdb : C.Server
    pub db : D.State

  -- CreateSession: the number, none for an error
  unfoldable pub create_session : String → String → ℤ → Store → Option ℕ × Store
  unfolding sessions_key
  create_session token id now s =
      let (made, db) =
        D.insert
          (record {
            token = token;
            session_id = id;
            session_number = initial_number;
            created_at = now;
          })
          s.db in
      if made
      then (some initial_number, record { rdb = (C.del (sessions_key token) s.rdb).1; db = db })
      else (none, record s { db = db })

  -- RemoveSessions
  unfoldable pub remove_sessions : String → Store → Bool × Store
  unfolding sessions_key
  remove_sessions token s =
      let (gone, db) = D.delete_token token s.db in
      if gone
      then (true, record { rdb = (C.del (sessions_key token) s.rdb).1; db = db })
      else (false, record s { db = db })

  -- GetSession
  unfoldable pub get_session : String → String → Store → Option (String × ℕ)
  get_session token id s = elim (D.find_session token id s.db) [
    | none ↦ none
    | some r ↦ some (r.session_id, r.session_number)
  ]

  -- the query of a listing, with the cache as the read has left it
  unfoldable pub from_rows :
      String → Option (List ChatSession) → Store → Option (List SessionInfo) × Store
  unfolding repopulate_cache
  from_rows token none s = (none, s)
  from_rows token (some []) s = (some [], s)
  from_rows token (some (r ∷ rs)) s =
      (some (map row_info (r ∷ rs)), record s { rdb = repopulate_cache C token (r ∷ rs) s.rdb })

  unfoldable pub from_cache :
      String → Reply (List String) → Store → Option (List SessionInfo) × Store
  unfolding from_rows numbered
  from_cache token (ok (i ∷ is)) s = (some (numbered 1 (i ∷ is)), s)
  from_cache token r s = from_rows token (D.find_token token s.db) s

  -- GetSessions
  unfoldable pub get_sessions : String → Store → Option (List SessionInfo) × Store
  unfolding from_cache sessions_key
  get_sessions token s =
      let (r, c) = C.lrange (sessions_key token) s.rdb in from_cache token r (record s { rdb = c })

  -- CleanupOldSessions after its first query
  cleanup_rows : ℤ → Option (List ChatSession) → Store → Option ℕ × Store
  unfolding invalidate affected
  cleanup_rows cutoff none s = (none, s)
  cleanup_rows cutoff (some []) s = (some 0, s)
  cleanup_rows cutoff (some (r ∷ rs)) s =
      let (gone, db) = D.delete_old cutoff s.db in
      if gone
      then (
        some (length (r ∷ rs)),
        record { rdb = invalidate C (affected (r ∷ rs)) s.rdb; db = db },
      )
      else (none, record s { db = db })

  -- CleanupOldSessions
  unfoldable pub cleanup_old_sessions : ℤ → ℤ → Store → Option ℕ × Store
  unfolding cleanup_rows
  cleanup_old_sessions now max_age s =
      cleanup_rows (now -ℤ max_age) (D.find_old (now -ℤ max_age) s.db) s
