-- ===== src/Sessions/Laws.antt =====
-- What the session store relies on: the effect of the commands on lists and of the queries. A
-- session is known by its token and id; `created` is the time of its row. The
-- columns compare texts without case: the laws are those of tokens and ids of which no two differ in
-- case only.
use astron_claw.Prelude.{
  ℕ, String, Bool, true, false, ◌&&◌, ◌≡◌, ◌≢◌, ◌⊎◌, Option, none, some, List, [], ◌++◌, map,
  str_eq, if◌then◌else◌,
}
use astron_claw.Prelude.Int.{ℤ, ltb_ℤ}
use astron_claw.Redis.{ok}
use astron_claw.Redis.Laws.{elem}
use astron_claw.Sessions.{ChatSession, Cache, Database, row_id}

abbrev pub is_some {ℓ} : {A : Type ℓ} → Option A → Bool
is_some none = false
is_some (some a) = true

-- created before a time
abbrev pub is_older : ℤ → Option ℤ → Bool
is_older cutoff none = false
is_older cutoff (some t) = ltb_ℤ t cutoff

abbrev pub row_token : ChatSession → String
row_token r = r.token

pub record CacheLaws (C : Cache) (ids : C.Server → String → List String) : Type 0 where
  pub lrange-same : (k j : String) (c : C.Server) → ids (C.lrange k c).1 j ≡ ids c j
  pub lrange-ok :
      (k : String) (xs : List String) (c : C.Server) → (C.lrange k c).0 ≡ ok xs → xs ≡ ids c k
  pub del-frame : (k j : String) (c : C.Server) → k ≢ j → ids (C.del k c).1 j ≡ ids c j
  pub del-ok : (k : String) (n : ℕ) (c : C.Server) → (C.del k c).0 ≡ ok n → ids (C.del k c).1 k ≡ []
  pub rpush-frame :
      (k : String) (xs : List String) (j : String) (c : C.Server)
      → k ≢ j
      → ids (C.rpush k xs c).1 j ≡ ids c j
  -- after an error it may or may not have run
  pub rpush-effect :
      (k : String) (xs : List String) (c : C.Server)
      → (ids (C.rpush k xs c).1 k ≡ ids c k) ⊎ (ids (C.rpush k xs c).1 k ≡ ids c k ++ xs)
  pub expire-same :
      (k : String) (ttl : ℕ) (j : String) (c : C.Server) → ids (C.expire k ttl c).1 j ≡ ids c j

pub record DatabaseLaws (D : Database) (created : D.State → String → String → Option ℤ)
    : Type 0 where
  -- a statement that fails changes nothing
  pub insert-effect :
      (r : ChatSession) (t i : String) (s : D.State)
      → created (D.insert r s).1 t i ≡ (
          if (D.insert r s).0 && (str_eq r.token t && str_eq r.session_id i)
          then some r.created_at
          else created s t i)
  pub delete_token-effect :
      (k t i : String) (s : D.State)
      → created (D.delete_token k s).1 t i
        ≡ (if (D.delete_token k s).0 && str_eq k t then none else created s t i)
  pub delete_old-effect :
      (cutoff : ℤ) (t i : String) (s : D.State)
      → created (D.delete_old cutoff s).1 t i ≡ (
          if (D.delete_old cutoff s).0 && is_older cutoff (created s t i)
          then none
          else created s t i)
  pub find_token-ok :
      (t : String) (rows : List ChatSession) (i : String) (s : D.State)
      → D.find_token t s ≡ some rows
      → elem i (map row_id rows) ≡ is_some (created s t i)
  pub find_session-ok :
      (t i : String) (r : ChatSession) (s : D.State)
      → D.find_session t i s ≡ some r
      → (r.session_id ≡ i) × (is_some (created s t i) ≡ true)
  pub find_old-ok :
      (cutoff : ℤ) (rows : List ChatSession) (t i : String) (s : D.State)
      → D.find_old cutoff s ≡ some rows
      → is_older cutoff (created s t i) ≡ true
      → elem t (map row_token rows) ≡ true
