-- ===== src/Sessions/Spec.antt =====
-- The abstract view of the session store: a table from tokens and session ids to creation times,
-- without a cache.
use astron_claw.Prelude.{
  ℕ, String, true, ◌&&◌, ◌≡◌, Option, none, some, List, [], ◌∷◌, map, str_eq, if◌then◌else◌,
}
use astron_claw.Prelude.Int.{ℤ, ◌-ℤ◌}
use astron_claw.Redis.Laws.{elem}
use astron_claw.Sessions.{
  SessionInfo, Cache, Database, Store, create_session, remove_sessions, get_session, get_sessions,
  cleanup_old_sessions, sessions_key,
}
use astron_claw.Sessions.Laws.{is_some, is_older}

abbrev pub Table : Type 0
Table = String → String → Option ℤ

-- A call of the store, or the end of a cached list's lifetime.
pub data Request : Type 0 where
  create : String → String → ℤ → Request
  remove : String → Request
  get : String → String → Request
  list : String → Request
  cleanup : ℤ → ℤ → Request
  lapse : String → Request

pub data Answer : Type 0 where
  failed : Answer
  done : Answer
  got : Option (String × ℕ) → Answer
  listed : List SessionInfo → Answer

abbrev pub info_id : SessionInfo → String
info_id x = x.id

abbrev pub or_failed : Option ℕ → Answer
or_failed none = failed
or_failed (some n) = done

abbrev pub or_listed : Option (List SessionInfo) → Answer
or_listed none = failed
or_listed (some xs) = listed xs

-- what a call changes, if it succeeds
unfoldable pub table_after : Request → Answer → Table → Table
table_after r failed a = a
table_after (create token id now) o a =
    λ t i. if str_eq token t && str_eq id i then some now else a t i
table_after (remove token) o a = λ t i. if str_eq token t then none else a t i
table_after (cleanup now max_age) o a =
    λ t i. if is_older (now -ℤ max_age) (a t i) then none else a t i
table_after (get t i) o a = a
table_after (list t) o a = a
table_after (lapse t) o a = a

-- what an answer may be: a listing has exactly the token's ids, and what is got is there
unfoldable pub Allowed : Request → Answer → Table → Type 0
Allowed (list t) (listed xs) a = (i : String) → elem i (map info_id xs) ≡ is_some (a t i)
Allowed (get t i) (got (some (j, n))) a = (j ≡ i) × (is_some (a t i) ≡ true)
Allowed r o a = Unit

module _ (C : Cache) (D : Database) where
  unfoldable pub handle : Request → Store C D → Answer × Store C D
  handle (create t i now) s = let (o, s') = create_session C D t i now s in (or_failed o, s')
  handle (remove t) s = let (b, s') = remove_sessions C D t s in (if b then done else failed, s')
  handle (get t i) s = (got (get_session C D t i s), s)
  handle (list t) s = let (o, s') = get_sessions C D t s in (or_listed o, s')
  handle (cleanup now max_age) s =
      let (o, s') = cleanup_old_sessions C D now max_age s in (or_failed o, s')
  handle (lapse t) s = (done, record s { rdb = (C.del (sessions_key t) s.rdb).1 })

  -- Every answer of a run is one that the table allows.
  unfoldable pub Conforms : List Request → Store C D → Table → Type 0
  unfolding handle Allowed table_after
  Conforms [] s a = Unit
  Conforms (r ∷ rs) s a =
      let (o, s') = handle r s in Allowed r o a × Conforms rs s' (table_after r o a)
