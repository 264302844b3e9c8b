-- ===== src/Sessions/Refines.antt =====
-- The reads of the session store and its runs, beside the table that it stands for.
use astron_claw.Prelude.{
  ℕ, suc, String, true, ◌≡◌, ◌≢◌, inl, inr, refl, sym, ap, ◌∙◌, subst, Option, none, some, List, [],
  ◌∷◌, map, eq_iff,
}
use astron_claw.Redis.{Reply, ok, nil, failed}
use astron_claw.Redis.Laws.{elem}
use astron_claw.Sessions.{
  ChatSession, Cache, Database, Store, sessions_key, get_session, get_sessions, from_cache,
  from_rows, numbered, row_id, row_info,
}
use astron_claw.Sessions.Laws.{CacheLaws, DatabaseLaws, is_some}
use astron_claw.Sessions.Spec.{
  Table, Request, create, remove, get, list, cleanup, lapse, got, info_id, or_listed, table_after,
  Allowed, handle, Conforms,
}
use astron_claw.Sessions.Cached.{Fresh, is_ok, Fresh-del, repopulate-Fresh}
use astron_claw.Sessions.Writes.{
  Represents, Simulates, create-Simulates, remove-Simulates, cleanup-Simulates,
}

not_nil : (i : String) (is : List String) → (i ∷ is) ≢ []
not_nil i is = λ e. cc

numbered-ids : (n : ℕ) (is : List String) → map info_id (numbered n is) ≡ is
unfolding numbered
numbered-ids n [] = refl
numbered-ids n (i ∷ is) = ap (λ js. i ∷ js) (numbered-ids (suc n) is)

row-ids : (rs : List ChatSession) → map info_id (map row_info rs) ≡ map row_id rs
row-ids [] = refl
row-ids (r ∷ rs) = ap (λ js. r.session_id ∷ js) (row-ids rs)

module _ (C : Cache) (ids : C.Server → String → List String) (L : CacheLaws C ids)
    (up : (k : String) (c : C.Server) → is_ok (C.del k c).0 ≡ true) (D : Database)
    (created : D.State → Table) (M : DatabaseLaws D created) where
  got-Allowed :
      (token id : String) (o : Option ChatSession) (s : Store C D) (a : Table)
      → D.find_session token id s.db ≡ o
      → ((t i : String) → created s.db t i ≡ a t i)
      → Allowed
          (get token id)
          (got (elim o [ none ↦ none | some r ↦ some (r.session_id, r.session_number) ]))
          a
  unfolding Allowed
  got-Allowed token id none s a e holds = tt
  got-Allowed token id (some r) s a e holds =
      let (same, there) = M.find_session-ok token id r s.db e in
      (same, ap is_some (sym (holds token id)) ∙ there)

  get-Simulates :
      (token id : String) (s : Store C D) (a : Table)
      → Represents C ids D created s a
      → Simulates C ids D created (get token id) (handle C D (get token id) s) a
  unfolding handle get_session Allowed table_after
  get-Simulates token id s a (holds, fresh) =
      (got-Allowed token id (D.find_session token id s.db) s a refl holds, (holds, fresh))

  rows-Simulates :
      (token : String) (o : Option (List ChatSession)) (s : Store C D) (a : Table)
      → D.find_token token s.db ≡ o
      → Represents C ids D created s a
      → Simulates C ids D created
          (list token)
          (or_listed (from_rows C D token o s).0, (from_rows C D token o s).1)
          a
  unfolding from_rows Allowed table_after
  rows-Simulates token none s a e h = (tt, h)
  rows-Simulates token (some []) s a e (holds, fresh) =
      (λ i. M.find_token-ok token [] i s.db e ∙ ap is_some (holds token i), (holds, fresh))
  rows-Simulates token (some (r ∷ rs)) s a e (holds, fresh) =
      let same =
        λ (i : String). M.find_token-ok token (r ∷ rs) i s.db e ∙ ap is_some (holds token i) in
      (
        λ i. ap (elem i) (row-ids (r ∷ rs)) ∙ same i,
        (
          holds,
          λ t.
              repopulate-Fresh C ids L up token (r ∷ rs) t s.rdb (a t)
                (λ e i. same i ∙ ap (λ u. is_some (a u i)) ((eq_iff token t).0 e)) (fresh t),
        ),
      )

  cached-Simulates :
      (token : String) (x : Reply (List String)) (s : Store C D) (a : Table)
      → ((xs : List String) → x ≡ ok xs → xs ≡ ids s.rdb (sessions_key token))
      → Represents C ids D created s a
      → Simulates C ids D created
          (list token)
          (or_listed (from_cache C D token x s).0, (from_cache C D token x s).1)
          a
  unfolding from_cache Allowed table_after
  cached-Simulates token (ok (i ∷ is)) s a read (holds, fresh) = (
    elim (fresh token) [
      | inl empty ↦ absurd (not_nil i is (read (i ∷ is) refl ∙ empty))
      | inr same ↦ λ j. ap (elem j) (numbered-ids 1 (i ∷ is) ∙ read (i ∷ is) refl) ∙ same j
    ],
    (holds, fresh),
  )
  cached-Simulates token (ok []) s a read h = rows-Simulates token _ s a refl h
  cached-Simulates token nil s a read h = rows-Simulates token _ s a refl h
  cached-Simulates token (failed x) s a read h = rows-Simulates token _ s a refl h

  list-Simulates :
      (token : String) (s : Store C D) (a : Table)
      → Represents C ids D created s a
      → Simulates C ids D created (list token) (handle C D (list token) s) a
  unfolding handle get_sessions Allowed table_after
  list-Simulates token s a (holds, fresh) =
      let k = sessions_key token in
      cached-Simulates token (C.lrange k s.rdb).0 (record s { rdb = (C.lrange k s.rdb).1 }) a
        (λ xs e. L.lrange-ok k xs s.rdb e ∙ sym (L.lrange-same k k s.rdb))
        (
          holds,
          λ t.
              subst (λ xs. Fresh xs (a t)) (sym (L.lrange-same k (sessions_key t) s.rdb)) (fresh t),
        )

  handle-Simulates :
      (r : Request) (s : Store C D) (a : Table)
      → Represents C ids D created s a
      → Simulates C ids D created r (handle C D r s) a
  unfolding handle Allowed table_after
  handle-Simulates (create t i now) s a h = create-Simulates C ids L up D created M t i now s a h
  handle-Simulates (remove t) s a h = remove-Simulates C ids L up D created M t s a h
  handle-Simulates (get t i) s a h = get-Simulates t i s a h
  handle-Simulates (list t) s a h = list-Simulates t s a h
  handle-Simulates (cleanup now max_age) s a h =
      cleanup-Simulates C ids L up D created M now max_age s a h
  handle-Simulates (lapse k) s a (holds, fresh) =
      (tt, (holds, λ t. Fresh-del C ids L up k t s.rdb (a t) (fresh t)))

  -- The session store refines a table from tokens and session ids to creation times. Whatever
  -- calls are made one after another from a state that represents a table, with cached lists
  -- that lapse at any time, each listing that succeeds has exactly the ids of its token, from
  -- the cache or from the database, and each session that is found is in the table, where
  -- creations, removals and cleanups that succeed change the table. Deletions from the cache are
  -- taken to succeed; its other commands and the database may fail. No two tokens and no two ids
  -- are taken to differ in case only.
  pub run-Conforms :
      (rs : List Request) (s : Store C D) (a : Table)
      → Represents C ids D created s a
      → Conforms C D rs s a
  unfolding Conforms
  run-Conforms [] s a h = tt
  run-Conforms (r ∷ rs) s a h =
      let (allowed, h') = handle-Simulates r s a h in (allowed, run-Conforms rs _ _ h')
