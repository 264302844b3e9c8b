-- ===== src/Sessions/Writes.antt =====
-- The writes of the session store, beside the table that it stands for.
use astron_claw.Prelude.{
  ℕ, String, Bool, true, false, ◌≡◌, ◌≢◌, refl, sym, ap, ◌∙◌, Option, none, some, List, [], ◌∷◌,
  if◌then◌else◌, if_by,
}
use astron_claw.Prelude.Int.{ℤ, ◌-ℤ◌}
use astron_claw.Redis.Laws.{elem}
use astron_claw.Sessions.{
  ChatSession, Cache, Database, Store, sessions_key, create_session, remove_sessions,
  cleanup_old_sessions, cleanup_rows, affected, initial_number,
}
use astron_claw.Sessions.Laws.{CacheLaws, DatabaseLaws, is_older}
use astron_claw.Sessions.Spec.{
  Table, Request, create, remove, cleanup, Answer, done, or_failed, failed as fails, table_after,
  Allowed, handle,
}
use astron_claw.Sessions.Cached.{
  Fresh, Fresh-same, is_ok, elem-affected, del-Fresh, invalidate-Fresh,
}

no_clash : false ≢ true
no_clash = λ e. cc

module _ (C : Cache) (ids : C.Server → String → List String) (D : Database)
    (created : D.State → Table) where
  -- the database holds the table, and each cached list is empty or agrees with it
  abbrev pub Represents : Store C D → Table → Type 0
  Represents s a =
      ((t i : String) → created s.db t i ≡ a t i)
      × ((t : String) → Fresh (ids s.rdb (sessions_key t)) (a t))

  -- a call's answer is allowed, and the store represents the table after it
  abbrev pub Simulates : Request → Answer × Store C D → Table → Type 0
  Simulates r (o, s) a = Allowed r o a × Represents s (table_after r o a)

module _ (C : Cache) (ids : C.Server → String → List String) (L : CacheLaws C ids)
    (up : (k : String) (c : C.Server) → is_ok (C.del k c).0 ≡ true) (D : Database)
    (created : D.State → Table) (M : DatabaseLaws D created) where
  pub create-Simulates :
      (token id : String) (now : ℤ) (s : Store C D) (a : Table)
      → Represents C ids D created s a
      → Simulates C ids D created (create token id now) (handle C D (create token id now) s) a
  unfolding handle create_session Allowed table_after
  create-Simulates token id now s a (holds, fresh) =
      let r : ChatSession = record {
        token = token;
        session_id = id;
        session_number = initial_number;
        created_at = now;
      } in
      if_by
        (λ (p : Option ℕ × Store C D).
          Simulates C ids D created (create token id now) (or_failed p.0, p.1) a)
        (D.insert r s.db).0 _ _
        (λ made. (
          tt,
          (
            λ t i. M.insert-effect r t i s.db ∙ rw (made, holds t i) refl,
            λ t. del-Fresh C ids L up token t s.rdb (a t) _ (λ e i. rw e refl) (fresh t),
          ),
        ))
        (λ failed. (tt, (λ t i. M.insert-effect r t i s.db ∙ rw (failed, holds t i) refl, fresh)))

  pub remove-Simulates :
      (token : String) (s : Store C D) (a : Table)
      → Represents C ids D created s a
      → Simulates C ids D created (remove token) (handle C D (remove token) s) a
  unfolding handle remove_sessions Allowed table_after
  remove-Simulates token s a (holds, fresh) =
      if_by
        (λ (p : Bool × Store C D).
          Simulates C ids D created (remove token) (if p.0 then done else fails, p.1) a)
        (D.delete_token token s.db).0 _ _
        (λ gone. (
          tt,
          (
            λ t i. M.delete_token-effect token t i s.db ∙ rw (gone, holds t i) refl,
            λ t. del-Fresh C ids L up token t s.rdb (a t) _ (λ e i. rw e refl) (fresh t),
          ),
        ))
        (λ kept.
          (tt, (λ t i. M.delete_token-effect token t i s.db ∙ rw (kept, holds t i) refl, fresh)))

  not_old :
      (cutoff : ℤ) (rows : List ChatSession) (s : Store C D) (a : Table) (t i : String)
      → D.find_old cutoff s.db ≡ some rows
      → ((t i : String) → created s.db t i ≡ a t i)
      → elem t (affected rows) ≡ false
      → (if is_older cutoff (a t i) then none else a t i) ≡ a t i
  not_old cutoff rows s a t i e holds not_there =
      if_by (λ (o : Option ℤ). o ≡ a t i) (is_older cutoff (a t i)) none (a t i)
        (λ old. absurd (
          no_clash (
            sym not_there
            ∙ elem-affected t rows
            ∙ M.find_old-ok cutoff rows t i s.db e (ap (is_older cutoff) (holds t i) ∙ old))))
        (λ young. refl)

  cleaned :
      (now max_age : ℤ) (o : Option (List ChatSession)) (s : Store C D) (a : Table)
      → D.find_old (now -ℤ max_age) s.db ≡ o
      → Represents C ids D created s a
      → Simulates C ids D created
          (cleanup now max_age)
          (
            or_failed (cleanup_rows C D (now -ℤ max_age) o s).0,
            (cleanup_rows C D (now -ℤ max_age) o s).1,
          )
          a
  unfolding cleanup_rows Allowed table_after
  cleaned now max_age none s a e h = (tt, h)
  cleaned now max_age (some []) s a e (holds, fresh) =
      let same = λ (t i : String). not_old (now -ℤ max_age) [] s a t i e holds refl in
      (tt, (λ t i. holds t i ∙ sym (same t i), λ t. Fresh-same _ (a t) _ (same t) (fresh t)))
  cleaned now max_age (some (r ∷ rs)) s a e (holds, fresh) =
      if_by
        (λ (p : Option ℕ × Store C D).
          Simulates C ids D created (cleanup now max_age) (or_failed p.0, p.1) a)
        (D.delete_old (now -ℤ max_age) s.db).0 _ _
        (λ gone. (
          tt,
          (
            λ t i. M.delete_old-effect (now -ℤ max_age) t i s.db ∙ rw (gone, holds t i) refl,
            λ t.
                invalidate-Fresh C ids L up (affected (r ∷ rs)) t s.rdb (a t) _
                  (λ not_there i. not_old (now -ℤ max_age) (r ∷ rs) s a t i e holds not_there)
                  (fresh t),
          ),
        ))
        (λ kept. (
          tt,
          (λ t i. M.delete_old-effect (now -ℤ max_age) t i s.db ∙ rw (kept, holds t i) refl, fresh),
        ))

  pub cleanup-Simulates :
      (now max_age : ℤ) (s : Store C D) (a : Table)
      → Represents C ids D created s a
      → Simulates C ids D created (cleanup now max_age) (handle C D (cleanup now max_age) s) a
  unfolding handle cleanup_old_sessions Allowed table_after
  cleanup-Simulates now max_age s a (holds, fresh) =
      cleaned now max_age (D.find_old (now -ℤ max_age) s.db) s a refl (holds, fresh)
