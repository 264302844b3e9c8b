-- ===== src/Migrate/Waiting.antt =====
-- The worker that waits for another one's migration.
use astron_claw.Prelude.{
  ℕ, suc, String, Bool, true, false, not, ◌||◌, ◌≡◌, refl, Option, some, List, [], ◌∷◌, ◌==◌,
  str_eq, if◌then◌else◌, arith,
}
use astron_claw.Prelude.Int.{ℤ, ltb_ℤ, ◌+ℤ◌}
use astron_claw.Redis.{Redis, ok}
use astron_claw.Migrate.{
  Migrator, Started, completed_elsewhere, failed_elsewhere, cancelled, timed_out, text_or_empty,
  count_or_0, migrate_fail_key, Poll, prepared, wait_until, wait_for_migration, run_migrations,
  on_lock, migrate_lock_key, migrate_done_key, migrate_lock_ttl, migrate_wait_timeout,
}

not_zero : (n : ℕ) → (suc n == 0) ≡ false
not_zero n = ground arith

abbrev Ends : Option Started → Type 0
Ends o = (r : Started) × (o ≡ some r)

Ends-if :
    (b : Bool) (r : Started) (o : Option Started)
    → (b ≡ false → Ends o)
    → Ends (if b then some r else o)
Ends-if true r o h = (r, refl)
Ends-if false r o h = h refl

module _ (R : Redis) where
  -- some poll comes at the deadline or after it
  unfoldable pub has_late : ℤ → List (Poll R) → Bool
  has_late deadline [] = false
  has_late deadline (p ∷ ps) = not (ltb_ℤ p.now deadline) || has_late deadline ps

  wait_until-Ends :
      (deadline : ℤ) (ps : List (Poll R))
      → has_late deadline ps ≡ true
      → Ends (wait_until R deadline ps)
  unfolding has_late wait_until
  wait_until-Ends deadline [] late = cc
  wait_until-Ends deadline (p ∷ ps) late =
      let fail = text_or_empty (R.get migrate_fail_key p.server).0 in
      let rest = wait_until R deadline ps in
      let last = if p.ctx_done then some cancelled else rest in
      let after_done = if not (str_eq fail "") then some (failed_elsewhere fail) else last in
      Ends-if (not (ltb_ℤ p.now deadline)) timed_out
        (if not (count_or_0 (R.exists migrate_done_key p.server).0 == 0)
          then some completed_elsewhere
          else after_done)
        (λ early.
          Ends-if (not (count_or_0 (R.exists migrate_done_key p.server).0 == 0)) completed_elsewhere
            after_done
            (λ _. Ends-if (not (str_eq fail "")) (failed_elsewhere fail) last (λ _.
              Ends-if p.ctx_done cancelled rest (λ _. wait_until-Ends deadline ps (ground arith)))))

  module _ (M : Migrator) where
    -- A worker that does not get the lock of the migrations returns, at the latest at its first
    -- poll that comes 60 seconds after it began to wait.
    pub run_migrations-ends :
        (owner : String) (now : ℤ) (ps : List (Poll R)) (d : M.State) (c : R.Server)
        → (R.set_nx migrate_lock_key owner migrate_lock_ttl c).0 ≡ ok 0
        → has_late (now +ℤ migrate_wait_timeout) ps ≡ true
        → (r : Started) × ((run_migrations R M prepared owner now ps d c).0 ≡ some r)
    unfolding run_migrations on_lock wait_for_migration
    run_migrations-ends owner now ps d c taken late =
        let (r, e) = wait_until-Ends (now +ℤ migrate_wait_timeout) ps late in
        (r, rw (run_migrations, taken) e)

    -- If the mark of an earlier migration is still there, a worker that does not get the lock
    -- starts at its first poll as if the migration were done, whatever the holder of the lock
    -- has still to do.
    pub run_migrations-stale :
        (owner : String) (now : ℤ) (p : Poll R) (ps : List (Poll R)) (d : M.State) (c : R.Server)
        (n : ℕ)
        → (R.set_nx migrate_lock_key owner migrate_lock_ttl c).0 ≡ ok 0
        → ltb_ℤ p.now (now +ℤ migrate_wait_timeout) ≡ true
        → (R.exists migrate_done_key p.server).0 ≡ ok (suc n)
        → (run_migrations R M prepared owner now (p ∷ ps) d c).0 ≡ some completed_elsewhere
    unfolding run_migrations on_lock wait_for_migration wait_until
    run_migrations-stale owner now p ps d c n taken early there =
        rw (run_migrations, taken, early, there, not_zero n) refl
