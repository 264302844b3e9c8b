-- ===== src/Migrate.antt =====
-- The migrations at the start of a worker, RunMigrations in backend/internal/infra/migrate.go.
-- The preparation of the migrator, the migrator and Redis are parameters; a worker that waits
-- sees the server as others have left it at each of its polls.
pub mod Waiting
use astron_claw.Prelude.{
  ℕ, String, Bool, true, false, not, Option, none, some, List, [], ◌∷◌, ◌==◌, str_eq, if◌then◌else◌,
}
use astron_claw.Prelude.Int.{ℤ, pos, ◌+ℤ◌, ltb_ℤ}
use astron_claw.Redis.{Redis, Reply, ok, nil, failed}

abbrev pub migrate_lock_key : String
migrate_lock_key = "migrate:lock"

abbrev pub migrate_done_key : String
migrate_done_key = "migrate:done"

abbrev pub migrate_fail_key : String
migrate_fail_key = "migrate:failed"

abbrev pub migrate_lock_ttl : ℕ
migrate_lock_ttl = 60

abbrev pub migrate_done_ttl : ℕ
migrate_done_ttl = 300

abbrev pub migrate_wait_timeout : ℤ
migrate_wait_timeout = pos 60

-- How the steps before the lock end.
pub data Prepared : Type 0 where
  preparation_failed : Prepared
  unprivileged : Prepared
  prepared : Prepared

pub data Version : Type 0 where
  version_failed : Version
  no_version : Version
  at_version : ℕ → Bool → Version

pub data UpResult : Type 0 where
  changed no_change : UpResult
  up_failed : String → UpResult

-- golang-migrate on the database
pub record Migrator : Type 1 where
  pub State : Type 0
  pub version : State → Version
  pub force : ℕ → State → Bool × State
  pub up : State → UpResult × State

-- What RunMigrations returns: nil, or an error.
pub data Started : Type 0 where
  skipped migrated completed_elsewhere : Started
  prepare_error lock_error version_error force_error cancelled timed_out : Started
  migration_error failed_elsewhere : String → Started

-- the reads that ignore an error
abbrev pub count_or_0 : Reply ℕ → ℕ
count_or_0 (ok n) = n
count_or_0 nil = 0
count_or_0 (failed e) = 0

abbrev pub text_or_empty : Reply String → String
text_or_empty (ok t) = t
text_or_empty nil = ""
text_or_empty (failed e) = ""

module _ (R : Redis) where
  pub record Poll : Type 0 where
    pub now : ℤ
    pub server : R.Server
    pub ctx_done : Bool

  -- waitForMigration, none while it still waits after the polls that are given
  unfoldable pub wait_until : ℤ → List Poll → Option Started
  wait_until deadline [] = none
  wait_until deadline (p ∷ ps) =
      let rest = wait_until deadline ps in
      let fail = text_or_empty (R.get migrate_fail_key p.server).0 in
      if not (ltb_ℤ p.now deadline)
      then some timed_out
      else if not (count_or_0 (R.exists migrate_done_key p.server).0 == 0)
      then some completed_elsewhere
      else if not (str_eq fail "")
      then some (failed_elsewhere fail)
      else if p.ctx_done
      then some cancelled
      else rest

  unfoldable pub wait_for_migration : ℤ → List Poll → Option Started
  unfolding ◌+ℤ◌
  wait_for_migration now ps = wait_until (now +ℤ migrate_wait_timeout) ps

  module _ (M : Migrator) where
    -- the end of the holder of the lock
    release : String → Started → M.State → R.Server → Option Started × (M.State × R.Server)
    release owner o d c = (some o, (d, (R.release_lock migrate_lock_key owner c).1))

    after_up : String → UpResult × M.State → R.Server → Option Started × (M.State × R.Server)
    unfolding release
    after_up owner (up_failed e, d) c =
        release owner (migration_error e) d (R.set_ex migrate_fail_key e migrate_done_ttl c).1
    after_up owner (changed, d) c =
        release owner migrated d (R.set_ex migrate_done_key "1" migrate_done_ttl c).1
    after_up owner (no_change, d) c =
        release owner migrated d (R.set_ex migrate_done_key "1" migrate_done_ttl c).1

    after_force : String → Bool × M.State → R.Server → Option Started × (M.State × R.Server)
    unfolding after_up
    after_force owner (true, d) c = after_up owner (M.up d) c
    after_force owner (false, d) c = release owner force_error d c

    -- with the lock held
    migrate_locked : String → Version → M.State → R.Server → Option Started × (M.State × R.Server)
    unfolding after_force
    migrate_locked owner version_failed d c = release owner version_error d c
    migrate_locked owner (at_version v true) d c = after_force owner (M.force v d) c
    migrate_locked owner (at_version v false) d c = after_up owner (M.up d) c
    migrate_locked owner no_version d c = after_up owner (M.up d) c

    on_lock :
        String
        → ℤ
        → List Poll
        → M.State
        → Reply ℕ × R.Server
        → Option Started × (M.State × R.Server)
    unfolding migrate_locked wait_for_migration
    on_lock owner now ps d (failed e, c) = (some lock_error, (d, c))
    on_lock owner now ps d (nil, c) = (some lock_error, (d, c))
    on_lock owner now ps d (ok n, c) =
        if n == 0
        then (wait_for_migration now ps, (d, c))
        else migrate_locked owner (M.version d) d c

    -- RunMigrations
    unfoldable pub run_migrations :
        Prepared
        → String
        → ℤ
        → List Poll
        → M.State
        → R.Server
        → Option Started × (M.State × R.Server)
    unfolding on_lock
    run_migrations preparation_failed owner now ps d c = (some prepare_error, (d, c))
    run_migrations unprivileged owner now ps d c = (some skipped, (d, c))
    run_migrations prepared owner now ps d c =
        on_lock owner now ps d (R.set_nx migrate_lock_key owner migrate_lock_ttl c)
