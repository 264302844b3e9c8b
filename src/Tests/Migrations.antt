-- ===== src/Tests/Migrations.antt =====
-- The witnesses on the migrations, at a server whose lock is taken.
use astron_claw.Prelude.{Bool, true, false, ◌≡◌, refl, some, [], ◌∷◌}
use astron_claw.Prelude.Int.{ℤ, pos, ◌+ℤ◌}
use astron_claw.Redis.{Redis, ok}
use astron_claw.Redis.Memory.{Memory, empty}
use astron_claw.AdminAuth.Memory.{server}
use astron_claw.Migrate.{
  Migrator, no_version, changed, Started, Poll, prepared, run_migrations, migrate_done_key,
}
use astron_claw.Migrate.Waiting.{has_late, run_migrations-ends}

abbrev taken : Redis
taken = record server { set_nx = λ k v ttl s. (ok 0, s) }

-- a database with a migration to come
abbrev pending : Migrator
pending = record {
  State = Bool;
  version = λ s. no_version;
  force = λ v s. (true, s);
  up = λ s. (changed, true);
}

abbrev poll : ℤ → Memory → Poll taken
poll t s = record { now = t; server = s; ctx_done = false }

run_migrations-ends_example :
    (r : Started) × ((run_migrations taken pending prepared "w2"
        (pos 0)
        (poll (pos 1) empty ∷ poll (pos 60) empty ∷ [])
        false
        empty).0
      ≡ some r)
unfolding has_late ◌+ℤ◌
run_migrations-ends_example =
    run_migrations-ends taken pending "w2" (pos 0) (poll (pos 1) empty ∷ poll (pos 60) empty ∷ [])
      false empty refl refl

-- the mark of an earlier migration
abbrev marked : Memory
marked = record empty { texts = (migrate_done_key, "1") ∷ [] }
