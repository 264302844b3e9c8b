-- ===== src/Tests/Sessions.antt =====
-- The witnesses on the session store.
use astron_claw.Prelude.{String, inl, refl, none, List, [], ◌∷◌}
use astron_claw.Prelude.Int.{pos}
use astron_claw.Prelude.Dict.{lookup, remove}
use astron_claw.Sessions.{ChatSession, Store}
use astron_claw.Sessions.Spec.{
  Request, create, remove as removal, get, list, cleanup, lapse, Conforms,
}
use astron_claw.Sessions.Refines.{run-Conforms}
use astron_claw.Sessions.Memory.{
  ids_in, cache, cache-CacheLaws, created_in, table, table-DatabaseLaws,
}

abbrev nothing_stored : Store cache table
nothing_stored = record { rdb = []; db = [] }

abbrev requests : List Request
requests =
    create "t1" "a" (pos 5)
    ∷ create "t1" "b" (pos 9)
    ∷ list "t1"
    ∷ list "t1"
    ∷ cleanup (pos 20) (pos 13)
    ∷ list "t1"
    ∷ lapse "t1"
    ∷ get "t1" "b"
    ∷ removal "t1"
    ∷ list "t1"
    ∷ []

run-Conforms_example : Conforms cache table requests nothing_stored (λ t i. none)
unfolding created_in lookup
run-Conforms_example =
    run-Conforms cache ids_in cache-CacheLaws (λ k c. refl) table created_in table-DatabaseLaws
      requests nothing_stored (λ t i. none) (λ t i. refl, λ t. inl refl)

abbrev row : String → ChatSession
row id = record { token = "t1"; session_id = id; session_number = 1; created_at = pos 0 }

abbrev two : Store cache table
two = record { rdb = []; db = row "a" ∷ row "b" ∷ [] }
