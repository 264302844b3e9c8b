-- ===== src/Tests/Handlers.antt =====
-- The witnesses on the handlers.
use astron_claw.Prelude.{ℕ, String, List, [], ◌∷◌}
use astron_claw.Prelude.Int.{pos}
use astron_claw.Sessions.{SessionInfo, Store, create_session, get_sessions}
use astron_claw.Sessions.Memory.{cache, table}
use astron_claw.Api.{HttpAnswer, answers, refuses, create_session_for}

abbrev stored : Store cache table
stored = record {
  rdb = [];
  db = record { token = "t1"; session_id = "a"; session_number = 1; created_at = pos 0 } ∷ [];
}

abbrev listed : List SessionInfo → HttpAnswer (String × ℕ × List SessionInfo) → List SessionInfo
listed d (answers (i, n, infos)) = infos
listed d (refuses n) = d

abbrev infos_of : List SessionInfo
unfolding create_session_for create_session get_sessions
infos_of = listed [] (create_session_for cache table "t1" "b" (pos 5) stored).0
