-- ===== src/Api/Created.antt =====
-- A session that was created is in the list that its answer has.
use astron_claw.Prelude.{String, true, ◌≡◌, Option, List}
use astron_claw.Prelude.Int.{ℤ}
use astron_claw.Sessions.{
  ChatSession, SessionInfo, Cache, Database, Store, sessions_key, initial_number,
}
use astron_claw.Sessions.Laws.{CacheLaws, DatabaseLaws}
use astron_claw.Sessions.Cached.{is_ok}

abbrev pub info_id : SessionInfo → String
info_id i = i.id

module _ (C : Cache) (ids : C.Server → String → List String) (CL : CacheLaws C ids)
    (up : (k : String) (c : C.Server) → is_ok (C.del k c).0 ≡ true) (D : Database)
    (created : D.State → String → String → Option ℤ) (DL : DatabaseLaws D created) where
  abbrev row_of : String → String → ℤ → ChatSession
  row_of token id now = record {
    token = token;
    session_id = id;
    session_number = initial_number;
    created_at = now;
  }

  abbrev stored_at : String → String → ℤ → Store C D → Store C D
  stored_at token id now s = record {
    rdb = (C.del (sessions_key token) s.rdb).1;
    db = (D.insert (row_of token id now) s.db).1;
  }
