-- ===== src/Tests/Databases.antt =====
-- The witnesses on the rights of the database's user.
use Prim.Native.Char.{Char}
use astron_claw.Prelude.{String, true, false, ◌≡◌, ◌⊎◌, refl, some, List, [], ◌∷◌}
use astron_claw.Text.{trim_space, split_at, is_space}
use astron_claw.Grants.{
  DatabaseServer, parse_grant, to_upper, index_of, without, non_empty, grant, slice_panic,
  has_database_ddl, scope_matches, includes, ensure_database,
}
use astron_claw.Grants.Creation.{Allowed, ensure_database-Allowed}

-- of texts in capitals
abbrev capitals : Char → Char
capitals c = c

abbrev grants : List String
grants =
    "GRANT CREATE, ALTER ON *.* TO `U`@`%`" ∷ "GRANT `R`@`%` TO `U`@`%`"
    ∷ "GRANT DROP, INDEX ON `CLAW`.* TO `U`@`%`" ∷ []

parsed :
    parse_grant capitals " GRANT CREATE, ALTER ON `CLAW`.* TO `U`@`%`"
    ≡ grant ("CREATE" ∷ "ALTER" ∷ []) "CLAW.*"
unfolding parse_grant to_upper index_of without non_empty split_at trim_space is_space
parsed = refl

-- an underscore that the grant escapes is no part of the database's name
escaped :
    has_database_ddl capitals ("GRANT ALL PRIVILEGES ON `A\\_CLAW`.* TO `U`@`%`" ∷ []) "A_CLAW"
    ≡ some false
unfolding has_database_ddl parse_grant to_upper index_of without non_empty split_at trim_space
    is_space scope_matches includes
escaped = refl

panics : parse_grant capitals "GRANT ON X TO Y" ≡ slice_panic
unfolding parse_grant to_upper index_of trim_space is_space
panics = refl

-- a server whose user has these grants
abbrev server : DatabaseServer
server = record {
  State = List String;
  connects = λ s. true;
  grants = λ s. some grants;
  create_database = λ d s. (true, d ∷ s);
}

ensure_database-Allowed_example :
    ((ensure_database capitals server "CLAW" []).1 ≡ [])
    ⊎ (Allowed capitals server "CLAW" []
        × ((ensure_database capitals server "CLAW" []).1 ≡ "CLAW" ∷ []))
ensure_database-Allowed_example = ensure_database-Allowed capitals server "CLAW" []
