-- ===== src/Grants.antt =====
-- The rights of the database's user and the creation of the database,
-- backend/internal/infra/database.go. `upper` stands for unicode.ToUpper, which strings.ToUpper
-- applies to each rune; the server of databases answers through parameters. A text is indexed by
-- its runes, a Go string by its bytes: the places are found and used in the same text.
pub mod Rights
pub mod Creation
use Prim.Native.Char.{Char, code}
use Prim.Native.String.{String, ◌++◌, len, slice}
use astron_claw.Prelude.{
  ℕ, suc, ◌+◌, Bool, true, false, not, ◌&&◌, ◌||◌, Option, none, some, List, [], ◌∷◌, ltb, leb,
  ◌==◌, if◌then◌else◌, str_eq, starts_with, map,
}
use astron_claw.Text.{trim_space, split_at}

-- strings.Index
unfoldable pub index_of : String → String → Option ℕ
index_of String.[] p = if str_eq p "" then some 0 else none
index_of (String.◌∷◌ c s) p =
    let later = index_of s p in
    if starts_with (String.◌∷◌ c s) p
    then some 0
    else elim later [ none ↦ none | some i ↦ some (suc i) ]

-- strings.ReplaceAll of one character by the empty text
unfoldable pub without : ℕ → String → String
without n String.[] = String.[]
without n (String.◌∷◌ c s) =
    let rest = without n s in if code c == n then rest else String.◌∷◌ c rest

abbrev pub is_name_char : ℕ → Bool
is_name_char c =
    (leb b'a' c && leb c b'z')
    || (leb b'A' c && leb c b'Z')
    || (leb b'0' c && leb c b'9')
    || c == b'_'

unfoldable pub all_name_chars : String → Bool
all_name_chars String.[] = true
all_name_chars (String.◌∷◌ c s) = is_name_char (code c) && all_name_chars s

-- validDBName
unfoldable pub is_valid_name : String → Bool
is_valid_name s = not (str_eq s "") && all_name_chars s

-- What parseGrant returns. It panics where " ON " stands in "GRANT " itself, since the part
-- between them then has a negative length.
pub data Grant : Type 0 where
  not_parsed : Grant
  grant : List String → String → Grant
  slice_panic : Grant

unfoldable pub non_empty : List String → List String
non_empty [] = []
non_empty (s ∷ ss) =
    let rest = non_empty ss in if str_eq (trim_space s) "" then rest else trim_space s ∷ rest

unfoldable pub includes : List String → String → Bool
includes [] want = false
includes (p ∷ ps) want = str_eq p want || includes ps want

pub record Required : Type 0 where
  pub create : Bool
  pub alter : Bool
  pub drop : Bool
  pub index : Bool

module _ (upper : Char → Char) where
  -- strings.ToUpper
  unfoldable pub to_upper : String → String
  to_upper String.[] = String.[]
  to_upper (String.◌∷◌ c s) = String.◌∷◌ (upper c) (to_upper s)

  -- from the first " ON " on
  unfoldable pub grant_between : String → ℕ → Option ℕ → Grant
  grant_between s on none = not_parsed
  grant_between s on (some to) =
      let privileges = trim_space (slice s 6 on) in
      let scope = trim_space (slice s (on + 4) (to + (on + 4))) in
      if ltb on 6
      then slice_panic
      else if str_eq privileges ""
      then not_parsed
      else grant (non_empty (split_at b',' privileges)) (without b' ' (without b'`' scope))

  unfoldable pub grant_from : String → Option ℕ → Grant
  unfolding grant_between
  grant_from s none = not_parsed
  grant_from s (some on) = grant_between s on (index_of (slice s (on + 4) (len s)) " TO ")

  -- parseGrant
  unfoldable pub parse_grant : String → Grant
  unfolding grant_from
  parse_grant text =
      let s = to_upper (trim_space text) in
      if starts_with s "GRANT " then grant_from s (index_of s " ON ") else not_parsed

  -- grantScopeMatchesDatabase
  unfoldable pub scope_matches : String → String → Bool
  scope_matches scope database =
      let scope' = to_upper (without b'`' (trim_space scope)) in
      str_eq scope' "*.*" || str_eq scope' (to_upper database ++ ".*")

  -- hasCreateDatabasePrivilege, none for a panic
  unfoldable pub has_create_database : List String → Option Bool
  has_create_database [] = some false
  has_create_database (g ∷ gs) =
      let rest = has_create_database gs in
      elim (parse_grant g) [
        | not_parsed ↦ rest
        | slice_panic ↦ none
        | grant privileges scope ↦
            if str_eq scope "*.*"
              && (includes privileges "ALL PRIVILEGES" || includes privileges "CREATE")
            then some true
            else rest
      ]

  -- the marks that one grant sets
  unfoldable pub mark : List String → Required → Required
  mark ps r = record {
    create = includes ps "CREATE" || r.create;
    alter = includes ps "ALTER" || r.alter;
    drop = includes ps "DROP" || r.drop;
    index = includes ps "INDEX" || r.index;
  }

  unfoldable pub all_granted : Required → Bool
  all_granted r = r.create && (r.alter && (r.drop && r.index))

  unfoldable pub ddl_loop : List String → String → Required → Option Bool
  unfolding mark all_granted
  ddl_loop [] database r = some (all_granted r)
  ddl_loop (g ∷ gs) database r = elim (parse_grant g) [
    | not_parsed ↦ ddl_loop gs database r
    | slice_panic ↦ none
    | grant privileges scope ↦
        let rest =
          ddl_loop gs database (if scope_matches scope database then mark privileges r else r) in
        if scope_matches scope database && includes privileges "ALL PRIVILEGES"
        then some true
        else rest
  ]

  -- hasDatabaseDDLPrivileges, none for a panic
  unfoldable pub has_database_ddl : List String → String → Option Bool
  unfolding ddl_loop
  has_database_ddl grants database =
      ddl_loop grants database
        (record { create = false; alter = false; drop = false; index = false })

-- The statements to the server of databases: opening a connection without a database, reading the
-- grants, and creating a database.
pub record DatabaseServer : Type 1 where
  pub State : Type 0
  pub connects : State → Bool
  pub grants : State → Option (List String)
  pub create_database : String → State → Bool × State

pub record Privileges : Type 0 where
  pub can_create_database : Bool
  pub can_manage_schema : Bool

pub data Detected : Type 0 where
  privileges : Privileges → Detected
  detection_failed : Detected
  detection_panics : Detected

pub data Ensured : Type 0 where
  created skipped invalid_name not_detected not_connected not_created ensure_panics : Ensured

abbrev pub both : Option Bool → Option Bool → Detected
both (some c) (some m) = privileges (record { can_create_database = c; can_manage_schema = m })
both (some c) none = detection_panics
both none m = detection_panics

module _ (upper : Char → Char) (T : DatabaseServer) where
  -- detectMySQLDDLPrivileges
  unfoldable pub detect_ddl_privileges : String → T.State → Detected
  detect_ddl_privileges database s =
      let found : Detected = elim (T.grants s) [
        | none ↦ detection_failed
        | some gs ↦ both (has_create_database upper gs) (has_database_ddl upper gs database)
      ] in
      if not (is_valid_name database)
      then detection_failed
      else if T.connects s
      then found
      else detection_failed

  unfoldable pub create_if : Detected → String → T.State → Ensured × T.State
  create_if detection_failed database s = (not_detected, s)
  create_if detection_panics database s = (ensure_panics, s)
  create_if (privileges p) database s =
      let (done, s') = T.create_database database s in
      if not p.can_create_database
      then (skipped, s)
      else if T.connects s
      then (if done then created else not_created, s')
      else (not_connected, s)

  -- ensureDatabase
  unfoldable pub ensure_database : String → T.State → Ensured × T.State
  unfolding create_if
  ensure_database database s =
      if not (is_valid_name database)
      then (invalid_name, s)
      else create_if (detect_ddl_privileges database s) database s
