-- ===== src/Grants/Creation.antt =====
-- When the statement that creates the database is sent.
use Prim.Native.Char.{Char}
use astron_claw.Prelude.{
  String, Bool, true, false, ◌&&◌, ◌||◌, ◌≡◌, refl, inl, inr, ◌⊎◌, Option, none, some, List, [],
  ◌∷◌, arith, str_eq, Bool-cases,
}
use astron_claw.Grants.{
  Grant, not_parsed, grant, slice_panic, includes, Detected, privileges, detection_failed,
  detection_panics, both, has_database_ddl, parse_grant, has_create_database, is_valid_name,
  DatabaseServer, ensure_database, detect_ddl_privileges, create_if,
}

-- a grant of CREATE or of everything on all databases
abbrev gives_create : Grant → Bool
gives_create not_parsed = false
gives_create (grant ps scope) =
    str_eq scope "*.*" && (includes ps "ALL PRIVILEGES" || includes ps "CREATE")
gives_create slice_panic = false

abbrev pub may_create : (Char → Char) → List String → Bool
may_create upper [] = false
may_create upper (g ∷ gs) = gives_create (parse_grant upper g) || may_create upper gs

pub has_create_database-may_create :
    (upper : Char → Char) (gs : List String)
    → has_create_database upper gs ≡ some true
    → may_create upper gs ≡ true
unfolding has_create_database
has_create_database-may_create upper [] h = absurd (cc h)
has_create_database-may_create upper (g ∷ gs) h =
    ground (arith, has_create_database-may_create upper gs)

module _ (upper : Char → Char) (T : DatabaseServer) where
  -- a right to create databases has been found
  abbrev pub Allowed : String → T.State → Type 0
  Allowed database s =
      (is_valid_name database ≡ true)
      × (gs : List String) × (T.grants s ≡ some gs)
      × (may_create upper gs ≡ true)

  abbrev allows : Detected → Bool
  allows detection_failed = false
  allows detection_panics = false
  allows (privileges p) = p.can_create_database

  allows-both : (c m : Option Bool) → allows (both c m) ≡ true → c ≡ some true
  allows-both (some true) (some m) h = refl
  allows-both (some false) (some m) h = absurd (cc h)
  allows-both (some c) none h = absurd (cc h)
  allows-both none m h = absurd (cc h)

  found-may_create :
      (g : Option (List String)) (database : String)
      → allows (elim g as (λ x. Detected) [
        | none ↦ detection_failed
        | some gs ↦ both (has_create_database upper gs) (has_database_ddl upper gs database)
      ])
        ≡ true
      → (gs : List String) × (g ≡ some gs) × (may_create upper gs ≡ true)
  found-may_create none database h = absurd (cc h)
  found-may_create (some gs) database h = (
    gs,
    refl,
    has_create_database-may_create upper gs
        (allows-both (has_create_database upper gs) (has_database_ddl upper gs database) h),
  )

  detect-Allowed :
      (database : String) (s : T.State)
      → allows (detect_ddl_privileges upper T database s) ≡ true
      → Allowed database s
  unfolding detect_ddl_privileges
  detect-Allowed database s h = elim (Bool-cases (is_valid_name database)) [
    | inr e ↦ absurd (ground arith)
    | inl e ↦ elim (Bool-cases (T.connects s)) [
      | inr d ↦ absurd (ground arith)
      | inl d ↦
          let (gs, read, may) = found-may_create (T.grants s) database (ground arith) in
          (e, gs, read, may)
    ]
  ]

  create_if-state :
      (d : Detected) (database : String) (s : T.State)
      → ((create_if upper T d database s).1 ≡ s)
        ⊎ ((allows d ≡ true)
            × ((create_if upper T d database s).1 ≡ (T.create_database database s).1))
  unfolding create_if
  create_if-state detection_failed database s = inl refl
  create_if-state detection_panics database s = inl refl
  create_if-state (privileges p) database s = elim (Bool-cases p.can_create_database) [
    | inr e ↦ inl (ground arith)
    | inl e ↦ elim (Bool-cases (T.connects s)) [
      | inr d ↦ inl (ground arith)
      | inl d ↦ inr (e, ground arith)
    ]
  ]

  -- The start either leaves the server of databases as it is, or sends the statement that
  -- creates the database; then the name is valid, the grants could be read, and one of them
  -- gives CREATE or ALL PRIVILEGES on all databases.
  pub ensure_database-Allowed :
      (database : String) (s : T.State)
      → ((ensure_database upper T database s).1 ≡ s)
        ⊎ (Allowed database s
            × ((ensure_database upper T database s).1 ≡ (T.create_database database s).1))
  unfolding ensure_database
  ensure_database-Allowed database s = elim (Bool-cases (is_valid_name database)) [
    | inr e ↦ inl (ground arith)
    | inl e ↦ elim (create_if-state (detect_ddl_privileges upper T database s) database s) [
      | inl same ↦ inl (ground arith)
      | inr (right, state) ↦ inr (detect-Allowed database s right, ground arith)
    ]
  ]
