-- ===== src/Grants/Rights.antt =====
-- The marks of the loop over the grants add up to what the grants give.
use astron_claw.Prelude.{String, Bool, true, false, ◌&&◌, ◌||◌, List, [], ◌∷◌}
use Prim.Native.Char.{Char}
use astron_claw.Grants.{
  Grant, not_parsed, grant, slice_panic, Required, includes, parse_grant, scope_matches,
}

module _ (upper : Char → Char) where
  abbrev pub panics : Grant → Bool
  panics not_parsed = false
  panics (grant ps scope) = false
  panics slice_panic = true

  abbrev pub any_panics : List String → Bool
  any_panics [] = false
  any_panics (g ∷ gs) = panics (parse_grant upper g) || any_panics gs

  abbrev pub gives : String → String → Grant → Bool
  gives database p not_parsed = false
  gives database p (grant ps scope) = scope_matches upper scope database && includes ps p
  gives database p slice_panic = false

  -- some grant that matches the database includes the privilege
  abbrev pub held : String → String → List String → Bool
  held database p [] = false
  held database p (g ∷ gs) = gives database p (parse_grant upper g) || held database p gs

  abbrev reached : String → List String → Required → Bool
  reached database gs r =
      held database "ALL PRIVILEGES" gs
      || ((held database "CREATE" gs || r.create)
          && ((held database "ALTER" gs || r.alter)
              && ((held database "DROP" gs || r.drop) && (held database "INDEX" gs || r.index))))
