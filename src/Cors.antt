-- ===== src/Cors.antt =====
-- The origins that may call the server, backend/internal/middleware/cors.go. What gin-contrib/cors
-- does with the settings is left to that package.
pub mod Origins
use astron_claw.Prelude.{
  ℕ, String, Bool, true, false, not, ◌||◌, Option, none, some, List, [], ◌∷◌, ◌==◌, length,
  if◌then◌else◌, str_eq,
}
use astron_claw.Config.{CorsConfig}

-- AllowOriginFunc
unfoldable pub allow_origin : List String → String → Bool
allow_origin [] origin = false
allow_origin (o ∷ os) origin = (str_eq o "*" || str_eq o origin) || allow_origin os origin

unfoldable pub allow_all : List String → Bool
allow_all [] = false
allow_all (o ∷ []) = str_eq o "*"
allow_all (o ∷ (p ∷ os)) = false

pub record CorsSettings : Type 0 where
  pub allow_origin : String → Bool
  pub allow_credentials : Bool
  pub allow_methods : List String
  pub allow_headers : List String

-- CORSMiddleware, none where it lets every request pass untouched
unfoldable pub cors_middleware : CorsConfig → Option CorsSettings
cors_middleware cfg =
    if not cfg.enabled
    then none
    else some (record {
      allow_origin = allow_origin cfg.origins;
      allow_credentials = not (allow_all cfg.origins);
      allow_methods = "GET" ∷ "POST" ∷ "PUT" ∷ "PATCH" ∷ "DELETE" ∷ "OPTIONS" ∷ [];
      allow_headers = "*" ∷ [];
    })
