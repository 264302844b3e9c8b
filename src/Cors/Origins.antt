-- ===== src/Cors/Origins.antt =====
-- From the setting CORS_ORIGINS to the origins that are let in.
use Prim.Native.Char.{Char}
use astron_claw.Prelude.{
  ◌<◌, String, ◌≡◌, ◌≢◌, refl, sym, ap, ◌∙◌, Bool, true, false, not, ◌||◌, none, some, List, [],
  ◌∷◌, arith, if◌then◌else◌, str_eq, eq_iff, str_eq_ne, length,
}
use astron_claw.Prelude.Int.{ℤ}
use astron_claw.Redis.Laws.{elem}
use astron_claw.Config.{AppConfig, load, get_env, split_csv}
use astron_claw.Config.Lists.{join, all_items, split_csv-join}
use astron_claw.Cors.{allow_origin, allow_all, CorsSettings, cors_middleware}

allow_origin-elem :
    (os : List String) (origin : String) → allow_origin os origin ≡ elem "*" os || elem origin os
unfolding allow_origin
allow_origin-elem [] origin = refl
allow_origin-elem (o ∷ os) origin = ground (
  arith,
  allow_origin-elem os origin,
  eq_iff o origin,
  eq_iff origin o,
  eq_iff o "*",
  eq_iff "*" o,
)

if_some {ℓ} :
    {A : Type ℓ} (b : Bool) (a : A) {c : A} → (if b then some a else none) ≡ some c → a ≡ c
if_some true a h = cc h
if_some false a h = absurd (cc h)

guarded {ℓ} :
    {A : Type ℓ} (b : Bool) (a : A) {c : A} → (if b then none else some a) ≡ some c → a ≡ c
guarded true a h = absurd (cc h)
guarded false a h = cc h

allow_all-two : (origins : List String) → 1 < length origins → allow_all origins ≡ false
unfolding allow_all
allow_all-two [] h = absurd (omega arith)
allow_all-two (o ∷ []) h = absurd (omega arith)
allow_all-two (o ∷ (p ∷ os)) h = refl

module _ (lower : Char → Char) (env : String → String) (max_procs num_cpu : ℤ) where
  origins_read :
      (cfg : AppConfig)
      → load lower env max_procs num_cpu ≡ some cfg
      → cfg.cors.origins ≡ split_csv (get_env lower env "CORS_ORIGINS" "*")
  unfolding load
  origins_read cfg h = ap (λ (x : AppConfig). x.cors.origins) (sym (if_some _ _ h))

  pub load-origins :
      (cfg : AppConfig) (settings : CorsSettings) (origins : List String) (origin : String)
      → load lower env max_procs num_cpu ≡ some cfg
      → cors_middleware cfg.cors ≡ some settings
      → env "CORS_ORIGINS" ≡ join origins
      → join origins ≢ ""
      → all_items origins ≡ true
      → (settings.allow_origin origin ≡ elem "*" origins || elem origin origins)
        × (settings.allow_credentials ≡ not (allow_all origins))
  unfolding cors_middleware get_env
  load-origins cfg settings origins origin h m e ne items =
      let read : cfg.cors.origins ≡ origins =
        origins_read cfg h
        ∙ ap split_csv (
            ap (λ t. if str_eq t "" then "*" else t) e
            ∙ ap (λ b. if b then "*" else join origins) (str_eq_ne ne))
        ∙ split_csv-join origins items in
      let made = guarded (not cfg.cors.enabled) _ m in
      (
        ap (λ (x : CorsSettings). x.allow_origin origin) (sym made)
            ∙ ap (λ os. allow_origin os origin) read
            ∙ allow_origin-elem origins origin,
        ap (λ (x : CorsSettings). x.allow_credentials) (sym made)
            ∙ ap (λ os. not (allow_all os)) read,
      )

  -- Where "*" is one of at least two origins in CORS_ORIGINS, every origin is allowed, and with
  -- credentials. The conditions are those of load-origins.
  pub load-credentials :
      (cfg : AppConfig) (settings : CorsSettings) (origins : List String) (origin : String)
      → load lower env max_procs num_cpu ≡ some cfg
      → cors_middleware cfg.cors ≡ some settings
      → env "CORS_ORIGINS" ≡ join origins
      → join origins ≢ ""
      → all_items origins ≡ true
      → elem "*" origins ≡ true
      → 1 < length origins
      → (settings.allow_origin origin ≡ true) × (settings.allow_credentials ≡ true)
  load-credentials cfg settings origins origin h m e ne items any two =
      let (allowed, credentials) = load-origins cfg settings origins origin h m e ne items in
      (
        allowed ∙ ap (λ b. b || elem origin origins) any,
        credentials ∙ ap not (allow_all-two origins two),
      )
