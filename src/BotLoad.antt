-- ===== src/BotLoad.antt =====
-- The load generator's settings and tokens, in backend/cmd/botload/main.go: the file and the
-- command line are read by arguments. Durations are in nanoseconds. net/url and path.Join are
-- parameters.
pub mod Settings
pub mod Batches
pub mod Clients
use Prim.Native.Char.{Char, code}
use Prim.Native.String.{◌++◌}
use astron_claw.Prelude.{
  ℕ, String, Bool, true, false, not, ◌&&◌, ◌||◌, Option, none, some, List, [], ◌∷◌, ◌==◌, str_eq,
  starts_with, if◌then◌else◌,
}
use astron_claw.Prelude.Int.{ℤ, pos, ltb_ℤ}
use astron_claw.Text.{trim_space, contains, ends_with, lines_of, drop_cr}

pub record Config : Type 0 where
  pub host : String
  pub token_file : String
  pub ws_url : String
  pub target : ℤ
  pub batch_size : ℤ
  pub batch_interval : ℤ
  pub ping_interval : ℤ
  pub report_interval : ℤ
  pub handshake_timeout : ℤ
  pub reconnect_delay : ℤ

pub record Url : Type 0 where
  pub scheme : String
  pub host : String
  pub path : String
  -- the query, the fragment and the user
  pub rest : String

pub data UrlError : Type 0 where
  empty_host not_parsed no_host unsupported_scheme : UrlError

pub data Resolved : Type 0 where
  url : String → Resolved
  refused : UrlError → Resolved

-- strings.TrimRight of slashes
unfoldable pub trim_slashes : String → String
trim_slashes String.[] = String.[]
trim_slashes (String.◌∷◌ c s) =
    let rest = trim_slashes s in
    if str_eq rest "" && code c == b'/' then String.[] else String.◌∷◌ c rest

-- the scheme of a websocket, none if there is none for it
unfoldable pub ws_scheme : String → Option String
ws_scheme s =
    if str_eq s "http"
    then some "ws"
    else if str_eq s "https"
    then some "wss"
    else if str_eq s "ws" || str_eq s "wss"
    then some s
    else none

module _ (join : String → String → String) where
  rooted : String → String
  rooted p = if starts_with p "/" then p else "/" ++ p

  -- the path at which bots connect
  unfoldable pub ws_path : String → String
  unfolding rooted trim_slashes ends_with
  ws_path p =
      if str_eq p "" || str_eq p "/"
      then "/bridge/bot"
      else if ends_with (trim_slashes p) "/bridge/bot"
      then p
      else rooted (join p "bridge/bot")

  module _ (parse : String → Option Url) (print : Url → String) where
    with_scheme : Url → Option String → Resolved
    unfolding ws_path
    with_scheme u none = refused unsupported_scheme
    with_scheme u (some s) = url (print (record u { scheme = s; path = ws_path u.path }))

    on_parsed : Option Url → Resolved
    unfolding with_scheme ws_scheme
    on_parsed none = refused not_parsed
    on_parsed (some u) =
        if str_eq u.host "" then refused no_host else with_scheme u (ws_scheme u.scheme)

    -- resolveWSURL
    unfoldable pub resolve_ws_url : String → Resolved
    unfolding on_parsed trim_space contains
    resolve_ws_url h =
        let host = trim_space h in
        if str_eq host ""
        then refused empty_host
        else on_parsed (parse (if contains host "://" then host else "ws://" ++ host))

pub data ConfigError : Type 0 where
  host_required token_file_required token_file_empty target_negative : ConfigError
  bad_url : UrlError → ConfigError

pub data Normalized : Type 0 where
  ready : Config → Normalized
  invalid : ConfigError → Normalized

abbrev pub at_least_1 : ℤ → ℤ → ℤ
at_least_1 fallback v = if ltb_ℤ (pos 0) v then v else fallback

abbrev pub min_int : ℤ → ℤ → ℤ
min_int a b = if ltb_ℤ a b then a else b

abbrev pub is_zero : ℤ → Bool
is_zero t = not (ltb_ℤ t (pos 0)) && not (ltb_ℤ (pos 0) t)

abbrev pub clamp_target : ℕ → ℤ → ℤ
clamp_target count t = if is_zero t || ltb_ℤ (pos count) t then pos count else t

abbrev pub clamp_batch : ℤ → ℤ → ℤ
clamp_batch target b =
    let b' = at_least_1 (min_int target (pos 100)) b in if ltb_ℤ target b' then target else b'

-- the numbers and intervals of the settings
unfoldable pub with_limits : ℕ → Config → Config
with_limits count c =
    let t = clamp_target count c.target in
    record c {
      target = t;
      batch_size = clamp_batch t c.batch_size;
      batch_interval = at_least_1 (pos 500000000) c.batch_interval;
      ping_interval = at_least_1 (pos 20000000000) c.ping_interval;
      report_interval = at_least_1 (pos 5000000000) c.report_interval;
      handshake_timeout = at_least_1 (pos 10000000000) c.handshake_timeout;
      reconnect_delay = at_least_1 (pos 1000000000) c.reconnect_delay;
    }

on_url : Config → Resolved → Normalized
on_url c (refused e) = invalid (bad_url e)
on_url c (url u) = ready (record c { ws_url = u })

-- normalizeConfig, over resolveWSURL
unfoldable pub normalize_config : (String → Resolved) → Config → ℕ → Normalized
unfolding on_url trim_space
normalize_config resolve c count =
    if str_eq (trim_space c.host) ""
    then invalid host_required
    else if str_eq (trim_space c.token_file) ""
    then invalid token_file_required
    else if count == 0
    then invalid token_file_empty
    else if ltb_ℤ c.target (pos 0)
    then invalid target_negative
    else on_url (with_limits count c) (resolve c.host)

-- the tokens in the lines of a file
unfoldable pub tokens_in : List String → List String
unfolding trim_space drop_cr
tokens_in [] = []
tokens_in (l ∷ ls) =
    let rest = tokens_in ls in
    let line = trim_space (drop_cr l) in
    if str_eq line "" || starts_with line "#" then rest else line ∷ rest
