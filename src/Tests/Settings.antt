-- ===== src/Tests/Settings.antt =====
-- The witnesses on the settings.
use Prim.Native.Char.{Char}
use astron_claw.Prelude.{
  String, ◌≡◌, refl, false, not, Option, none, some, List, [], ◌∷◌, if◌then◌else◌, str_eq,
}
use astron_claw.Prelude.Int.{pos}
use astron_claw.ParseInt.{parse_int}
use astron_claw.Config.{AppConfig, load, get_env, get_env_int, get_env_bool}
use astron_claw.Cors.{allow_origin, allow_all, CorsSettings, cors_middleware}

abbrev origins : List String
origins = "https://a" ∷ "*" ∷ []

abbrev env : String → String
env key =
    if str_eq key "CORS_ORIGINS"
    then "https://a,*"
    else if str_eq key "SERVER_PORT"
    then "90000000000000000000"
    else ""

abbrev same_char : Char → Char
same_char c = c

abbrev or_else : Option AppConfig → AppConfig → AppConfig
or_else none d = d
or_else (some c) d = c

unfoldable default_config : AppConfig
unfolding load
default_config = record {
  mysql = record { host = ""; port = pos 0; user = ""; password = ""; database = "" };
  redis = record {
    password = "";
    db = pos 0;
    addrs = [];
    cluster = false;
    pool_size = pos 0;
    min_idle_conns = pos 0;
  };
  server = record {
    host = "";
    port = pos 0;
    workers = pos 0;
    log_level = "";
    access_log = false;
    ws_ping_interval = pos 0;
    ws_ping_timeout = pos 0;
    secure_cookie = false;
    worker_inbox_consumers = pos 0;
  };
  queue = record { queue_type = ""; max_stream_len = pos 0; block_ms = pos 0 };
  storage = record {
    storage_type = "";
    endpoint = "";
    public_endpoint = "";
    access_key = "";
    secret_key = "";
    bucket = "";
    region = "";
    ttl = pos 0;
    public_read = false;
    path_style = false;
  };
  otlp = record {
    enabled = false;
    service_name = "";
    endpoint = "";
    insecure = false;
    metrics_enabled = false;
    traces_enabled = false;
    logs_enabled = false;
  };
  cors = record { origins = []; enabled = false };
  db_pool = record { max_idle_conns = pos 0; max_open_conns = pos 0; conn_max_lifetime = pos 0 };
}

abbrev config : AppConfig
config = or_else (load same_char env (pos 4) (pos 8)) default_config

port : config.server.port ≡ pos 8765
unfolding load get_env get_env_int parse_int
port = refl

abbrev settings : CorsSettings
settings = record {
  allow_origin = allow_origin config.cors.origins;
  allow_credentials = not (allow_all config.cors.origins);
  allow_methods = "GET" ∷ "POST" ∷ "PUT" ∷ "PATCH" ∷ "DELETE" ∷ "OPTIONS" ∷ [];
  allow_headers = "*" ∷ [];
}

enabled : cors_middleware config.cors ≡ some settings
unfolding load get_env get_env_bool cors_middleware
enabled = refl
