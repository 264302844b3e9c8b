-- ===== src/Config.antt =====
-- The settings of the server, backend/internal/config/config.go. `env` stands for os.Getenv after
-- godotenv.Load, and `lower` for unicode.ToLower; the numbers of processors are arguments. The two
-- texts for the MySQL driver, which formats them, are left out.
pub mod Lists
use Prim.Native.Char.{Char, code}
use Prim.Native.String.{String, ◌++◌}
use astron_claw.Prelude.{
  ℕ, Bool, true, false, ◌||◌, Option, none, some, List, [], ◌∷◌, length, ltb, if◌then◌else◌, str_eq,
}
use astron_claw.Prelude.Int.{ℤ, pos, ◌*ℤ◌, ◌+ℤ◌}
use astron_claw.ParseInt.{parse_int}
use astron_claw.Text.{trim_space, split_at}

pub record MysqlConfig : Type 0 where
  pub host : String
  pub port : ℤ
  pub user : String
  pub password : String
  pub database : String

pub record RedisConfig : Type 0 where
  pub password : String
  pub db : ℤ
  pub addrs : List String
  pub cluster : Bool
  pub pool_size : ℤ
  pub min_idle_conns : ℤ

-- IsCluster
unfoldable pub is_cluster : RedisConfig → Bool
is_cluster c = c.cluster || ltb 1 (length c.addrs)

-- the lifetime is in seconds
pub record DbPoolConfig : Type 0 where
  pub max_idle_conns : ℤ
  pub max_open_conns : ℤ
  pub conn_max_lifetime : ℤ

pub record ServerConfig : Type 0 where
  pub host : String
  pub port : ℤ
  pub workers : ℤ
  pub log_level : String
  pub access_log : Bool
  pub ws_ping_interval : ℤ
  pub ws_ping_timeout : ℤ
  pub secure_cookie : Bool
  pub worker_inbox_consumers : ℤ

pub record QueueConfig : Type 0 where
  pub queue_type : String
  pub max_stream_len : ℤ
  pub block_ms : ℤ

pub record StorageConfig : Type 0 where
  pub storage_type : String
  pub endpoint : String
  pub public_endpoint : String
  pub access_key : String
  pub secret_key : String
  pub bucket : String
  pub region : String
  pub ttl : ℤ
  pub public_read : Bool
  pub path_style : Bool

pub record OtlpConfig : Type 0 where
  pub enabled : Bool
  pub service_name : String
  pub endpoint : String
  pub insecure : Bool
  pub metrics_enabled : Bool
  pub traces_enabled : Bool
  pub logs_enabled : Bool

pub record CorsConfig : Type 0 where
  pub origins : List String
  pub enabled : Bool

pub record AppConfig : Type 0 where
  pub mysql : MysqlConfig
  pub redis : RedisConfig
  pub server : ServerConfig
  pub queue : QueueConfig
  pub storage : StorageConfig
  pub otlp : OtlpConfig
  pub cors : CorsConfig
  pub db_pool : DbPoolConfig

-- validOSSTypes
abbrev pub is_valid_oss_type : String → Bool
is_valid_oss_type t = str_eq t "s3" || str_eq t "ifly_gateway"

-- the trimmed parts that are not empty
unfoldable pub trimmed_parts : List String → List String
trimmed_parts [] = []
trimmed_parts (p ∷ ps) =
    let rest = trimmed_parts ps in if str_eq (trim_space p) "" then rest else trim_space p ∷ rest

-- splitCSV
unfoldable pub split_csv : String → List String
unfolding trimmed_parts
split_csv s = trimmed_parts (split_at b',' s)

abbrev pub or_int : ℤ → Option ℤ → ℤ
or_int d none = d
or_int d (some n) = n

module _ (lower : Char → Char) (env : String → String) where
  -- strings.ToLower
  unfoldable pub to_lower : String → String
  to_lower String.[] = String.[]
  to_lower (String.◌∷◌ c s) = String.◌∷◌ (lower c) (to_lower s)

  -- getEnv
  unfoldable pub get_env : String → String → String
  get_env key default = if str_eq (env key) "" then default else env key

  -- getEnvInt
  unfoldable pub get_env_int : String → ℤ → ℤ
  get_env_int key default =
      if str_eq (env key) "" then default else or_int default (parse_int (env key))

  -- getEnvBool
  unfoldable pub get_env_bool : String → Bool → Bool
  unfolding to_lower
  get_env_bool key default =
      if str_eq (env key) "" then default else str_eq (to_lower (env key)) "true"

  -- buildOtlpEndpoint
  unfoldable pub build_otlp_endpoint : String
  unfolding get_env
  build_otlp_endpoint = get_env "POD_IP" "localhost" ++ (":" ++ get_env "OTLP_PORT" "4317")

  abbrev load_server : ℤ → ServerConfig
  load_server num_cpu = record {
    host = get_env "SERVER_HOST" "0.0.0.0";
    port = get_env_int "SERVER_PORT" (pos 8765);
    workers = get_env_int "SERVER_WORKERS" (num_cpu +ℤ pos 1);
    log_level = get_env "SERVER_LOG_LEVEL" "info";
    access_log = get_env_bool "SERVER_ACCESS_LOG" true;
    ws_ping_interval = get_env_int "WS_PING_INTERVAL" (pos 10);
    ws_ping_timeout = get_env_int "WS_PING_TIMEOUT" (pos 10);
    secure_cookie = get_env_bool "COOKIE_SECURE" false;
    worker_inbox_consumers = get_env_int "WORKER_INBOX_CONSUMERS" (pos 4);
  }

  abbrev load_storage : String → StorageConfig
  load_storage oss_type = record {
    storage_type = oss_type;
    endpoint = get_env "OSS_ENDPOINT" "http://localhost:9000";
    public_endpoint =
        if str_eq (env "OSS_PUBLIC_ENDPOINT") ""
        then get_env "OSS_ENDPOINT" "http://localhost:9000"
        else env "OSS_PUBLIC_ENDPOINT";
    access_key = get_env "OSS_ACCESS_KEY" "minioadmin";
    secret_key = get_env "OSS_SECRET_KEY" "minioadmin";
    bucket = get_env "OSS_BUCKET" "astron-claw-media";
    region = get_env "OSS_REGION" "us-east-1";
    ttl = get_env_int "OSS_TTL" (pos 157788000);
    public_read = get_env_bool "OSS_PUBLIC_READ" true;
    path_style = get_env_bool "OSS_PATH_STYLE" true;
  }

  abbrev load_otlp : OtlpConfig
  load_otlp = record {
    enabled = get_env_bool "OTLP_ENABLED" false;
    service_name = get_env "OTLP_SERVICE_NAME" "astron-claw";
    endpoint = build_otlp_endpoint;
    insecure = get_env_bool "OTLP_INSECURE" false;
    metrics_enabled = get_env_bool "OTLP_METRICS_ENABLED" true;
    traces_enabled = get_env_bool "OTLP_TRACES_ENABLED" false;
    logs_enabled = get_env_bool "OTLP_LOGS_ENABLED" false;
  }

  -- Load, none where it ends the process
  unfoldable pub load : ℤ → ℤ → Option AppConfig
  unfolding split_csv
  load max_procs num_cpu =
      let oss_type = get_env "OSS_TYPE" "s3" in
      if is_valid_oss_type oss_type
      then some (record {
        mysql = record {
          host = get_env "MYSQL_HOST" "127.0.0.1";
          port = get_env_int "MYSQL_PORT" (pos 3306);
          user = get_env "MYSQL_USER" "root";
          password = get_env "MYSQL_PASSWORD" "";
          database = get_env "MYSQL_DATABASE" "astron_claw";
        };
        redis = record {
          password = get_env "REDIS_PASSWORD" "";
          db = get_env_int "REDIS_DB" (pos 0);
          addrs = split_csv (get_env "REDIS_ADDRS" "127.0.0.1:6379");
          cluster = get_env_bool "REDIS_CLUSTER" false;
          pool_size = get_env_int "REDIS_POOL_SIZE" (max_procs *ℤ pos 10);
          min_idle_conns = get_env_int "REDIS_MIN_IDLE_CONNS" (pos 10);
        };
        server = load_server num_cpu;
        queue = record {
          queue_type = get_env "QUEUE_TYPE" "redis_stream";
          max_stream_len = get_env_int "QUEUE_MAX_STREAM_LEN" (pos 1000);
          block_ms = get_env_int "QUEUE_BLOCK_MS" (pos 5000);
        };
        storage = load_storage oss_type;
        otlp = load_otlp;
        cors = record {
          origins = split_csv (get_env "CORS_ORIGINS" "*");
          enabled = get_env_bool "CORS_ENABLED" true;
        };
        db_pool = record {
          max_idle_conns = get_env_int "DB_MAX_IDLE_CONNS" (pos 10);
          max_open_conns = get_env_int "DB_MAX_OPEN_CONNS" (pos 15);
          conn_max_lifetime = get_env_int "DB_CONN_MAX_LIFETIME" (pos 3600);
        };
      })
      else none
