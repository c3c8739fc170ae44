-- ===== src/Backend/Settings.antt =====
-- backend/src/myaqi_backend/config.py: the settings that the environment gives. `env` is
-- `os.getenv`, `parse_int` is `int(text)` (`none` is its ValueError), and `render` writes the URL of
-- SQLAlchemy's `URL.create`.
pub mod Sources
mod Tests
use myaqi_iot_platform.Prelude.{
  String, Bool, true, false, ◌||◌, Option, none, some, List, [], ◌∷◌, if◌then◌else◌,
}
use myaqi_iot_platform.Prelude.Int.{ℤ}
use myaqi_iot_platform.Prelude.Result.{Result, ok, err, ◌>>=◌, or_raise}
use myaqi_iot_platform.Python.Text.{Text, codes}

abbrev pub Environment : Type 0
Environment = String → Option Text

-- The ValueErrors
pub data ConfigError : Type 0 where
  incomplete : List String → ConfigError
  invalid_number : String → ConfigError

-- `bool(value)`
abbrev pub is_set : Option Text → Bool
is_set none = false
is_set (some []) = false
is_set (some (_ ∷ _)) = true

-- `os.getenv(name, default)`
abbrev pub getenv : Environment → String → Text → Text
getenv env name default = elim (env name) [ none ↦ default | some value ↦ value ]

abbrev pub name_if : Bool → String → List String → List String
name_if true name rest = rest
name_if false name rest = name ∷ rest

-- `[name for name, value in components.items() if not value]`
abbrev pub missing_components : Environment → List String
missing_components env = name_if (is_set (env "DB_HOST")) "host" (
    name_if (is_set (env "DB_NAME")) "name" (
      name_if (is_set (env "DB_USER")) "user" (name_if (is_set (env "DB_PASSWORD")) "password" [])))

abbrev pub any_component : Environment → Bool
any_component env =
    is_set (env "DB_HOST")
    || is_set (env "DB_NAME")
    || is_set (env "DB_USER")
    || is_set (env "DB_PASSWORD")

pub record DatabaseUrl : Type 0 where
  pub username : Option Text
  pub password : Option Text
  pub host : Option Text
  pub port : ℤ
  pub database : Option Text

abbrev pub default_url : Text
default_url = codes "sqlite+pysqlite:///myaqi-development.db"

module _ (parse_int : Text → Option ℤ) (render : DatabaseUrl → Text) where
  abbrev pub int_setting : Environment → String → Text → Result ConfigError ℤ
  int_setting env name default =
      or_raise (parse_int (getenv env name default)) (invalid_number name)

  -- The URL of the components, none of which is missing
  abbrev pub component_url : Environment → List String → Result ConfigError Text
  component_url env (name ∷ names) = err (incomplete (name ∷ names))
  component_url env [] = do
    port ← int_setting env "DB_PORT" (codes "5432")
    ok (
        render (record {
          username = env "DB_USER";
          password = env "DB_PASSWORD";
          host = env "DB_HOST";
          port = port;
          database = env "DB_NAME";
        }))

  unfoldable pub database_url_from_env : Environment → Result ConfigError Text
  database_url_from_env env =
      if is_set (env "DATABASE_URL")
      then ok (getenv env "DATABASE_URL" [])
      else if any_component env
      then component_url env (missing_components env)
      else ok default_url

  pub record Settings : Type 0 where
    pub database_url : Text
    pub device_master_key : Text
    pub auth_clock_skew_seconds : ℤ
    pub max_batch_size : ℤ
    pub max_content_length : ℤ
    pub outbox_batch_size : ℤ
    pub outbox_max_attempts : ℤ
    pub outbox_lock_timeout_seconds : ℤ
    pub log_level : Text
    pub environment : Text
    pub service_version : Text
    pub revision : Text
    pub outbox_health_interval_seconds : ℤ
    pub outbox_sns_topic_arn : Option Text

  -- `value or None`
  abbrev pub or_none : Option Text → Option Text
  or_none (some (c ∷ cs)) = some (c ∷ cs)
  or_none _ = none

  -- `Settings.from_env`
  unfoldable pub from_env : Environment → Result ConfigError Settings
  unfolding database_url_from_env
  from_env env = do
    url ← database_url_from_env env
    skew ← int_setting env "AUTH_CLOCK_SKEW_SECONDS" (codes "300")
    batch_size ← int_setting env "MAX_BATCH_SIZE" (codes "500")
    content_length ← int_setting env "MAX_CONTENT_LENGTH" (codes "524288")
    outbox_batch ← int_setting env "OUTBOX_BATCH_SIZE" (codes "100")
    attempts ← int_setting env "OUTBOX_MAX_ATTEMPTS" (codes "8")
    timeout ← int_setting env "OUTBOX_LOCK_TIMEOUT_SECONDS" (codes "60")
    interval ← int_setting env "OUTBOX_HEALTH_INTERVAL_SECONDS" (codes "60")
    ok (record {
      database_url = url;
      device_master_key =
          getenv env "DEVICE_MASTER_KEY"
            (codes "development-only-change-this-key-before-deploying");
      auth_clock_skew_seconds = skew;
      max_batch_size = batch_size;
      max_content_length = content_length;
      outbox_batch_size = outbox_batch;
      outbox_max_attempts = attempts;
      outbox_lock_timeout_seconds = timeout;
      log_level = getenv env "LOG_LEVEL" (codes "INFO");
      environment = getenv env "APP_ENVIRONMENT" (codes "development");
      service_version = getenv env "SERVICE_VERSION" (codes "0.1.0-dev");
      revision = getenv env "APP_REVISION" (codes "local");
      outbox_health_interval_seconds = interval;
      outbox_sns_topic_arn = or_none (env "OUTBOX_SNS_TOPIC_ARN");
    })
