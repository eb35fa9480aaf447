-- ===== src/Config.antt =====
-- internal/config/config.go: the configuration from the environment. `env` is os.Getenv: "" for a
-- variable that is not set.
pub mod Panics
mod Tests
use Prim.Native.String.{◌++◌}
use go_notes_api.Base.{
  none, some, Option, List, [], String, Result, ok, err, map, ◌==◌, eq_of_text, if◌then◌else◌, Bool,
}
use go_notes_api.Base.Int.{ℤ}
use go_notes_api.Base.Text.{number, bad_syntax, out_of_range, Parsed, parse_int, split, trim_space}
use go_notes_api.Http.{parsed_id}

-- type Config; `F` is float64
pub record Config (F : Type 0) : Type 0 where
  pub app_env : String
  pub port : String
  pub read_timeout : ℤ
  pub write_timeout : ℤ
  pub db_dsn : String
  pub db_timeout : ℤ
  pub jwt_secret : String
  pub jwt_ttl : ℤ
  pub refresh_ttl : ℤ
  pub max_body_bytes : ℤ
  pub cors_origins : List String
  pub metrics_allow_cidr : String
  pub bcrypt_cost : ℤ
  pub rate_rps : F
  pub rate_burst : ℤ
  pub jwt_issuer : String
  pub jwt_audience : String
  pub rate_auth_rps : F
  pub rate_auth_burst : ℤ
  pub otel_endpoint : String
  pub otel_sample : F
  pub redis_addr : String
  pub redis_pass : String
  pub redis_db : ℤ
  pub redis_tls : Bool
  pub jti_prefix : String
  pub rate_allow_cidr : String

-- A panic with its message ends what runs after it.
infixl 5 ◌>>=◌
abbrev pub ◌>>=◌ : {A B : Type 0} → Result String A → (A → Result String B) → Result String B
ok a >>= f = f a
err e >>= f = err e

-- splitCSV (44 is ',')
unfoldable pub split_csv : String → List String
split_csv s = if s == "" then [] else map trim_space (split 44 s)

module _ (env : String → String) where
  -- getenv
  unfoldable pub getenv : String → String → String
  getenv k def = if env k == "" then def else env k

  -- What the parser says of a variable, or the panic.
  unfoldable pub must :
      {A : Type 0} → (String → Option A) → String → String → String → Result String A
  must parse wrong k def =
      let v = getenv k def in
      elim (parse v) [ none ↦ err (k ++ ": invalid " ++ wrong ++ " " ++ v) | some a ↦ ok a ]

  -- mustInt, with strconv.Atoi
  unfoldable pub must_int : String → String → Result String ℤ
  must_int = must (λ v. parsed_id (parse_int v)) "int"

  -- mysqlDSNFromEnv
  unfoldable pub mysql_dsn : String
  mysql_dsn =
      let host = getenv "DB_HOST" "127.0.0.1" in
      let port = getenv "DB_PORT" "3306" in
      let name = getenv "DB_DATABASE" "notes" in
      let user = getenv "DB_USERNAME" "notes" in
      let pass = getenv "DB_PASSWORD" "notes" in
      if env "DB_DSN" == ""
      then user ++ ":" ++ pass ++ "@tcp(" ++ host ++ ":" ++ port ++ ")/" ++ name
        ++ "?parseTime=true&multiStatements=true&charset=utf8mb4"
      else env "DB_DSN"

  module _ {F : Type 0} (parse_duration : String → Option ℤ) (parse_float : String → Option F) where
    -- mustDur and mustFloat, with time.ParseDuration and strconv.ParseFloat
    unfoldable pub must_dur : String → String → Result String ℤ
    must_dur = must parse_duration "duration"

    unfoldable pub must_float : String → String → Result String F
    must_float = must parse_float "float"

    -- Load: the calls run in the order of the fields
    unfoldable pub load : Result String (Config F)
    load = do
      read_timeout ← must_dur "APP_READ_TIMEOUT" "5s"
      write_timeout ← must_dur "APP_WRITE_TIMEOUT" "10s"
      db_timeout ← must_dur "DB_TIMEOUT" "3s"
      rate_auth_rps ← must_float "RATE_AUTH_RPS" "2"
      rate_auth_burst ← must_int "RATE_AUTH_BURST" "5"
      jwt_ttl ← must_dur "JWT_TTL" "15m"
      refresh_ttl ← must_dur "REFRESH_TTL" "720h"
      otel_sample ← must_float "OTEL_SAMPLER" "0.1"
      redis_db ← must_int "REDIS_DB" "0"
      max_body_bytes ← must_int "MAX_BODY_BYTES" "1048576"
      bcrypt_cost ← must_int "BCRYPT_COST" "12"
      rate_rps ← must_float "RATE_RPS" "10"
      rate_burst ← must_int "RATE_BURST" "10"
      ok (record {
        app_env = getenv "APP_ENV" "dev";
        port = getenv "APP_PORT" "8080";
        read_timeout = read_timeout;
        write_timeout = write_timeout;
        db_dsn = mysql_dsn;
        db_timeout = db_timeout;
        jwt_secret = getenv "JWT_SECRET" "dev-secret";
        jwt_ttl = jwt_ttl;
        refresh_ttl = refresh_ttl;
        max_body_bytes = max_body_bytes;
        cors_origins = split_csv (getenv "CORS_ORIGINS" "*");
        metrics_allow_cidr = getenv "METRICS_ALLOW" "127.0.0.1/32";
        bcrypt_cost = bcrypt_cost;
        rate_rps = rate_rps;
        rate_burst = rate_burst;
        jwt_issuer = getenv "JWT_ISSUER" "go-notes-api";
        jwt_audience = getenv "JWT_AUDIENCE" "notes-api";
        rate_auth_rps = rate_auth_rps;
        rate_auth_burst = rate_auth_burst;
        otel_endpoint = getenv "OTEL_ENDPOINT" "";
        otel_sample = otel_sample;
        redis_addr = getenv "REDIS_ADDR" "127.0.0.1:6379";
        redis_pass = getenv "REDIS_PASSWORD" "";
        redis_db = redis_db;
        redis_tls = getenv "REDIS_TLS" "false" == "true";
        jti_prefix = getenv "JWT_JTI_PREFIX" "jti:";
        rate_allow_cidr = getenv "RATE_ALLOW_CIDR" "";
      })
