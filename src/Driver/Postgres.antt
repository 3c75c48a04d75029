-- ===== src/Driver/Postgres.antt =====
-- driver/postgres/postgres.go: the configuration of the PostgreSQL driver, its connection string and the
-- registration with database/sql. A driver is not nil and has its dialect. Durations are whole
-- nanoseconds that are not negative.
pub mod Defaults
pub mod Dsn
pub mod Registration
use dorm.Prelude.{
  ℕ, ◌==◌, Bool, true, false, ◌&&◌, Option, none, some, List, [], ◌∷◌, ◌++◌, flat, any, Text, txt,
  itoa, trim, is_nil, join, text_eq, text_le, if◌then◌else◌,
}
use dorm.Errors.{Kind, Error, Result, ok, err, detailed_by, external, driver_error}
use dorm.Schema.Keys.{entry, sorted_keys}

pub record Config : Type 0 where
  pub dsn : Text
  pub driver_name : Text
  pub host : Text
  pub port : ℕ
  pub database : Text
  pub username : Text
  pub password : Text
  pub ssl_mode : Text
  pub timezone : Text
  pub search_path : Text
  pub preflight_enabled : Bool
  pub model_root : Text
  pub snapshot_path : Text
  pub schema_name : Text
  pub options : List (Text × Text)
  pub max_open_conns : ℕ
  pub max_idle_conns : ℕ
  pub conn_max_lifetime : ℕ
  pub conn_max_idle_time : ℕ

abbrev pub default_driver_name : Text
default_driver_name = txt "postgres"

text_or : Text → Text → Text
text_or t default = if is_nil t then default else t

count_or : ℕ → ℕ → ℕ
count_or n default = if n == 0 then default else n

unfoldable pub normalize_config : Config → Config
unfolding text_or count_or
normalize_config cfg = record cfg {
  driver_name = text_or cfg.driver_name default_driver_name;
  host = text_or cfg.host (txt "localhost");
  port = count_or cfg.port 5432;
  ssl_mode = text_or cfg.ssl_mode (txt "disable");
  timezone = text_or cfg.timezone (txt "UTC");
  search_path = text_or cfg.search_path (txt "public");
  schema_name = text_or cfg.schema_name (txt "public");
  max_open_conns = count_or cfg.max_open_conns 25;
  max_idle_conns = count_or cfg.max_idle_conns 25;
  conn_max_lifetime = count_or cfg.conn_max_lifetime 3600000000000;
  conn_max_idle_time = count_or cfg.conn_max_idle_time 900000000000;
}

unfoldable pub driver_name_of : Config → Text
unfolding trim
driver_name_of cfg = if is_nil (trim cfg.driver_name) then default_driver_name else cfg.driver_name

new_driver_error : Text → Text → Error → Error
new_driver_error driver operation e =
    detailed_by Kind.configuration (driver_error driver operation) e

unfoldable pub validate_config : Config → Option Error
unfolding trim driver_name_of new_driver_error
validate_config cfg =
    if is_nil (trim cfg.dsn) && is_nil (trim cfg.database)
    then some (
        new_driver_error (driver_name_of cfg) (txt "validate")
          (external (txt "database is required")))
    else none

pub record ConnectionInfo : Type 0 where
  pub system : Text
  pub name : Text
  pub namespace : Text
  pub server_address : Text
  pub server_port : ℕ

connection_info : Config → ConnectionInfo
connection_info cfg = record {
  system = txt "postgresql";
  name = cfg.database;
  namespace = cfg.schema_name;
  server_address = cfg.host;
  server_port = cfg.port;
}

pub record PreflightConfig : Type 0 where
  pub enabled : Bool
  pub root : Text
  pub snapshot_path : Text
  pub schema_name : Text

preflight_config : Config → PreflightConfig
preflight_config cfg = record {
  enabled = cfg.preflight_enabled;
  root = cfg.model_root;
  snapshot_path = cfg.snapshot_path;
  schema_name = cfg.schema_name;
}

-- The settings in the order of the string: the fixed ones, then the options by their sorted keys.
unfoldable pub fixed_settings : Config → List (Text × Text)
unfolding itoa
fixed_settings cfg =
    (txt "host", cfg.host)
    ∷ (txt "port", itoa cfg.port)
    ∷ (txt "dbname", cfg.database)
    ∷ (txt "user", cfg.username)
    ∷ (txt "password", cfg.password)
    ∷ (txt "sslmode", cfg.ssl_mode)
    ∷ (txt "timezone", cfg.timezone)
    ∷ (txt "search_path", cfg.search_path)
    ∷ []

option_value : List (Text × Text) → Text → Text
unfolding entry text_eq
option_value options key = elim (entry (λ (e : Text × Text). e.0) key options) [
  | some e ↦ e.1
  | none ↦ []
]

option_settings : List (Text × Text) → List Text → List (Text × Text)
unfolding option_value
option_settings options [] = []
option_settings options (key ∷ keys) =
    (key, option_value options key) ∷ option_settings options keys

unfoldable pub given_settings : List (Text × Text) → List (Text × Text)
unfolding trim
given_settings [] = []
given_settings ((key, value) ∷ rest) =
    let kept = given_settings rest in if is_nil (trim value) then kept else (key, trim value) ∷ kept

unfoldable pub settings : Config → List (Text × Text)
unfolding fixed_settings option_settings sorted_keys given_settings
settings cfg = given_settings (
    fixed_settings cfg
    ++ option_settings cfg.options (sorted_keys (λ (e : Text × Text). e.0) cfg.options))

-- `escape` is `url.QueryEscape`.
unfoldable pub setting_text : (Text → Text) → Text × Text → Text
setting_text escape e = e.0 ++ txt "=" ++ escape (e.1)

unfoldable pub render_settings : (Text → Text) → List (Text × Text) → Text
unfolding setting_text
render_settings escape [] = []
render_settings escape (e ∷ []) = setting_text escape e
render_settings escape (e ∷ f ∷ es) =
    setting_text escape e ++ (32 ∷ render_settings escape (f ∷ es))

unfoldable pub dsn_of : (Text → Text) → Config → Text
unfolding trim settings render_settings
dsn_of escape cfg = if is_nil (trim cfg.dsn) then render_settings escape (settings cfg) else cfg.dsn

-- `registeredDrivers` and the names that `sql.Drivers` gives.
pub record DriverRegistry : Type 0 where
  pub registered : List Text
  pub drivers : List Text

unfoldable pub is_listed : List Text → Text → Bool
unfolding text_eq
is_listed names name = any (λ n. text_eq n name) names

unfoldable pub ensure_registered : Text → DriverRegistry → DriverRegistry
unfolding is_listed trim
ensure_registered given r =
    let name = if is_nil (trim given) then default_driver_name else trim given in
    let stored = record r { registered = name ∷ r.registered } in
    if is_listed r.registered name
    then r
    else if is_listed r.drivers name
    then stored
    else record stored { drivers = name ∷ r.drivers }

-- The pool that `Open` hands back: what it was opened with and the limits that were set.
pub record Pool : Type 0 where
  pub driver : Text
  pub dsn : Text
  pub max_open_conns : Option ℕ
  pub max_idle_conns : Option ℕ
  pub conn_max_lifetime : Option ℕ
  pub conn_max_idle_time : Option ℕ

limit_of : ℕ → Option ℕ
limit_of n = if n == 0 then none else some n

pool_of : Config → Text → Pool
unfolding limit_of driver_name_of
pool_of cfg dsn = record {
  driver = driver_name_of cfg;
  dsn = dsn;
  max_open_conns = limit_of cfg.max_open_conns;
  max_idle_conns = limit_of cfg.max_idle_conns;
  conn_max_lifetime = limit_of cfg.conn_max_lifetime;
  conn_max_idle_time = limit_of cfg.conn_max_idle_time;
}

opened : Config → Text → Option Error → Option Error → Result Pool
unfolding pool_of new_driver_error driver_name_of
opened cfg dsn (some e) late = err (new_driver_error (driver_name_of cfg) (txt "open") e)
opened cfg dsn none (some e) = err (new_driver_error (driver_name_of cfg) (txt "open") e)
opened cfg dsn none none = ok (pool_of cfg dsn)

-- `Open`: `early` and `late` are the errors of the context before and behind `sql.Open`, whose error is
-- that of `sql_open` for the driver's name and the connection string.
unfoldable pub open_pool :
    (Text → Text)
    → (DriverRegistry → Text → Text → Option Error)
    → Option Error
    → Option Error
    → Config
    → DriverRegistry
    → Result Pool × DriverRegistry
unfolding validate_config ensure_registered driver_name_of dsn_of opened new_driver_error
open_pool escape sql_open (some e) late cfg r =
    (err (new_driver_error (driver_name_of cfg) (txt "open") e), r)
open_pool escape sql_open none late cfg r = elim (validate_config cfg) [
  | some e ↦ (err e, r)
  | none ↦
      let ready = ensure_registered (driver_name_of cfg) r in
      let dsn = dsn_of escape cfg in
      (opened cfg dsn (sql_open ready (driver_name_of cfg) dsn) late, ready)
]
