-- ===== src/Config.antt =====
-- internal/config/config.go: the configuration from config.yaml and the environment. The file, the
-- environment, and the decoders of YAML and base64 are arguments.
pub mod Loaded
use slimwhats.Base.{
  ℕ, Bool, true, false, not, ◌&&◌, List, [], ◌∷◌, ◌++◌, Option, none, some, Bytes, codes, contains,
  is_empty, length, ◌==◌, if◌then◌else◌,
}
use slimwhats.Base.Result.{Result, ok, err}

pub record Config : Type 0 where
  pub http_addr : Bytes
  pub url : Bytes
  pub db_driver : Bytes
  pub db_dsn : Bytes
  pub manager_username : Bytes
  pub trusted_proxies : List Bytes
  pub manager_password : Bytes
  pub encryption_key : Bytes

pub record YamlConfig : Type 0 where
  pub http_addr : Bytes
  pub url : Bytes
  pub db_driver : Bytes
  pub db_dsn : Bytes
  pub manager_username : Bytes
  pub trusted_proxies : List Bytes

pub data ConfigError : Type 0 where
  invalid_yaml unreadable password_required invalid_base64 wrong_key_length : ConfigError

-- What os.ReadFile finds; the decoder writes what the file has over the defaults.
pub data YamlFile : Type 0 where
  missing failing : YamlFile
  read : (YamlConfig → Option YamlConfig) → YamlFile

abbrev pub defaults : YamlConfig
defaults = record {
  http_addr = codes ":8080";
  url = [];
  db_driver = codes "sqlite3";
  db_dsn =
      codes
        "file:data/slimwhats.db?_pragma=foreign_keys(1)&_pragma=journal_mode(WAL)&_pragma=busy_timeout(5000)";
  manager_username = codes "admin";
  trusted_proxies = [];
}

abbrev pub decoded : Option YamlConfig → Result ConfigError YamlConfig
decoded none = err invalid_yaml
decoded (some yc) = ok yc

abbrev pub yaml_config : YamlFile → Result ConfigError YamlConfig
yaml_config missing = ok defaults
yaml_config failing = err unreadable
yaml_config (read decode) = decoded (decode defaults)

-- `envOr`, on the value of the variable.
abbrev pub env_or : Bytes → Bytes → Bytes
env_or [] def = def
env_or (c ∷ v) def = c ∷ v

-- `normalizeHTTPAddr`
unfoldable pub normalize_http_addr : Bytes → Bytes
normalize_http_addr addr =
    if is_empty addr
    then codes ":8080"
    else if not (contains addr (codes ":"))
    then codes ":" ++ addr
    else addr

-- `strings.TrimRight(s, "/")`
unfoldable pub trim_right : Bytes → Bytes
trim_right [] = []
trim_right (c ∷ s) = let rest = trim_right s in if is_empty rest && c == 47 then [] else c ∷ rest

-- `normalizeURL`
unfoldable pub normalize_url : Bytes → Bytes
normalize_url raw =
    if is_empty raw
    then codes "http://localhost:8080"
    else trim_right (if not (contains raw (codes "://")) then codes "http://" ++ raw else raw)

abbrev pub key_of_length : Option Bytes → Result ConfigError Bytes
key_of_length none = err invalid_base64
key_of_length (some key) = if not (length key == 32) then err wrong_key_length else ok key

-- The legacy key, empty where the variable is not set.
abbrev pub encryption_key : (Bytes → Option Bytes) → Bytes → Result ConfigError Bytes
encryption_key base64 [] = ok []
encryption_key base64 (c ∷ text) = key_of_length (base64 (c ∷ text))

abbrev pub with_key :
    (Bytes → Bytes) → YamlConfig → Bytes → Result ConfigError Bytes → Result ConfigError Config
with_key getenv yc password (err e) = err e
with_key getenv yc password (ok key) = ok (record {
  http_addr = normalize_http_addr (env_or (getenv (codes "APP_HTTP_ADDR")) yc.http_addr);
  url = normalize_url (env_or (getenv (codes "APP_URL")) yc.url);
  db_driver = env_or (getenv (codes "APP_DB_DRIVER")) yc.db_driver;
  db_dsn = env_or (getenv (codes "APP_DB_DSN")) yc.db_dsn;
  manager_username = env_or (getenv (codes "APP_MANAGER_USERNAME")) yc.manager_username;
  trusted_proxies = yc.trusted_proxies;
  manager_password = password;
  encryption_key = key;
})

abbrev pub with_password :
    (Bytes → Option Bytes) → (Bytes → Bytes) → YamlConfig → Bytes → Result ConfigError Config
with_password base64 getenv yc [] = err password_required
with_password base64 getenv yc (c ∷ password) =
    with_key getenv yc (c ∷ password) (encryption_key base64 (getenv (codes "APP_ENCRYPTION_KEY")))

abbrev pub with_yaml :
    (Bytes → Option Bytes)
    → (Bytes → Bytes)
    → Result ConfigError YamlConfig
    → Result ConfigError Config
with_yaml base64 getenv (err e) = err e
with_yaml base64 getenv (ok yc) =
    with_password base64 getenv yc (getenv (codes "APP_MANAGER_PASSWORD"))

-- `Load`
unfoldable pub load :
    (Bytes → Option Bytes) → (Bytes → Bytes) → YamlFile → Result ConfigError Config
load base64 getenv file = with_yaml base64 getenv (yaml_config file)
