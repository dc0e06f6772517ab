-- ===== src/Config.antt =====
-- src/config.rs: the configuration, read from environment variables through a lookup function.
-- The parsers of socket addresses and URLs are a parameter; whole seconds stand for a `Duration`.
pub mod Load
pub mod Errors
pub mod Redact
use bipa_coding_challenge.Common.{
  ℕ, zero, suc, ◌||◌, List, [], ◌∷◌, ◌++◌, Text, codes, text_eq, if◌then◌else◌, Option, none, some,
  Result, ok, err, ◌>>=◌, map_err, ok_or,
}
use bipa_coding_challenge.Std.ParseInt.{
  ParseIntError, empty, invalid_digit, pos_overflow, parse_u64,
}

pub record Net : Type 1 where
  pub SocketAddr : Type 0
  pub Url : Type 0
  -- `raw.parse::<SocketAddr>()`, an error as its text
  pub parse_socket_addr : Text → Result SocketAddr Text
  -- `Url::parse(raw)`, an error as its text
  pub parse_url : Text → Result Url Text
  pub scheme : Url → Text
  pub password : Url → Option Text
  -- `set_password(p)`: the changed URL, or `none` where it is an error
  pub set_password : Option Text → Url → Option Url
  -- `to_string()` and `as_str()`
  pub to_string : Url → Text

abbrev pub default_bind_addr : Text
default_bind_addr = codes "0.0.0.0:3000"

abbrev pub default_mempool_url : Text
default_mempool_url = codes "https://mempool.space/api/v1/lightning/nodes/rankings/connectivity"

abbrev pub default_import_interval_secs : ℕ
default_import_interval_secs = 60

abbrev pub default_http_client_timeout_secs : ℕ
default_http_client_timeout_secs = 10

-- The variables' names.
pub data Key : Type 0 where
  database_url_key bind_addr_key mempool_url_key import_interval_key http_timeout_key : Key

abbrev pub key_name : Key → Text
key_name database_url_key = codes "DATABASE_URL"
key_name bind_addr_key = codes "BIND_ADDR"
key_name mempool_url_key = codes "MEMPOOL_URL"
key_name import_interval_key = codes "IMPORT_INTERVAL_SECS"
key_name http_timeout_key = codes "HTTP_CLIENT_TIMEOUT_SECS"

pub data ConfigError : Type 0 where
  missing : Key → ConfigError
  -- the variable, its value and the reason
  invalid : Key → Text → Text → ConfigError

-- `Display` of a `ParseIntError`
abbrev pub parse_int_message : ParseIntError → Text
parse_int_message empty = codes "cannot parse integer from empty string"
parse_int_message invalid_digit = codes "invalid digit found in string"
parse_int_message pos_overflow = codes "number too large to fit in target type"

-- `Display` of a `ConfigError`; `quoted` is the `Debug` of a `str`.
unfoldable pub display : (Text → Text) → ConfigError → Text
display quoted (missing key) = codes "missing required environment variable " ++ key_name key
display quoted (invalid key value reason) =
    codes "invalid value "
    ++ (quoted value ++ (codes " for " ++ (key_name key ++ (codes ": " ++ reason))))

abbrev pub zero_reason : Text
zero_reason = codes "must be greater than zero"

abbrev pub unwrap_or {ℓ} : {A : Type ℓ} → Option A → A → A
unwrap_or none d = d
unwrap_or (some a) d = a

-- `.filter(|value| !value.is_empty())`
abbrev pub nonempty : Option Text → Option Text
nonempty none = none
nonempty (some []) = none
nonempty (some (c ∷ s)) = some (c ∷ s)

unfoldable pub parse_or_default {ℓ} :
    {T : Type ℓ} → Key → Option Text → Text → (Text → Result T Text) → Result T ConfigError
parse_or_default key value default parse =
    let raw = unwrap_or value default in map_err (invalid key raw) (parse raw)

-- The `match` of `parse_positive_secs`.
abbrev pub positive_secs : Key → Text → Result ℕ ParseIntError → Result ℕ ConfigError
positive_secs key raw (ok zero) = err (invalid key raw zero_reason)
positive_secs key raw (ok (suc n)) = ok (suc n)
positive_secs key raw (err e) = err (invalid key raw (parse_int_message e))

unfoldable pub parse_positive_secs : Key → Option Text → ℕ → Result ℕ ConfigError
parse_positive_secs key none default = ok default
parse_positive_secs key (some raw) default = positive_secs key raw (parse_u64 raw)

module _ (net : Net) where
  pub record Config : Type 0 where
    pub database_url : Text
    pub bind_addr : net.SocketAddr
    pub mempool_url : net.Url
    pub import_interval : ℕ
    pub http_client_timeout : ℕ

  -- A scheme holds only letters, digits, `+`, `-` and `.`, so `{:?}` writes it in quotes as it is.
  unfoldable pub check_scheme : net.Url → Result net.Url Text
  check_scheme url =
      if text_eq (net.scheme url) (codes "http") || text_eq (net.scheme url) (codes "https")
      then ok url
      else err
          (codes "unsupported scheme \"" ++ (net.scheme url ++ codes "\", expected http or https"))

  unfoldable pub parse_http_url : Text → Result net.Url Text
  unfolding check_scheme
  parse_http_url raw = do url ← net.parse_url raw; check_scheme url

  -- The five variables, each on its own; `get` is `lookup(key).filter(…)`.
  module _ (lookup : Text → Option Text) where
    abbrev pub get : Key → Option Text
    get key = nonempty (lookup (key_name key))

    unfoldable pub load_database_url : Result Text ConfigError
    load_database_url = ok_or (missing database_url_key) (get database_url_key)

    unfoldable pub load_bind_addr : Result net.SocketAddr ConfigError
    unfolding parse_or_default
    load_bind_addr =
        parse_or_default bind_addr_key (get bind_addr_key) default_bind_addr net.parse_socket_addr

    unfoldable pub load_mempool_url : Result net.Url ConfigError
    unfolding parse_or_default parse_http_url
    load_mempool_url =
        parse_or_default mempool_url_key (get mempool_url_key) default_mempool_url parse_http_url

    unfoldable pub load_import_interval : Result ℕ ConfigError
    unfolding parse_positive_secs
    load_import_interval =
        parse_positive_secs import_interval_key (get import_interval_key)
          default_import_interval_secs

    unfoldable pub load_http_client_timeout : Result ℕ ConfigError
    unfolding parse_positive_secs
    load_http_client_timeout =
        parse_positive_secs http_timeout_key (get http_timeout_key) default_http_client_timeout_secs

  unfoldable pub from_lookup : (Text → Option Text) → Result Config ConfigError
  from_lookup lookup = do
    database_url ← load_database_url lookup
    bind_addr ← load_bind_addr lookup
    mempool_url ← load_mempool_url lookup
    import_interval ← load_import_interval lookup
    http_client_timeout ← load_http_client_timeout lookup
    ok (record {
      database_url = database_url;
      bind_addr = bind_addr;
      mempool_url = mempool_url;
      import_interval = import_interval;
      http_client_timeout = http_client_timeout;
    })

  -- `env_var` is `std::env::var`, whose error `.ok()` forgets.
  unfoldable pub from_env : {E : Type 0} → (Text → Result Text E) → Result Config ConfigError
  unfolding from_lookup
  from_env env_var = from_lookup λ key. elim (env_var key) [ ok value ↦ some value | err _ ↦ none ]

  -- `redact_database_url` on a parsed URL
  unfoldable pub redact_url : net.Url → Text
  redact_url url = elim (net.password url) [
    | none ↦ net.to_string url
    | some _ ↦ elim (net.set_password (some (codes "***")) url) [
      | none ↦ codes "<redacted>"
      | some hidden ↦ net.to_string hidden
    ]
  ]

  unfoldable pub redact_database_url : Text → Text
  unfolding redact_url
  redact_database_url raw = elim (net.parse_url raw) [
    | ok url ↦ redact_url url
    | err _ ↦ codes "<unparsable>"
  ]

  -- What `Debug` writes of a field.
  pub data DebugValue : Type 0 where
    text : Text → DebugValue
    addr : net.SocketAddr → DebugValue
    secs : ℕ → DebugValue

  -- `impl fmt::Debug for Config`: the fields that are written, in order.
  unfoldable pub debug_fields : Config → List (Text × DebugValue)
  unfolding redact_database_url
  debug_fields config =
      (codes "database_url", text (redact_database_url config.database_url))
      ∷ (codes "bind_addr", addr config.bind_addr)
      ∷ (codes "mempool_url", text (net.to_string config.mempool_url))
      ∷ (codes "import_interval", secs config.import_interval)
      ∷ (codes "http_client_timeout", secs config.http_client_timeout)
      ∷ []
