-- ===== src/Config.antt =====
-- src/config.rs: the configuration types and their default values. A file's text is read by serde
-- and serde_yaml, which are not modelled; what their `#[serde(default)]` attributes do with a key
-- that the file leaves out is `Config/Fields.antt`.
pub mod Fields
use curf.Common.{ℕ, Bool, true, false, Option, none, List, [], ◌∷◌, Text, codes}
use curf.Common.Dict.{Dict}

pub record SecurityFlags : Type 0 where
  pub waf_sqli : Bool
  pub waf_xss : Bool
  pub waf_path_traversal : Bool
  pub block_tls_abusers : Bool
  pub max_tls_failures : ℕ
  pub block_empty_user_agent : Bool

pub record ServerConfig : Type 0 where
  pub http_port : ℕ
  pub https_port : ℕ
  pub timeout_secs : ℕ
  pub max_connections : ℕ
  pub max_connections_per_ip : ℕ
  pub rate_limit_rps : ℕ
  pub rate_limit_burst : ℕ
  pub security : SecurityFlags

pub data LoadBalance : Type 0 where
  round_robin least_connections ip_hash : LoadBalance

pub record TlsConfig : Type 0 where
  pub cert : Text
  pub key : Text

pub record StaticFilesConfig : Type 0 where
  pub root : Text
  pub index : List Text
  pub autoindex : Bool

pub record HealthCheckConfig : Type 0 where
  pub enabled : Bool
  pub interval_secs : ℕ
  pub timeout_secs : ℕ
  pub path : Text

pub record ExtraHeader : Type 0 where
  pub name : Text
  pub value : Text

pub record DomainConfig : Type 0 where
  pub backends : List Text
  pub load_balance : LoadBalance
  pub tls : Option TlsConfig
  pub static_files : Option StaticFilesConfig
  pub redirect_to_https : Bool
  pub health_check : HealthCheckConfig
  pub headers : List ExtraHeader

pub record Config : Type 0 where
  pub server : ServerConfig
  pub domains : Dict Text DomainConfig

abbrev pub default_http_port : ℕ
default_http_port = 80

abbrev pub default_https_port : ℕ
default_https_port = 443

abbrev pub default_timeout : ℕ
default_timeout = 30

abbrev pub default_max_connections : ℕ
default_max_connections = 10_000

abbrev pub default_max_connections_per_ip : ℕ
default_max_connections_per_ip = 100

abbrev pub default_rps : ℕ
default_rps = 100

abbrev pub default_burst : ℕ
default_burst = 200

abbrev pub default_true : Bool
default_true = true

abbrev pub default_false : Bool
default_false = false

abbrev pub default_tls_failures : ℕ
default_tls_failures = 10

abbrev pub default_hc_interval : ℕ
default_hc_interval = 15

abbrev pub default_hc_timeout : ℕ
default_hc_timeout = 5

abbrev pub default_hc_path : Text
default_hc_path = codes "/"

abbrev pub default_index_files : List Text
default_index_files = codes "index.html" ∷ []

-- The `Default` implementations.
abbrev pub default_security_flags : SecurityFlags
default_security_flags = record {
  waf_sqli = true;
  waf_xss = true;
  waf_path_traversal = true;
  block_tls_abusers = true;
  max_tls_failures = default_tls_failures;
  block_empty_user_agent = false;
}

abbrev pub default_server_config : ServerConfig
default_server_config = record {
  http_port = default_http_port;
  https_port = default_https_port;
  timeout_secs = default_timeout;
  max_connections = default_max_connections;
  max_connections_per_ip = default_max_connections_per_ip;
  rate_limit_rps = default_rps;
  rate_limit_burst = default_burst;
  security = default_security_flags;
}

abbrev pub default_health_check_config : HealthCheckConfig
default_health_check_config = record {
  enabled = true;
  interval_secs = default_hc_interval;
  timeout_secs = default_hc_timeout;
  path = default_hc_path;
}

-- A domain that names its backends and leaves the rest to the defaults.
abbrev pub default_domain_config : List Text → DomainConfig
default_domain_config backends = record {
  backends = backends;
  load_balance = round_robin;
  tls = none;
  static_files = none;
  redirect_to_https = false;
  health_check = default_health_check_config;
  headers = [];
}
