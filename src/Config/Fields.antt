-- ===== src/Config/Fields.antt =====
-- The `#[serde(default)]` attributes of src/config.rs: a section of the file is read as the keys
-- that it gives, each an `Option`, and a key that is left out takes the default of its attribute.
-- A key without the attribute is a plain field: the file must give it.
use mathlib.Core.Option
use curf.Common.{ℕ, Bool, Option, none, some, Text, ◌≡◌, refl}
use curf.Config.{
  SecurityFlags, ServerConfig, HealthCheckConfig, default_http_port, default_https_port,
  default_timeout, default_max_connections, default_max_connections_per_ip, default_rps,
  default_burst, default_true, default_false, default_tls_failures, default_hc_interval,
  default_hc_timeout, default_hc_path, default_security_flags, default_server_config,
  default_health_check_config,
}

abbrev or_default {ℓ} : {A : Type ℓ} → Option A → A → A
or_default none d = d
or_default (some a) d = a

pub record SecurityFields : Type 0 where
  pub waf_sqli : Option Bool
  pub waf_xss : Option Bool
  pub waf_path_traversal : Option Bool
  pub block_tls_abusers : Option Bool
  pub max_tls_failures : Option ℕ
  pub block_empty_user_agent : Option Bool

pub record ServerFields : Type 0 where
  pub http_port : Option ℕ
  pub https_port : Option ℕ
  pub timeout_secs : Option ℕ
  pub max_connections : Option ℕ
  pub max_connections_per_ip : Option ℕ
  pub rate_limit_rps : Option ℕ
  pub rate_limit_burst : Option ℕ
  pub security : Option SecurityFields

pub record HealthCheckFields : Type 0 where
  pub enabled : Option Bool
  pub interval_secs : Option ℕ
  pub timeout_secs : Option ℕ
  pub path : Option Text

unfoldable pub security_of : SecurityFields → SecurityFlags
security_of f = record {
  waf_sqli = or_default f.waf_sqli default_true;
  waf_xss = or_default f.waf_xss default_true;
  waf_path_traversal = or_default f.waf_path_traversal default_true;
  block_tls_abusers = or_default f.block_tls_abusers default_true;
  max_tls_failures = or_default f.max_tls_failures default_tls_failures;
  block_empty_user_agent = or_default f.block_empty_user_agent default_false;
}

unfoldable pub server_of : ServerFields → ServerConfig
unfolding security_of
server_of f = record {
  http_port = or_default f.http_port default_http_port;
  https_port = or_default f.https_port default_https_port;
  timeout_secs = or_default f.timeout_secs default_timeout;
  max_connections = or_default f.max_connections default_max_connections;
  max_connections_per_ip = or_default f.max_connections_per_ip default_max_connections_per_ip;
  rate_limit_rps = or_default f.rate_limit_rps default_rps;
  rate_limit_burst = or_default f.rate_limit_burst default_burst;
  security = or_default (Option.map security_of f.security) default_security_flags;
}

unfoldable pub health_check_of : HealthCheckFields → HealthCheckConfig
health_check_of f = record {
  enabled = or_default f.enabled default_true;
  interval_secs = or_default f.interval_secs default_hc_interval;
  timeout_secs = or_default f.timeout_secs default_hc_timeout;
  path = or_default f.path default_hc_path;
}

no_server : ServerFields
no_server = record {
  http_port = none;
  https_port = none;
  timeout_secs = none;
  max_connections = none;
  max_connections_per_ip = none;
  rate_limit_rps = none;
  rate_limit_burst = none;
  security = none;
}

-- An empty `server` section reads as a `server` key that is left out.
empty_server : server_of no_server ≡ default_server_config
unfolding server_of no_server
empty_server = refl

-- An empty `health_check` section reads as one that is left out.
empty_health_check :
    health_check_of
      (record { enabled = none; interval_secs = none; timeout_secs = none; path = none })
    ≡ default_health_check_config
unfolding health_check_of
empty_health_check = refl
