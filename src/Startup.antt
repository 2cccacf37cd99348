-- ===== src/Startup.antt =====
-- src/main.rs, `main` up to the accept loops, and src/config.rs, `Config::load`. The file is read by
-- an argument, and so is its YAML (serde_yaml).
pub mod Outside
pub mod Loads
pub mod Domains
pub mod Registers
pub mod Success
mod Tests
use curf.Common.{ℕ, Option, none, some, Text, if◌then◌else◌, Result, ok, err}
use curf.Common.Dict.{Dict}
use curf.Config.{Config, DomainConfig}
use curf.Balancer.Manager
use curf.Balancer.Manager.{add_domains}
use curf.HealthCheck.{start_health_checks}
use curf.Proxy.State
use curf.Proxy.State.{ProxyHandler}
use curf.RateLimit
use curf.Security
use curf.Server
use curf.Server.{Server}
use curf.Ssl
use curf.Ssl.{SslManager, LoadError, load_domains, build, has_domains}
use Outside.{Machine}

pub record Args : Type 0 where
  pub config : Text
  pub http_port : Option ℕ
  pub https_port : Option ℕ

pub data StartError : Type 0 where
  cannot_read cannot_parse : Text → StartError
  cannot_load cannot_build : LoadError → StartError

abbrev pub or_port : ℕ → Option ℕ → ℕ
or_port configured none = configured
or_port configured (some p) = p

unfoldable pub overridden : Args → Config → Config
overridden args config = record config {
  server = record config.server {
    http_port = or_port config.server.http_port args.http_port;
    https_port = or_port config.server.https_port args.https_port;
  };
}

module _ (mc : Machine) where
  open mc use {world, tls, sem, read_to_string, from_str}

  unfoldable pub load : Text → Result Config StartError
  load path = elim (read_to_string path) [
    | none ↦ err (StartError.cannot_read path)
    | some raw ↦ elim (from_str raw) [
      | none ↦ err (StartError.cannot_parse path)
      | some config ↦ ok config
    ]
  ]

  -- What runs: the handler, the domains with health checks, and the two listeners. `https` is the
  -- port and the certificates of the second one, none where there is no domain with TLS.
  pub record Started : Type 1 where
    pub proxy : ProxyHandler world
    pub checked : Dict Text DomainConfig
    pub server : Server sem
    pub http_port : ℕ
    pub https : Option (ℕ × SslManager tls)

  -- Where there is a domain with TLS, an acceptor that cannot be built ends the program.
  unfoldable pub https_of : ℕ → SslManager tls → Result (Option (ℕ × SslManager tls)) StartError
  unfolding has_domains
  https_of port m =
      if has_domains tls m
      then elim (build tls m) [
        | err e ↦ err (StartError.cannot_build e)
        | ok built ↦ ok (some (port, built))
      ]
      else ok none

  unfoldable pub started : Config → Option (ℕ × SslManager tls) → Started
  started config https =
      let security = Security.new config.server.max_connections_per_ip config.server.security in
      record {
        proxy =
            State.new world (add_domains config.domains Manager.new)
              (RateLimit.new world.float config.server.rate_limit_rps
                config.server.rate_limit_burst)
              security config.domains;
        checked = start_health_checks config.domains;
        server = Server.start sem config.server.max_connections security;
        http_port = config.server.http_port;
        https = https;
      }

  abbrev with_certificates : Config → Result (SslManager tls) LoadError → Result Started StartError
  with_certificates config (err e) = err (StartError.cannot_load e)
  with_certificates config (ok m) = elim (https_of config.server.https_port m) [
    | err e ↦ err e
    | ok https ↦ ok (started config https)
  ]

  unfoldable pub main : Args → Result Started StartError
  unfolding load overridden https_of started
  main args = elim (load args.config) [
    | err e ↦ err e
    | ok loaded ↦
        let config = overridden args loaded in
        with_certificates config (load_domains tls config.domains (Ssl.new tls))
  ]
