-- ===== src/Proxy/State.antt =====
-- src/proxy.rs: the types of the handler, and `ProxyHandler::new`.
use curf.Common.{ℕ, Bool, Option, none, some, [], ◌∷◌, Text}
use curf.Common.Dict.{Dict, insert}
use curf.Common.Equality.{list_key, nat_key}
use curf.Config.{DomainConfig, StaticFilesConfig}
use curf.Security.{SecurityChecker}
use curf.RateLimit.{RateLimiter}
use curf.Balancer
use curf.Balancer.{LoadBalancer, ConnectionGuard, select, drop_guard}
use curf.Balancer.Manager
use curf.Balancer.Manager.{LoadBalancerManager}
use curf.ErrorPages.{Response}
use curf.Http.{Method, Uri}
use curf.StaticFiles.Serve.{StaticFileServer, join}
use curf.Proxy.Outside.{World}

-- `Instant::now()` in nanoseconds and `unix_now()` in seconds.
pub record Clock : Type 0 where
  pub instant : ℕ
  pub unix : ℕ

module _ (w : World) where
  open w use {files}

  pub record Request : Type 0 where
    pub method : Method
    pub uri : Uri
    pub headers : w.http.Headers

  pub record ProxyHandler : Type 0 where
    pub lb_manager : LoadBalancerManager
    pub rate_limiter : RateLimiter w.float.F
    pub security : SecurityChecker
    pub domain_configs : Dict Text DomainConfig
    pub static_servers : Dict Text StaticFileServer

  abbrev pub static_server_of : StaticFilesConfig → StaticFileServer
  static_server_of sf = record {
    root = join files [] sf.root;
    index_files = sf.index;
    autoindex = sf.autoindex;
  }

  -- The loop of `new` over the domains that have static files.
  unfoldable pub static_servers_of :
      Dict Text DomainConfig → Dict Text StaticFileServer → Dict Text StaticFileServer
  static_servers_of [] servers = servers
  static_servers_of ((domain, cfg) ∷ rest) servers = elim cfg.static_files [
    | none ↦ static_servers_of rest servers
    | some sf ↦ static_servers_of rest (insert domain (static_server_of sf) servers)
  ]

  unfoldable pub new :
      LoadBalancerManager
      → RateLimiter w.float.F
      → SecurityChecker
      → Dict Text DomainConfig
      → ProxyHandler
  unfolding static_servers_of
  new manager limiter security configs = record {
    lb_manager = manager;
    rate_limiter = limiter;
    security = security;
    domain_configs = configs;
    static_servers = static_servers_of configs [];
  }

  -- A request that waits for its backend, with the guard that it holds.
  pub record Pending : Type 0 where
    pub websocket : Bool
    pub host : Text
    pub url : Text
    pub guard : ConnectionGuard
    pub address : Text
    pub request : Request

  -- `answered none` is the panic of a builder's `unwrap`.
  pub data Progress : Type 0 where
    answered : Option (Response w.http) → Progress
    forwarded : Pending → Progress

  pub data Outcome : Type 0 where
    connect_timeout connect_failed handshake_failed request_timeout request_failed : Outcome
    responded : Response w.http → Outcome

  abbrev pub with_balancer : Text → LoadBalancer → ProxyHandler → ProxyHandler
  with_balancer host lb p = record p { lb_manager = Manager.update host (λ _. lb) p.lb_manager }

  abbrev pub drop_at : Text → ConnectionGuard → ProxyHandler → ProxyHandler
  drop_at host g p = record p { lb_manager = Manager.update host (drop_guard g) p.lb_manager }

  abbrev pub success_at : Text → Text → ProxyHandler → ProxyHandler
  success_at host url p = record p {
    lb_manager = Manager.update host (Balancer.success url) p.lb_manager;
  }
