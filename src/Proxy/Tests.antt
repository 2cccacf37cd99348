-- ===== src/Proxy/Tests.antt =====
-- A proxy for one domain with one backend, and the theorems at its requests.
use curf.Common.{ℕ, ◌≡◌, refl, false, none, some, List, [], ◌∷◌, Text, codes, arith}
use curf.Common.Address.{IpAddr, v4, ip_key}
use curf.Common.Dict.{Dict, lookup, insert}
use curf.Common.Equality.{list_key, nat_key}
use curf.Common.Search.{contains}
use curf.Config.{round_robin, DomainConfig, default_domain_config, default_security_flags}
use curf.Backend
use curf.Backend.{Backend}
use curf.Common.Decimal.{decimal}
use curf.Balancer
use curf.Balancer.{LoadBalancer, ConnectionGuard, select}
use curf.Balancer.Manager
use curf.Balancer.Manager.{AreDistinct, add_domains}
use curf.Balancer.Tally.{count}
use curf.ErrorPages.{Response, error_response}
use curf.Http.{text, Uri, get}
use curf.RateLimit
use curf.RateLimit.{RateLimiter, is_allowed}
use curf.RateLimit.Window.{exact}
use curf.Security
use curf.Security.{SecurityChecker}
use curf.Waf.{check_request}
use curf.Proxy.{begin, finish}
use curf.Proxy.State.{Clock, Request, ProxyHandler, Pending, Progress, forwarded, new}
use curf.Proxy.Responses.{host_of}
use curf.Proxy.Headers.{
  header_text, x_forwarded_for, forwarded_for, add_forwarding_headers, inject_extra_headers,
  is_websocket_upgrade,
}
use curf.Proxy.HeaderLaws.{
  find-add_forwarding_headers, with_address, inject_extra_headers_lem, configured, or_found,
  headers_of, own_value,
}
use curf.Proxy.Forwarding.{IsForwarded, begin-IsForwarded}
use curf.Proxy.Interleaving.{Busy, Event, arrives, run, idle, run-active, step}
use curf.Proxy.Traffic.{arriving, run-AreClosed}
use curf.Proxy.Waiting.{guards_in}
use curf.Balancer.Closed.{AreClosed}
use curf.Proxy.Table.{world, table, table-IsHttp, upstream, find_seen, all_visible_sound}

abbrev ann : IpAddr
ann = v4 1

abbrev configs : Dict Text DomainConfig
configs =
    (
      codes "a.org",
      record (default_domain_config (codes "http://h" ∷ [])) {
        headers = record { name = codes "x-powered-by"; value = codes "curf" } ∷ [];
      },
    )
    ∷ []

abbrev limiter : RateLimiter ℕ
limiter = RateLimit.new exact 1 1

abbrev security : SecurityChecker
security = Security.new 1 default_security_flags

abbrev fresh : ProxyHandler world
fresh = (idle world configs limiter security).proxy

abbrev target : Uri
target = record {
  host = none;
  port = none;
  path = codes "/x";
  query = none;
  path_and_query = some (codes "/x");
}

abbrev request : Request world
request = record {
  method = get;
  uri = target;
  headers =
      (codes "host", text (codes "a.org:80")) ∷ (x_forwarded_for, text (codes "9.9.9.9")) ∷ [];
}

abbrev now : Clock
now = record { instant = 0; unix = 100 }

proxy : Unit {0}
unfolding begin finish new add_domains is_allowed check_request select Backend.is_healthy
    Backend.acquire host_of lookup insert Manager.get Manager.update add_forwarding_headers
    inject_extra_headers Security.new RateLimit.new header_text forwarded_for own_value contains
    is_websocket_upgrade Manager.new Balancer.new Balancer.probe run step
proxy = tt

abbrev first_step : ProxyHandler world × Progress world
first_step = begin world now ann request false fresh

abbrev waits : Pending world
waits = record {
  websocket = false;
  host = codes "a.org";
  url = codes "http://h";
  guard = record { index = 0 };
  address = codes "h:80";
  request = record request {
    uri = upstream;
    headers = add_forwarding_headers world ann (codes "a.org") request.headers;
  };
}

forwards : first_step ≡ (first_step.0, forwarded waits)
unfolding proxy decimal
forwards = refl

begin-IsForwarded_example : IsForwarded world now ann request false fresh first_step.0 waits
begin-IsForwarded_example =
    begin-IsForwarded world now ann request false fresh first_step.0 waits forwards

abbrev events : List (Event world)
events = arrives now ann request false ∷ []

abbrev busy : Busy world
busy = run world (idle world configs limiter security) events

abbrev one_active : Backend
one_active = record {
  url = codes "http://h";
  active = 1;
  failures = 0;
  last_failure = 0;
  circuit_open = false;
}

abbrev balancer : LoadBalancer
balancer = record { backends = one_active ∷ []; strategy = round_robin; cursor = 1 }

counts_one :
    (Manager.get (codes "a.org") busy.proxy.lb_manager ≡ some balancer)
    × (count 0 (guards_in world busy.waiting (codes "a.org")) ≡ 1)
unfolding proxy
counts_one = (refl, refl)

run-active_example : 1 ≡ count 0 (guards_in world busy.waiting (codes "a.org"))
run-active_example =
    run-active world configs limiter security events (codes "a.org") balancer 0 one_active (tt, tt)
      (omega arith) counts_one.0 refl

run-AreClosed_example : AreClosed (one_active ∷ [])
run-AreClosed_example =
    run-AreClosed world configs limiter security events (codes "a.org") balancer (tt, tt)
      (arriving now ann request false, tt) counts_one.0

find-add_forwarding_headers_example :
    find_seen x_forwarded_for (add_forwarding_headers world ann (codes "a.org") request.headers)
    ≡ some (text (with_address (find_seen x_forwarded_for request.headers) (codes "10.0.0.1")))
find-add_forwarding_headers_example =
    find-add_forwarding_headers world table-IsHttp ann (all_visible_sound (codes "10.0.0.1") refl)
      (codes "a.org") request.headers x_forwarded_for (all_visible_sound (codes "a.org") refl)

appends : forwarded_for world ann request.headers ≡ codes "9.9.9.9, 10.0.0.1"
unfolding proxy
appends = refl

abbrev answer : Response table
answer = error_response table 502 (codes "x")

inject_extra_headers_lem_example :
    let r' = inject_extra_headers world (codes "a.org") configs answer in
    (find_seen (codes "x-powered-by") r'.headers
      ≡ or_found
          (configured world (codes "x-powered-by") (headers_of (lookup (codes "a.org") configs)))
          (find_seen (codes "x-powered-by") answer.headers))
    × (r'.status ≡ answer.status)
    × (r'.body ≡ answer.body)
inject_extra_headers_lem_example =
    inject_extra_headers_lem world table-IsHttp (codes "a.org") configs answer
      (codes "x-powered-by")

injects :
    configured world (codes "x-powered-by") (headers_of (lookup (codes "a.org") configs))
    ≡ some (text (codes "curf"))
unfolding proxy
injects = refl
