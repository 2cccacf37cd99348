-- ===== src/Proxy.antt =====
-- src/proxy.rs, `ProxyHandler`. A request is handled in two steps, between which others run: `begin`
-- is `handle` up to the wait for the backend, and holds a guard where it forwards the request;
-- `finish` is the rest, with what became of the connection. `handle` is the two together.
pub mod Outside
pub mod State
pub mod Responses
pub mod Headers
pub mod Forwarding
pub mod HeaderLaws
pub mod Ledger
pub mod Begin
pub mod Waiting
pub mod Interleaving
pub mod Traffic
pub mod Table
mod Tests
use curf.Common.{
  ℕ, Bool, true, false, not, ◌&&◌, Option, none, some, List, [], ◌∷◌, ◌++◌, Text, codes,
  if◌then◌else◌, Result, ok, err, nat_beq,
}
use curf.Common.Address.{IpAddr}
use curf.Common.Decimal.{decimal}
use curf.Common.Dict.{Dict, lookup, insert}
use curf.Common.Equality.{list_key, nat_key}
use curf.Config.{DomainConfig, StaticFilesConfig}
use curf.Security.{SecurityChecker}
use curf.Waf.{check_request}
use curf.RateLimit.{RateLimiter, is_allowed}
use curf.Balancer
use curf.Balancer.{LoadBalancer, ConnectionGuard, select, drop_guard}
use curf.Balancer.Manager
use curf.Balancer.Manager.{LoadBalancerManager}
use curf.ErrorPages.{Response, error_response, html_error, content_type, cache_control}
use curf.Http.{Http, Method, HeaderValue, Uri, text}
use curf.StaticFiles.Serve
use curf.StaticFiles.Serve.{StaticFileServer, RequestHeaders, serve, join}
use curf.StaticFiles.Listing.{directory_listing}
use Outside.{World}
use Headers.{header_text, is_websocket_upgrade, add_forwarding_headers, inject_extra_headers}
use State.{
  Clock, Request, ProxyHandler, Pending, Progress, answered, forwarded, Outcome, responded,
  with_balancer, drop_at, success_at,
}
use Responses.{
  or_text, or_port, host_of, forbidden, too_many_requests, bad_gateway, redirect, redirects,
  request_headers, static_response, switching_protocols,
}

module _ (w : World) where
  open w use {float, http, files, decode, lower}

  abbrev pub address_of : Uri → Text
  address_of backend =
      or_text (codes "localhost") backend.host ++ (codes ":" ++ decimal (or_port backend.port))

  abbrev pub outbound : IpAddr → Text → Uri → Request w → Request w
  outbound peer host origin req = record req {
    uri = origin;
    headers = add_forwarding_headers w peer host req.headers;
  }

  -- From the backend that was selected to the connection. A uri that does not parse ends the
  -- request, and drops the guard.
  unfoldable pub prepare :
      Bool
      → IpAddr
      → Text
      → Request w
      → Text
      → ConnectionGuard
      → ProxyHandler w
      → ProxyHandler w × Progress w
  prepare websocket peer host req url g p = elim (http.parse_uri url) [
    | none ↦ (drop_at w host g p, answered (some (bad_gateway w websocket)))
    | some backend ↦ elim (http.parse_uri (or_text (codes "/") req.uri.path_and_query)) [
      | none ↦ (drop_at w host g p, answered (some (bad_gateway w websocket)))
      | some origin ↦ (
        p,
        forwarded (record {
          websocket = websocket;
          host = host;
          url = url;
          guard = g;
          address = address_of backend;
          request = outbound peer host origin req;
        }),
      )
    ]
  ]

  abbrev pub selected :
      Bool
      → IpAddr
      → Text
      → Request w
      → ProxyHandler w
      → LoadBalancer × Option (Text × ConnectionGuard)
      → ProxyHandler w × Progress w
  selected websocket peer host req p (lb, none) =
      (with_balancer w host lb p, answered (some (bad_gateway w websocket)))
  selected websocket peer host req p (lb, some (url, g)) =
      prepare websocket peer host req url g (with_balancer w host lb p)

  -- `proxy_http` and `proxy_websocket` up to the connection.
  unfoldable pub forward :
      Clock → Bool → IpAddr → Text → Request w → ProxyHandler w → ProxyHandler w × Progress w
  unfolding prepare
  forward now websocket peer host req p = elim (Manager.get host p.lb_manager) [
    | none ↦ (p, answered (some (bad_gateway w websocket)))
    | some lb ↦ selected websocket peer host req p (select now.unix (some peer) lb)
  ]

  abbrev pub proxy_http :
      Clock → IpAddr → Text → Request w → ProxyHandler w → ProxyHandler w × Progress w
  proxy_http now peer host req p = forward now false peer host req p

  abbrev pub proxy_websocket :
      Clock → IpAddr → Text → Request w → ProxyHandler w → ProxyHandler w × Progress w
  proxy_websocket now peer host req p = forward now true peer host req p

  unfoldable pub try_static : Text → Request w → ProxyHandler w → Option (Response w.http)
  unfolding request_headers static_response
  try_static host req p = elim (lookup host p.static_servers) [
    | none ↦ none
    | some sf ↦
        elim (serve files decode sf req.uri.path req.method (request_headers w req.headers)) [
          | none ↦ none
          | some r ↦ some (static_response w r)
        ]
  ]

  unfoldable pub route :
      Clock → IpAddr → Text → Request w → ProxyHandler w → ProxyHandler w × Progress w
  unfolding forward try_static
  route now peer host req p =
      if is_websocket_upgrade w req.headers
      then proxy_websocket now peer host req p
      else elim (try_static host req p) [
        | some r ↦ (p, answered (some (inject_extra_headers w host p.domain_configs r)))
        | none ↦ proxy_http now peer host req p
      ]

  unfoldable pub admit :
      Clock → IpAddr → Request w → Bool → ProxyHandler w → ProxyHandler w × Progress w
  unfolding route redirects redirect host_of
  admit now peer req is_tls p =
      let host = host_of w req.headers in
      elim (check_request lower p.security.flags req.uri.path req.uri.query
        (header_text w (codes "user-agent") req.headers)) [
          | err reason ↦ (p, answered (some (forbidden w reason)))
          | ok _ ↦
              if not is_tls && redirects w host p.domain_configs
              then (p, answered (redirect w host req.uri))
              else route now peer host req p
        ]

  unfoldable pub begin :
      Clock → IpAddr → Request w → Bool → ProxyHandler w → ProxyHandler w × Progress w
  unfolding admit
  begin now peer req is_tls p =
      let (limiter, allowed) = is_allowed float now.instant peer p.rate_limiter in
      let asked = record p { rate_limiter = limiter } in
      if not allowed
      then (asked, answered (some (too_many_requests w)))
      else admit now peer req is_tls asked

  unfoldable pub finish_websocket :
      Pending w → Outcome w → ProxyHandler w → ProxyHandler w × Response w.http
  finish_websocket q (responded r) p = (
    drop_at w q.host q.guard p,
    if nat_beq r.status 101 then switching_protocols w else bad_gateway w true,
  )
  finish_websocket q _ p = (drop_at w q.host q.guard p, bad_gateway w true)

  unfoldable pub finish_http :
      Pending w → Outcome w → ProxyHandler w → ProxyHandler w × Response w.http
  finish_http q (responded r) p = (
    drop_at w q.host q.guard (success_at w q.host q.url p),
    inject_extra_headers w q.host p.domain_configs r,
  )
  finish_http q _ p = (drop_at w q.host q.guard p, bad_gateway w false)

  unfoldable pub finish : Pending w → Outcome w → ProxyHandler w → ProxyHandler w × Response w.http
  unfolding finish_websocket finish_http
  finish q outcome p = if q.websocket then finish_websocket q outcome p else finish_http q outcome p

  -- A request whose connection ends before its backend has answered: the future of `handle` is
  -- dropped, and its guard with it.
  unfoldable pub abandon : Pending w → ProxyHandler w → ProxyHandler w
  abandon q p = drop_at w q.host q.guard p

  abbrev pub concluded :
      Pending w → ProxyHandler w × Response w.http → ProxyHandler w × Option (Response w.http)
  concluded q (p, r) = (p, some r)

  -- A request that runs with no other beside it.
  unfoldable pub handle :
      Clock
      → IpAddr
      → Request w
      → Bool
      → (Pending w → Outcome w)
      → ProxyHandler w
      → ProxyHandler w × Option (Response w.http)
  handle now peer req is_tls backend p =
      let (p', progress) = begin now peer req is_tls p in
      elim progress [ answered r ↦ (p', r) | forwarded q ↦ concluded q (finish q (backend q) p') ]
