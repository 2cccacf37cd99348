-- ===== src/Proxy/Forwarding.antt =====
-- Which requests are forwarded, and what is sent.
use curf.Common.{
  ◌≡◌, ◌⊎◌, inl, inr, Bool, true, false, none, some, Text, codes, arith, ok, Option-cases,
  Bool-cases,
}
use curf.Common.Address.{IpAddr}
use curf.RateLimit.{is_allowed}
use curf.Waf.{check_request}
use curf.Http.{Uri}
use curf.Balancer.{LoadBalancer, select}
use curf.Balancer.Manager
use curf.Balancer.Choice.{IsGrant, select-IsGrant}
use curf.Proxy.{address_of, outbound, prepare, forward, try_static, route, admit, begin}
use curf.Proxy.State.{Clock, Request, ProxyHandler, Pending, forwarded, with_balancer}
use curf.Proxy.Responses.{or_text, redirects, host_of}
use curf.Proxy.Headers.{header_text, is_websocket_upgrade}
use curf.Proxy.Outside.{World}

module _ (w : World) where
  -- What `forward` has done when it waits for a backend: a guard of the domain's balancer is held,
  -- and the request goes to the backend's address with its forwarding headers.
  pub record IsSent (now : Clock) (peer : IpAddr) (host : Text) (req : Request w)
      (p p' : ProxyHandler w) (q : Pending w) : Type 0 where
    pub lb : LoadBalancer
    pub lb' : LoadBalancer
    pub found : Manager.get host p.lb_manager ≡ some lb
    pub chosen : select now.unix (some peer) lb ≡ (lb', some (q.url, q.guard))
    pub changed : p' ≡ with_balancer w host lb' p
    pub hosted : q.host ≡ host
    pub backend : Uri
    pub origin : Uri
    pub parsed : w.http.parse_uri q.url ≡ some backend
    pub addressed : q.address ≡ address_of w backend
    pub rewritten : w.http.parse_uri (or_text (codes "/") req.uri.path_and_query) ≡ some origin
    pub sent : q.request ≡ outbound w peer host origin req

  module _ (now : Clock) (ws : Bool) (peer : IpAddr) (host : Text) (req : Request w)
      (p p' : ProxyHandler w) (q : Pending w) where
    forward-IsSent :
        forward w now ws peer host req p ≡ (p', forwarded q) → IsSent now peer host req p p' q
    unfolding forward prepare
    forward-IsSent e = elim (Option-cases (Manager.get host p.lb_manager)) [
      | inl absent ↦ absurd (ground arith)
      | inr (lb, found) ↦ elim (Option-cases (select now.unix (some peer) lb).1) [
        | inl down ↦ absurd (ground arith)
        | inr ((url, g), up) ↦ elim (Option-cases (w.http.parse_uri url)) [
          | inl bad ↦ absurd (ground arith)
          | inr (backend, parsed) ↦
              elim (Option-cases (w.http.parse_uri (or_text (codes "/") req.uri.path_and_query))) [
                | inl bad ↦ absurd (ground arith)
                | inr (origin, rewritten) ↦ record {
                  lb = lb;
                  lb' = (select now.unix (some peer) lb).0;
                  found = found;
                  chosen = ground arith;
                  changed = ground arith;
                  hosted = ground arith;
                  backend = backend;
                  origin = origin;
                  parsed = ground arith;
                  addressed = ground arith;
                  rewritten = rewritten;
                  sent = ground arith;
                }
              ]
        ]
      ]
    ]

  -- The state after the rate limiter has been asked.
  abbrev pub asked : Clock → IpAddr → ProxyHandler w → ProxyHandler w
  asked now peer p = record p {
    rate_limiter = (is_allowed w.float now.instant peer p.rate_limiter).0;
  }

  -- What is known of a request that is forwarded.
  pub record IsForwarded (now : Clock) (peer : IpAddr) (req : Request w) (is_tls : Bool)
      (p p' : ProxyHandler w) (q : Pending w) : Type 0 where
    pub allowed : (is_allowed w.float now.instant peer p.rate_limiter).1 ≡ true
    pub clean :
        check_request w.lower p.security.flags req.uri.path req.uri.query
          (header_text w (codes "user-agent") req.headers)
        ≡ ok tt
    pub direct : (is_tls ≡ true) ⊎ (redirects w (host_of w req.headers) p.domain_configs ≡ false)
    pub no_file :
        (is_websocket_upgrade w req.headers ≡ true)
        ⊎ (try_static w (host_of w req.headers) req p ≡ none)
    pub sent : IsSent now peer (host_of w req.headers) req (asked now peer p) p' q
    pub grant : IsGrant now.unix sent.lb sent.lb' q.url q.guard.index

  module _ (now : Clock) (peer : IpAddr) (req : Request w) (p p' : ProxyHandler w)
      (q : Pending w) where
    route-IsSent :
        (host : Text)
        → route w now peer host req p ≡ (p', forwarded q)
        → ((is_websocket_upgrade w req.headers ≡ true) ⊎ (try_static w host req p ≡ none))
          × IsSent now peer host req p p' q
    unfolding route
    route-IsSent host e = elim (Bool-cases (is_websocket_upgrade w req.headers)) [
      | inl ws ↦ (inl ws, forward-IsSent now true peer host req p p' q (ground arith))
      | inr plain ↦ elim (Option-cases (try_static w host req p)) [
        | inl none_there ↦
            (inr none_there, forward-IsSent now false peer host req p p' q (ground arith))
        | inr (r, there) ↦ absurd (ground arith)
      ]
    ]

    admit-route :
        (is_tls : Bool)
        → admit w now peer req is_tls p ≡ (p', forwarded q)
        → (check_request w.lower p.security.flags req.uri.path req.uri.query
              (header_text w (codes "user-agent") req.headers)
            ≡ ok tt)
          × ((is_tls ≡ true) ⊎ (redirects w (host_of w req.headers) p.domain_configs ≡ false))
          × (route w now peer (host_of w req.headers) req p ≡ (p', forwarded q))
    unfolding admit
    admit-route is_tls e = (ground arith, ground arith, ground arith)

  -- A request is forwarded only when the rate limiter allows its address and the filter finds it
  -- clean, when it is not to be redirected, and when it is a WebSocket handshake or no static file
  -- answers it; then it holds a guard of a backend of its host that may receive traffic, and goes to
  -- that backend's address with the forwarding headers.
  pub begin-IsForwarded :
      (now : Clock) (peer : IpAddr) (req : Request w) (is_tls : Bool) (p p' : ProxyHandler w)
      (q : Pending w)
      → begin w now peer req is_tls p ≡ (p', forwarded q)
      → IsForwarded now peer req is_tls p p' q
  unfolding begin
  begin-IsForwarded now peer req is_tls p p' q e =
      let (clean, direct, routed) =
        admit-route now peer req (asked now peer p) p' q is_tls (ground arith) in
      let (no_file, sent) =
        route-IsSent now peer req (asked now peer p) p' q (host_of w req.headers) routed in
      record {
        allowed = ground arith;
        clean = clean;
        direct = direct;
        no_file = no_file;
        sent = sent;
        grant = select-IsGrant now.unix (some peer) sent.lb sent.lb' q.url q.guard sent.chosen;
      }
