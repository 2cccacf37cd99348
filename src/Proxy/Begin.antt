-- ===== src/Proxy/Begin.antt =====
-- What `begin` does to the balancers: nothing, or one choice, whose guard is held where the request is
-- forwarded and given back on every other way out.
use curf.Common.{
  ℕ, ◌≡◌, refl, inl, inr, Bool, true, false, not, ◌&&◌, Option, none, some, Text, codes,
  Option-cases, Result-cases, Bool-cases,
}
use curf.Common.Equality.{list_key, nat_key}
use curf.Common.Address.{IpAddr}
use curf.RateLimit.{is_allowed}
use curf.Waf.{check_request}
use curf.Balancer.{LoadBalancer, ConnectionGuard, select, drop_guard}
use curf.Balancer.Manager
use curf.Balancer.Manager.{LoadBalancerManager}
use curf.Proxy.{prepare, selected, forward, try_static, route, admit, begin}
use curf.Proxy.State.{Clock, Request, ProxyHandler, Progress, answered, forwarded, with_balancer}
use curf.Proxy.Responses.{or_text, redirects, host_of}
use curf.Proxy.Forwarding.{asked}
use curf.Proxy.Headers.{header_text, is_websocket_upgrade}
use curf.Proxy.Outside.{World}

-- The guard that a request holds, by its host and its backend.
abbrev pub held_by : (w : World) → Progress w → Option (Text × ℕ)
held_by w (answered r) = none
held_by w (forwarded q) = some (q.host, q.guard.index)

-- A property of the balancers and of the guard that is held, which a choice keeps: where it finds
-- nothing, where it gives a guard, and where the guard is given back at once.
pub record IsKept (Good : LoadBalancerManager → Option (Text × ℕ) → Type 0) : Type 0 where
  pub missed :
      (m : LoadBalancerManager) (host : Text) (now : ℕ) (ip : Option IpAddr) (lb lb' : LoadBalancer)
      → Good m none
      → Manager.get host m ≡ some lb
      → select now ip lb ≡ (lb', none)
      → Good (Manager.update host (λ _. lb') m) none
  pub taken :
      (m : LoadBalancerManager) (host : Text) (now : ℕ) (ip : Option IpAddr) (lb lb' : LoadBalancer)
      (url : Text) (g : ConnectionGuard)
      → Good m none
      → Manager.get host m ≡ some lb
      → select now ip lb ≡ (lb', some (url, g))
      → Good (Manager.update host (λ _. lb') m) (some (host, g.index))
  pub returned :
      (m : LoadBalancerManager) (host : Text) (g : ConnectionGuard)
      → Good m (some (host, g.index))
      → Good (Manager.update host (drop_guard g) m) none

module _ (w : World) (Good : LoadBalancerManager → Option (Text × ℕ) → Type 0)
    (kept : IsKept Good) where
  abbrev Keeps : ProxyHandler w × Progress w → Type 0
  Keeps (p', pr) = Good p'.lb_manager (held_by w pr)

  module _ (now : Clock) (peer : IpAddr) (host : Text) (req : Request w) (p : ProxyHandler w)
      (v : Good p.lb_manager none) where
    prepare-Keeps :
        (lb : LoadBalancer) (ws : Bool) (lb' : LoadBalancer) (url : Text) (g : ConnectionGuard)
        → Manager.get host p.lb_manager ≡ some lb
        → select now.unix (some peer) lb ≡ (lb', some (url, g))
        → Keeps (prepare w ws peer host req url g (with_balancer w host lb' p))
    unfolding prepare Manager.get
    prepare-Keeps lb ws lb' url g found e =
        let took = kept.taken p.lb_manager host now.unix (some peer) lb lb' url g v found e in
        let back = kept.returned (Manager.update host (λ _. lb') p.lb_manager) host g took in
        elim (Option-cases (w.http.parse_uri url)) [
          | inl bad ↦ rw (bad, prepare) back
          | inr (backend, parsed) ↦
              elim (Option-cases (w.http.parse_uri (or_text (codes "/") req.uri.path_and_query))) [
                | inl bad ↦ rw (parsed, bad, prepare) back
                | inr (origin, rewritten) ↦ rw (parsed, rewritten, prepare) took
              ]
        ]

    selected-Keeps :
        (lb : LoadBalancer) (ws : Bool) (r : LoadBalancer × Option (Text × ConnectionGuard))
        → Manager.get host p.lb_manager ≡ some lb
        → select now.unix (some peer) lb ≡ r
        → Keeps (selected w ws peer host req p r)
    selected-Keeps lb ws (lb', none) found e =
        kept.missed p.lb_manager host now.unix (some peer) lb lb' v found e
    selected-Keeps lb ws (lb', some (url, g)) found e = prepare-Keeps lb ws lb' url g found e

    forward-Keeps : (ws : Bool) → Keeps (forward w now ws peer host req p)
    unfolding forward Manager.get
    forward-Keeps ws = elim (Option-cases (Manager.get host p.lb_manager)) [
      | inl absent ↦ rw (absent, forward) v
      | inr (lb, found) ↦
          rw (found, forward) (selected-Keeps lb ws (select now.unix (some peer) lb) found refl)
    ]

    route-Keeps : Keeps (route w now peer host req p)
    unfolding route Manager.get
    route-Keeps = elim (Bool-cases (is_websocket_upgrade w req.headers)) [
      | inl ws ↦ rw (ws, route) (forward-Keeps true)
      | inr plain ↦ elim (Option-cases (try_static w host req p)) [
        | inl missing ↦ rw (plain, missing, route) (forward-Keeps false)
        | inr (r, there) ↦ rw (plain, there, route) v
      ]
    ]

  admit-Keeps :
      (now : Clock) (peer : IpAddr) (req : Request w) (is_tls : Bool) (p : ProxyHandler w)
      → Good p.lb_manager none
      → Keeps (admit w now peer req is_tls p)
  unfolding admit Manager.get
  admit-Keeps now peer req is_tls p v =
      elim (Result-cases (
        check_request w.lower p.security.flags req.uri.path req.uri.query
          (header_text w (codes "user-agent") req.headers))) [
            | inr (reason, bad) ↦ rw (bad, admit) v
            | inl (u, clean) ↦
                elim (Bool-cases
                  (not is_tls && redirects w (host_of w req.headers) p.domain_configs)) [
                    | inl moves ↦ rw (clean, moves, admit) v
                    | inr stays ↦
                        rw (clean, stays, admit)
                          (route-Keeps now peer (host_of w req.headers) req p v)
                  ]
          ]

  -- What a choice keeps, `begin` keeps, whatever becomes of the request.
  pub begin-Keeps :
      (now : Clock) (peer : IpAddr) (req : Request w) (is_tls : Bool) (p : ProxyHandler w)
      → Good p.lb_manager none
      → Good
          (begin w now peer req is_tls p).0.lb_manager
          (held_by w (begin w now peer req is_tls p).1)
  unfolding begin Manager.get
  begin-Keeps now peer req is_tls p v =
      elim (Bool-cases (is_allowed w.float now.instant peer p.rate_limiter).1) [
        | inl allowed ↦ rw (allowed, begin) (admit-Keeps now peer req is_tls (asked w now peer p) v)
        | inr refused ↦ rw (refused, begin) v
      ]
