-- ===== src/Proxy/Traffic.antt =====
-- Traffic alone opens no circuit: the handler tells the balancers of successes only.
use curf.Common.{
  ℕ, ◌≡◌, sym, ◌∙◌, inl, inr, Bool, Option, none, some, List, [], ◌∷◌, Text, arith, Option-cases,
  Bool-cases, subst, All, get_elem?,
}
use curf.Common.Address.{IpAddr}
use curf.Common.Dict.{Dict, lookup}
use curf.Common.Equality.{◌==◌, list_key, nat_key, list_beq_iff}
use curf.Config.{DomainConfig}
use curf.Security.{SecurityChecker}
use curf.RateLimit.{RateLimiter}
use curf.Balancer
use curf.Balancer.{LoadBalancer, ConnectionGuard, select, drop_guard, success}
use curf.Balancer.Closed.{
  AreClosed, select-AreClosed, drop_guard-AreClosed, success-AreClosed, new-AreClosed,
}
use curf.Balancer.Manager
use curf.Balancer.Manager.{LoadBalancerManager, AreDistinct, add_domains, get-add_domains}
use curf.Proxy.{begin, finish, abandon}
use curf.Proxy.State.{
  Clock, Request, ProxyHandler, Pending, Progress, answered, forwarded, Outcome, new,
}
use curf.Proxy.Ledger.{at_host, elsewhere}
use curf.Proxy.Interleaving.{Busy, Event, arrives, hears, leaves, begun, step, run, idle}
use curf.Proxy.Begin.{begin-Keeps, IsKept}
use curf.Proxy.Waiting.{finish-manager}
use curf.Proxy.Outside.{World}

abbrev pub AllClosed : LoadBalancerManager → Type 0
AllClosed m = (d : Text) (lb : LoadBalancer) → Manager.get d m ≡ some lb → AreClosed lb.backends

update-AllClosed :
    (host : Text) (f : LoadBalancer → LoadBalancer) (m : LoadBalancerManager)
    → ((lb : LoadBalancer)
        → Manager.get host m ≡ some lb
        → AreClosed lb.backends
        → AreClosed (f lb).backends)
    → AllClosed m
    → AllClosed (Manager.update host f m)
update-AllClosed host f m kept v d lb' e = elim (Bool-cases (host == d)) [
  | inl same ↦
      subst (λ k. Manager.get k (Manager.update host f m) ≡ some lb' → AreClosed lb'.backends)
        ((list_beq_iff host d).0 same)
        (λ here.
          let (lb, found, becomes) = at_host host f m lb' here in
          subst (λ b. AreClosed b.backends) becomes (kept lb found (v host lb found)))
        e
  | inr other ↦ v d lb' (sym (elsewhere host d f m other) ∙ e)
]

abbrev Closed : LoadBalancerManager → Option (Text × ℕ) → Type 0
Closed m held = AllClosed m

Closed-IsKept : IsKept Closed
Closed-IsKept = record {
  missed = λ m host now ip lb lb' v found e.
      update-AllClosed host (λ _. lb') m (λ b at c. chosen m host now ip lb lb' none v found e) v;
  taken = λ m host now ip lb lb' url g v found e.
      update-AllClosed host (λ _. lb') m
        (λ b at c. chosen m host now ip lb lb' (some (url, g)) v found e) v;
  returned = λ m host g v.
      update-AllClosed host (drop_guard g) m (λ lb found c. drop_guard-AreClosed g lb c) v;
}
  where
    chosen :
        (m : LoadBalancerManager) (host : Text) (now : ℕ) (ip : Option IpAddr)
        (lb lb' : LoadBalancer) (r : Option (Text × ConnectionGuard))
        → AllClosed m
        → Manager.get host m ≡ some lb
        → select now ip lb ≡ (lb', r)
        → AreClosed lb'.backends
    chosen m host now ip lb lb' r v found e =
        subst (λ x. AreClosed x.0.backends) e (select-AreClosed now ip lb (v host lb found))

module _ (w : World) where
  drop_at-AllClosed :
      (q : Pending w) (m : LoadBalancerManager)
      → AllClosed m
      → AllClosed (Manager.update q.host (drop_guard q.guard) m)
  drop_at-AllClosed q m v =
      update-AllClosed q.host (drop_guard q.guard) m
        (λ lb found c. drop_guard-AreClosed q.guard lb c) v

  finish-AllClosed :
      (q : Pending w) (outcome : Outcome w) (p : ProxyHandler w)
      → AllClosed p.lb_manager
      → AllClosed (finish w q outcome p).0.lb_manager
  finish-AllClosed q outcome p v = elim (finish-manager w q outcome p) [
    | inl only ↦ subst AllClosed (sym only) (drop_at-AllClosed q p.lb_manager v)
    | inr told ↦ subst AllClosed (sym told) (
        drop_at-AllClosed q (Manager.update q.host (success q.url) p.lb_manager) (
          update-AllClosed q.host (success q.url) p.lb_manager
            (λ lb found c. success-AreClosed q.url lb c) v))
  ]

  -- What happens where no domain has health checks.
  pub data IsTraffic : Event w → Type 0 where
    arriving :
        (now : Clock) (peer : IpAddr) (req : Request w) (is_tls : Bool)
        → IsTraffic (arrives now peer req is_tls)
    hearing : (i : ℕ) (outcome : Outcome w) → IsTraffic (hears i outcome)
    leaving : (i : ℕ) → IsTraffic (leaves i)

  begun-AllClosed :
      (qs : List (Pending w)) (r : ProxyHandler w × Progress w)
      → AllClosed r.0.lb_manager
      → AllClosed (begun w qs r).proxy.lb_manager
  begun-AllClosed qs (p, answered r) v = v
  begun-AllClosed qs (p, forwarded q) v = v

  step-AllClosed :
      (b : Busy w) (e : Event w)
      → IsTraffic e
      → AllClosed b.proxy.lb_manager
      → AllClosed (step w b e).proxy.lb_manager
  unfolding step abandon
  step-AllClosed b e (arriving now peer req is_tls) v =
      begun-AllClosed b.waiting (begin w now peer req is_tls b.proxy)
        (begin-Keeps w Closed Closed-IsKept now peer req is_tls b.proxy v)
  step-AllClosed b e (hearing i outcome) v = elim (Option-cases (get_elem? b.waiting i)) [
    | inl gone ↦ rw (gone, step) v
    | inr (q, there) ↦ rw (there, step) (finish-AllClosed q outcome b.proxy v)
  ]
  step-AllClosed b e (leaving i) v = elim (Option-cases (get_elem? b.waiting i)) [
    | inl gone ↦ rw (gone, step) v
    | inr (q, there) ↦ rw (there, step) (drop_at-AllClosed q b.proxy.lb_manager v)
  ]

  run-AllClosed_from :
      (b : Busy w) (es : List (Event w))
      → All IsTraffic es
      → AllClosed b.proxy.lb_manager
      → AllClosed (run w b es).proxy.lb_manager
  unfolding run
  run-AllClosed_from b [] only v = v
  run-AllClosed_from b (e ∷ es) (this, rest) v =
      run-AllClosed_from (step w b e) es rest (step-AllClosed b e this v)

  idle-AllClosed :
      (configs : Dict Text DomainConfig) (limiter : RateLimiter w.float.F)
      (security : SecurityChecker)
      → AreDistinct configs
      → AllClosed (idle w configs limiter security).proxy.lb_manager
  unfolding new
  idle-AllClosed configs limiter security h d lb e = elim (Option-cases (lookup d configs)) [
    | inl absent ↦ absurd (ground (arith, get-add_domains configs d h))
    | inr (cfg, found) ↦
        let same : Balancer.new cfg ≡ lb = (ground (arith, get-add_domains configs d h)) in
        subst (λ (b : LoadBalancer). AreClosed b.backends) same (new-AreClosed cfg)
  ]

  -- Requests begin, end and are abandoned in any order, with every outcome at the backend, and no health check
  -- reports. Then no backend's circuit is open, however many requests failed at it.
  pub run-AreClosed :
      (configs : Dict Text DomainConfig) (limiter : RateLimiter w.float.F)
      (security : SecurityChecker) (es : List (Event w)) (d : Text) (lb : LoadBalancer)
      → AreDistinct configs
      → All IsTraffic es
      → Manager.get d (run w (idle w configs limiter security) es).proxy.lb_manager ≡ some lb
      → AreClosed lb.backends
  run-AreClosed configs limiter security es d lb h only found =
      run-AllClosed_from (idle w configs limiter security) es only
        (idle-AllClosed configs limiter security h) d lb found
