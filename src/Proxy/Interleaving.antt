-- ===== src/Proxy/Interleaving.antt =====
-- Requests in every order: they begin, wait, and end or are abandoned while others run, and health
-- checks are heard of in between.
use curf.Common.{
  remove_at, length-remove_at, Option, ℕ, ◌+◌, ◌≤◌, ◌<◌, ◌≡◌, inl, inr, Bool, none, some, List, [],
  ◌∷◌, Text, arith, Option-cases, length, subst, get_elem?,
}
use curf.Common.Equality.{==_refl, list_key, nat_key}
use curf.Common.Words.{word}
use curf.Common.Address.{IpAddr}
use curf.Common.Dict.{Dict, lookup}
use curf.Config.{DomainConfig}
use curf.Backend.{Backend}
use curf.Security.{SecurityChecker}
use curf.RateLimit.{RateLimiter}
use curf.Balancer
use curf.Balancer.{LoadBalancer, ConnectionGuard}
use curf.Balancer.Leases.{IsLeased, fresh-IsLeased, get_elem?-map}
use curf.Balancer.Manager
use curf.Balancer.Manager.{LoadBalancerManager, AreDistinct, add_domains, get-add_domains}
use curf.Balancer.Tally.{count}
use curf.Proxy.{begin, finish, abandon}
use curf.Proxy.State.{
  Clock, Request, ProxyHandler, Pending, Progress, answered, forwarded, Outcome, new,
}
use curf.Proxy.Ledger.{
  Guards, IsCounting, take_at, missed-IsCounting, taken-IsCounting, dropped-IsCounting,
  success-IsCounting, failure-IsCounting,
}
use curf.Proxy.Begin.{begin-Keeps, held_by, IsKept}
use curf.Proxy.Outside.{World}
use curf.Proxy.Waiting.{guards_in, length-guards_in, finish-IsCounting, ended-IsCounting}

-- The counts beside the guards that are out, and the one that a request holds.
abbrev Counts : Guards → LoadBalancerManager → Option (Text × ℕ) → Type 0
Counts gs m none = IsCounting m gs
Counts gs m (some (host, i)) = IsCounting m (take_at host i gs)

Counts-IsKept : (gs : Guards) → ((d : Text) → length (gs d) + 1 < word) → IsKept (Counts gs)
Counts-IsKept gs room = record {
  missed = λ m host now ip lb lb' v found e. missed-IsCounting host m gs v now ip lb lb' found e;
  taken = λ m host now ip lb lb' url g v found e.
      taken-IsCounting host m gs v now ip lb lb' url g found e (room host);
  returned = λ m host g v.
      dropped-IsCounting host m (take_at host g.index gs) v g gs (λ d other. rw other)
        (ground (arith, ==_refl host)) (λ j. ground (arith, ==_refl host))
        (ground (arith, ==_refl host));
}

module _ (w : World) where
  -- The handler with the requests that wait, the newest first.
  pub record Busy : Type 0 where
    pub proxy : ProxyHandler w
    pub waiting : List (Pending w)

  pub data Event : Type 0 where
    arrives : Clock → IpAddr → Request w → Bool → Event
    hears : ℕ → Outcome w → Event
    leaves : ℕ → Event
    checked_up : Text → Text → Event
    checked_down : ℕ → Text → Text → Event

  abbrev pub begun : List (Pending w) → ProxyHandler w × Progress w → Busy
  begun qs (p, answered r) = record { proxy = p; waiting = qs }
  begun qs (p, forwarded q) = record { proxy = p; waiting = q ∷ qs }

  abbrev pub with_manager : LoadBalancerManager → Busy → Busy
  with_manager m b = record b { proxy = record b.proxy { lb_manager = m } }

  unfoldable pub step : Busy → Event → Busy
  step b (arrives now peer req is_tls) = begun b.waiting (begin w now peer req is_tls b.proxy)
  step b (hears i outcome) = elim (get_elem? b.waiting i) [
    | none ↦ b
    | some q ↦ record { proxy = (finish w q outcome b.proxy).0; waiting = remove_at b.waiting i }
  ]
  step b (leaves i) = elim (get_elem? b.waiting i) [
    | none ↦ b
    | some q ↦ record { proxy = abandon w q b.proxy; waiting = remove_at b.waiting i }
  ]
  step b (checked_up host url) =
      with_manager (Manager.update host (Balancer.success url) b.proxy.lb_manager) b
  step b (checked_down now host url) =
      with_manager (Manager.update host (Balancer.failure now url) b.proxy.lb_manager) b

  unfoldable pub run : Busy → List Event → Busy
  run b [] = b
  run b (e ∷ es) = run (step b e) es

  abbrev pub IsBalanced : Busy → Type 0
  IsBalanced b = IsCounting b.proxy.lb_manager (guards_in w b.waiting)

  begun-IsBalanced :
      (qs : List (Pending w)) (r : ProxyHandler w × Progress w)
      → Counts (guards_in w qs) r.0.lb_manager (held_by w r.1)
      → IsBalanced (begun qs r)
  begun-IsBalanced qs (p, answered r) v = v
  begun-IsBalanced qs (p, forwarded q) v = v

  step-IsBalanced :
      (b : Busy) (e : Event) → length b.waiting + 1 < word → IsBalanced b → IsBalanced (step b e)
  unfolding step abandon
  step-IsBalanced b (arrives now peer req is_tls) room v =
      begun-IsBalanced b.waiting (begin w now peer req is_tls b.proxy) (
        begin-Keeps w (Counts (guards_in w b.waiting))
          (Counts-IsKept (guards_in w b.waiting)
            (λ d. omega (arith, length-guards_in w b.waiting d)))
          now peer req is_tls b.proxy v)
  step-IsBalanced b (hears i outcome) room v = elim (Option-cases (get_elem? b.waiting i)) [
    | inl gone ↦ rw (gone, step) v
    | inr (q, there) ↦ rw (there, step) (finish-IsCounting w q b.waiting i outcome b.proxy there v)
  ]
  step-IsBalanced b (leaves i) room v = elim (Option-cases (get_elem? b.waiting i)) [
    | inl gone ↦ rw (gone, step) v
    | inr (q, there) ↦
        rw (there, step) (ended-IsCounting w q b.waiting i b.proxy.lb_manager there v)
  ]
  step-IsBalanced b (checked_up host url) room v =
      success-IsCounting host b.proxy.lb_manager (guards_in w b.waiting) v url
  step-IsBalanced b (checked_down now host url) room v =
      failure-IsCounting host b.proxy.lb_manager (guards_in w b.waiting) v now url

  length-begun :
      (qs : List (Pending w)) (r : ProxyHandler w × Progress w)
      → length (begun qs r).waiting ≤ length qs + 1
  length-begun qs (p, answered r) = omega arith
  length-begun qs (p, forwarded q) = omega arith

  length-step : (b : Busy) (e : Event) → length (step b e).waiting ≤ length b.waiting + 1
  unfolding step
  length-step b (arrives now peer req is_tls) = length-begun b.waiting _
  length-step b (hears i outcome) = ground (arith, length-remove_at b.waiting i)
  length-step b (leaves i) = ground (arith, length-remove_at b.waiting i)
  length-step b (checked_up host url) = omega arith
  length-step b (checked_down now host url) = omega arith

  run-IsBalanced_from :
      (b : Busy) (es : List Event)
      → length b.waiting + length es < word
      → IsBalanced b
      → IsBalanced (run b es)
  unfolding run
  run-IsBalanced_from b [] room v = v
  run-IsBalanced_from b (e ∷ es) room v =
      run-IsBalanced_from (step b e) es (omega (arith, length-step b e))
        (step-IsBalanced b e (omega arith) v)

  -- The handler as `main` makes it, with no request waiting.
  abbrev pub idle : Dict Text DomainConfig → RateLimiter w.float.F → SecurityChecker → Busy
  idle configs limiter security = record {
    proxy = new w (add_domains configs Manager.new) limiter security configs;
    waiting = [];
  }

  idle-IsBalanced :
      (configs : Dict Text DomainConfig) (limiter : RateLimiter w.float.F)
      (security : SecurityChecker)
      → AreDistinct configs
      → IsBalanced (idle configs limiter security)
  unfolding new
  idle-IsBalanced configs limiter security h d lb e = elim (Option-cases (lookup d configs)) [
    | inl absent ↦ absurd (ground (arith, get-add_domains configs d h))
    | inr (cfg, found) ↦
        subst (λ b. IsLeased (record { lb = b; guards = [] }))
          (ground (arith, get-add_domains configs d h)) (fresh-IsLeased cfg)
  ]

  -- Requests begin, end and are abandoned, and health checks are heard of, in any order, fewer than 2^64 events in
  -- all. Then each backend's count of active requests is the number of requests that wait for it:
  -- whatever became of a request, its guard was given back.
  pub run-active :
      (configs : Dict Text DomainConfig) (limiter : RateLimiter w.float.F)
      (security : SecurityChecker) (es : List Event) (d : Text) (lb : LoadBalancer) (j : ℕ)
      (b : Backend)
      → AreDistinct configs
      → length es < word
      → let busy = run (idle configs limiter security) es in
        Manager.get d busy.proxy.lb_manager ≡ some lb
        → get_elem? lb.backends j ≡ some b
        → b.active ≡ count j (guards_in w busy.waiting d)
  run-active configs limiter security es d lb j b h few found at =
      let v =
        run-IsBalanced_from (idle configs limiter security) es (omega arith)
          (idle-IsBalanced configs limiter security h) in
      (v d lb found).tallies j b.active (get_elem?-map lb.backends j b at)
