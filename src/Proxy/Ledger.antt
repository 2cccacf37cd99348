-- ===== src/Proxy/Ledger.antt =====
-- The guards of the requests that wait for a backend, by host, against the counts of the balancers.
use curf.Common.{
  ℕ, ◌+◌, ◌≤◌, ◌<◌, ◌≡◌, refl, ap, sym, ◌∙◌, inl, inr, false, Option, none, some, List, ◌∷◌, Text,
  arith, if◌then◌else◌, Option-cases, Bool-cases, length, subst,
}
use mathlib.Core.Option
use curf.Common.Equality.{◌==◌, ==_refl, list_key, nat_key, list_beq_iff}
use curf.Common.Words.{word}
use curf.Common.Address.{IpAddr}
use curf.Balancer.{LoadBalancer, ConnectionGuard, select, drop_guard, success, failure}
use curf.Balancer.Manager
use curf.Balancer.Manager.{LoadBalancerManager, get-update}
use curf.Balancer.Leases.{IsLeased, Step, Step-IsLeased}
use curf.Balancer.Tally.{count, remove}

-- The guards that are out, for each host.
abbrev pub Guards : Type 0
Guards = Text → List ℕ

-- Every balancer counts its guards.
abbrev pub IsCounting : LoadBalancerManager → Guards → Type 0
IsCounting m gs =
    (d : Text) (lb : LoadBalancer)
    → Manager.get d m ≡ some lb
    → IsLeased (record { lb = lb; guards = gs d })

pub at_host :
    (host : Text) (f : LoadBalancer → LoadBalancer) (m : LoadBalancerManager) (lb' : LoadBalancer)
    → Manager.get host (Manager.update host f m) ≡ some lb'
    → (lb : LoadBalancer) × (Manager.get host m ≡ some lb) × (f lb ≡ lb')
at_host host f m lb' e =
    let changed : Option.map f (Manager.get host m) ≡ some lb' =
      rw (get-update host host f m, ==_refl host) at e in
    elim (Option-cases (Manager.get host m)) [
      | inl absent ↦ absurd (ground arith)
      | inr (lb, found) ↦ (lb, found, ground arith)
    ]

pub elsewhere :
    (host d : Text) (f : LoadBalancer → LoadBalancer) (m : LoadBalancerManager)
    → (host == d) ≡ false
    → Manager.get d (Manager.update host f m) ≡ Manager.get d m
elsewhere host d f m other = rw (get-update host d f m, other)

-- A step of one balancer, with what it does to the guards of its host.
pub update-IsCounting :
    (host : Text) (f : LoadBalancer → LoadBalancer) (m : LoadBalancerManager) (gs gs' : Guards)
    → ((d : Text) → (host == d) ≡ false → gs' d ≡ gs d)
    → ((lb : LoadBalancer)
        → Manager.get host m ≡ some lb
        → IsLeased (record { lb = lb; guards = gs host })
        → IsLeased (record { lb = f lb; guards = gs' host }))
    → IsCounting m gs
    → IsCounting (Manager.update host f m) gs'
update-IsCounting host f m gs gs' kept moved v d lb' e = elim (Bool-cases (host == d)) [
  | inl same ↦
      subst
        (λ k.
          Manager.get k (Manager.update host f m) ≡ some lb'
          → IsLeased (record { lb = lb'; guards = gs' k }))
        ((list_beq_iff host d).0 same)
        (λ here.
          let (lb, found, becomes) = at_host host f m lb' here in
          subst (λ b. IsLeased (record { lb = b; guards = gs' host })) becomes
            (moved lb found (v host lb found)))
        e
  | inr other ↦
      subst (λ g. IsLeased (record { lb = lb'; guards = g })) (sym (kept d other))
        (v d lb' (sym (elsewhere host d f m other) ∙ e))
]

abbrev pub take_at : Text → ℕ → Guards → Guards
take_at host i gs d = if host == d then i ∷ gs d else gs d

-- Lists with the same counts stand for the same guards.
pub recount :
    (lb : LoadBalancer) (gs gs' : List ℕ)
    → ((j : ℕ) → count j gs ≡ count j gs')
    → length gs' ≤ length gs
    → IsLeased (record { lb = lb; guards = gs })
    → IsLeased (record { lb = lb; guards = gs' })
recount lb gs gs' same shorter v = record {
  tallies = λ j a e. v.tallies j a e ∙ same j;
  bounded = omega (arith, v.bounded);
}

module _ (host : Text) (m : LoadBalancerManager) (gs : Guards) (v : IsCounting m gs) where
  pub missed-IsCounting :
      (now : ℕ) (ip : Option IpAddr) (lb lb' : LoadBalancer)
      → Manager.get host m ≡ some lb
      → select now ip lb ≡ (lb', none)
      → IsCounting (Manager.update host (λ _. lb') m) gs
  missed-IsCounting now ip lb lb' found e =
      update-IsCounting host (λ _. lb') m gs gs (λ d _. refl)
        (λ lb0 found0 v0.
          Step-IsLeased (Step.misses now ip (ap (select now ip) (ground arith) ∙ e)) v0)
        v

  pub taken-IsCounting :
      (now : ℕ) (ip : Option IpAddr) (lb lb' : LoadBalancer) (url : Text) (g : ConnectionGuard)
      → Manager.get host m ≡ some lb
      → select now ip lb ≡ (lb', some (url, g))
      → length (gs host) + 1 < word
      → IsCounting (Manager.update host (λ _. lb') m) (take_at host g.index gs)
  taken-IsCounting now ip lb lb' url g found e room =
      update-IsCounting host (λ _. lb') m gs (take_at host g.index gs) (λ d other. rw other)
        (λ lb0 found0 v0.
          rw (==_refl host)
            (Step-IsLeased (Step.takes now ip (ap (select now ip) (ground arith) ∙ e) room) v0))
        v

  pub success-IsCounting : (url : Text) → IsCounting (Manager.update host (success url) m) gs
  success-IsCounting url =
      update-IsCounting host (success url) m gs gs (λ d _. refl)
        (λ lb found v0. Step-IsLeased (Step.succeeds url) v0) v

  pub failure-IsCounting :
      (now : ℕ) (url : Text) → IsCounting (Manager.update host (failure now url) m) gs
  failure-IsCounting now url =
      update-IsCounting host (failure now url) m gs gs (λ d _. refl)
        (λ lb found v0. Step-IsLeased (Step.fails now url) v0) v

  -- A guard of the host is dropped, and the guards that are left are counted without it.
  pub dropped-IsCounting :
      (g : ConnectionGuard) (gs' : Guards)
      → ((d : Text) → (host == d) ≡ false → gs' d ≡ gs d)
      → 0 < count g.index (gs host)
      → ((j : ℕ) → count j (remove g.index (gs host)) ≡ count j (gs' host))
      → length (gs' host) ≤ length (remove g.index (gs host))
      → IsCounting (Manager.update host (drop_guard g) m) gs'
  dropped-IsCounting g gs' kept out same shorter =
      update-IsCounting host (drop_guard g) m gs gs' kept
        (λ lb found v0.
          recount (drop_guard g lb) (remove g.index (gs host)) (gs' host) same shorter
            (Step-IsLeased (Step.drops g.index out) v0))
        v
