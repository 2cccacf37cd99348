-- ===== src/Balancer/Tests.antt =====
-- A balancer of three backends, the middle one down, and the theorems at it.
use curf.Common.{
  ℕ, ◌≤◌, ◌<◌, ◌≡◌, ◌↔◌, refl, Bool, true, false, Option, none, some, List, [], ◌∷◌, Text, codes,
  arith, All,
}
use curf.Common.Address.{IpAddr, v4}
use curf.Common.Equality.{list_key, nat_key}
use curf.Config.{
  LoadBalance, round_robin, least_connections, ip_hash, DomainConfig, default_domain_config,
}
use curf.Backend
use curf.Backend.{Backend}
use curf.Backend.Breaker.{available}
use curf.Balancer
use curf.Balancer.{
  LoadBalancer, ConnectionGuard, select, probe, pick_round_robin, pick_least_connections,
  pick_ip_hash, grant, drop_guard,
}
use curf.Balancer.View.{views, active_at}
use curf.Balancer.Choice.{IsGrant, select-IsGrant, select-none_iff}
use curf.Balancer.Preference.{select-least}
use curf.Balancer.Leases.{Out, Step, Reach, fresh}

balancer : Unit {0}
unfolding select Backend.is_healthy Backend.acquire Backend.active_count probe
balancer = tt

abbrev backend : Text → ℕ → Bool → Backend
backend url active down = record {
  url = url;
  active = active;
  failures = 0;
  last_failure = 50;
  circuit_open = down;
}

abbrev three : LoadBalance → LoadBalancer
three s = record {
  backends =
      backend (codes "a") 4 false ∷ backend (codes "b") 0 true ∷ backend (codes "c") 2 false ∷ [];
  strategy = s;
  cursor = 1;
}

abbrev at_c : Option (Text × ConnectionGuard)
at_c = some (codes "c", record { index = 2 })

abbrev guard_c : ConnectionGuard
guard_c = record { index = 2 }

abbrev client : Option IpAddr
client = some (v4 5)

-- The second backend is down at time 60: round robin skips it, the third has the fewest requests,
-- and 5 is in the slot of the third.
picks_c :
    ((select 60 client (three round_robin)).1 ≡ at_c)
    × ((select 60 client (three least_connections)).1 ≡ at_c)
    × ((select 60 client (three ip_hash)).1 ≡ at_c)
unfolding balancer
picks_c = (refl, refl, refl)

-- At time 80 the second backend is given another chance.
second_chance : (select 80 client (three round_robin)).1 ≡ some (codes "b", record { index = 1 })
unfolding balancer
second_chance = refl

abbrev after_c : LoadBalancer
after_c = record {
  backends =
      backend (codes "a") 4 false ∷ backend (codes "b") 0 true ∷ backend (codes "c") 3 false ∷ [];
  strategy = round_robin;
  cursor = 3;
}

selects_c : select 60 client (three round_robin) ≡ (after_c, at_c)
unfolding balancer
selects_c = refl

select-IsGrant_example : IsGrant 60 (three round_robin) after_c (codes "c") 2
select-IsGrant_example =
    select-IsGrant 60 client (three round_robin) after_c (codes "c") guard_c selects_c

select-none_iff_example :
    ((select 60 client (three round_robin)).1 ≡ none)
    ↔ All (λ b. available 60 b ≡ false) (three round_robin).backends
select-none_iff_example = select-none_iff 60 client (three round_robin) (λ e. omega arith)

select-least_example :
    (active_at 2 (views 60 (three least_connections).backends)
      ≤ active_at 0 (views 60 (three least_connections).backends))
    × (0 < 2
        → active_at 2 (views 60 (three least_connections).backends)
          < active_at 0 (views 60 (three least_connections).backends))
select-least_example =
    select-least 60 client (three least_connections) (codes "c") guard_c refl picks_c.1 0 refl

abbrev pair : DomainConfig
pair = default_domain_config (codes "a" ∷ codes "b" ∷ [])

abbrev both : LoadBalancer
both = record {
  backends = backend (codes "a") 0 false ∷ backend (codes "b") 0 false ∷ [];
  strategy = round_robin;
  cursor = 0;
}

abbrev calls : List (ℕ × Option IpAddr)
calls = (7, client) ∷ (8, none) ∷ (9, client) ∷ []

-- Two requests take the two backends, and the first guard is dropped.
abbrev start : LoadBalancer
start = (fresh pair).lb

abbrev guard_a : ConnectionGuard
guard_a = record { index = 0 }

takes_a : (select 7 client start).1 ≡ some (codes "a", guard_a)
unfolding balancer Balancer.new
takes_a = refl

history :
    Reach (fresh pair) (record { lb = drop_guard guard_a (select 7 client start).0; guards = [] })
unfolding balancer Balancer.new
history =
    Reach.next
      (Reach.next Reach.here (
        Step.takes {lb = (select 7 client start).0} {url = codes "a"} {g = guard_a} 7 client refl
          (omega arith)))
      (Step.drops 0 (omega arith))

abbrev after_history : Out
after_history = record { lb = drop_guard guard_a (select 7 client start).0; guards = [] }
