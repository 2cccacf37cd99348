-- ===== src/Balancer/Atomics/Tests.antt =====
-- Calls that meet, and the theorems on them.
use curf.Common.{
  ℕ, ◌≡◌, ◌<◌, refl, true, false, Option, none, some, List, [], ◌∷◌, codes, arith, replicate, ◌++◌,
  get_elem?,
}
use curf.Config.{DomainConfig, default_domain_config, round_robin, least_connections}
use curf.Backend.{Backend}
use curf.Balancer
use curf.Balancer.{LoadBalancer}
use curf.Balancer.Tally.{count}
use curf.Balancer.Atomics.{
  selects, succeeds, fails, program, done, among, select, success, failure, alone, record_success,
  record_failure,
}
use curf.Balancer.Atomics.Progress.{program-returns}
use curf.Balancer.Atomics.Threads.{Event, starts, goes_on, run, step, idle}
use curf.Balancer.Closed.{AreClosed}
use curf.Balancer.Atomics.Sharing.{asking, going_on, run-turns}
use curf.Balancer.Atomics.Threshold.{run-AreClosed_below}
use curf.Balancer.Atomics.Counts.{run-counts}
use curf.Balancer.Atomics.Observed.{observed, SawUp, SawDown}
use curf.Balancer.Atomics.Answers.{select-SawUp, select-SawDown}

abbrev pair : DomainConfig
pair = default_domain_config (codes "a" ∷ codes "b" ∷ [])

threads : Unit {0}
unfolding run step select success failure alone Balancer.new
threads = tt

-- Two requests take their turns of the cursor before either of them looks at its backend.
abbrev crossing : List Event
crossing =
    starts (selects none)
    ∷ starts (selects none)
    ∷ goes_on 7 0
    ∷ goes_on 7 1
    ∷ goes_on 7 1
    ∷ goes_on 7 0
    ∷ goes_on 7 0
    ∷ goes_on 7 0
    ∷ []

crosses : (run (idle pair) crossing).guards ≡ 1 ∷ 0 ∷ []
unfolding threads
crosses = refl

-- The operations of one call, up to the last.
abbrev three_turns : List Event
three_turns = goes_on 7 0 ∷ goes_on 7 0 ∷ goes_on 7 0 ∷ []

abbrev a_failure : List Event
a_failure = starts (fails (codes "a")) ∷ three_turns

abbrev four_failures : List Event
four_failures = a_failure ++ (a_failure ++ (a_failure ++ a_failure))

-- The fifth failure is about to open the circuit when a success is recorded.
abbrev race : List Event
race =
    four_failures
    ++ (a_failure ++ (starts (succeeds (codes "a")) ∷ goes_on 8 0 ∷ goes_on 8 0 ∷ goes_on 8 0 ∷ []))

abbrev torn : Backend
torn = record { url = codes "a"; active = 0; failures = 0; last_failure = 7; circuit_open = true }

-- The circuit is open with no failure counted.
races : get_elem? (run (idle pair) race).lb.backends 0 ≡ some torn
unfolding threads record_success record_failure
races = refl

abbrev after_crossing : List Backend
after_crossing = (run (idle pair) crossing).lb.backends

abbrev one_active : Backend
one_active = record {
  url = codes "b";
  active = 1;
  failures = 0;
  last_failure = 0;
  circuit_open = false;
}

crossed : get_elem? after_crossing 1 ≡ some one_active
unfolding threads
crossed = refl

run-counts_example : 1 ≡ count 1 (run (idle pair) crossing).guards
run-counts_example = run-counts pair crossing 1 one_active (omega arith) crossed

-- Another thread that opens every circuit at each turn.
abbrev spoils : LoadBalancer → LoadBalancer
spoils lb = record lb { backends = torn ∷ torn ∷ [] }

abbrev turns : List (ℕ × (LoadBalancer → LoadBalancer))
turns = replicate 13 (8, spoils)

program-returns_example :
    (found : Option ℕ) × (among turns
        (program round_robin (codes "a" ∷ codes "b" ∷ []) (selects none))
        (idle pair).lb
      ≡ done found)
program-returns_example =
    program-returns round_robin (codes "a" ∷ codes "b" ∷ []) (selects none) turns (idle pair).lb
      (omega arith)

run-turns_example : count 1 (run (idle pair) crossing).guards ≡ 1
unfolding threads
run-turns_example =
    run-turns pair crossing 1 1 0 refl (omega arith) (omega arith) (omega arith)
      (
        asking none,
        (
          asking none,
          (
            going_on 7 0,
            (going_on 7 1, (going_on 7 1, (going_on 7 0, (going_on 7 0, (going_on 7 0, tt))))),
          ),
        ),
      )
      refl refl

run-AreClosed_below_example : AreClosed (run (idle pair) four_failures).lb.backends
run-AreClosed_below_example = run-AreClosed_below pair four_failures (omega arith)

-- A call meets another thread that closes every circuit.
abbrev heals : LoadBalancer → LoadBalancer
heals lb = record lb { backends = (idle pair).lb.backends }

abbrev opened : LoadBalancer
opened = spoils (idle pair).lb

abbrev healing : List (ℕ × (LoadBalancer → LoadBalancer))
healing = replicate 3 (8, heals)

healed : among healing (select round_robin 2 none) opened ≡ done (some 0)
unfolding among threads
healed = refl

select-SawUp_example : (0 < 2) × SawUp 0 (observed [] healing (select round_robin 2 none) opened)
select-SawUp_example = select-SawUp round_robin 2 none healing opened 0 healed

spoiled : among turns (select least_connections 2 none) (idle pair).lb ≡ done none
unfolding among threads
spoiled = refl

select-SawDown_example :
    SawDown 1 (observed [] turns (select least_connections 2 none) (idle pair).lb)
select-SawDown_example =
    select-SawDown least_connections 2 none turns (idle pair).lb 1 (λ e. cc) (omega arith) spoiled

-- Backend 0 is down, and another request takes its turn between the two turns of a call, which then
-- meets backend 0 twice and gives no guard, with backend 1 up all the while.
abbrev half_down : LoadBalancer
half_down = record (idle pair).lb { backends = torn ∷ record torn { circuit_open = false } ∷ [] }

abbrev takes_turn : LoadBalancer → LoadBalancer
takes_turn lb = (alone 8 (select round_robin 2 none) lb).0

abbrev overtaken : List (ℕ × (LoadBalancer → LoadBalancer))
overtaken =
    let alone_turn : ℕ × (LoadBalancer → LoadBalancer) = (8, λ lb. lb) in
    replicate 4 alone_turn ++ ((8, takes_turn) ∷ replicate 3 alone_turn)

misses : among overtaken (select round_robin 2 none) half_down ≡ done none
unfolding among threads
misses = refl
