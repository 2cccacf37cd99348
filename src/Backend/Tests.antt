-- ===== src/Backend/Tests.antt =====
-- Runs of a circuit breaker, and its theorems at a concrete history.
use curf.Common.{◌≡◌, refl, true, false, List, [], ◌∷◌, Text, codes, arith}
use curf.Backend.{Backend, new, is_healthy, record_failure, record_success}
use curf.Backend.Breaker.{
  Event, success, failure, probe, run, step, spec_run, spec_step, spec_fail, spec_probe, AreTimely,
  closed, circuit, IsCoherent, circuit-run,
}

abbrev origin : Text
origin = codes "http://127.0.0.1:3000"

-- Five failures open the circuit; a probe 29 seconds later leaves it open, one at 30 closes it.
abbrev five_failures : List Event
five_failures = failure 100 ∷ failure 101 ∷ failure 102 ∷ failure 103 ∷ failure 104 ∷ []

opens : (run (new origin) five_failures).circuit_open ≡ true
unfolding run step new record_failure
opens = refl

still_open : (run (new origin) (failure 99 ∷ success ∷ failure 100 ∷ [])).circuit_open ≡ false
unfolding run step new record_failure record_success
still_open = refl

abbrev opened : Backend
opened = record { url = origin; active = 0; failures = 5; last_failure = 104; circuit_open = true }

probes : ((is_healthy 133 opened).1 ≡ false) × ((is_healthy 134 opened).1 ≡ true)
unfolding is_healthy
probes = (refl, refl)

abbrev history : List Event
history =
    failure 100
    ∷ failure 101
    ∷ failure 102
    ∷ failure 103
    ∷ failure 104
    ∷ probe 133
    ∷ probe 134
    ∷ failure 140
    ∷ []

recovers : spec_run (closed 0) history ≡ closed 1
unfolding spec_run spec_step spec_fail spec_probe
recovers = refl

timely : AreTimely 0 history
timely = ground arith

circuit-run_example :
    (circuit (run (new origin) history) ≡ spec_run (closed 0) history)
    × IsCoherent (run (new origin) history)
circuit-run_example = circuit-run origin history (omega arith) timely
