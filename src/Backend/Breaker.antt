-- ===== src/Backend/Breaker.antt =====
-- The circuit breaker of `Backend` as a machine with two states, and what a probe answers.
use curf.Common.{
  ℕ, ◌+◌, ◌≤◌, ◌<◌, ◌≡◌, refl, ap, ◌∙◌, Bool, true, false, not, ◌||◌, List, [], ◌∷◌, Text,
  if◌then◌else◌, leb, arith, length,
}
use curf.Common.Words.{word, sub64}
use curf.Backend.{
  Backend, new, cb_threshold, cb_reset_secs, record_success, record_failure, is_healthy,
}

-- Whether a backend may receive traffic at a time: it is closed, or was opened long enough ago.
abbrev pub available : ℕ → Backend → Bool
available now b = not b.circuit_open || leb cb_reset_secs (sub64 now b.last_failure)

-- What the breaker hears of: the outcomes of requests and health checks, and the probes of the
-- load balancer, each at its time.
pub data Event : Type 0 where
  success : Event
  failure probe : ℕ → Event

unfoldable pub step : Backend → Event → Backend
step b success = record_success b
step b (failure now) = record_failure now b
step b (probe now) = (is_healthy now b).0

unfoldable pub run : Backend → List Event → Backend
run b [] = b
run b (e ∷ es) = run (step b e) es

-- The breaker as the constants and the comment of `is_healthy` describe it: closed with a count of
-- consecutive failures, or open since a time, and closed again by the first probe that is 30 seconds
-- later.
pub data Circuit : Type 0 where
  closed open_since : ℕ → Circuit

unfoldable pub spec_fail : ℕ → Circuit → Circuit
spec_fail now (closed n) = if leb 5 (n + 1) then open_since now else closed (n + 1)
spec_fail now (open_since t) = open_since now

unfoldable pub spec_probe : ℕ → Circuit → Circuit
spec_probe now (closed n) = closed n
spec_probe now (open_since t) = if leb (t + 30) now then closed 0 else open_since t

unfoldable pub spec_step : Circuit → Event → Circuit
spec_step c success = closed 0
spec_step c (failure now) = spec_fail now c
spec_step c (probe now) = spec_probe now c

unfoldable pub spec_run : Circuit → List Event → Circuit
spec_run c [] = c
spec_run c (e ∷ es) = spec_run (spec_step c e) es

-- A clock that is not set back: no event is before time `t` or before the event that it follows.
abbrev pub AreTimely : ℕ → List Event → Type 0
AreTimely t [] = Unit {0}
AreTimely t (success ∷ es) = AreTimely t es
AreTimely t (failure now ∷ es) = (t ≤ now) × (now < word) × AreTimely now es
AreTimely t (probe now ∷ es) = (t ≤ now) × (now < word) × AreTimely now es

abbrev pub circuit : Backend → Circuit
circuit b = if b.circuit_open then open_since b.last_failure else closed b.failures

-- The circuit is open exactly when the count has reached the threshold.
abbrev pub IsCoherent : Backend → Type 0
IsCoherent b = b.circuit_open ≡ leb cb_threshold b.failures

step-IsCoherent :
    (b : Backend) (e : Event) → b.failures + 1 < word → IsCoherent b → IsCoherent (step b e)
unfolding step record_success record_failure is_healthy
step-IsCoherent b success h c = refl
step-IsCoherent b (failure now) h c = ground arith
step-IsCoherent b (probe now) h c = ground arith

failures-step : (b : Backend) (e : Event) → (step b e).failures ≤ b.failures + 1
unfolding step record_success record_failure is_healthy
failures-step b success = omega arith
failures-step b (failure now) = ground arith
failures-step b (probe now) = ground arith

-- The time of an event, with the time before it.
abbrev time_of : ℕ → Event → ℕ
time_of t success = t
time_of t (failure now) = now
time_of t (probe now) = now

module _ (b : Backend) (t : ℕ) (past : b.last_failure ≤ t) where
  circuit-step :
      (e : Event)
      → t ≤ time_of t e
      → time_of t e < word
      → b.failures + 1 < word
      → IsCoherent b
      → circuit (step b e) ≡ spec_step (circuit b) e
  unfolding step spec_step spec_fail spec_probe record_success record_failure is_healthy
  circuit-step success later fits h c = refl
  circuit-step (failure now) later fits h c = ground arith
  circuit-step (probe now) later fits h c = ground arith

  last_failure-step : (e : Event) → t ≤ time_of t e → (step b e).last_failure ≤ time_of t e
  unfolding step record_success record_failure is_healthy
  last_failure-step success later = past
  last_failure-step (failure now) later = ground arith
  last_failure-step (probe now) later = ground arith

timely :
    (t : ℕ) (e : Event) (es : List Event)
    → t < word
    → AreTimely t (e ∷ es)
    → (t ≤ time_of t e) × (time_of t e < word) × AreTimely (time_of t e) es
timely t success es w o = (omega arith, w, o)
timely t (failure now) es w o = o
timely t (probe now) es w o = o

circuit-run_from :
    (b : Backend) (t : ℕ) (es : List Event)
    → b.last_failure ≤ t
    → t < word
    → AreTimely t es
    → b.failures + length es < word
    → IsCoherent b
    → (circuit (run b es) ≡ spec_run (circuit b) es) × IsCoherent (run b es)
unfolding run spec_run
circuit-run_from b t [] past w o h c = (refl, c)
circuit-run_from b t (e ∷ es) past w o h c =
    let (later, fits, rest) = timely t e es w o in
    let (same, coherent) =
      circuit-run_from (step b e) (time_of t e) es (last_failure-step b t past e later) fits rest
        (omega (arith, failures-step b e)) (step-IsCoherent b e (omega arith) c) in
    (same ∙ ap (λ s. spec_run s es) (circuit-step b t past e later fits (omega arith) c), coherent)

-- A fresh backend that hears fewer than 2^64 events, by a clock that is not set back, is in the
-- state of a breaker of two states: closed with the number of consecutive failures since the last
-- success or recovery, or, from the fifth failure on, open since the last failure until a success
-- or the first probe at least 30 seconds later, which closes it with no failure counted. Its
-- circuit is open exactly when its count is at least five.
pub circuit-run :
    (url : Text) (es : List Event)
    → length es < word
    → AreTimely 0 es
    → (circuit (run (new url) es) ≡ spec_run (closed 0) es) × IsCoherent (run (new url) es)
unfolding new
circuit-run url es h o =
    circuit-run_from (new url) 0 es (omega arith) (omega arith) o (omega arith) refl

-- A probe answers true exactly when the circuit is closed or its last failure is at least 30
-- seconds back; then it leaves the circuit closed, with no failures counted if it was open; and
-- when it answers false it changes nothing.
is_healthy_cases :
    (now : ℕ) (b : Backend)
    → ((is_healthy now b).1 ≡ available now b)
      × ((is_healthy now b).1 ≡ true → (is_healthy now b).0.circuit_open ≡ false)
      × (b.circuit_open ≡ true → (is_healthy now b).1 ≡ true → (is_healthy now b).0.failures ≡ 0)
      × ((is_healthy now b).1 ≡ false → (is_healthy now b).0 ≡ b)
unfolding is_healthy
is_healthy_cases now b = ground arith
