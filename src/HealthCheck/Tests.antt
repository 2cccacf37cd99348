-- ===== src/HealthCheck/Tests.antt =====
-- Checks of two backends, one of which does not answer, and the theorems at them.
use curf.Common.{
  ℕ, ◌≡◌, refl, true, false, none, some, List, [], ◌∷◌, ◌++◌, Text, codes, arith, replicate,
  if◌then◌else◌,
}
use curf.Common.Decimal.{decimal}
use curf.Common.Equality.{list_beq, nat_key}
use curf.Config.{round_robin}
use curf.Backend
use curf.Backend.{Backend}
use curf.Balancer
use curf.Balancer.{LoadBalancer}
use curf.HealthCheck.{
  Probe, Reply, received, check_url, parse_url, check_backend, check_one, check_all, status_of,
}
use curf.HealthCheck.Urls.{authority, rooted, parse_url-check_url}
use curf.HealthCheck.Status.{status_of_lem}
use curf.HealthCheck.Rounds.{AreDistinct, urls_of, all_told, check_all-backends}
use curf.HealthCheck.Outage.{Event, asks, drops, succeeds, checks, run, step, check_one-opens}
use curf.HealthCheck.Failing.{IsClosedAt, IsOpenAt}

abbrev ok_line : Text
ok_line = codes "HTTP/1.1" ++ b' ' ∷ (decimal 204 ++ b' ' ∷ codes "No Content")

-- The host `up` answers, all others refuse the connection.
abbrev net : Text → Text → Reply
net address request =
    if list_beq address (codes "up:8080") then received (some ok_line) else Reply.connect_failed

abbrev probe : ℕ → Probe
probe i = record { time = 100; net = net }

abbrev backend : Text → Backend
backend url = record { url = url; active = 0; failures = 0; last_failure = 0; circuit_open = false }

abbrev lb : LoadBalancer
lb = record {
  backends = backend (codes "http://up:8080/") ∷ backend (codes "http://down") ∷ [];
  strategy = round_robin;
  cursor = 0;
}

checks_compute : Unit {0}
unfolding check_backend check_url parse_url status_of decimal
checks_compute = tt

outcomes :
    (check_backend net (codes "http://up:8080/x") ≡ true)
    × (check_backend net (codes "http://down/x") ≡ false)
    × (check_backend net (codes "https://up:8080/x") ≡ false)
unfolding checks_compute
outcomes = (refl, refl, refl)

parse_url-check_url_example :
    parse_url (
      check_url
        (codes "http://" ++ (authority (codes "up") 8080 ++ replicate 1 b'/'))
        (codes "health"))
    ≡ some (record { host = codes "up"; port = 8080; path = rooted (codes "health") })
parse_url-check_url_example =
    parse_url-check_url (codes "up") (codes "health") 8080 1 (refl, (refl, tt)) (omega arith)

status_204 : status_of ok_line ≡ 204
unfolding checks_compute
status_204 =
    status_of_lem b'H' (codes "TTP/1.1") (codes "No Content") 204
      (refl, (refl, (refl, (refl, (refl, (refl, (refl, (refl, tt)))))))) (omega arith)

distinct : AreDistinct (urls_of lb.backends)
distinct = ((refl, tt), (tt, tt))

check_all-backends_example :
    check_all (codes "/") probe 0 (urls_of lb.backends) lb
    ≡ record lb { backends = all_told (codes "/") probe 0 lb.backends }
check_all-backends_example = check_all-backends (codes "/") probe lb distinct

abbrev down : Text
down = codes "http://down"

-- Three checks of each backend, with a request to the one that is up between them.
abbrev morning : List Event
morning =
    checks (probe 0) (codes "http://up:8080/")
    ∷ checks (probe 0) down
    ∷ asks 101 none
    ∷ succeeds (codes "http://up:8080/")
    ∷ drops (record { index = 0 })
    ∷ checks (probe 0) down
    ∷ checks (probe 0) (codes "http://up:8080/")
    ∷ checks (probe 0) down
    ∷ checks (probe 0) down
    ∷ []

check_one-opens_example :
    IsClosedAt down 4 1 (run (codes "/") lb morning).backends
    × IsOpenAt 1 (check_one (codes "/") (probe 0) down (run (codes "/") lb morning)).backends
unfolding checks_compute
check_one-opens_example =
    check_one-opens (codes "/") down 1 0 morning (probe 0) lb (refl, (refl, refl, refl))
      (refl, (refl, (refl, (refl, (refl, (refl, (refl, (refl, (refl, tt))))))))) refl refl

-- A request to `down` that is answered between the fourth check and the fifth: the circuit is
-- closed after five failed checks in a row, with one failure counted.
abbrev answered : List Backend
answered = (run (codes "/") lb (morning ++ (succeeds down ∷ checks (probe 0) down ∷ []))).backends

forgets : IsClosedAt down 1 1 answered
unfolding checks_compute run step Balancer.success Balancer.failure Balancer.select
    Balancer.drop_guard Balancer.probe Backend.is_healthy Backend.record_success
    Backend.record_failure Backend.acquire Backend.release check_one
forgets = (refl, (refl, refl, refl))
