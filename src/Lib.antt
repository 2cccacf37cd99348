-- ===== src/Lib.antt =====
-- curf, a reverse proxy and web server (src/*.rs of the repository).
--
-- A connection is accepted under the cap of its listener and one for each address (src/main.rs,
-- src/security.rs). Each request on it passes the rate limiter (src/rate_limit.rs) and the request
-- filter (src/security.rs); the handler (src/proxy.rs) then takes a backend of the request's domain
-- from the domain's load balancer (src/load_balancer.rs), whose circuit breakers hear of successes
-- from the handler and of both outcomes from the health checker (src/health_check.rs).
--
-- Which file models what:
--   Common           names, lists, maps (`HashMap` and `DashMap` are association lists), 64-bit
--                    words, addresses, and the text functions of the standard library. A text is the
--                    list of its code points.
--   Config           src/config.rs: the types and the default values; Config/Fields the serde
--                    defaults of the sections.
--   Backend          src/load_balancer.rs, `Backend`: `is_healthy`, `record_failure` and the others
--                    return the new state. Backend/Breaker has the circuit breaker as a machine.
--   Balancer         `LoadBalancer`: the list `backends` and the cursor; `round_robin`,
--                    `least_connections` and `ip_hash` are pick_round_robin, pick_least_connections
--                    and pick_ip_hash, whose loops recur on the rounds left. A `ConnectionGuard` is
--                    the index of its backend, and its `Drop` is drop_guard. Balancer/Manager is
--                    `LoadBalancerManager` and the loop of `main` that fills it. Balancer/Atomics has
--                    the same methods one atomic operation at a time, and Balancer/Atomics/Threads
--                    many calls of them at once; Balancer/Atomics/Observed is what one call among
--                    others is told by its operations.
--   RateLimit        src/rate_limit.rs: `is_allowed`. `f64` is the interface Float with the laws
--                    IsIeee of RateLimit/Ieee; RateLimit/Window is about exact arithmetic.
--   Security         src/security.rs: connections by address, TLS failures, blocked addresses.
--   Waf              src/security.rs: `check_request` and its patterns.
--   Server           src/main.rs, `serve_http` and `serve_https`: one turn of an accept loop is
--                    accept, which passes a peer to admit; the tasks that run are a list, and
--                    a task gives up its permit and its guard in finish.
--                    `tokio::sync::Semaphore` is the interface of Server/Semaphores.
--   Ssl              src/ssl.rs over the interface Tls of Ssl/Crates (the file system,
--                    rustls_pemfile, rustls), and the loop of `main` that loads the certificates.
--   Http, ErrorPages header maps, uris and what else is taken of the crate http; src/error.rs.
--   HealthCheck      src/health_check.rs: `check_one` is a check and what the balancer hears of it,
--                    `check_all` the loop over the backends; what the network answers is an argument.
--   Proxy            src/proxy.rs, `handle`: `begin` up to the wait for a backend, `finish` after it.
--                    Proxy/Interleaving runs both for many requests in any order. Proxy/State has
--                    the types, Proxy/Responses the answers, and Proxy/Outside what is taken from
--                    outside the program.
--   Startup          src/main.rs, `main`: what it builds from the command line and the file, and which
--                    listeners run. `Config::load` is over arguments for the file and its YAML.
--   StaticFiles      src/static_files.rs, `safe_path`, whose decoding of percent signs is a parameter;
--                    StaticFiles/Serve is `serve` and `serve_file` over the interface Files (the
--                    file system, httpdate, mime_guess); StaticFiles/Listing is the page of a
--                    directory.
--
-- Clocks (`unix_now`, `Instant::now`) are arguments. A method of a shared object is one step,
-- but for Balancer/Atomics, where the atomic operations of all threads take place one after another.
-- Arithmetic on counters wraps as in a release build; indices and the number of steps have no bound
-- but those that a theorem names.
-- The only fuel is that of `digits` (Common/Decimal), one more than the number, and a digit uses
-- one. `str::to_lowercase` is a parameter of the filter.
--
-- Not modelled: the tunnel of an upgraded connection and the streaming of bodies (I/O), the ticker
-- of the health checker, the parser of the command line, logging, binding to ports and shutdown, and
-- the parser of the configuration file (serde); the panic of a listener whose cap is more than the
-- permits that a semaphore can hold; and the second and later values of a header that a request has
-- more than once, which the handler never reads.
pub mod Common
pub mod Config
pub mod Backend
pub mod Balancer
pub mod RateLimit
pub mod Security
pub mod Waf
pub mod Http
pub mod ErrorPages
pub mod StaticFiles
pub mod Server
pub mod Ssl
pub mod HealthCheck
pub mod Proxy
pub mod Startup
