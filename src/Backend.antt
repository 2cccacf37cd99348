-- ===== src/Backend.antt =====
-- src/load_balancer.rs, `Backend`: one upstream server with its circuit breaker. The atomics are
-- fields, and a method returns the new state; each method runs as one step. `unix_now()` is the
-- argument `now`. Additions and subtractions wrap at 64 bits, as they do in a release build.
pub mod Breaker
mod Tests
use curf.Common.{ℕ, Bool, true, false, not, Text, if◌then◌else◌, leb}
use curf.Common.Words.{add64, sub64}

abbrev pub cb_threshold : ℕ
cb_threshold = 5

abbrev pub cb_reset_secs : ℕ
cb_reset_secs = 30

pub record Backend : Type 0 where
  pub url : Text
  pub active : ℕ
  pub failures : ℕ
  pub last_failure : ℕ
  pub circuit_open : Bool

unfoldable pub new : Text → Backend
new url = record { url = url; active = 0; failures = 0; last_failure = 0; circuit_open = false }

unfoldable pub acquire : Backend → Backend
acquire b = record b { active = add64 b.active 1 }

unfoldable pub release : Backend → Backend
release b = record b { active = sub64 b.active 1 }

unfoldable pub active_count : Backend → ℕ
active_count b = b.active

unfoldable pub record_success : Backend → Backend
record_success b = record b { failures = 0; circuit_open = false }

unfoldable pub record_failure : ℕ → Backend → Backend
record_failure now b =
    let f = add64 b.failures 1 in
    let failed = record b { failures = f; last_failure = now } in
    if leb cb_threshold f then record failed { circuit_open = true } else failed

-- A probe of an open circuit may close it, so the backend comes back beside the answer.
unfoldable pub is_healthy : ℕ → Backend → Backend × Bool
is_healthy now b =
    if not b.circuit_open
    then (b, true)
    else if leb cb_reset_secs (sub64 now b.last_failure)
    then (record b { circuit_open = false; failures = 0 }, true)
    else (b, false)
