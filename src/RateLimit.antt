-- ===== src/RateLimit.antt =====
-- src/rate_limit.rs: one token bucket for each address. `Instant::now()` is the argument `now`, in
-- nanoseconds; `duration_since` is 0 for a later instant, as `-` is on ℕ. A call holds the entry of
-- its address, so calls for one address run one after the other.
pub mod Ieee
pub mod PerAddress
pub mod Burst
pub mod Window
mod Tests
use curf.Common.{ℕ, ◌-◌, Bool, true, false, Option, none, some, List, [], ◌∷◌, if◌then◌else◌}
use curf.Common.Dict.{Dict, lookup, insert}
use curf.Common.Address.{IpAddr, ip_key}
use Ieee.{Float}

pub record Bucket (F : Type 0) : Type 0 where
  pub tokens : F
  pub last_refill : ℕ

pub record RateLimiter (F : Type 0) : Type 0 where
  pub rps : F
  pub burst : F
  pub buckets : Dict IpAddr (Bucket F)

module _ (f : Float) where
  open f use {F, of_u32, secs, add, mul, sub, min, eq, le}

  unfoldable pub new : ℕ → ℕ → RateLimiter F
  new rps burst = record { rps = of_u32 rps; burst = of_u32 burst; buckets = [] }

  -- `entry(ip).or_insert_with(..)`
  abbrev pub entry : ℕ → RateLimiter F → Option (Bucket F) → Bucket F
  entry now rl none = record { tokens = rl.burst; last_refill = now }
  entry now rl (some b) = b

  -- The tokens after the refill for the time since the last one.
  abbrev pub refill : ℕ → RateLimiter F → Bucket F → F
  refill now rl b = min (add b.tokens (mul (secs (now - b.last_refill)) rl.rps)) rl.burst

  unfoldable pub is_allowed : ℕ → IpAddr → RateLimiter F → RateLimiter F × Bool
  is_allowed now ip rl =
      let tokens = refill now rl (entry now rl (lookup ip rl.buckets)) in
      let write = λ (t : F). record rl {
        buckets = insert ip (record { tokens = t; last_refill = now }) rl.buckets;
      } in
      if eq rl.rps (of_u32 0)
      then (rl, true)
      else if le (of_u32 1) tokens
      then (write (sub tokens (of_u32 1)), true)
      else (write tokens, false)

  -- A run of requests, each at its time and from its address, with the answers.
  unfoldable pub answers : List (ℕ × IpAddr) → RateLimiter F → RateLimiter F × List Bool
  answers [] rl = (rl, [])
  answers ((now, ip) ∷ rest) rl =
      let (rl', ok) = is_allowed now ip rl in let (last, oks) = answers rest rl' in (last, ok ∷ oks)
