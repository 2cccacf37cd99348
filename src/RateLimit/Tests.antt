-- ===== src/RateLimit/Tests.antt =====
-- Two clients of a limiter with a rate of 2 and a burst of 3, and the theorems at their requests.
use curf.Common.{ℕ, ◌+◌, ◌-◌, ◌*◌, ◌≤◌, ◌≡◌, refl, true, false, some, List, [], ◌∷◌, arith}
use curf.Common.Dict.{lookup, insert}
use curf.Common.Address.{IpAddr, v4, ip_key}
use curf.RateLimit.{Bucket, RateLimiter, new, is_allowed, answers}
use curf.RateLimit.PerAddress.{times_of, answers_of, asks, answers-asks}
use curf.RateLimit.Burst.{first, answers-burst, answers-no_burst}
use curf.RateLimit.Window.{unit, exact, exact-IsIeee, accepted, answers-rate, is_allowed_again}

limiter : Unit {0}
unfolding answers is_allowed new lookup insert
limiter = tt

abbrev ann : IpAddr
ann = v4 1

abbrev bob : IpAddr
bob = v4 2

abbrev calls : List (ℕ × IpAddr)
calls = (10, ann) ∷ (10, bob) ∷ (10, ann) ∷ (10, ann) ∷ (10, ann) ∷ []

-- The fourth request of one instant is one too many; the other client is not affected.
four_at_once : (answers exact calls (new exact 2 3)).1 ≡ true ∷ true ∷ true ∷ true ∷ false ∷ []
unfolding limiter
four_at_once = refl

-- Half a second gives one more token.
abbrev later : List (ℕ × IpAddr)
later = (0, ann) ∷ (0, ann) ∷ (499_999_999, ann) ∷ (500_000_000, ann) ∷ []

refilled : (answers exact later (new exact 2 1)).1 ≡ true ∷ false ∷ false ∷ true ∷ []
unfolding limiter
refilled = refl

-- Two requests of one second read the clock before they wait for the bucket, and are served after
-- one of the next second: the second in between is counted twice.
abbrev overtaken : List (ℕ × IpAddr)
overtaken = (unit, ann) ∷ (0, ann) ∷ (unit, ann) ∷ (0, ann) ∷ (unit, ann) ∷ []

counted_twice :
    (answers exact overtaken (new exact 1 1)).1 ≡ true ∷ false ∷ true ∷ false ∷ true ∷ []
unfolding limiter
counted_twice = refl

answers-asks_example :
    (answers_of ann calls (answers exact calls (new exact 2 3)).1
      ≡ (asks exact
          (new exact 2 3).rps
          (new exact 2 3).burst
          (times_of ann calls)
          (lookup ann (new exact 2 3).buckets)).1)
    × (lookup ann (answers exact calls (new exact 2 3)).0.buckets
        ≡ (asks exact
            (new exact 2 3).rps
            (new exact 2 3).burst
            (times_of ann calls)
            (lookup ann (new exact 2 3).buckets)).0)
answers-asks_example = answers-asks exact calls ann (new exact 2 3)

bucket_of_bob :
    lookup bob (answers exact calls (new exact 2 3)).0.buckets
    ≡ some (record { tokens = 2 * unit; last_refill = 10 })
unfolding limiter
bucket_of_bob = refl

answers-burst_example : answers_of ann calls (answers exact calls (new exact 2 3)).1 ≡ first 3 4
answers-burst_example =
    answers-burst exact exact-IsIeee 2 3 (omega arith) (omega arith) (omega arith) calls ann 10 4
      refl

answers-no_burst_example :
    answers_of ann calls (answers exact calls (new exact 2 0)).1
    ≡ false ∷ false ∷ false ∷ false ∷ []
answers-no_burst_example =
    answers-no_burst exact exact-IsIeee 2 0 (omega arith) (omega arith) (omega arith) calls ann refl

answers-rate_example :
    accepted (answers_of ann later (answers exact later (new exact 2 1)).1) * unit
    ≤ 1 * unit + (500_000_000 - 0) * 2
answers-rate_example =
    answers-rate 2 1 (omega arith) later ann 0 (0 ∷ 499_999_999 ∷ 500_000_000 ∷ []) refl
      (omega arith)

abbrev spent : Bucket ℕ
spent = record { tokens = 0; last_refill = 0 }

abbrev drained : RateLimiter ℕ
drained = record { rps = 2 * unit; burst = 1 * unit; buckets = (ann, spent) ∷ [] }

is_allowed_again_example : (is_allowed exact 500_000_000 ann drained).1 ≡ true
unfolding lookup
is_allowed_again_example =
    is_allowed_again 2 1 (omega arith) 500_000_000 ann drained spent refl refl (omega arith) refl
      (omega arith)
