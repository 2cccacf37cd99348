-- ===== src/RateLimit/Ieee.antt =====
-- `f64` as the rate limiter uses it: the operations, and the laws of IEEE 754 double precision that
-- its theorems rest on. Numbers below 2^32 are exact, so sums and differences of them that stay
-- there are exact too; `min` gives its other argument when one is NaN; subtracting one never raises
-- a number; `<=` is transitive.
use curf.Common.{ℕ, suc, ◌<◌, ◌≡◌, Bool, true, leb, nat_beq, if◌then◌else◌}

-- Numbers of a `u32`.
abbrev pub InU32 : ℕ → Type 0
InU32 n = n < 4294967296

pub record Float : Type 1 where
  pub F : Type 0
  pub of_u32 : ℕ → F
  -- `Duration::as_secs_f64`, of a duration in nanoseconds.
  pub secs : ℕ → F
  pub add : F → F → F
  pub mul : F → F → F
  pub sub : F → F → F
  pub min : F → F → F
  pub eq : F → F → Bool
  pub le : F → F → Bool

module _ (f : Float) where
  open f use {F, of_u32, secs, add, mul, sub, min, eq, le}

  pub record IsIeee : Type 0 where
    pub eq-of_u32 : (a b : ℕ) → InU32 a → InU32 b → eq (of_u32 a) (of_u32 b) ≡ nat_beq a b
    pub le-of_u32 : (a b : ℕ) → InU32 a → InU32 b → le (of_u32 a) (of_u32 b) ≡ leb a b
    pub min-of_u32 :
        (a b : ℕ)
        → InU32 a
        → InU32 b
        → min (of_u32 a) (of_u32 b) ≡ of_u32 (if leb a b then a else b)
    pub sub_one : (a : ℕ) → InU32 (suc a) → sub (of_u32 (suc a)) (of_u32 1) ≡ of_u32 a
    pub no_time :
        (a b : ℕ) → InU32 a → InU32 b → add (of_u32 a) (mul (secs 0) (of_u32 b)) ≡ of_u32 a
    pub min-le : (a : F) (b : ℕ) → InU32 b → le (min a (of_u32 b)) (of_u32 b) ≡ true
    pub sub_one-le : (a b : F) → le a b ≡ true → le (sub a (of_u32 1)) b ≡ true
    pub le_trans : (a b c : F) → le a b ≡ true → le b c ≡ true → le a c ≡ true
