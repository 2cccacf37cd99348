-- ===== src/RateLimit/Window.antt =====
-- The rate over time, where the arithmetic of `f64` is exact: numbers counted in units of 10^-9,
-- so that a token is 10^9 units and a duration is its nanoseconds.
use native.Mathlib.Nat.{mul_assoc}
use curf.Common.{
  ℕ, suc, ◌+◌, ◌-◌, ◌*◌, ◌/◌, ◌≤◌, ◌<◌, ◌≡◌, refl, ap, sym, ◌∙◌, Bool, true, false, Option, none,
  some, List, [], ◌∷◌, arith, inl, inr, if◌then◌else◌, Bool-cases, subst, leb, nat_beq, leb→le,
}
use curf.Common.Dict.{lookup}
use curf.Common.Address.{IpAddr, ip_key}
use curf.RateLimit.Ieee.{Float, IsIeee}
use curf.RateLimit.{Bucket, RateLimiter, new, is_allowed, answers}
use curf.RateLimit.PerAddress.{times_of, answers_of, level, ask, asks, answers-asks}

abbrev pub unit : ℕ
unit = 1_000_000_000

abbrev pub exact : Float
exact = record {
  F = ℕ;
  of_u32 = λ n. n * unit;
  secs = λ d. d;
  add = λ a b. a + b;
  mul = λ a b. a * b / unit;
  sub = λ a b. a - b;
  min = λ a b. if leb a b then a else b;
  eq = nat_beq;
  le = leb;
}

mul_exact : (d r : ℕ) → d * (r * unit) / unit ≡ d * r
mul_exact d r = rw (← mul_assoc d r unit) (omega arith)

pub exact-IsIeee : IsIeee exact
exact-IsIeee = record {
  eq-of_u32 = λ a b h k. ground arith;
  le-of_u32 = λ a b h k. ground arith;
  min-of_u32 = λ a b h k. ground arith;
  sub_one = λ a h. omega arith;
  no_time = λ a b h k. omega (arith, mul_exact 0 b);
  min-le = λ a b h. ground arith;
  sub_one-le = λ a b h. ground arith;
  le_trans = λ a b c h k. ground arith;
}

abbrev pub accepted : List Bool → ℕ
accepted [] = 0
accepted (true ∷ oks) = suc (accepted oks)
accepted (false ∷ oks) = accepted oks

-- The times do not fall, from `start` on, and the last of them.
abbrev pub Ascending : ℕ → List ℕ → Type 0
Ascending start [] = Unit
Ascending start (t ∷ ts) = (start ≤ t) × Ascending t ts

abbrev pub final : ℕ → List ℕ → ℕ
final start [] = start
final start (t ∷ ts) = final t ts

le-final : (start : ℕ) (ts : List ℕ) → Ascending start ts → start ≤ final start ts
le-final start [] h = omega arith
le-final start (t ∷ ts) h = omega (arith, le-final t ts h.1, h.0)

module _ (rps burst : ℕ) (rps_pos : 0 < rps) where
  abbrev asks_exact : List ℕ → Option (Bucket ℕ) → Option (Bucket ℕ) × List Bool
  asks_exact = asks exact (rps * unit) (burst * unit)

  abbrev bucket : ℕ → ℕ → Bucket ℕ
  bucket tokens at = record { tokens = tokens; last_refill = at }

  level-le_refill :
      (now tokens at : ℕ)
      → level exact (rps * unit) (burst * unit) now (some (bucket tokens at))
        ≤ tokens + (now - at) * rps
  level-le_refill now tokens at = ground (arith, mul_exact (now - at) rps)

  spend :
      (now at end tokens n : ℕ)
      → at ≤ now
      → now ≤ end
      → n ≤ tokens + (now - at) * rps + (end - now) * rps
      → n ≤ tokens + (end - at) * rps
  spend now at end tokens n h k e =
      let d : end - at ≡ (now - at) + (end - now) = omega arith in
      omega (arith, ap (λ x. x * rps) d)

  abbrev level_at : ℕ → Option (Bucket ℕ) → ℕ
  level_at = level exact (rps * unit) (burst * unit)

  ask-exact :
      (now : ℕ) (b : Option (Bucket ℕ))
      → ask exact (rps * unit) (burst * unit) now b ≡ (
          if leb unit (level_at now b)
          then (some (bucket (level_at now b - unit) now), true)
          else (some (bucket (level_at now b) now), false))
  unfolding ask
  ask-exact now b = let on : nat_beq (rps * unit) 0 ≡ false = ground arith in rw on

  asks-le :
      (times : List ℕ) (tokens at : ℕ)
      → Ascending at times
      → accepted (asks_exact times (some (bucket tokens at))).1 * unit
        ≤ tokens + (final at times - at) * rps
  unfolding asks
  asks-le [] tokens at h = omega arith
  asks-le (now ∷ rest) tokens at (le, h) =
      let t : ℕ = level_at now (some (bucket tokens at)) in
      let under = level-le_refill now tokens at in
      let past = le-final now rest h in
      elim (Bool-cases (leb unit t)) [
        | inl enough ↦
            let room = leb→le unit t enough in
            rw (ask-exact now (some (bucket tokens at)), enough)
              (spend now at (final now rest) tokens _ le past
                (omega (arith, asks-le rest (t - unit) now h, under, room)))
        | inr short ↦
            rw (ask-exact now (some (bucket tokens at)), short)
              (spend now at (final now rest) tokens _ le past
                (omega (arith, asks-le rest t now h, under)))
      ]

  asks_fresh-le :
      (t : ℕ) (ts : List ℕ)
      → Ascending t ts
      → accepted (asks_exact (t ∷ ts) none).1 * unit ≤ burst * unit + (final t ts - t) * rps
  unfolding asks
  asks_fresh-le t ts h =
      let full = bucket (burst * unit) t in
      let same = ask-exact t none ∙ sym (ask-exact t (some full)) in
      subst
        (λ (r : Option (Bucket ℕ) × Bool).
          accepted (r.1 ∷ (asks_exact ts r.0).1) * unit ≤ burst * unit + (final t ts - t) * rps)
        (sym same) (asks-le (t ∷ ts) (burst * unit) t (omega arith, h))

  fresh_bucket : (ip : IpAddr) → lookup ip (new exact rps burst).buckets ≡ none
  unfolding new lookup
  fresh_bucket ip = refl

  -- With exact arithmetic, an address whose requests come at times that do not fall is allowed at
  -- most the burst and the rate times the time from its first request to its last, in any run of
  -- requests to a new limiter.
  pub answers-rate :
      (calls : List (ℕ × IpAddr)) (ip : IpAddr) (t : ℕ) (ts : List ℕ)
      → times_of ip calls ≡ t ∷ ts
      → Ascending t ts
      → accepted (answers_of ip calls (answers exact calls (new exact rps burst)).1) * unit
        ≤ burst * unit + (final t ts - t) * rps
  unfolding new
  answers-rate calls ip t ts e h =
      let own =
        (answers-asks exact calls ip (new exact rps burst)).0
        ∙ ap (λ o. (asks_exact (times_of ip calls) o).1) (fresh_bucket ip)
        ∙ ap (λ l. (asks_exact l none).1) e in
      subst (λ oks. accepted oks * unit ≤ burst * unit + (final t ts - t) * rps) (sym own)
        (asks_fresh-le t ts h)

  -- With exact arithmetic and a burst of at least 1, an address that asks again once the rate has
  -- had the time for one token since its last request is allowed, whatever happened before.
  pub is_allowed_again :
      (now : ℕ) (ip : IpAddr) (rl : RateLimiter ℕ) (b : Bucket ℕ)
      → rl.rps ≡ rps * unit
      → rl.burst ≡ burst * unit
      → 0 < burst
      → lookup ip rl.buckets ≡ some b
      → unit ≤ (now - b.last_refill) * rps
      → (is_allowed exact now ip rl).1 ≡ true
  unfolding is_allowed
  is_allowed_again now ip rl b r s pos e h = ground (arith, mul_exact (now - b.last_refill) rps)
