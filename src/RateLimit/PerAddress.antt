-- ===== src/RateLimit/PerAddress.antt =====
-- One token bucket by itself, and the limiter as one such bucket for each address.
use curf.Common.{
  ℕ, ◌-◌, ◌≡◌, refl, ap, ◌∙◌, Bool, true, false, Option, none, some, List, [], ◌∷◌, arith, inl, inr,
  if◌then◌else◌, Bool-cases,
}
use curf.Common.Dict.{Dict, lookup, lookup-insert}
use curf.Common.Address.{IpAddr, ip_key, ip_beq, ip_beq_iff}
use curf.RateLimit.Ieee.{Float}
use curf.RateLimit.{Bucket, RateLimiter, is_allowed, entry, refill, answers}

-- The times at which an address asks, and the answers that it gets, in a run of requests.
abbrev pub times_of : IpAddr → List (ℕ × IpAddr) → List ℕ
times_of ip [] = []
times_of ip ((now, other) ∷ rest) =
    if ip_beq other ip then now ∷ times_of ip rest else times_of ip rest

abbrev pub answers_of : IpAddr → List (ℕ × IpAddr) → List Bool → List Bool
answers_of ip [] oks = []
answers_of ip (c ∷ rest) [] = []
answers_of ip ((now, other) ∷ rest) (ok ∷ oks) =
    if ip_beq other ip then ok ∷ answers_of ip rest oks else answers_of ip rest oks

module _ (f : Float) where
  open f use {F, of_u32, secs, add, mul, sub, min, eq, le}

  -- The specification: a bucket that is filled when it is first asked, refilled by the rate up to
  -- its size, and gives a token if it has one. With a rate of 0 it always says yes.
  module _ (rps burst : F) where
    abbrev pub level : ℕ → Option (Bucket F) → F
    level now none = min (add burst (mul (secs (now - now)) rps)) burst
    level now (some b) = min (add b.tokens (mul (secs (now - b.last_refill)) rps)) burst

    unfoldable pub ask : ℕ → Option (Bucket F) → Option (Bucket F) × Bool
    ask now b =
        if eq rps (of_u32 0)
        then (b, true)
        else if le (of_u32 1) (level now b)
        then (some (record { tokens = sub (level now b) (of_u32 1); last_refill = now }), true)
        else (some (record { tokens = level now b; last_refill = now }), false)

    unfoldable pub asks : List ℕ → Option (Bucket F) → Option (Bucket F) × List Bool
    asks [] b = (b, [])
    asks (now ∷ rest) b =
        let (b', ok) = ask now b in let (last, oks) = asks rest b' in (last, ok ∷ oks)

  refill-level :
      (now : ℕ) (rl : RateLimiter F) (b : Option (Bucket F))
      → refill f now rl (entry f now rl b) ≡ level rl.rps rl.burst now b
  refill-level now rl none = refl
  refill-level now rl (some b) = refl

  -- One request: its answer and its bucket are the specification's, all else stays.
  pub record Serves (now : ℕ) (ip : IpAddr) (rl rl' : RateLimiter F) (ok : Bool) : Type 0 where
    pub rate : rl'.rps ≡ rl.rps
    pub size : rl'.burst ≡ rl.burst
    pub answer : ok ≡ (ask rl.rps rl.burst now (lookup ip rl.buckets)).1
    pub bucket :
        (j : IpAddr)
        → lookup j rl'.buckets ≡ (
            if ip_beq ip j
            then (ask rl.rps rl.burst now (lookup ip rl.buckets)).0
            else lookup j rl.buckets)

  bucket_unchanged :
      (ip j : IpAddr) (m : Dict IpAddr (Bucket F))
      → lookup j m ≡ (if ip_beq ip j then lookup ip m else lookup j m)
  bucket_unchanged ip j m = elim (Bool-cases (ip_beq ip j)) [
    | inl same ↦ rw (same, (ip_beq_iff ip j).0 same)
    | inr other ↦ rw other
  ]

  module _ (now : ℕ) (ip : IpAddr) (rl : RateLimiter F) where
    abbrev before : Option (Bucket F)
    before = lookup ip rl.buckets

    rate_kept :
        ((is_allowed f now ip rl).0.rps ≡ rl.rps) × ((is_allowed f now ip rl).0.burst ≡ rl.burst)
    unfolding is_allowed
    rate_kept = ground arith

    answer_asked : (is_allowed f now ip rl).1 ≡ (ask rl.rps rl.burst now before).1
    unfolding is_allowed ask
    answer_asked = ground (arith, refill-level now rl before)

    bucket_asked :
        (j : IpAddr)
        → lookup j (is_allowed f now ip rl).0.buckets
          ≡ (if ip_beq ip j then (ask rl.rps rl.burst now before).0 else lookup j rl.buckets)
    unfolding is_allowed ask
    bucket_asked j =
        let stored = λ (b : Bucket F). lookup-insert ip j b rl.buckets in
        let t = level rl.rps rl.burst now before in
        ground (
          arith,
          refill-level now rl before,
          bucket_unchanged ip j rl.buckets,
          stored (record { tokens = sub t (of_u32 1); last_refill = now }),
          stored (record { tokens = t; last_refill = now }),
        )

  pub is_allowed-Serves :
      (now : ℕ) (ip : IpAddr) (rl : RateLimiter F)
      → Serves now ip rl (is_allowed f now ip rl).0 (is_allowed f now ip rl).1
  is_allowed-Serves now ip rl = record {
    rate = (rate_kept now ip rl).0;
    size = (rate_kept now ip rl).1;
    answer = answer_asked now ip rl;
    bucket = bucket_asked now ip rl;
  }

  -- The answers to one address in a run of requests are those of its own bucket, asked at its own
  -- times, whatever the other addresses do; and that is the bucket that the limiter keeps of it.
  pub answers-asks :
      (calls : List (ℕ × IpAddr)) (ip : IpAddr) (rl : RateLimiter F)
      → (answers_of ip calls (answers f calls rl).1
          ≡ (asks rl.rps rl.burst (times_of ip calls) (lookup ip rl.buckets)).1)
        × (lookup ip (answers f calls rl).0.buckets
            ≡ (asks rl.rps rl.burst (times_of ip calls) (lookup ip rl.buckets)).0)
  unfolding answers asks
  answers-asks [] ip rl = (refl, refl)
  answers-asks ((now, other) ∷ rest) ip rl =
      let rl' : RateLimiter F = (is_allowed f now other rl).0 in
      let s = is_allowed-Serves now other rl in
      let ih = answers-asks rest ip rl' in
      elim (Bool-cases (ip_beq other ip)) [
        | inl same ↦
            let old : lookup other rl.buckets ≡ lookup ip rl.buckets =
              ap (λ j. lookup j rl.buckets) ((ip_beq_iff other ip).0 same) in
            let kept : lookup ip rl'.buckets
                ≡ (ask rl.rps rl.burst now (lookup other rl.buckets)).0 =
              s.bucket ip ∙ rw same in
            let b = lookup ip rl.buckets in
            let later = asks rl.rps rl.burst (times_of ip rest) (ask rl.rps rl.burst now b).0 in
            let said : (is_allowed f now other rl).1 ∷ answers_of ip rest (answers f rest rl').1
                ≡ (ask rl.rps rl.burst now b).1 ∷ later.1 =
              cc (ih.0, s.rate, s.size, s.answer, kept, old) in
            let left : lookup ip (answers f rest rl').0.buckets ≡ later.0 =
              cc (ih.1, s.rate, s.size, kept, old) in
            rw same (said, left)
        | inr differ ↦
            let kept : lookup ip rl'.buckets ≡ lookup ip rl.buckets = s.bucket ip ∙ rw differ in
            rw differ (cc (ih.0, s.rate, s.size, kept), cc (ih.1, s.rate, s.size, kept))
      ]
