-- ===== src/RateLimit/Burst.antt =====
-- What the laws of `f64` give of a bucket: its size bounds it, and a burst gets exactly its size.
use curf.Common.{
  ℕ, zero, suc, ◌-◌, ◌≤◌, ◌<◌, ◌≡◌, refl, ap, sym, ◌∙◌, Bool, true, false, Option, none, some, List,
  [], ◌∷◌, arith, inl, inr, Bool-cases, subst, le→leb, replicate, map,
}
use curf.Common.Dict.{lookup}
use curf.Common.Address.{IpAddr, ip_key}
use curf.RateLimit.Ieee.{Float, IsIeee, InU32}
use curf.RateLimit.{Bucket, new, answers}
use curf.RateLimit.PerAddress.{times_of, answers_of, level, ask, asks, answers-asks}

-- The first `n` of `k` answers are yes.
abbrev pub first : ℕ → ℕ → List Bool
first n zero = []
first zero (suc k) = false ∷ first zero k
first (suc n) (suc k) = true ∷ first n k

module _ (f : Float) (ieee : IsIeee f) (rps burst : ℕ) (rps_u32 : InU32 rps)
    (burst_u32 : InU32 burst) where
  open f use {F, of_u32, secs, add, mul, sub, min, eq, le}

  abbrev rate : F
  rate = of_u32 rps

  abbrev size : F
  size = of_u32 burst

  abbrev InSize : Option (Bucket F) → Type 0
  InSize none = Unit
  InSize (some b) = le b.tokens size ≡ true

  level-le : (now : ℕ) (b : Option (Bucket F)) → le (level f rate size now b) size ≡ true
  level-le now none = ieee.min-le _ burst burst_u32
  level-le now (some b) = ieee.min-le _ burst burst_u32

  ask-InSize : (now : ℕ) (b : Option (Bucket F)) → InSize b → InSize (ask f rate size now b).0
  unfolding ask
  ask-InSize now b h =
      let t = level f rate size now b in
      let under = level-le now b in
      elim (Bool-cases (eq rate (of_u32 0))) [
        | inl off ↦ rw off h
        | inr pos ↦ elim (Bool-cases (le (of_u32 1) t)) [
          | inl enough ↦ rw (pos, enough) (ieee.sub_one-le t size under)
          | inr short ↦ rw (pos, short) under
        ]
      ]

  asks-InSize :
      (times : List ℕ) (b : Option (Bucket F)) → InSize b → InSize (asks f rate size times b).0
  unfolding asks
  asks-InSize [] b h = h
  asks-InSize (now ∷ rest) b h = asks-InSize rest (ask f rate size now b).0 (ask-InSize now b h)

  fresh_bucket : (ip : IpAddr) → lookup ip (new f rps burst).buckets ≡ none
  unfolding new lookup
  fresh_bucket ip = refl

  -- After any run of requests from a new limiter, no bucket holds more tokens than the burst.
  answers-InSize :
      (calls : List (ℕ × IpAddr)) (ip : IpAddr) (b : Bucket F)
      → lookup ip (answers f calls (new f rps burst)).0.buckets ≡ some b
      → le b.tokens (of_u32 burst) ≡ true
  unfolding new
  answers-InSize calls ip b e =
      let kept = (answers-asks f calls ip (new f rps burst)).1 in
      let start = ap (λ o. (asks f rate size (times_of ip calls) o).0) (fresh_bucket ip) in
      subst InSize (sym start ∙ sym kept ∙ e) (asks-InSize (times_of ip calls) none tt)

  -- The limiter is on.
  module _ (rps_pos : 0 < rps) where
    rate_ne_zero : eq rate (of_u32 0) ≡ false
    rate_ne_zero = ground (arith, ieee.eq-of_u32 rps 0 rps_u32 (omega arith))

    -- A bucket of `n` whole tokens that was refilled at this very instant.
    abbrev holding : ℕ → ℕ → Option (Bucket F)
    holding now n = some (record { tokens = of_u32 n; last_refill = now })

    level-holding : (now n : ℕ) → n ≤ burst → level f rate size now (holding now n) ≡ of_u32 n
    level-holding now n h =
        let still : now - now ≡ 0 = omega arith in
        rw (
          still,
          ieee.no_time n rps (omega arith) rps_u32,
          ieee.min-of_u32 n burst (omega arith) burst_u32,
          le→leb n burst h,
        )

    level-none : (now : ℕ) → level f rate size now none ≡ of_u32 burst
    level-none now = level-holding now burst (omega arith)

    -- A level of `n` tokens gives one, if there is one.
    abbrev taken : ℕ → ℕ → Option (Bucket F) × Bool
    taken now zero = (holding now 0, false)
    taken now (suc n) = (holding now n, true)

    ask-taken :
        (now n : ℕ) (b : Option (Bucket F))
        → n ≤ burst
        → level f rate size now b ≡ of_u32 n
        → ask f rate size now b ≡ taken now n
    unfolding ask
    ask-taken now zero b h e =
        let short = ieee.le-of_u32 1 0 (omega arith) (omega arith) in rw (rate_ne_zero, e, short)
    ask-taken now (suc n) b h e =
        let enough =
          ieee.le-of_u32 1 (suc n) (omega arith) (omega arith) ∙ le→leb 1 (suc n) (omega arith) in
        rw (rate_ne_zero, e, enough, ieee.sub_one n (omega arith))

    asks-holding :
        (now n k : ℕ)
        → n ≤ burst
        → (asks f rate size (replicate k now) (holding now n)).1 ≡ first n k
    unfolding asks
    asks-holding now n zero h = refl
    asks-holding now zero (suc k) h =
        rw (ask-taken now 0 (holding now 0) h (level-holding now 0 h))
          (ap (◌∷◌ false) (asks-holding now 0 k h))
    asks-holding now (suc n) (suc k) h =
        rw (ask-taken now (suc n) (holding now (suc n)) h (level-holding now (suc n) h))
          (ap (◌∷◌ true) (asks-holding now n k (omega arith)))

    asks-fresh : (now k : ℕ) → (asks f rate size (replicate k now) none).1 ≡ first burst k
    unfolding asks
    asks-fresh now zero = refl
    asks-fresh now (suc k) =
        let full : burst ≤ burst = omega arith in
        let same =
          ask-taken now burst none full (level-none now)
          ∙ sym (ask-taken now burst (holding now burst) full (level-holding now burst full)) in
        ap (λ r. r.1 ∷ (asks f rate size (replicate k now) r.0).1) same
        ∙ asks-holding now burst (suc k) full

    -- An address that asks a new limiter `k` times at one instant is allowed the first `burst`
    -- times and refused after that, whatever other addresses ask at any time.
    pub answers-burst :
        (calls : List (ℕ × IpAddr)) (ip : IpAddr) (now k : ℕ)
        → times_of ip calls ≡ replicate k now
        → answers_of ip calls (answers f calls (new f rps burst)).1 ≡ first burst k
    unfolding new
    answers-burst calls ip now k e =
        (answers-asks f calls ip (new f rps burst)).0
        ∙ ap (λ o. (asks f rate size (times_of ip calls) o).1) (fresh_bucket ip)
        ∙ ap (λ ts. (asks f rate size ts none).1) e
        ∙ asks-fresh now k

    -- With a burst of 0 no level reaches one token.
    empty_level :
        (now : ℕ) (b : Option (Bucket F))
        → burst ≡ 0
        → le (of_u32 1) (level f rate size now b) ≡ false
    empty_level now b z = elim (Bool-cases (le (of_u32 1) (level f rate size now b))) [
      | inl enough ↦
          let big =
            ieee.le_trans (of_u32 1) (level f rate size now b) size enough (level-le now b) in
          let small = ieee.le-of_u32 1 burst (omega arith) burst_u32 in absurd (ground arith)
      | inr short ↦ short
    ]

    asks-empty :
        (times : List ℕ) (b : Option (Bucket F))
        → burst ≡ 0
        → (asks f rate size times b).1 ≡ map (λ _. false) times
    unfolding asks ask
    asks-empty [] b z = refl
    asks-empty (now ∷ rest) b z =
        rw (rate_ne_zero, empty_level now b z) (ap (◌∷◌ false) (asks-empty rest _ z))

    -- With a rate and a burst of 0 every request is refused for good.
    pub answers-no_burst :
        (calls : List (ℕ × IpAddr)) (ip : IpAddr)
        → burst ≡ 0
        → answers_of ip calls (answers f calls (new f rps burst)).1
          ≡ map (λ _. false) (times_of ip calls)
    unfolding new
    answers-no_burst calls ip z =
        (answers-asks f calls ip (new f rps burst)).0 ∙ asks-empty (times_of ip calls) _ z
