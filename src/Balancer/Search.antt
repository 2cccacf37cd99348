-- ===== src/Balancer/Search.antt =====
-- The loops of the three strategies, as searches over what the backends show.
use curf.Common.{
  ℕ, zero, suc, ◌+◌, ◌%◌, ◌≤◌, ◌<◌, ◌≡◌, refl, ap, sym, ◌∙◌, ◌⊎◌, inl, inr, true, false, Option,
  none, some, List, [], ◌∷◌, arith, if◌then◌else◌, Bool-cases, ltb, subst,
}
use curf.Common.Words.{add64}
use curf.Backend
use curf.Backend.{Backend}
use curf.Balancer.{probe, round_robin_loop, ip_hash_loop, least_loop, min_key}
use curf.Balancer.View.{View, view, views, up_at, active_at, views-probe, probe-up, view-is_healthy}
use curf.Balancer.Visits.{turn_slots, hash_slots, first_up}

pub round_robin_loop-found :
    (now n rounds cursor : ℕ) (bs : List Backend)
    → (round_robin_loop now n rounds cursor bs).found
      ≡ first_up (views now bs) (turn_slots n rounds cursor)
unfolding round_robin_loop
round_robin_loop-found now n zero cursor bs = refl
round_robin_loop-found now n (suc rounds) cursor bs =
    let bs' : List Backend = (probe now (cursor % n) bs).0 in
    let ih = round_robin_loop-found now n rounds (add64 cursor 1) bs' in
    ground (arith, probe-up now (cursor % n) bs, views-probe now (cursor % n) bs, ih)

pub round_robin_loop-views :
    (now n rounds cursor : ℕ) (bs : List Backend)
    → views now (round_robin_loop now n rounds cursor bs).backends ≡ views now bs
unfolding round_robin_loop
round_robin_loop-views now n zero cursor bs = refl
round_robin_loop-views now n (suc rounds) cursor bs =
    let bs' : List Backend = (probe now (cursor % n) bs).0 in
    let ih = round_robin_loop-views now n rounds (add64 cursor 1) bs' in
    ground (arith, views-probe now (cursor % n) bs, ih)

pub ip_hash_loop-found :
    (now n hash rounds i : ℕ) (bs : List Backend)
    → (ip_hash_loop now n hash rounds i bs).1 ≡ first_up (views now bs) (hash_slots n hash rounds i)
unfolding ip_hash_loop
ip_hash_loop-found now n hash zero i bs = refl
ip_hash_loop-found now n hash (suc rounds) i bs =
    let idx = (hash + i) % n in
    let ih = ip_hash_loop-found now n hash rounds (suc i) (probe now idx bs).0 in
    ground (arith, probe-up now idx bs, views-probe now idx bs, ih)

pub ip_hash_loop-views :
    (now n hash rounds i : ℕ) (bs : List Backend)
    → views now (ip_hash_loop now n hash rounds i bs).0 ≡ views now bs
unfolding ip_hash_loop
ip_hash_loop-views now n hash zero i bs = refl
ip_hash_loop-views now n hash (suc rounds) i bs =
    let idx = (hash + i) % n in
    let ih = ip_hash_loop-views now n hash rounds (suc i) (probe now idx bs).0 in
    ground (arith, views-probe now idx bs, ih)

-- The fold of `least_connections` over what the backends show.
abbrev pub least_of : ℕ → List View → Option (ℕ × ℕ) → Option (ℕ × ℕ)
least_of i [] best = best
least_of i (v ∷ vs) best = least_of (suc i) vs (if v.up then min_key best (i, v.active) else best)

healthy-up : (now : ℕ) (b : Backend) → (Backend.is_healthy now b).1 ≡ (view now b).up
unfolding Backend.is_healthy
healthy-up now b = ground arith

healthy-active : (now : ℕ) (b : Backend) → (Backend.is_healthy now b).0.active ≡ b.active
unfolding Backend.is_healthy
healthy-active now b = ground arith

pub least_loop-found :
    (now i : ℕ) (bs : List Backend) (best : Option (ℕ × ℕ))
    → (least_loop now i bs best).1 ≡ least_of i (views now bs) best
unfolding least_loop Backend.active_count
least_loop-found now i [] best = refl
least_loop-found now i (b ∷ bs) best =
    rw (healthy-up now b, healthy-active now b) (least_loop-found now (suc i) bs _)

pub least_loop-views :
    (now i : ℕ) (bs : List Backend) (best : Option (ℕ × ℕ))
    → views now (least_loop now i bs best).0 ≡ views now bs
unfolding least_loop
least_loop-views now i [] best = refl
least_loop-views now i (b ∷ bs) best =
    let ih = least_loop-views now (suc i) bs (
      if (Backend.is_healthy now b).1
      then min_key best (i, Backend.active_count (Backend.is_healthy now b).0)
      else best) in
    cc (view-is_healthy now b, ih)

-- An entry from index `k` on that is up, at index `r.0` and with the count `r.1`.
abbrev pub At : ℕ → List View → ℕ × ℕ → Type 0
At k vs r = (j : ℕ) × (r.0 ≡ k + j) × (up_at j vs ≡ true) × (active_at j vs ≡ r.1)

-- `r` is the best so far, or an entry with a count below the best so far; no entry has a smaller
-- count, and none before it has the same.
pub record IsLeast (k : ℕ) (vs : List View) (best : Option (ℕ × ℕ)) (r : ℕ × ℕ) : Type 0 where
  pub from : (best ≡ some r) ⊎ At k vs r
  pub beats : (c : ℕ × ℕ) → best ≡ some c → (r ≡ c) ⊎ (r.1 < c.1)
  pub least : (j : ℕ) → up_at j vs ≡ true → r.1 ≤ active_at j vs
  pub first : (j : ℕ) → up_at j vs ≡ true → k + j < r.0 → r.1 < active_at j vs

abbrev pub Leasts : ℕ → List View → Option (ℕ × ℕ) → Option (ℕ × ℕ) → Type 0
Leasts k vs best none = (best ≡ none) × ((j : ℕ) → up_at j vs ≡ false)
Leasts k vs best (some r) = IsLeast k vs best r

abbrev Before : ℕ → Option (ℕ × ℕ) → Type 0
Before k none = Unit
Before k (some c) = c.0 < k

At-cons : (k : ℕ) (v : View) (vs : List View) (r : ℕ × ℕ) → At (suc k) vs r → At k (v ∷ vs) r
At-cons k v vs r (j, e, up, a) = (suc j, omega arith, up, a)

Leasts-down :
    (k : ℕ) (v : View) (vs : List View) (best r : Option (ℕ × ℕ))
    → v.up ≡ false
    → Leasts (suc k) vs best r
    → Leasts k (v ∷ vs) best r
Leasts-down k v vs best none d (e, h) = (e, elim [ zero ↦ d | suc j ↦ h j ])
Leasts-down k v vs best (some r) d h = record {
  from = elim h.from [ inl e ↦ inl e | inr at ↦ inr (At-cons k v vs r at) ];
  beats = h.beats;
  least = elim [ zero ↦ λ up. cc | suc j ↦ h.least j ];
  first = elim [ zero ↦ λ up. cc | suc j ↦ λ up lt. h.first j up (omega arith) ];
}

-- The best so far after an entry that is up.
record Better (k : ℕ) (a : ℕ) (best : Option (ℕ × ℕ)) (c : ℕ × ℕ) : Type 0 where
  source : (best ≡ some c) ⊎ (c ≡ (k, a))
  beats : (m : ℕ × ℕ) → best ≡ some m → (c ≡ m) ⊎ (c.1 < m.1)
  low : c.1 ≤ a
  early : c.0 ≤ k

min_key-Better :
    (k a : ℕ) (best : Option (ℕ × ℕ))
    → Before k best
    → (c : ℕ × ℕ) × (min_key best (k, a) ≡ some c) × Better k a best c
min_key-Better k a none b = (
  (k, a),
  refl,
  record { source = inr refl; beats = λ m e. cc; low = omega arith; early = omega arith },
)
min_key-Better k a (some m) b = elim (Bool-cases (ltb a m.1)) [
  | inl less ↦ (
    (k, a),
    rw less,
    record {
      source = inr refl;
      beats = λ m' e. inr (ground arith);
      low = omega arith;
      early = omega arith;
    },
  )
  | inr keep ↦ (
    m,
    rw keep,
    record {
      source = inl refl;
      beats = λ m' e. inl (ground arith);
      low = ground arith;
      early = omega arith;
    },
  )
]

module _ (k : ℕ) (v : View) (vs : List View) (best : Option (ℕ × ℕ)) (c : ℕ × ℕ) (up : v.up ≡ true)
    (better : Better k v.active best c) where
  Leasts-up : (r : Option (ℕ × ℕ)) → Leasts (suc k) vs (some c) r → Leasts k (v ∷ vs) best r
  Leasts-up none (e, h) = cc
  Leasts-up (some r) h = record {
    from = elim h.from [
      | inl e ↦ elim better.source [
        | inl b ↦ inl (b ∙ e)
        | inr s ↦ inr (0, ground arith, up, ground arith)
      ]
      | inr at ↦ inr (At-cons k v vs r at)
    ];
    beats = λ m e. ground (arith, h.beats c refl, better.beats m e);
    least = elim [ zero ↦ λ _. ground (arith, h.beats c refl, better.low) | suc j ↦ h.least j ];
    first = elim [
      | zero ↦ λ _ lt. ground (arith, h.beats c refl, better.low, better.early)
      | suc j ↦ λ u lt. h.first j u (omega arith)
    ];
  }

Before-suc : (k : ℕ) (best : Option (ℕ × ℕ)) → Before k best → Before (suc k) best
Before-suc k none b = tt
Before-suc k (some c) b = omega arith

abbrev next_best : ℕ → View → Option (ℕ × ℕ) → Option (ℕ × ℕ)
next_best k v best = if v.up then min_key best (k, v.active) else best

pub least_of-Leasts :
    (k : ℕ) (vs : List View) (best : Option (ℕ × ℕ))
    → Before k best
    → Leasts k vs best (least_of k vs best)
least_of-Leasts k [] none b = (refl, λ j. refl)
least_of-Leasts k [] (some r) b = record {
  from = inl refl;
  beats = λ c e. inl (ground arith);
  least = λ j up. cc;
  first = λ j up. cc;
}
least_of-Leasts k (v ∷ vs) best b = elim (Bool-cases v.up) [
  | inl up ↦
      let (c, e, better) = min_key-Better k v.active best b in
      let is : next_best k v best ≡ some c =
        ap (λ u. if u then min_key best (k, v.active) else best) up ∙ e in
      subst (λ n. Leasts k (v ∷ vs) best (least_of (suc k) vs n)) (sym is)
        (Leasts-up k v vs best c up better _
          (least_of-Leasts (suc k) vs (some c) (omega (arith, better.early))))
  | inr down ↦
      let is : next_best k v best ≡ best =
        ap (λ u. if u then min_key best (k, v.active) else best) down in
      subst (λ n. Leasts k (v ∷ vs) best (least_of (suc k) vs n)) (sym is)
        (Leasts-down k v vs best _ down (least_of-Leasts (suc k) vs best (Before-suc k best b)))
]
