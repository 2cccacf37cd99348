-- ===== src/HealthCheck/Failing.antt =====
-- A backend of src/load_balancer.rs whose circuit is closed, with the failures it has counted, through
-- what the handler and the health checker call.
use curf.Common.{
  ℕ, zero, suc, ◌<◌, ◌≡◌, refl, ap, sym, subst, true, false, Option, some, List, [], ◌∷◌, map, Text,
  arith, get_elem?, Bool-cases, inl, inr,
}
use curf.Common.Address.{IpAddr}
use curf.Common.Equality.{◌==◌, list_key, nat_key, list_beq_iff}
use curf.Backend
use curf.Backend.{Backend}
use curf.Balancer.{LoadBalancer, modify, probe, select, at_url}
use curf.Balancer.Keeping.{probed, select-Keeps}

-- The first backend with the url is at the index; its circuit is closed, with so many failures.
abbrev pub IsClosedAt : Text → ℕ → ℕ → List Backend → Type 0
IsClosedAt url n j [] = ⊥
IsClosedAt url n zero (b ∷ bs) = (b.url ≡ url) × (b.failures ≡ n) × (b.circuit_open ≡ false)
IsClosedAt url n (suc j) (b ∷ bs) = ((b.url == url) ≡ false) × IsClosedAt url n j bs

-- There is a backend at the index, and its circuit is open.
abbrev pub IsOpenAt : ℕ → List Backend → Type 0
IsOpenAt j bs = (b : Backend) × (get_elem? bs j ≡ some b) × (b.circuit_open ≡ true)

-- A change of a backend that keeps its url, and what a closed circuit shows.
pub record IsMild (f : Backend → Backend) : Type 0 where
  pub url : (b : Backend) → (f b).url ≡ b.url
  pub failures : (b : Backend) → b.circuit_open ≡ false → (f b).failures ≡ b.failures
  pub stays : (b : Backend) → b.circuit_open ≡ false → (f b).circuit_open ≡ false

module _ (url : Text) (n : ℕ) where
  pub modify-IsClosedAt :
      (f : Backend → Backend)
      → IsMild f
      → (j i : ℕ) (bs : List Backend) → IsClosedAt url n j bs
      → IsClosedAt url n j (modify f i bs)
  modify-IsClosedAt f m j i [] c = absurd c
  modify-IsClosedAt f m zero zero (b ∷ bs) c =
      ground (arith, m.url b, m.failures b c.2, m.stays b c.2)
  modify-IsClosedAt f m zero (suc i) (b ∷ bs) c = c
  modify-IsClosedAt f m (suc j) zero (b ∷ bs) c = (rw (m.url b) c.0, c.1)
  modify-IsClosedAt f m (suc j) (suc i) (b ∷ bs) c = (c.0, modify-IsClosedAt f m j i bs c.1)

  map-IsClosedAt :
      (f : Backend → Backend)
      → IsMild f
      → (j : ℕ) (bs : List Backend) → IsClosedAt url n j bs
      → IsClosedAt url n j (map f bs)
  map-IsClosedAt f m j [] c = absurd c
  map-IsClosedAt f m zero (b ∷ bs) c = ground (arith, m.url b, m.failures b c.2, m.stays b c.2)
  map-IsClosedAt f m (suc j) (b ∷ bs) c = (rw (m.url b) c.0, map-IsClosedAt f m j bs c.1)

  -- What another backend hears of.
  pub at_url-IsClosedAt :
      (f : Backend → Backend)
      → ((b : Backend) → (f b).url ≡ b.url)
      → (u : Text) (j : ℕ) (bs : List Backend) → (u == url) ≡ false
      → IsClosedAt url n j bs
      → IsClosedAt url n j (at_url u f bs)
  unfolding at_url
  at_url-IsClosedAt f same u j [] other c = absurd c
  at_url-IsClosedAt f same u zero (b ∷ bs) other c = elim (Bool-cases (b.url == u)) [
    | inl here ↦ absurd (ground (arith, list_beq_iff b.url u, list_beq_iff u url))
    | inr there ↦ rw there c
  ]
  at_url-IsClosedAt f same u (suc j) (b ∷ bs) other c = elim (Bool-cases (b.url == u)) [
    | inl here ↦ rw here (rw (same b) c.0, c.1)
    | inr there ↦ rw there (c.0, at_url-IsClosedAt f same u j bs other c.1)
  ]

  -- What the backend itself hears of.
  pub at_url-own :
      (now j : ℕ) (bs : List Backend)
      → IsClosedAt url n j bs
      → n < 4
      → IsClosedAt url (suc n) j (at_url url (Backend.record_failure now) bs)
  unfolding at_url Backend.record_failure
  at_url-own now j [] c h = absurd c
  at_url-own now zero (b ∷ bs) c h =
      let here : (b.url == url) ≡ true = (list_beq_iff b.url url).1 c.0 in
      rw here (ground (arith, c.0), ground arith, ground arith)
  at_url-own now (suc j) (b ∷ bs) c h = rw (c.0) (c.0, at_url-own now j bs c.1 h)

  pub at_url-opens :
      (now j : ℕ) (bs : List Backend)
      → IsClosedAt url n j bs
      → n ≡ 4
      → IsOpenAt j (at_url url (Backend.record_failure now) bs)
  unfolding at_url Backend.record_failure
  at_url-opens now j [] c h = absurd c
  at_url-opens now zero (b ∷ bs) c h =
      let here : (b.url == url) ≡ true = (list_beq_iff b.url url).1 c.0 in
      rw here (Backend.record_failure now b, refl, ground arith)
  at_url-opens now (suc j) (b ∷ bs) c h = rw (c.0) (at_url-opens now j bs c.1 h)

probed-IsMild : (now : ℕ) → IsMild (probed now)
unfolding Backend.is_healthy
probed-IsMild now = record {
  url = λ b. ground arith;
  failures = λ b closed. ground arith;
  stays = λ b closed. ground arith;
}

acquire-IsMild : IsMild Backend.acquire
unfolding Backend.acquire
acquire-IsMild = record { url = λ b. refl; failures = λ b c. refl; stays = λ b c. c }

pub release-IsMild : IsMild Backend.release
unfolding Backend.release
release-IsMild = record { url = λ b. refl; failures = λ b c. refl; stays = λ b c. c }

pub success-url : (b : Backend) → (Backend.record_success b).url ≡ b.url
unfolding Backend.record_success
success-url b = refl

pub failure-url : (now : ℕ) (b : Backend) → (Backend.record_failure now b).url ≡ b.url
unfolding Backend.record_failure
failure-url now b = ground arith

probe-modify : (now i : ℕ) (bs : List Backend) → (probe now i bs).0 ≡ modify (probed now) i bs
unfolding probe
probe-modify now i [] = refl
probe-modify now zero (b ∷ bs) = refl
probe-modify now (suc i) (b ∷ bs) = ap (λ x. b ∷ x) (probe-modify now i bs)

pub select-IsClosedAt :
    (url : Text) (n j now : ℕ) (ip : Option IpAddr) (lb : LoadBalancer)
    → IsClosedAt url n j lb.backends
    → IsClosedAt url n j (select now ip lb).0.backends
select-IsClosedAt url n j =
    select-Keeps (IsClosedAt url n j)
      (λ now i bs c.
        subst (IsClosedAt url n j) (sym (probe-modify now i bs))
          (modify-IsClosedAt url n (probed now) (probed-IsMild now) j i bs c))
      (λ now bs c. map-IsClosedAt url n (probed now) (probed-IsMild now) j bs c)
      (λ i bs c. modify-IsClosedAt url n Backend.acquire acquire-IsMild j i bs c)
