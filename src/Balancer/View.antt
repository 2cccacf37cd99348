-- ===== src/Balancer/View.antt =====
-- What a load balancer shows of its backends at a time: the url, the count of active requests and
-- whether the backend may receive traffic. Probes keep it, and a choice raises one count.
use curf.Common.{
  ℕ, zero, suc, ◌<◌, ◌≡◌, refl, ap, Bool, true, false, List, [], ◌∷◌, map, Text, arith, length,
  length-map,
}
use curf.Common.Words.{add64, sub64}
use curf.Backend
use curf.Backend.{Backend}
use curf.Backend.Breaker.{available}
use curf.Balancer.{modify, probe, url_at}

pub record View : Type 0 where
  pub url : Text
  pub active : ℕ
  pub up : Bool

abbrev pub view : ℕ → Backend → View
view now b = record { url = b.url; active = b.active; up = available now b }

abbrev pub views : ℕ → List Backend → List View
views now = map (view now)

abbrev pub up_at : ℕ → List View → Bool
up_at i [] = false
up_at zero (v ∷ vs) = v.up
up_at (suc i) (v ∷ vs) = up_at i vs

abbrev pub name_at : ℕ → List View → Text
name_at i [] = []
name_at zero (v ∷ vs) = v.url
name_at (suc i) (v ∷ vs) = name_at i vs

abbrev pub active_at : ℕ → List View → ℕ
active_at i [] = 0
active_at zero (v ∷ vs) = v.active
active_at (suc i) (v ∷ vs) = active_at i vs

-- One more active request at one place.
abbrev pub bump : (ℕ → ℕ) → ℕ → List View → List View
bump f i [] = []
bump f zero (v ∷ vs) = record v { active = f v.active } ∷ vs
bump f (suc i) (v ∷ vs) = v ∷ bump f i vs

pub view-is_healthy : (now : ℕ) (b : Backend) → view now (Backend.is_healthy now b).0 ≡ view now b
unfolding Backend.is_healthy
view-is_healthy now b = ground arith

pub views-probe : (now i : ℕ) (bs : List Backend) → views now (probe now i bs).0 ≡ views now bs
unfolding probe
views-probe now i [] = refl
views-probe now zero (b ∷ bs) = cc (view-is_healthy now b)
views-probe now (suc i) (b ∷ bs) = cc (views-probe now i bs)

pub probe-up : (now i : ℕ) (bs : List Backend) → (probe now i bs).1 ≡ up_at i (views now bs)
unfolding probe Backend.is_healthy
probe-up now i [] = refl
probe-up now zero (b ∷ bs) = ground arith
probe-up now (suc i) (b ∷ bs) = probe-up now i bs

pub url_at-name_at : (now i : ℕ) (bs : List Backend) → url_at i bs ≡ name_at i (views now bs)
url_at-name_at now i [] = refl
url_at-name_at now zero (b ∷ bs) = refl
url_at-name_at now (suc i) (b ∷ bs) = url_at-name_at now i bs

pub views-acquire :
    (now i : ℕ) (bs : List Backend)
    → views now (modify Backend.acquire i bs) ≡ bump (λ n. add64 n 1) i (views now bs)
unfolding Backend.acquire
views-acquire now i [] = refl
views-acquire now zero (b ∷ bs) = refl
views-acquire now (suc i) (b ∷ bs) = ap (◌∷◌ (view now b)) (views-acquire now i bs)

pub views-release :
    (now i : ℕ) (bs : List Backend)
    → views now (modify Backend.release i bs) ≡ bump (λ n. sub64 n 1) i (views now bs)
unfolding Backend.release
views-release now i [] = refl
views-release now zero (b ∷ bs) = refl
views-release now (suc i) (b ∷ bs) = ap (◌∷◌ (view now b)) (views-release now i bs)

pub lt_of_up_at : (i : ℕ) (vs : List View) → up_at i vs ≡ true → i < length vs
lt_of_up_at i [] h = cc
lt_of_up_at zero (v ∷ vs) h = omega arith
lt_of_up_at (suc i) (v ∷ vs) h = omega (arith, lt_of_up_at i vs h)

pub up_at-of_ge : (i : ℕ) (vs : List View) → length vs < suc i → up_at i vs ≡ false
up_at-of_ge i [] h = refl
up_at-of_ge zero (v ∷ vs) h = absurd (omega arith)
up_at-of_ge (suc i) (v ∷ vs) h = up_at-of_ge i vs (omega arith)

pub length-views : (now : ℕ) (bs : List Backend) → length (views now bs) ≡ length bs
length-views now bs = length-map (view now) bs
