-- ===== src/HealthCheck/Rounds.antt =====
-- A round of checks tells every backend of its own check, and no other.
use mathlib.Core.List.{append_assoc}
use curf.Common.{
  ℕ, suc, ◌≡◌, refl, ap, sym, ◌∙◌, false, List, [], ◌∷◌, ◌++◌, map, Text, arith, if◌then◌else◌, All,
  inl, inr, Bool-cases, subst,
}
use curf.Common.Equality.{◌==◌, ==_refl, list_key, nat_key}
use curf.Backend
use curf.Backend.{Backend}
use curf.Balancer.{LoadBalancer, at_url, success, failure}
use curf.HealthCheck.{Probe, check_url, check_backend, check_one, check_all}

-- No two urls are the same.
abbrev pub AreDistinct : List Text → Type 0
AreDistinct [] = Unit {0}
AreDistinct (u ∷ us) = All (λ v. (u == v) ≡ false) us × AreDistinct us

abbrev pub urls_of : List Backend → List Text
urls_of = map λ b. b.url

-- What a backend hears of its check.
unfoldable pub told : Text → Probe → Backend → Backend
told path w b =
    if check_backend w.net (check_url b.url path)
    then Backend.record_success b
    else Backend.record_failure w.time b

abbrev pub all_told : Text → (ℕ → Probe) → ℕ → List Backend → List Backend
all_told path probe i [] = []
all_told path probe i (b ∷ bs) = told path (probe i) b ∷ all_told path probe (suc i) bs

at_url-append :
    (f : Backend → Backend) (before : List Backend) (b : Backend) (bs : List Backend)
    → All (λ c. (c.url == b.url) ≡ false) before
    → at_url b.url f (before ++ b ∷ bs) ≡ before ++ f b ∷ bs
unfolding at_url
at_url-append f [] b bs p = rw (==_refl b.url) refl
at_url-append f (c ∷ before) b bs p = rw (p.0) (ap (◌∷◌ c) (at_url-append f before b bs p.1))

pub told-url : (path : Text) (w : Probe) (b : Backend) → (told path w b).url ≡ b.url
unfolding told Backend.record_success Backend.record_failure
told-url path w b = ground arith

module _ (path : Text) (probe : ℕ → Probe) where
  check_one-backends :
      (i : ℕ) (before : List Backend) (b : Backend) (bs : List Backend) (lb : LoadBalancer)
      → lb.backends ≡ before ++ b ∷ bs
      → All (λ c. (c.url == b.url) ≡ false) before
      → check_one path (probe i) b.url lb
        ≡ record lb { backends = before ++ told path (probe i) b ∷ bs }
  unfolding check_one told success failure
  check_one-backends i before b bs lb e p =
      elim (Bool-cases (check_backend (probe i).net (check_url b.url path))) [
        | inl good ↦ rw (good, e) (rw (at_url-append Backend.record_success before b bs p) refl)
        | inr bad ↦
            rw (bad, e)
              (rw (at_url-append (Backend.record_failure (probe i).time) before b bs p) refl)
      ]

  abbrev Apart : List Backend → List Backend → Type 0
  Apart before bs = All (λ b. All (λ c. (c.url == b.url) ≡ false) before) bs

  snoc_apart :
      (before : List Backend) (b c : Backend)
      → All (λ d. (d.url == c.url) ≡ false) before
      → (b.url == c.url) ≡ false
      → All (λ d. (d.url == c.url) ≡ false) (before ++ b ∷ [])
  snoc_apart [] b c p q = (q, tt)
  snoc_apart (d ∷ before) b c p q = (p.0, snoc_apart before b c p.1 q)

  told-Apart :
      (i : ℕ) (before : List Backend) (b : Backend) (bs : List Backend)
      → Apart before bs
      → All (λ v. (b.url == v) ≡ false) (urls_of bs)
      → Apart (before ++ told path (probe i) b ∷ []) bs
  told-Apart i before b [] p q = tt
  told-Apart i before b (c ∷ bs) p q = (
    snoc_apart before (told path (probe i) b) c p.0
        (subst (λ u. (u == c.url) ≡ false) (sym (told-url path (probe i) b)) q.0),
    told-Apart i before b bs p.1 q.1,
  )

  check_all_onto :
      (i : ℕ) (before bs : List Backend) (lb : LoadBalancer)
      → lb.backends ≡ before ++ bs
      → Apart before bs
      → AreDistinct (urls_of bs)
      → check_all path probe i (urls_of bs) lb
        ≡ record lb { backends = before ++ all_told path probe i bs }
  unfolding check_all
  check_all_onto i before [] lb e p q = ground arith
  check_all_onto i before (b ∷ bs) lb e p q =
      let b' = told path (probe i) b in
      let lb' : LoadBalancer = record lb { backends = before ++ b' ∷ bs } in
      ap (check_all path probe (suc i) (urls_of bs)) (check_one-backends i before b bs lb e p.0)
      ∙ check_all_onto (suc i) (before ++ b' ∷ []) bs lb' (sym (append_assoc before (b' ∷ []) bs))
          (told-Apart i before b bs p.1 q.0) q.1
      ∙ ap (λ l. record lb { backends = l })
          (append_assoc before (b' ∷ []) (all_told path probe (suc i) bs))

  -- A round of checks over a balancer's backends, whose urls are all different, tells each backend
  -- the outcome of its own check, at the time of that check, and changes nothing else.
  pub check_all-backends :
      (lb : LoadBalancer)
      → AreDistinct (urls_of lb.backends)
      → check_all path probe 0 (urls_of lb.backends) lb
        ≡ record lb { backends = all_told path probe 0 lb.backends }
  check_all-backends lb q = check_all_onto 0 [] lb.backends lb refl (alone lb.backends) q
    where
      alone : (bs : List Backend) → Apart [] bs
      alone [] = tt
      alone (b ∷ bs) = (tt, alone bs)
