-- ===== src/HealthCheck/Outage.antt =====
-- A backend whose checks fail is taken out, while requests go on: the health checker's calls and
-- those of the handler, in any order.
use curf.Common.{
  ℕ, suc, ◌+◌, ◌<◌, ◌≤◌, ◌≡◌, refl, sym, subst, Bool, true, false, not, ◌||◌, Option, List, [], ◌∷◌,
  Text, arith, if◌then◌else◌, All, Bool-cases, inl, inr,
}
use curf.Common.Address.{IpAddr}
use curf.Common.Equality.{◌==◌, list_key, nat_key, list_beq_iff}
use curf.Backend
use curf.Backend.{Backend}
use curf.Balancer.{LoadBalancer, ConnectionGuard, select, drop_guard, at_url, success, failure}
use curf.HealthCheck.{Probe, check_url, check_backend, check_one}
use curf.HealthCheck.Failing.{
  IsClosedAt, IsOpenAt, modify-IsClosedAt, at_url-IsClosedAt, at_url-own, at_url-opens,
  release-IsMild, success-url, failure-url, select-IsClosedAt,
}

-- What the handler and the health checker call: the handler reports no failures.
pub data Event : Type 0 where
  asks : ℕ → Option IpAddr → Event
  drops : ConnectionGuard → Event
  succeeds : Text → Event
  checks : Probe → Text → Event

unfoldable pub step : Text → LoadBalancer → Event → LoadBalancer
step path lb (asks now ip) = (select now ip lb).0
step path lb (drops g) = drop_guard g lb
step path lb (succeeds url) = success url lb
step path lb (checks w url) = check_one path w url lb

unfoldable pub run : Text → LoadBalancer → List Event → LoadBalancer
run path lb [] = lb
run path lb (e ∷ es) = run path (step path lb e) es

-- No success of the backend is heard of: no request's, and no check's.
abbrev pub is_silent : Text → Text → Event → Bool
is_silent path url (asks now ip) = true
is_silent path url (drops g) = true
is_silent path url (succeeds u) = not (u == url)
is_silent path url (checks w u) = not (u == url) || not (check_backend w.net (check_url u path))

-- The checks of the backend.
abbrev pub checks_of : Text → List Event → ℕ
checks_of url [] = 0
checks_of url (checks w u ∷ es) = if u == url then suc (checks_of url es) else checks_of url es
checks_of url (e ∷ es) = checks_of url es

module _ (path url : Text) (j : ℕ) where
  success-IsClosedAt :
      (n : ℕ) (u : Text) (lb : LoadBalancer)
      → (u == url) ≡ false
      → IsClosedAt url n j lb.backends
      → IsClosedAt url n j (success u lb).backends
  unfolding success
  success-IsClosedAt n u lb other c =
      at_url-IsClosedAt url n Backend.record_success success-url u j lb.backends other c

  check_one-IsClosedAt :
      (n : ℕ) (w : Probe) (u : Text) (lb : LoadBalancer)
      → (u == url) ≡ false
      → IsClosedAt url n j lb.backends
      → IsClosedAt url n j (check_one path w u lb).backends
  unfolding check_one success failure
  check_one-IsClosedAt n w u lb other c =
      elim (Bool-cases (check_backend w.net (check_url u path))) [
        | inl good ↦ rw good (success-IsClosedAt n u lb other c)
        | inr bad ↦ rw bad (
            at_url-IsClosedAt url n (Backend.record_failure w.time) (failure-url w.time) u j
              lb.backends other c)
      ]

  check_one-fails :
      (w : Probe) (lb : LoadBalancer)
      → check_backend w.net (check_url url path) ≡ false
      → (check_one path w url lb).backends ≡ at_url url (Backend.record_failure w.time) lb.backends
  unfolding check_one failure
  check_one-fails w lb bad = rw bad refl

  check_one-own :
      (n : ℕ) (w : Probe) (lb : LoadBalancer)
      → IsClosedAt url n j lb.backends
      → n < 4
      → check_backend w.net (check_url url path) ≡ false
      → IsClosedAt url (suc n) j (check_one path w url lb).backends
  check_one-own n w lb c few fails =
      subst (IsClosedAt url (suc n) j) (sym (check_one-fails w lb fails))
        (at_url-own url n w.time j lb.backends c few)

  run-IsClosedAt :
      (n : ℕ) (es : List Event) (lb : LoadBalancer)
      → IsClosedAt url n j lb.backends
      → All (λ e. is_silent path url e ≡ true) es
      → n + checks_of url es ≤ 4
      → IsClosedAt url (n + checks_of url es) j (run path lb es).backends
  unfolding run step drop_guard
  run-IsClosedAt n [] lb c q h = let same : n ≡ n + 0 = omega arith in rw (← same) c
  run-IsClosedAt n (asks now ip ∷ es) lb c q h =
      run-IsClosedAt n es (select now ip lb).0 (select-IsClosedAt url n j now ip lb c) q.1 h
  run-IsClosedAt n (drops g ∷ es) lb c q h =
      run-IsClosedAt n es (drop_guard g lb)
        (modify-IsClosedAt url n Backend.release release-IsMild j g.index lb.backends c) q.1 h
  run-IsClosedAt n (succeeds u ∷ es) lb c q h =
      run-IsClosedAt n es (success u lb) (success-IsClosedAt n u lb (ground (arith, q.0)) c) q.1 h
  run-IsClosedAt n (checks w u ∷ es) lb c q h = elim (Bool-cases (u == url)) [
    | inr other ↦ rw other (
        run-IsClosedAt n es (check_one path w u lb) (check_one-IsClosedAt n w u lb other c) q.1
          (ground arith))
    | inl same ↦
        let e : u ≡ url = (list_beq_iff u url).0 same in
        let fails : check_backend w.net (check_url u path) ≡ false = ground (arith, q.0, same) in
        let more : n + suc (checks_of url es) ≤ 4 = ground arith in
        let count : suc n + checks_of url es ≡ n + suc (checks_of url es) = omega arith in
        let told =
          subst (λ v. IsClosedAt url (suc n) j (check_one path w v lb).backends) (sym e)
            (check_one-own n w lb c (omega arith)
              (subst (λ v. check_backend w.net (check_url v path) ≡ false) e fails)) in
        rw (same, ← count)
          (run-IsClosedAt (suc n) es (check_one path w u lb) told q.1 (omega arith))
  ]

  -- The first backend with a url has a closed circuit and some failures. Requests select backends,
  -- drop guards and succeed, and backends are checked, in any order; no request to this backend
  -- succeeds and none of its checks passes. Until its failures with those checks are five its
  -- circuit is closed, and the check that makes them five opens it.
  pub check_one-opens :
      (n : ℕ) (es : List Event) (w : Probe) (lb : LoadBalancer)
      → IsClosedAt url n j lb.backends
      → All (λ e. is_silent path url e ≡ true) es
      → n + checks_of url es ≡ 4
      → check_backend w.net (check_url url path) ≡ false
      → IsClosedAt url 4 j (run path lb es).backends
        × IsOpenAt j (check_one path w url (run path lb es)).backends
  check_one-opens n es w lb c q four fails =
      let closed : IsClosedAt url 4 j (run path lb es).backends =
        subst (λ k. IsClosedAt url k j (run path lb es).backends) four
          (run-IsClosedAt n es lb c q (omega arith)) in
      (
        closed,
        subst (IsOpenAt j) (sym (check_one-fails w (run path lb es) fails))
            (at_url-opens url 4 w.time j (run path lb es).backends closed refl),
      )
