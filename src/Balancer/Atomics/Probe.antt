-- ===== src/Balancer/Atomics/Probe.antt =====
-- The programs of `Backend`, run with no other thread beside them.
use curf.Common.{
  ℕ, zero, suc, ◌<◌, ◌≡◌, refl, ap, sym, ◌∙◌, Bool, true, false, some, List, [], ◌∷◌, arith, length,
  subst, leb, Bool-cases, inl, inr, get_elem?, get_elem?-some,
}
use curf.Common.Equality.{list_key, nat_key}
use curf.Common.Words.{sub64, add64}
use curf.Backend
use curf.Backend.{Backend, cb_threshold, cb_reset_secs}
use curf.Balancer.{LoadBalancer, modify, probe}
use curf.Balancer.Atomics.{
  Prog, done, call, ◌>>=◌, read, apply, is_healthy, record_success, record_failure, alone,
}

pub alone-bind :
    {A B : Type 0} (now : ℕ) (p : Prog A) (f : A → Prog B) (lb : LoadBalancer)
    → alone now (p >>= f) lb ≡ alone now (f (alone now p lb).1) (alone now p lb).0
unfolding alone
alone-bind now (done a) f lb = refl
alone-bind now (call o k) f lb = alone-bind now (k (apply now o lb).1) f (apply now o lb).0

read_at {ℓ} :
    {A : Type ℓ} (f : Backend → A) (a : A) (i : ℕ) (bs : List Backend) (b : Backend)
    → get_elem? bs i ≡ some b
    → read f a i bs ≡ f b
read_at f a i [] b e = cc
read_at f a zero (x ∷ bs) b e = let same : x ≡ b = (ground arith) in ap f same
read_at f a (suc i) (x ∷ bs) b e = read_at f a i bs b e

modify_at :
    (f g : Backend → Backend) (i : ℕ) (bs : List Backend) (b : Backend)
    → get_elem? bs i ≡ some b
    → f b ≡ g b
    → modify f i bs ≡ modify g i bs
modify_at f g i [] b e h = refl
modify_at f g zero (x ∷ bs) b e h =
    let same : b ≡ x = (ground arith) in ap (λ y. y ∷ bs) (subst (λ y. f y ≡ g y) same h)
modify_at f g (suc i) (x ∷ bs) b e h = ap (λ ys. x ∷ ys) (modify_at f g i bs b e h)

pub modify-modify :
    (f g : Backend → Backend) (i : ℕ) (bs : List Backend)
    → modify f i (modify g i bs) ≡ modify (λ b. f (g b)) i bs
modify-modify f g i [] = refl
modify-modify f g zero (x ∷ bs) = refl
modify-modify f g (suc i) (x ∷ bs) = ap (λ ys. x ∷ ys) (modify-modify f g i bs)

modify_id : (i : ℕ) (bs : List Backend) → modify (λ b. b) i bs ≡ bs
modify_id i [] = refl
modify_id zero (x ∷ bs) = refl
modify_id (suc i) (x ∷ bs) = ap (λ ys. x ∷ ys) (modify_id i bs)

probe_at :
    (now i : ℕ) (bs : List Backend) (b : Backend)
    → get_elem? bs i ≡ some b
    → probe now i bs
      ≡ (modify (λ b. (Backend.is_healthy now b).0) i bs, (Backend.is_healthy now b).1)
unfolding probe
probe_at now i [] b e = cc
probe_at now zero (x ∷ bs) b e =
    let same : x ≡ b = (ground arith) in
    ap (λ y. ((Backend.is_healthy now x).0 ∷ bs, (Backend.is_healthy now y).1)) same
probe_at now (suc i) (x ∷ bs) b e =
    ap (λ (r : List Backend × Bool). (x ∷ r.0, r.1)) (probe_at now i bs b e)

module _ (now i : ℕ) (lb : LoadBalancer) (b : Backend) (at : get_elem? lb.backends i ≡ some b) where
  -- What a probe writes, by the two stores that close a circuit.
  closes :
      modify
        (λ b. record b { failures = 0 })
        i
        (modify (λ b. record b { circuit_open = false }) i lb.backends)
      ≡ modify (λ b. record b { circuit_open = false; failures = 0 }) i lb.backends
  closes =
      modify-modify (λ b. record b { failures = 0 }) (λ b. record b { circuit_open = false }) i
        lb.backends

  alone-is_healthy :
      alone now (is_healthy i) lb
      ≡ (record lb { backends = (probe now i lb.backends).0 }, (probe now i lb.backends).1)
  unfolding alone is_healthy Backend.is_healthy
  alone-is_healthy =
      let open_now = read_at (λ b. b.circuit_open) false i lb.backends b at in
      let last = read_at (λ b. b.last_failure) 0 i lb.backends b at in
      let probed = probe_at now i lb.backends b at in
      elim (Bool-cases b.circuit_open) [
        | inl is_open ↦ elim (Bool-cases (leb cb_reset_secs (sub64 now b.last_failure))) [
          | inl late ↦
              let written =
                modify_at (λ b. (Backend.is_healthy now b).0)
                  (λ b. record b { circuit_open = false; failures = 0 }) i lb.backends b at
                  (ground arith)
                ∙ sym closes in
              rw (probed, written) (rw (alone, open_now, is_open, last, late) refl)
          | inr early ↦
              let stays =
                modify_at (λ b. (Backend.is_healthy now b).0) (λ b. b) i lb.backends b at
                  (ground arith)
                ∙ modify_id i lb.backends in
              rw (probed, stays) (rw (alone, open_now, is_open, last, early) refl)
        ]
        | inr closed ↦
            let stays =
              modify_at (λ b. (Backend.is_healthy now b).0) (λ b. b) i lb.backends b at
                (ground arith)
              ∙ modify_id i lb.backends in
            rw (probed, stays) (rw (alone, open_now, closed) refl)
      ]

pub length-modify :
    (f : Backend → Backend) (i : ℕ) (bs : List Backend) → length (modify f i bs) ≡ length bs
length-modify f i [] = refl
length-modify f zero (x ∷ bs) = refl
length-modify f (suc i) (x ∷ bs) = ap suc (length-modify f i bs)

pub length-probe : (now i : ℕ) (bs : List Backend) → length (probe now i bs).0 ≡ length bs
unfolding probe
length-probe now i [] = refl
length-probe now zero (b ∷ bs) = refl
length-probe now (suc i) (b ∷ bs) = ap suc (length-probe now i bs)

pub alone-record_success :
    (now i : ℕ) (lb : LoadBalancer)
    → alone now (record_success i) lb
      ≡ (record lb { backends = modify Backend.record_success i lb.backends }, tt)
unfolding alone record_success Backend.record_success
alone-record_success now i lb =
    ap (λ bs. (record lb { backends = bs }, tt))
      (modify-modify (λ b. record b { circuit_open = false }) (λ b. record b { failures = 0 }) i
        lb.backends)

pub alone-record_failure :
    (now i : ℕ) (lb : LoadBalancer) (b : Backend)
    → get_elem? lb.backends i ≡ some b
    → alone now (record_failure i) lb
      ≡ (record lb { backends = modify (Backend.record_failure now) i lb.backends }, tt)
unfolding alone record_failure Backend.record_failure
alone-record_failure now i lb b at =
    let old = read_at (λ b. b.failures) 0 i lb.backends b at in
    let counted =
      modify-modify (λ b. record b { last_failure = now })
        (λ b. record b { failures = add64 b.failures 1 }) i lb.backends in
    let opened =
      modify-modify (λ b. record b { circuit_open = true })
        (λ b. record b { failures = add64 b.failures 1; last_failure = now }) i lb.backends in
    elim (Bool-cases (leb cb_threshold (add64 b.failures 1))) [
      | inl many ↦
          let whole =
            modify_at (Backend.record_failure now)
              (λ b. record b {
                failures = add64 b.failures 1;
                last_failure = now;
                circuit_open = true;
              })
              i lb.backends b at (ground arith) in
          rw whole (
            rw (alone, old, many)
              (ap (λ bs. (record lb { backends = bs }, tt))
                (ap (modify (λ b. record b { circuit_open = true }) i) counted ∙ opened)))
      | inr few ↦
          let whole =
            modify_at (Backend.record_failure now)
              (λ b. record b { failures = add64 b.failures 1; last_failure = now }) i lb.backends b
              at (ground arith) in
          rw whole (rw (alone, old, few) (ap (λ bs. (record lb { backends = bs }, tt)) counted))
    ]

pub alone-probed :
    {A : Type 0} (now i : ℕ) (lb : LoadBalancer) (f : Bool → Prog A)
    → i < length lb.backends
    → alone now (is_healthy i >>= f) lb
      ≡ alone now
          (f (probe now i lb.backends).1)
          (record lb { backends = (probe now i lb.backends).0 })
alone-probed now i lb f lt =
    let (b, at) = get_elem?-some lb.backends i lt in
    alone-bind now (is_healthy i) f lb
    ∙ ap (λ r. alone now (f r.1) r.0) (alone-is_healthy now i lb b at)
