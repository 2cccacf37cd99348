-- ===== src/Balancer/Atomics/Answers.antt =====
-- What the answer of `select` says of the operations it made, when other threads run between them.
use curf.Common.{
  ℕ, zero, suc, ◌+◌, ◌≤◌, ◌<◌, ◌≡◌, refl, false, Option, none, some, List, [], arith, nat_beq, ltb,
  Bool-cases, inl, inr, subst,
}
use curf.Common.Address.{IpAddr}
use curf.Config.{LoadBalance, round_robin, least_connections, ip_hash}
use curf.Balancer.{LoadBalancer, hash_of}
use curf.Balancer.Visits.{hash_slots, hash_slots-visit}
use curf.Balancer.Atomics.{done, least_from, ip_hash_from, pick, acquire_found, select, among}
use curf.Balancer.Atomics.Observed.{
  Observation, observed, there, Ensures, Ensures-among, Ensures-bind, Ensures-mono, SawUp, SawDown,
  Extends-SawUp,
}
use curf.Balancer.Atomics.Sound.{
  Sound, Ensures-Sound, turns-Sound, SawAllDown, slots-Sound, SawDownFrom, least-Sound,
}

SawDownFrom-at :
    (rest i j : ℕ) (s : List Observation)
    → i ≤ j
    → j < i + rest
    → SawDownFrom rest i s
    → SawDown j s
SawDownFrom-at zero i j s h l d = absurd (omega arith)
SawDownFrom-at (suc rest) i j s h l d = elim (Bool-cases (ltb i j)) [
  | inl more ↦ SawDownFrom-at rest (suc i) j s (ground arith) (omega arith) d.1
  | inr same ↦ let e : i ≡ j = ground arith in subst (λ k. SawDown k s) e d.0
]

-- What nothing found says, which for turns is nothing.
abbrev SawNone : LoadBalance → ℕ → List Observation → Type 0
SawNone round_robin n s = Unit {0}
SawNone least_connections n s = (j : ℕ) → j < n → SawDown j s
SawNone ip_hash n s = (j : ℕ) → j < n → SawDown j s

pick-Sound :
    (strategy : LoadBalance) (n : ℕ) (ip : Option IpAddr)
    → 0 < n
    → Ensures (Sound n (SawNone strategy n)) [] (pick strategy n ip)
pick-Sound round_robin n ip h = turns-Sound n n [] h
pick-Sound least_connections n ip h =
    Ensures-Sound n (λ s. (none ≡ none) × SawDownFrom n 0 s) _ (least_from n 0 none) []
      (λ s e d j l. SawDownFrom-at n 0 j s (omega arith) (omega arith) d.1)
      (least-Sound n n 0 none [] (omega arith) tt)
pick-Sound ip_hash n ip h =
    Ensures-Sound n (SawAllDown (hash_slots n (hash_of ip) n 0)) _ (ip_hash_from n (hash_of ip) n 0)
      [] (λ s e d j l. hash_slots-visit (λ k. SawDown k s) n (hash_of ip) j l d)
      (slots-Sound n (hash_of ip) n 0 [] h)

acquire_found-Sound :
    (n : ℕ) (down : List Observation → Type 0) (found : Option ℕ) (s : List Observation)
    → Sound n down s found
    → Ensures (Sound n down) s (acquire_found found)
acquire_found-Sound n down none s v = v
acquire_found-Sound n down (some i) s v = λ x. (v.0, Extends-SawUp i _ _ (λ o y h. there _ h) v.1)

select-Sound :
    (strategy : LoadBalance) (n : ℕ) (ip : Option IpAddr)
    → Ensures (Sound n (SawNone strategy n)) [] (select strategy n ip)
unfolding select
select-Sound round_robin zero ip = tt
select-Sound least_connections zero ip = λ j h. absurd (omega arith)
select-Sound ip_hash zero ip = λ j h. absurd (omega arith)
select-Sound strategy (suc m) ip =
    let some_backends : nat_beq (suc m) 0 ≡ false = ground arith in
    rw some_backends (
      Ensures-bind (Sound (suc m) (SawNone strategy (suc m))) (pick strategy (suc m) ip)
        acquire_found []
        (Ensures-mono _ (Sound (suc m) (SawNone strategy (suc m))) (pick strategy (suc m) ip) []
          (λ s a v. acquire_found-Sound (suc m) (SawNone strategy (suc m)) a s v)
          (pick-Sound strategy (suc m) ip (omega arith))))

saw_none :
    (strategy : LoadBalance) (n j : ℕ) (s : List Observation)
    → ¬ (strategy ≡ round_robin)
    → j < n
    → SawNone strategy n s
    → SawDown j s
saw_none round_robin n j s m h v = absurd (m refl)
saw_none least_connections n j s m h v = v j h
saw_none ip_hash n j s m h v = v j h

module _ (strategy : LoadBalance) (n : ℕ) (ip : Option IpAddr)
    (turns : List (ℕ × (LoadBalancer → LoadBalancer))) (lb : LoadBalancer) where
  among-Sound :
      (a : Option ℕ)
      → among turns (select strategy n ip) lb ≡ done a
      → Sound n (SawNone strategy n) (observed [] turns (select strategy n ip) lb) a
  among-Sound a e =
      Ensures-among (Sound n (SawNone strategy n)) (select strategy n ip) [] turns lb a
        (select-Sound strategy n ip) e

  -- Whatever the other threads do between the atomic operations of a call of `select`: when it
  -- gives a guard, the guard is for one of the backends, and the call has itself read that this
  -- backend's circuit was closed, or a clock and a last failure whose wrapping difference is
  -- `CB_RESET_SECS` or more.
  pub select-SawUp :
      (i : ℕ)
      → among turns (select strategy n ip) lb ≡ done (some i)
      → (i < n) × SawUp i (observed [] turns (select strategy n ip) lb)
  select-SawUp i e = among-Sound (some i) e

  -- Whatever the other threads do between the atomic operations of a call of `select` that does not
  -- take turns: when it gives no guard, the call has itself read, of every backend, that its circuit
  -- was open, and a clock and a last failure whose wrapping difference is less than
  -- `CB_RESET_SECS`.
  pub select-SawDown :
      (j : ℕ)
      → ¬ (strategy ≡ round_robin)
      → j < n
      → among turns (select strategy n ip) lb ≡ done none
      → SawDown j (observed [] turns (select strategy n ip) lb)
  select-SawDown j m h e = saw_none strategy n j _ m h (among-Sound none e)
