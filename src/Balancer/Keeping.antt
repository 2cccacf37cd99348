-- ===== src/Balancer/Keeping.antt =====
-- A property of the backends that a probe, a round of probes and a guard keep is kept by `select`.
use curf.Common.{
  ℕ, zero, suc, ◌+◌, ◌%◌, ◌≡◌, refl, ap, subst, sym, Option, none, List, [], ◌∷◌, map, Bool-cases,
  Option-cases, inl, inr,
}
use curf.Common.Words.{add64}
use curf.Common.Address.{IpAddr}
use curf.Config.{LoadBalance, round_robin, least_connections, ip_hash}
use curf.Backend
use curf.Backend.{Backend}
use curf.Balancer.{
  LoadBalancer, Pick, modify, probe, round_robin_loop, pick_round_robin, least_loop,
  pick_least_connections, hash_of, ip_hash_loop, pick_ip_hash, pick_by, grant, is_empty, select,
}

abbrev pub probed : ℕ → Backend → Backend
probed now b = (Backend.is_healthy now b).0

least_loop-map :
    (now i : ℕ) (bs : List Backend) (best : Option (ℕ × ℕ))
    → (least_loop now i bs best).0 ≡ map (probed now) bs
unfolding least_loop
least_loop-map now i [] best = refl
least_loop-map now i (b ∷ bs) best = ap (λ x. probed now b ∷ x) (least_loop-map now (suc i) bs _)

module _ (P : List Backend → Type 0)
    (probes : (now i : ℕ) (bs : List Backend) → P bs → P (probe now i bs).0)
    (scans : (now : ℕ) (bs : List Backend) → P bs → P (map (probed now) bs))
    (acquires : (i : ℕ) (bs : List Backend) → P bs → P (modify Backend.acquire i bs)) where
  round_robin_loop-Keeps :
      (now n rounds cursor : ℕ) (bs : List Backend)
      → P bs
      → P (round_robin_loop now n rounds cursor bs).backends
  unfolding round_robin_loop
  round_robin_loop-Keeps now n zero cursor bs c = c
  round_robin_loop-Keeps now n (suc rounds) cursor bs c =
      let one = probes now (cursor % n) bs c in
      let rest =
        round_robin_loop-Keeps now n rounds (add64 cursor 1) (probe now (cursor % n) bs).0 one in
      elim (Bool-cases (probe now (cursor % n) bs).1) [
        | inl up ↦ rw (up, round_robin_loop) one
        | inr down ↦ rw (down, round_robin_loop) rest
      ]

  ip_hash_loop-Keeps :
      (now n hash rounds i : ℕ) (bs : List Backend)
      → P bs
      → P (ip_hash_loop now n hash rounds i bs).0
  unfolding ip_hash_loop
  ip_hash_loop-Keeps now n hash zero i bs c = c
  ip_hash_loop-Keeps now n hash (suc rounds) i bs c =
      let idx = (hash + i) % n in
      let one = probes now idx bs c in
      let rest = ip_hash_loop-Keeps now n hash rounds (suc i) (probe now idx bs).0 one in
      elim (Bool-cases (probe now idx bs).1) [
        | inl up ↦ rw (up, ip_hash_loop) one
        | inr down ↦ rw (down, ip_hash_loop) rest
      ]

  pick_by-Keeps :
      (s : LoadBalance) (now : ℕ) (ip : Option IpAddr) (lb : LoadBalancer)
      → P lb.backends
      → P (pick_by s now ip lb).backends
  unfolding pick_round_robin pick_least_connections pick_ip_hash
  pick_by-Keeps round_robin now ip lb c = round_robin_loop-Keeps now _ _ lb.cursor lb.backends c
  pick_by-Keeps least_connections now ip lb c =
      subst P (sym (least_loop-map now 0 lb.backends none)) (scans now lb.backends c)
  pick_by-Keeps ip_hash now ip lb c = ip_hash_loop-Keeps now _ (hash_of ip) _ 0 lb.backends c

  grant-Keeps : (lb : LoadBalancer) (p : Pick) → P p.backends → P (grant lb p).0.backends
  unfolding grant
  grant-Keeps lb p c = elim (Option-cases p.found) [
    | inl missed ↦ rw (missed, grant) c
    | inr (i, found) ↦ rw (found, grant) (acquires i p.backends c)
  ]

  pub select-Keeps :
      (now : ℕ) (ip : Option IpAddr) (lb : LoadBalancer)
      → P lb.backends
      → P (select now ip lb).0.backends
  unfolding select
  select-Keeps now ip lb c =
      let granted =
        grant-Keeps lb (pick_by lb.strategy now ip lb) (pick_by-Keeps lb.strategy now ip lb c) in
      elim (Bool-cases (is_empty lb.backends)) [
        | inl nobody ↦ rw (nobody, select) c
        | inr some_there ↦ rw (some_there, select) granted
      ]
