-- ===== src/Balancer/Atomics/Loops.antt =====
-- The loops of the three strategies, run with no other thread beside them.
use curf.Common.{
  ℕ, zero, suc, ◌+◌, ◌%◌, ◌<◌, ◌≡◌, refl, ap, sym, ◌∙◌, Bool, Option, none, List, [], ◌∷◌, ◌++◌,
  length-append, arith, length, Bool-cases, inl, inr,
}
use curf.Common.Equality.{list_key, nat_key}
use curf.Common.Words.{add64}
use curf.Common.Address.{IpAddr}
use curf.Config.{LoadBalance, round_robin, least_connections, ip_hash}
use curf.Backend
use curf.Backend.{Backend, cb_threshold, cb_reset_secs}
use curf.Balancer
use curf.Balancer.{
  LoadBalancer, ConnectionGuard, Pick, modify, probe, hash_of, min_key, pick_by, index_of,
}
use curf.Balancer.Atomics.{read, round_robin_from, least_from, ip_hash_from, pick, alone}
use curf.Balancer.Atomics.Probe.{alone-probed, length-probe}

-- What a loop leaves of a balancer, and the index that it returns.
unfoldable pub after : LoadBalancer → Pick → LoadBalancer × Option ℕ
after lb p = (record lb { backends = p.backends; cursor = p.cursor }, p.found)

alone-round_robin_from :
    (now n rounds : ℕ) (lb : LoadBalancer)
    → 0 < n
    → length lb.backends ≡ n
    → alone now (round_robin_from n rounds) lb
      ≡ after lb (Balancer.round_robin_loop now n rounds lb.cursor lb.backends)
unfolding alone round_robin_from Balancer.round_robin_loop after
alone-round_robin_from now n zero lb pos len = refl
alone-round_robin_from now n (suc rounds) lb pos len =
    let idx = lb.cursor % n in
    let bs' = (probe now idx lb.backends).0 in
    let lb1 : LoadBalancer = record lb { cursor = add64 lb.cursor 1 } in
    let lb2 : LoadBalancer = record lb1 { backends = bs' } in
    let rest =
      alone-round_robin_from now n rounds lb2 pos (length-probe now idx lb.backends ∙ len) in
    alone-probed now idx lb1 _ (grind (arith, len))
    ∙ elim (Bool-cases (probe now idx lb.backends).1) [
      | inl up ↦ rw up refl
      | inr down ↦ rw down rest
    ]

alone-ip_hash_from :
    (now n hash rounds i : ℕ) (lb : LoadBalancer)
    → 0 < n
    → length lb.backends ≡ n
    → alone now (ip_hash_from n hash rounds i) lb ≡ (
        let (bs', found) = Balancer.ip_hash_loop now n hash rounds i lb.backends in
        (record lb { backends = bs' }, found))
unfolding alone ip_hash_from Balancer.ip_hash_loop
alone-ip_hash_from now n hash zero i lb pos len = refl
alone-ip_hash_from now n hash (suc rounds) i lb pos len =
    let idx = (hash + i) % n in
    let lb2 : LoadBalancer = record lb { backends = (probe now idx lb.backends).0 } in
    let rest =
      alone-ip_hash_from now n hash rounds (suc i) lb2 pos
        (length-probe now idx lb.backends ∙ len) in
    alone-probed now idx lb _ (grind (arith, len))
    ∙ elim (Bool-cases (probe now idx lb.backends).1) [
      | inl up ↦ rw up refl
      | inr down ↦ rw down rest
    ]

-- Where the loop of `least_connections` stands: the backends before it, and those that are left.
module _ (now : ℕ) where
  append_one :
      (seen : List Backend) (b : Backend) (rest : List Backend)
      → (seen ++ b ∷ []) ++ rest ≡ seen ++ b ∷ rest
  append_one [] b rest = refl
  append_one (x ∷ seen) b rest = ap (λ bs. x ∷ bs) (append_one seen b rest)

  probe_here :
      (seen : List Backend) (b : Backend) (rest : List Backend)
      → probe now (length seen) (seen ++ b ∷ rest)
        ≡ (seen ++ (Backend.is_healthy now b).0 ∷ rest, (Backend.is_healthy now b).1)
  unfolding probe
  probe_here [] b rest = refl
  probe_here (x ∷ seen) b rest =
      ap (λ (r : List Backend × Bool). (x ∷ r.0, r.1)) (probe_here seen b rest)

  active_here :
      (seen : List Backend) (b : Backend) (rest : List Backend)
      → read (λ b. b.active) 0 (length seen) (seen ++ b ∷ rest) ≡ b.active
  active_here [] b rest = refl
  active_here (x ∷ seen) b rest = active_here seen b rest

  alone-least_from :
      (rest seen : List Backend) (i : ℕ) (lb : LoadBalancer) (best : Option (ℕ × ℕ))
      → length seen ≡ i
      → lb.backends ≡ seen ++ rest
      → alone now (least_from (length rest) i best) lb ≡ (
          let (bs', found) = Balancer.least_loop now i rest best in
          (record lb { backends = seen ++ bs' }, index_of found))
  unfolding alone least_from Balancer.least_loop Backend.active_count
  alone-least_from [] seen i lb best here split =
      ap (λ bs. (record lb { backends = bs }, index_of best)) split
  alone-least_from (b ∷ rest) seen i lb best here split =
      let b' = (Backend.is_healthy now b).0 in
      let lb2 : LoadBalancer = record lb { backends = seen ++ b' ∷ rest } in
      let seen' = seen ++ b' ∷ [] in
      let moved : length seen' ≡ suc i = omega (arith, length-append seen (b' ∷ [])) in
      let next = λ (best' : Option (ℕ × ℕ)).
        alone-least_from rest seen' (suc i) lb2 best' moved (sym (append_one seen b' rest))
        ∙ ap
            (λ (bs : List Backend). (
              record lb { backends = bs },
              index_of (Balancer.least_loop now (suc i) rest best').1,
            ))
            (append_one seen b' (Balancer.least_loop now (suc i) rest best').0) in
      let probed : probe now i lb.backends ≡ (seen ++ b' ∷ rest, (Backend.is_healthy now b).1) =
        rw (split, ← here) (probe_here seen b rest) in
      let active : read (λ b. b.active) 0 i (seen ++ b' ∷ rest) ≡ b'.active =
        rw (← here) (active_here seen b' rest) in
      alone-probed now i lb _ (rw split (omega (arith, length-append seen (b ∷ rest))))
      ∙ rw probed (elim (Bool-cases (Backend.is_healthy now b).1) [
        | inl up ↦ rw (up) (rw active (next (min_key best (i, b'.active))))
        | inr down ↦ rw (down) (next best)
      ])

pub alone-pick :
    (now : ℕ) (s : LoadBalance) (ip : Option IpAddr) (lb : LoadBalancer)
    → 0 < length lb.backends
    → alone now (pick s (length lb.backends) ip) lb ≡ after lb (pick_by s now ip lb)
unfolding Balancer.pick_round_robin Balancer.pick_least_connections Balancer.pick_ip_hash after
alone-pick now round_robin ip lb pos =
    alone-round_robin_from now (length lb.backends) (length lb.backends) lb pos refl
alone-pick now least_connections ip lb pos = alone-least_from now lb.backends [] 0 lb none refl refl
alone-pick now ip_hash ip lb pos =
    alone-ip_hash_from now (length lb.backends) (hash_of ip) (length lb.backends) 0 lb pos refl
