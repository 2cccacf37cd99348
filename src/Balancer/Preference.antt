-- ===== src/Balancer/Preference.antt =====
-- Which of the backends that are up each strategy of `LoadBalancer` takes.
use curf.Common.{
  ℕ, zero, suc, ◌+◌, ◌%◌, ◌≤◌, ◌<◌, ◌≡◌, refl, ap, sym, ◌∙◌, inl, inr, true, Option, none, some,
  List, [], ◌∷◌, arith, length, subst, Text,
}
use curf.Config.{least_connections, ip_hash}
use curf.Common.Address.{IpAddr}
use curf.Balancer.{LoadBalancer, ConnectionGuard, pick_by, select, hash_of, index_of}
use curf.Balancer.View.{View, views, up_at, active_at}
use curf.Balancer.Visits.{hash_slots, first_up}
use curf.Balancer.Search.{least_of, least_of-Leasts, Leasts}
use curf.Balancer.Picks.{pick_least_connections-found, pick_ip_hash-found}
use curf.Balancer.Choice.{select-cases, picked, grant-none}

module _ (now : ℕ) (ip : Option IpAddr) (lb : LoadBalancer) (url : Text) (g : ConnectionGuard) where
  -- What `select` hands out is what the strategy found.
  picked_of_select : (select now ip lb).1 ≡ some (url, g) → (picked now ip lb).found ≡ some g.index
  picked_of_select h = elim (select-cases now ip lb) [
    | inl (_, e) ↦ cc (ap (λ r. r.1) e)
    | inr (inl (missed, e)) ↦ cc (ap (λ r. r.1) (e ∙ grant-none lb (picked now ip lb) missed))
    | inr (inr (i, found, e)) ↦
        let same = sym (ap (λ r. r.1) e) ∙ h in
        let index : i ≡ g.index = ground arith in found ∙ ap some index
  ]

  -- Under `least_connections` no backend that is up has fewer active requests than the one handed
  -- out, and those before it in the list that are up have more.
  pub select-least :
      lb.strategy ≡ least_connections
      → (select now ip lb).1 ≡ some (url, g)
      → (j : ℕ) → up_at j (views now lb.backends) ≡ true
      → (active_at g.index (views now lb.backends) ≤ active_at j (views now lb.backends))
        × (j < g.index
            → active_at g.index (views now lb.backends) < active_at j (views now lb.backends))
  select-least s h j up = of_least (least_of 0 vs none) (least_of-Leasts 0 vs none tt) (
      sym (pick_least_connections-found now lb)
      ∙ subst (λ t. (pick_by t now ip lb).found ≡ some g.index) s (picked_of_select h))
    where
      vs : List View
      vs = views now lb.backends

      of_least :
          (r : Option (ℕ × ℕ))
          → Leasts 0 vs none r
          → index_of r ≡ some g.index
          → (active_at g.index vs ≤ active_at j vs)
            × (j < g.index → active_at g.index vs < active_at j vs)
      of_least none l e = cc
      of_least (some r) l e = elim l.from [
        | inl b ↦ cc
        | inr (i, at, _, count) ↦
            let place : i ≡ g.index = ground arith in
            let key = subst (λ k. active_at k vs ≡ r.1) place count in
            (omega (arith, key, l.least j up), λ lt. omega (arith, key, place, l.first j up))
      ]

abbrev SameUp : List View → List View → Type 0
SameUp vs ws = (i : ℕ) → up_at i vs ≡ up_at i ws

first_up-SameUp : (vs ws : List View) (is : List ℕ) → SameUp vs ws → first_up vs is ≡ first_up ws is
first_up-SameUp vs ws [] h = refl
first_up-SameUp vs ws (i ∷ is) h = rw (h i, first_up-SameUp vs ws is h)

first_up-hash_slots :
    (vs : List View) (n hash : ℕ)
    → 0 < n
    → up_at (hash % n) vs ≡ true
    → first_up vs (hash_slots n hash n 0) ≡ some (hash % n)
first_up-hash_slots vs zero hash pos up = elim pos [ ]
first_up-hash_slots vs (suc n) hash pos up = let e : hash + 0 ≡ hash = omega arith in rw (e, up)

module _ (now : ℕ) (ip : Option IpAddr) (lb : LoadBalancer) (url : Text) (g : ConnectionGuard) where
  hash_found :
      lb.strategy ≡ ip_hash
      → (select now ip lb).1 ≡ some (url, g)
      → first_up
          (views now lb.backends)
          (hash_slots (length lb.backends) (hash_of ip) (length lb.backends) 0)
        ≡ some g.index
  hash_found s h =
      sym (pick_ip_hash-found now lb ip)
      ∙ subst (λ t. (pick_by t now ip lb).found ≡ some g.index) s
          (picked_of_select now ip lb url g h)

  -- Under `ip_hash` a client goes to the slot of its address whenever that backend is up.
  select-hash_slot :
      lb.strategy ≡ ip_hash
      → 0 < length lb.backends
      → up_at (hash_of ip % length lb.backends) (views now lb.backends) ≡ true
      → (select now ip lb).1 ≡ some (url, g)
      → g.index ≡ hash_of ip % length lb.backends
  select-hash_slot s pos up h =
      let slot =
        first_up-hash_slots (views now lb.backends) (length lb.backends) (hash_of ip) pos up in
      let same = sym slot ∙ hash_found s h in ground arith

-- Under `ip_hash` two requests of one client, at any times and states in which the same of equally
-- many backends are up, go to the same backend.
select-sticky :
    (now later : ℕ) (ip : Option IpAddr) (lb lb' : LoadBalancer) (url url' : Text)
    (g g' : ConnectionGuard)
    → lb.strategy ≡ ip_hash
    → lb'.strategy ≡ ip_hash
    → length lb.backends ≡ length lb'.backends
    → ((i : ℕ) → up_at i (views now lb.backends) ≡ up_at i (views later lb'.backends))
    → (select now ip lb).1 ≡ some (url, g)
    → (select later ip lb').1 ≡ some (url', g')
    → g.index ≡ g'.index
select-sticky now later ip lb lb' url url' g g' s s' n up h h' =
    let one = hash_found now ip lb url g s h in
    let two = hash_found later ip lb' url' g' s' h' in
    let found =
      first_up-SameUp (views now lb.backends) (views later lb'.backends)
        (hash_slots (length lb.backends) (hash_of ip) (length lb.backends) 0) up in
    let slots = ap (λ k. first_up (views later lb'.backends) (hash_slots k (hash_of ip) k 0)) n in
    let same : some g.index ≡ some g'.index = sym one ∙ found ∙ slots ∙ two in ground arith
