-- ===== src/Balancer/Picks.antt =====
-- The outcome of each strategy as a search over what the backends show.
use curf.Common.{
  ℕ, ◌+◌, ◌≤◌, ◌≡◌, ap, sym, ◌∙◌, inl, inr, true, Option, none, some, arith, length, subst,
}
use curf.Common.Words.{word}
use curf.Config.{LoadBalance, round_robin, least_connections, ip_hash}
use curf.Common.Address.{IpAddr}
use curf.Balancer.{
  LoadBalancer, pick_by, pick_round_robin, pick_least_connections, pick_ip_hash, hash_of, index_of,
}
use curf.Balancer.View.{views, up_at}
use curf.Balancer.Visits.{turn_slots, hash_slots, first_up, first_up-up}
use curf.Balancer.Search.{
  round_robin_loop-found, round_robin_loop-views, ip_hash_loop-found, ip_hash_loop-views, least_of,
  least_loop-found, least_loop-views, least_of-Leasts, Leasts,
}

-- The cursor is far enough from the end of its range that one round does not wrap. The other
-- strategies do not use the cursor.
abbrev pub HasRoom : LoadBalancer → Type 0
HasRoom lb = (lb.strategy ≡ round_robin) → lb.cursor + length lb.backends ≤ word

module _ (now : ℕ) (lb : LoadBalancer) where
  pub pick_round_robin-found :
      (pick_round_robin now lb).found
      ≡ first_up
          (views now lb.backends)
          (turn_slots (length lb.backends) (length lb.backends) lb.cursor)
  unfolding pick_round_robin
  pick_round_robin-found =
      round_robin_loop-found now (length lb.backends) (length lb.backends) lb.cursor lb.backends

  pub pick_least_connections-found :
      (pick_least_connections now lb).found ≡ index_of (least_of 0 (views now lb.backends) none)
  unfolding pick_least_connections
  pick_least_connections-found = ap index_of (least_loop-found now 0 lb.backends none)

  pub pick_ip_hash-found :
      (ip : Option IpAddr)
      → (pick_ip_hash now ip lb).found
        ≡ first_up
            (views now lb.backends)
            (hash_slots (length lb.backends) (hash_of ip) (length lb.backends) 0)
  unfolding pick_ip_hash
  pick_ip_hash-found ip =
      ip_hash_loop-found now (length lb.backends) (hash_of ip) (length lb.backends) 0 lb.backends

  pub pick-views_at :
      (s : LoadBalance) (ip : Option IpAddr)
      → views now (pick_by s now ip lb).backends ≡ views now lb.backends
  unfolding pick_round_robin pick_least_connections pick_ip_hash
  pick-views_at round_robin ip =
      round_robin_loop-views now (length lb.backends) (length lb.backends) lb.cursor lb.backends
  pick-views_at least_connections ip = least_loop-views now 0 lb.backends none
  pick-views_at ip_hash ip =
      ip_hash_loop-views now (length lb.backends) (hash_of ip) (length lb.backends) 0 lb.backends

  -- The strategies' searches, for any strategy `s`.
  pub up_at-pick :
      (s : LoadBalance) (ip : Option IpAddr) (i : ℕ)
      → (pick_by s now ip lb).found ≡ some i
      → up_at i (views now lb.backends) ≡ true
  up_at-pick round_robin ip i e = first_up-up _ _ i (sym pick_round_robin-found ∙ e)
  up_at-pick ip_hash ip i e = first_up-up _ _ i (sym (pick_ip_hash-found ip) ∙ e)
  up_at-pick least_connections ip i e =
      of_least (least_of 0 (views now lb.backends) none)
        (least_of-Leasts 0 (views now lb.backends) none tt) (sym pick_least_connections-found ∙ e)
    where
      of_least :
          (r : Option (ℕ × ℕ))
          → Leasts 0 (views now lb.backends) none r
          → index_of r ≡ some i
          → up_at i (views now lb.backends) ≡ true
      of_least none h e' = cc
      of_least (some r) h e' = elim h.from [
        | inl b ↦ cc
        | inr (j, at, up, _) ↦
            let same : j ≡ i = ground arith in
            subst (λ k. up_at k (views now lb.backends) ≡ true) same up
      ]
