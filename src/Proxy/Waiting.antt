-- ===== src/Proxy/Waiting.antt =====
-- The guards that the waiting requests hold, and what the end of one of them does to the counts.
use curf.Common.{
  remove_at, ℕ, zero, suc, ◌≤◌, ◌≡◌, refl, ap, sym, inl, inr, ◌⊎◌, false, some, List, [], ◌∷◌, Text,
  arith, if◌then◌else◌, length, subst, get_elem?, nat_beq,
}
use curf.Common.Equality.{◌==◌, ==_refl, list_key, nat_key}
use curf.Balancer
use curf.Balancer.{LoadBalancer, ConnectionGuard}
use curf.Balancer.Manager
use curf.Balancer.Manager.{LoadBalancerManager, AreDistinct, add_domains, get-add_domains}
use curf.Balancer.Tally.{count, count-remove, length-remove}
use curf.Proxy.{finish, finish_http, finish_websocket}
use curf.Proxy.State.{ProxyHandler, Pending, Outcome, responded}
use curf.Proxy.Ledger.{Guards, IsCounting, take_at, success-IsCounting, dropped-IsCounting}
use curf.Proxy.Outside.{World}

module _ (w : World) where
  abbrev pub guards_in : List (Pending w) → Guards
  guards_in [] d = []
  guards_in (q ∷ qs) d = take_at q.host q.guard.index (guards_in qs) d

  pub length-guards_in : (qs : List (Pending w)) (d : Text) → length (guards_in qs d) ≤ length qs
  length-guards_in [] d = omega arith
  length-guards_in (q ∷ qs) d = ground (arith, length-guards_in qs d)

  -- What the waiting requests hold before and after one of them ends.
  module _ (q : Pending w) where
    count_at-remove_at :
        (qs : List (Pending w)) (i j : ℕ)
        → get_elem? qs i ≡ some q
        → count j (guards_in qs q.host) ≡ (
            if nat_beq j q.guard.index
            then suc (count j (guards_in (remove_at qs i) q.host))
            else count j (guards_in (remove_at qs i) q.host))
    count_at-remove_at [] i j e = cc
    count_at-remove_at (x ∷ qs) zero j e =
        let same : x ≡ q = (ground arith) in
        subst
          (λ y. count j (guards_in (y ∷ qs) q.host) ≡ (
            if nat_beq j q.guard.index
            then suc (count j (guards_in qs q.host))
            else count j (guards_in qs q.host)))
          (sym same) (ground (arith, ==_refl q.host))
    count_at-remove_at (x ∷ qs) (suc i) j e = ground (arith, count_at-remove_at qs i j e)

    length_at-remove_at :
        (qs : List (Pending w)) (i : ℕ)
        → get_elem? qs i ≡ some q
        → length (guards_in qs q.host) ≡ suc (length (guards_in (remove_at qs i) q.host))
    length_at-remove_at [] i e = cc
    length_at-remove_at (x ∷ qs) zero e =
        let same : x ≡ q = (ground arith) in
        subst (λ y. length (guards_in (y ∷ qs) q.host) ≡ suc (length (guards_in qs q.host)))
          (sym same) (ground (arith, ==_refl q.host))
    length_at-remove_at (x ∷ qs) (suc i) e = ground (arith, length_at-remove_at qs i e)

    guards_in-remove_at :
        (qs : List (Pending w)) (i : ℕ) (d : Text)
        → get_elem? qs i ≡ some q
        → (q.host == d) ≡ false
        → guards_in (remove_at qs i) d ≡ guards_in qs d
    guards_in-remove_at [] i d e other = refl
    guards_in-remove_at (x ∷ qs) zero d e other =
        let same : x ≡ q = (ground arith) in
        subst (λ y. guards_in qs d ≡ guards_in (y ∷ qs) d) (sym same) (rw other)
    guards_in-remove_at (x ∷ qs) (suc i) d e other =
        ap (λ gs. if x.host == d then x.guard.index ∷ gs else gs)
          (guards_in-remove_at qs i d e other)

    -- The guard of a request that ends is dropped.
    pub ended-IsCounting :
        (qs : List (Pending w)) (i : ℕ) (m : LoadBalancerManager)
        → get_elem? qs i ≡ some q
        → IsCounting m (guards_in qs)
        → IsCounting
            (Manager.update q.host (Balancer.drop_guard q.guard) m)
            (guards_in (remove_at qs i))
    ended-IsCounting qs i m e v =
        dropped-IsCounting q.host m (guards_in qs) v q.guard (guards_in (remove_at qs i))
          (λ d other. guards_in-remove_at qs i d e other)
          (ground (arith, count_at-remove_at qs i q.guard.index e))
          (λ j. ground (
            arith,
            count_at-remove_at qs i j e,
            count_at-remove_at qs i q.guard.index e,
            count-remove q.guard.index j (guards_in qs q.host),
          ))
          (ground (
            arith,
            length_at-remove_at qs i e,
            length-remove q.guard.index (guards_in qs q.host),
            count_at-remove_at qs i q.guard.index e,
          ))

    pub finish-manager :
        (outcome : Outcome w) (p : ProxyHandler w)
        → ((finish w q outcome p).0.lb_manager
            ≡ Manager.update q.host (Balancer.drop_guard q.guard) p.lb_manager)
          ⊎ ((finish w q outcome p).0.lb_manager
              ≡ Manager.update q.host
                  (Balancer.drop_guard q.guard)
                  (Manager.update q.host (Balancer.success q.url) p.lb_manager))
    unfolding finish finish_websocket finish_http
    finish-manager Outcome.connect_timeout p = ground arith
    finish-manager Outcome.connect_failed p = ground arith
    finish-manager Outcome.handshake_failed p = ground arith
    finish-manager Outcome.request_timeout p = ground arith
    finish-manager Outcome.request_failed p = ground arith
    finish-manager (responded r) p = ground arith

    pub finish-IsCounting :
        (qs : List (Pending w)) (i : ℕ) (outcome : Outcome w) (p : ProxyHandler w)
        → get_elem? qs i ≡ some q
        → IsCounting p.lb_manager (guards_in qs)
        → IsCounting (finish w q outcome p).0.lb_manager (guards_in (remove_at qs i))
    finish-IsCounting qs i outcome p e v = elim (finish-manager outcome p) [
      | inl only ↦
          subst (λ m. IsCounting m (guards_in (remove_at qs i))) (sym only)
            (ended-IsCounting qs i p.lb_manager e v)
      | inr told ↦
          subst (λ m. IsCounting m (guards_in (remove_at qs i))) (sym told)
            (ended-IsCounting qs i (Manager.update q.host (Balancer.success q.url) p.lb_manager) e
              (success-IsCounting q.host p.lb_manager (guards_in qs) v q.url))
    ]
