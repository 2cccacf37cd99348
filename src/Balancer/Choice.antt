-- ===== src/Balancer/Choice.antt =====
-- What `LoadBalancer::select` gives back: a backend that is up, or nothing when all are down.
use curf.Common.{
  ℕ, zero, suc, ◌+◌, ◌≤◌, ◌≡◌, refl, ap, sym, ◌∙◌, ◌⊎◌, inl, inr, ◌↔◌, true, false, Option, none,
  some, List, [], ◌∷◌, arith, length, Option-cases, subst, Text, All,
}
use curf.Common.Words.{word, add64}
use curf.Config.{LoadBalance, round_robin, least_connections, ip_hash}
use curf.Backend
use curf.Backend.{Backend}
use curf.Backend.Breaker.{available}
use curf.Common.Address.{IpAddr}
use curf.Balancer.{
  LoadBalancer, ConnectionGuard, Pick, pick_by, grant, select, modify, url_at, hash_of, index_of,
}
use curf.Balancer.View.{
  View, views, up_at, name_at, bump, views-acquire, url_at-name_at, length-views,
}
use curf.Balancer.Visits.{
  turn_slots, hash_slots, first_up, Finds, turn_slots-Finds, hash_slots-Finds,
}
use curf.Balancer.Search.{least_of-Leasts, Leasts}
use curf.Balancer.Picks.{
  HasRoom, pick_round_robin-found, pick_least_connections-found, pick_ip_hash-found, pick-views_at,
  up_at-pick,
}

-- What a caller of `select` holds: a backend that was up, by its url, with one more active request.
pub record IsGrant (now : ℕ) (lb lb' : LoadBalancer) (url : Text) (i : ℕ) : Type 0 where
  pub up : up_at i (views now lb.backends) ≡ true
  pub named : url ≡ name_at i (views now lb.backends)
  pub counted : views now lb'.backends ≡ bump (λ n. add64 n 1) i (views now lb.backends)

-- The state and the answer of a pick that found an index.
abbrev granted : LoadBalancer → Pick → ℕ → LoadBalancer × Option (Text × ConnectionGuard)
granted lb p i = (
  record lb { backends = modify Backend.acquire i p.backends; cursor = p.cursor },
  some (url_at i p.backends, record { index = i }),
)

pub grant-some :
    (lb : LoadBalancer) (p : Pick) (i : ℕ) → p.found ≡ some i → grant lb p ≡ granted lb p i
unfolding grant
grant-some lb p i e = rw (e, grant)

pub grant-none :
    (lb : LoadBalancer) (p : Pick)
    → p.found ≡ none
    → grant lb p ≡ (record lb { backends = p.backends; cursor = p.cursor }, none)
unfolding grant
grant-none lb p e = rw (e, grant)

module _ (now : ℕ) (ip : Option IpAddr) (lb : LoadBalancer) where
  -- The pick that `select` makes.
  abbrev pub picked : Pick
  picked = pick_by lb.strategy now ip lb

  select-picked :
      (bs : List Backend) → lb.backends ≡ bs → (bs ≡ []) ⊎ (select now ip lb ≡ grant lb picked)
  unfolding select
  select-picked [] e = inl refl
  select-picked (b ∷ bs) e = inr (ground arith)

  -- Whatever `select` answers with was found by the strategy.
  pub select-cases :
      ((lb.backends ≡ []) × (select now ip lb ≡ (lb, none)))
      ⊎ ((picked.found ≡ none) × (select now ip lb ≡ grant lb picked))
      ⊎ ((i : ℕ) × (picked.found ≡ some i) × (select now ip lb ≡ granted lb picked i))
  unfolding select
  select-cases = elim (select-picked lb.backends refl) [
    | inl e ↦ inl (e, ground arith)
    | inr e ↦ elim (Option-cases picked.found) [
      | inl missed ↦ inr (inl (missed, e))
      | inr (i, found) ↦ inr (inr (i, found, e ∙ grant-some lb picked i found))
    ]
  ]

  granted-IsGrant :
      (i : ℕ)
      → picked.found ≡ some i
      → IsGrant now lb (granted lb picked i).0 (url_at i picked.backends) i
  granted-IsGrant i found =
      let same = pick-views_at now lb lb.strategy ip in
      record {
        up = up_at-pick now lb lb.strategy ip i found;
        named = url_at-name_at now i picked.backends ∙ ap (name_at i) same;
        counted = views-acquire now i picked.backends ∙ ap (bump (λ n. add64 n 1) i) same;
      }

  -- The backend that `select` hands out may receive traffic at that time; the url is its url, and
  -- the call counts one more active request there, and changes no other count, no url and no
  -- backend's availability.
  pub select-IsGrant :
      (lb' : LoadBalancer) (url : Text) (g : ConnectionGuard)
      → select now ip lb ≡ (lb', some (url, g))
      → IsGrant now lb lb' url g.index
  select-IsGrant lb' url g e = elim select-cases [
    | inl (_, empty) ↦ cc
    | inr (inl (missed, e')) ↦ cc (grant-none lb picked missed)
    | inr (inr (i, found, e')) ↦
        let same : granted lb picked i ≡ (lb', some (url, g)) = sym e' ∙ e in
        let url_same : url_at i picked.backends ≡ url = ground arith in
        let index_same : i ≡ g.index = ground arith in
        subst (λ j. IsGrant now lb lb' url j) index_same
          (subst (λ l. IsGrant now lb l url i) (ap (λ r. r.0) same)
            (subst (λ u. IsGrant now lb (granted lb picked i).0 u i) url_same
              (granted-IsGrant i found)))
  ]

down_of_AllDown :
    (now : ℕ) (bs : List Backend)
    → All (λ b. available now b ≡ false) bs
    → (i : ℕ) → up_at i (views now bs) ≡ false
down_of_AllDown now [] a i = refl
down_of_AllDown now (b ∷ bs) a zero = a.0
down_of_AllDown now (b ∷ bs) a (suc i) = down_of_AllDown now bs a.1 i

AllDown_of_down :
    (now : ℕ) (bs : List Backend)
    → ((i : ℕ) → up_at i (views now bs) ≡ false)
    → All (λ b. available now b ≡ false) bs
AllDown_of_down now [] h = tt
AllDown_of_down now (b ∷ bs) h = (h 0, AllDown_of_down now bs λ i. h (suc i))

Leasts-Finds :
    (vs : List View) (r : Option (ℕ × ℕ))
    → Leasts 0 vs none r
    → index_of r ≡ none
    → (i : ℕ) → up_at i vs ≡ false
Leasts-Finds vs none (_, h) e = h
Leasts-Finds vs (some r) h e = cc

module _ (now : ℕ) (ip : Option IpAddr) (lb : LoadBalancer) where
  -- A strategy that finds nothing has found every backend down.
  pick_none-down :
      (s : LoadBalance)
      → (s ≡ round_robin → lb.cursor + length lb.backends ≤ word)
      → (pick_by s now ip lb).found ≡ none
      → (i : ℕ) → up_at i (views now lb.backends) ≡ false
  pick_none-down round_robin room e =
      let n = length-views now lb.backends in
      subst (Finds (views now lb.backends))
        (ap (λ k. first_up (views now lb.backends) (turn_slots k k lb.cursor)) n
          ∙ sym (pick_round_robin-found now lb)
          ∙ e)
        (turn_slots-Finds (views now lb.backends) lb.cursor (rw n (room refl)))
  pick_none-down ip_hash room e =
      let n = length-views now lb.backends in
      subst (Finds (views now lb.backends))
        (ap (λ k. first_up (views now lb.backends) (hash_slots k (hash_of ip) k 0)) n
          ∙ sym (pick_ip_hash-found now lb ip)
          ∙ e)
        (hash_slots-Finds (views now lb.backends) (hash_of ip))
  pick_none-down least_connections room e =
      Leasts-Finds (views now lb.backends) _ (least_of-Leasts 0 (views now lb.backends) none tt)
        (sym (pick_least_connections-found now lb) ∙ e)

  none_of_down : All (λ b. available now b ≡ false) lb.backends → (select now ip lb).1 ≡ none
  none_of_down a = elim (select-cases now ip lb) [
    | inl (_, e) ↦ ap (λ r. r.1) e
    | inr (inl (missed, e)) ↦ ap (λ r. r.1) (e ∙ grant-none lb (picked now ip lb) missed)
    | inr (inr (i, found, e)) ↦
        cc (up_at-pick now lb lb.strategy ip i found, down_of_AllDown now lb.backends a i)
  ]

  down_of_none :
      HasRoom lb → (select now ip lb).1 ≡ none → All (λ b. available now b ≡ false) lb.backends
  down_of_none room h = elim (select-cases now ip lb) [
    | inl (e, _) ↦ subst (All (λ b. available now b ≡ false)) (sym e) tt
    | inr (inl (missed, _)) ↦
        AllDown_of_down now lb.backends (pick_none-down lb.strategy room missed)
    | inr (inr (i, found, e)) ↦ cc (ap (λ r. r.1) e)
  ]

  -- `select` answers with nothing exactly when no backend may receive traffic, whatever the
  -- strategy, as long as a round of the cursor does not wrap.
  pub select-none_iff :
      HasRoom lb → ((select now ip lb).1 ≡ none) ↔ All (λ b. available now b ≡ false) lb.backends
  select-none_iff room = (down_of_none room, none_of_down)

module _ (now : ℕ) (ip : Option IpAddr) (lb lb' : LoadBalancer) where
  -- An answer with nothing changes no url, no count and no availability.
  pub select-none-views :
      select now ip lb ≡ (lb', none) → views now lb'.backends ≡ views now lb.backends
  select-none-views h = elim (select-cases now ip lb) [
    | inl (_, e) ↦ ap (λ r. views now (r.0).backends) (sym h ∙ e)
    | inr (inl (missed, e)) ↦
        ap (λ r. views now (r.0).backends) (sym h ∙ e ∙ grant-none lb (picked now ip lb) missed)
        ∙ pick-views_at now lb lb.strategy ip
    | inr (inr (i, found, e)) ↦ cc (ap (λ r. r.1) (sym h ∙ e))
  ]
