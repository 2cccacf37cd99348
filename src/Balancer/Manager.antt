-- ===== src/Balancer/Manager.antt =====
-- src/load_balancer.rs, `LoadBalancerManager`, and the loop of src/main.rs that fills it. The
-- balancer of a domain is shared by reference: `update` is what a method of it does to the map.
use mathlib.Core.Option
use curf.Common.{
  ◌≡◌, refl, ◌∙◌, true, false, Option, none, some, [], ◌∷◌, arith, Text, if◌then◌else◌, subst, ◌⊎◌,
  All, Bool-cases, Option-cases, inl, inr,
}
use curf.Common.Equality.{◌==◌, list_key, nat_key, list_beq_iff}
use curf.Common.Dict.{Dict, lookup, insert, lookup-insert}
use curf.Config.{DomainConfig}
use curf.Balancer
use curf.Balancer.{LoadBalancer}

pub record LoadBalancerManager : Type 0 where
  pub entries : Dict Text LoadBalancer

unfoldable pub new : LoadBalancerManager
new = record { entries = [] }

unfoldable pub add_domain : Text → LoadBalancer → LoadBalancerManager → LoadBalancerManager
add_domain domain lb m = record { entries = insert domain lb m.entries }

unfoldable pub get : Text → LoadBalancerManager → Option LoadBalancer
get domain m = lookup domain m.entries

unfoldable pub update :
    Text → (LoadBalancer → LoadBalancer) → LoadBalancerManager → LoadBalancerManager
unfolding add_domain get
update domain f m = elim (get domain m) [ none ↦ m | some lb ↦ add_domain domain (f lb) m ]

-- The loop over `config.domains`.
unfoldable pub add_domains : Dict Text DomainConfig → LoadBalancerManager → LoadBalancerManager
unfolding add_domain
add_domains [] m = m
add_domains ((domain, cfg) ∷ rest) m = add_domains rest (add_domain domain (Balancer.new cfg) m)

pub get-add_domain :
    (d e : Text) (lb : LoadBalancer) (m : LoadBalancerManager)
    → get e (add_domain d lb m) ≡ (if d == e then some lb else get e m)
unfolding get add_domain
get-add_domain d e lb m = lookup-insert d e lb m.entries

-- A method of a domain's balancer changes that domain's balancer, if there is one, and no other.
pub get-update :
    (d e : Text) (f : LoadBalancer → LoadBalancer) (m : LoadBalancerManager)
    → get e (update d f m) ≡ (if d == e then Option.map f (get e m) else get e m)
unfolding update
get-update d e f m = elim (Option-cases (get d m)) [
  | inl absent ↦ rw (absent, update) (no_change absent (Bool-cases (d == e)))
  | inr (lb, found) ↦
      rw (found, update, get-add_domain d e (f lb) m) (changed lb found (Bool-cases (d == e)))
]
  where
    no_change :
        get d m ≡ none
        → ((d == e) ≡ true) ⊎ ((d == e) ≡ false)
        → get e m ≡ (if d == e then Option.map f (get e m) else get e m)
    no_change absent (inl same) =
        let at = subst (λ k. get k m ≡ none) ((list_beq_iff d e).0 same) absent in rw (same, at)
    no_change absent (inr other) = rw other

    changed :
        (lb : LoadBalancer)
        → get d m ≡ some lb
        → ((d == e) ≡ true) ⊎ ((d == e) ≡ false)
        → (if d == e then some (f lb) else get e m)
          ≡ (if d == e then Option.map f (get e m) else get e m)
    changed lb found (inl same) =
        let at = subst (λ k. get k m ≡ some lb) ((list_beq_iff d e).0 same) found in rw (same, at)
    changed lb found (inr other) = rw other

-- The keys of a `HashMap` are distinct.
abbrev Absent : Text → Dict Text DomainConfig → Type 0
Absent d cfgs = All (λ c. (c.0 == d) ≡ false) cfgs

abbrev pub AreDistinct : Dict Text DomainConfig → Type 0
AreDistinct [] = Unit
AreDistinct (c ∷ cfgs) = All (λ c'. (c'.0 == c.0) ≡ false) cfgs × AreDistinct cfgs

lookup-Absent : (d : Text) (cfgs : Dict Text DomainConfig) → Absent d cfgs → lookup d cfgs ≡ none
unfolding lookup
lookup-Absent d [] a = refl
lookup-Absent d ((k, cfg) ∷ cfgs) a = ground (arith, a.0, lookup-Absent d cfgs a.1)

abbrev or_else {ℓ} : {A : Type ℓ} → Option A → Option A → Option A
or_else none b = b
or_else (some a) b = some a

get-add_domains_onto :
    (cfgs : Dict Text DomainConfig) (d : Text) (m : LoadBalancerManager)
    → AreDistinct cfgs
    → get d (add_domains cfgs m) ≡ or_else (Option.map Balancer.new (lookup d cfgs)) (get d m)
unfolding add_domains lookup
get-add_domains_onto [] d m h = refl
get-add_domains_onto ((k, cfg) ∷ cfgs) d m h =
    get-add_domains_onto cfgs d (add_domain k (Balancer.new cfg) m) h.1
    ∙ rw (get-add_domain k d (Balancer.new cfg) m) (split (Bool-cases (k == d)))
  where
    split :
        ((k == d) ≡ true) ⊎ ((k == d) ≡ false)
        → or_else
            (Option.map Balancer.new (lookup d cfgs))
            (if k == d then some (Balancer.new cfg) else get d m)
          ≡ or_else (Option.map Balancer.new (if k == d then some cfg else lookup d cfgs)) (get d m)
    split (inl same) =
        let gone =
          lookup-Absent d cfgs (subst (λ e. Absent e cfgs) ((list_beq_iff k d).0 same) h.0) in
        rw (same, gone)
    split (inr other) = rw other

no_entry : (d : Text) → get d new ≡ none
unfolding get new lookup
no_entry d = refl

-- When all domains of a configuration are added, each domain has the balancer made of its own
-- settings, and a name that is no domain has none.
pub get-add_domains :
    (cfgs : Dict Text DomainConfig) (d : Text)
    → AreDistinct cfgs
    → get d (add_domains cfgs new) ≡ Option.map Balancer.new (lookup d cfgs)
unfolding new
get-add_domains cfgs d h =
    get-add_domains_onto cfgs d new h ∙ or_else-none (Option.map Balancer.new (lookup d cfgs))
  where
    or_else-none : (o : Option LoadBalancer) → or_else o (get d new) ≡ o
    or_else-none none = no_entry d
    or_else-none (some lb) = refl
