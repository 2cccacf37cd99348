-- ===== src/Balancer/Leases.antt =====
-- The guards that `select` hands out: each backend's count of active requests is the number of
-- guards of it that are not yet dropped.
use curf.Common.{
  ℕ, zero, suc, ◌+◌, ◌<◌, ◌≡◌, refl, ap, sym, ◌∙◌, Option, none, some, List, [], ◌∷◌, map, arith,
  length, subst, Text, get_elem?,
}
use curf.Common.Words.{word, add64, sub64}
use curf.Backend
use curf.Backend.{Backend}
use curf.Common.Address.{IpAddr}
use curf.Balancer.{LoadBalancer, ConnectionGuard, select, drop_guard, success, failure, new}
use curf.Balancer.View.{views-release}
use curf.Balancer.Choice.{select-IsGrant, select-none-views}
use curf.Config.{DomainConfig}
use curf.Balancer.Tally.{
  count, remove, actives, Tallies, actives-views, actives_of_bump, length-remove-le, Tallies-take,
  Tallies-drop, actives-at_url,
}

-- The balancer with the guards that are out, the newest first.
pub record Out : Type 0 where
  pub lb : LoadBalancer
  pub guards : List ℕ

-- What the program does with a balancer: a request takes a guard, a guard that is out is dropped,
-- an outcome is recorded. Each happens at some time and in any order. Fewer than 2^64 guards are
-- out at once.
pub data Step : Out → Out → Type 0 where
  takes :
      {o : Out} {lb : LoadBalancer} {url : Text} {g : ConnectionGuard} (now : ℕ)
      (ip : Option IpAddr)
      → select now ip o.lb ≡ (lb, some (url, g))
      → length o.guards + 1 < word
      → Step o (record { lb = lb; guards = g.index ∷ o.guards })
  misses :
      {o : Out} {lb : LoadBalancer} (now : ℕ) (ip : Option IpAddr)
      → select now ip o.lb ≡ (lb, none)
      → Step o (record o { lb = lb })
  drops :
      {o : Out} (i : ℕ)
      → 0 < count i o.guards
      → Step o (record { lb = drop_guard (record { index = i }) o.lb; guards = remove i o.guards })
  succeeds : {o : Out} (url : Text) → Step o (record o { lb = success url o.lb })
  fails : {o : Out} (now : ℕ) (url : Text) → Step o (record o { lb = failure now url o.lb })

pub data Reach (start : Out) : Out → Type 0 where
  here : Reach start start
  next : {o o' : Out} → Reach start o → Step o o' → Reach start o'

-- Each backend's count of active requests is the number of its guards that are out.
abbrev pub IsCounted : Out → Type 0
IsCounted o =
    (j : ℕ) (b : Backend) → get_elem? o.lb.backends j ≡ some b → b.active ≡ count j o.guards

pub record IsLeased (o : Out) : Type 0 where
  pub tallies : Tallies o.guards (actives o.lb.backends)
  pub bounded : length o.guards < word

same-Tallies :
    (gs : List ℕ) (bs bs' : List Backend)
    → actives bs' ≡ actives bs
    → Tallies gs (actives bs)
    → Tallies gs (actives bs')
same-Tallies gs bs bs' e t = subst (Tallies gs) (sym e) t

pub Step-IsLeased : {o o' : Out} → Step o o' → IsLeased o → IsLeased o'
unfolding drop_guard success failure Backend.record_success Backend.record_failure
Step-IsLeased (takes {o} {lb} {url} {g} now ip e w) v =
    let grant = select-IsGrant now ip o.lb lb url g e in
    let changed =
      actives_of_bump now g.index (λ n. add64 n 1) o.lb.backends lb.backends grant.counted in
    record {
      tallies =
          subst (Tallies (g.index ∷ o.guards)) (sym changed)
            (Tallies-take g.index o.guards (actives o.lb.backends) w v.tallies);
      bounded = omega arith;
    }
Step-IsLeased (misses {o} {lb} now ip e) v =
    let same = select-none-views now ip o.lb lb e in
    let kept =
      sym (actives-views now lb.backends)
      ∙ ap (map (λ v. v.active)) same
      ∙ actives-views now o.lb.backends in
    record {
      tallies = same-Tallies o.guards o.lb.backends lb.backends kept v.tallies;
      bounded = v.bounded;
    }
Step-IsLeased (drops {o} i out) v =
    let changed =
      actives_of_bump 0 i (λ n. sub64 n 1) o.lb.backends _ (views-release 0 i o.lb.backends) in
    record {
      tallies =
          subst (Tallies (remove i o.guards)) (sym changed)
            (Tallies-drop i o.guards (actives o.lb.backends) v.bounded out v.tallies);
      bounded = omega (arith, length-remove-le i o.guards, v.bounded);
    }
Step-IsLeased (succeeds {o} url) v = record {
  tallies =
      same-Tallies o.guards o.lb.backends _
        (actives-at_url url Backend.record_success o.lb.backends λ b. refl) v.tallies;
  bounded = v.bounded;
}
Step-IsLeased (fails {o} now url) v = record {
  tallies =
      same-Tallies o.guards o.lb.backends _
        (actives-at_url url (Backend.record_failure now) o.lb.backends λ b. ground arith) v.tallies;
  bounded = v.bounded;
}

Reach-IsLeased : {s o : Out} → IsLeased s → Reach s o → IsLeased o
Reach-IsLeased v here = v
Reach-IsLeased v (next r st) = Step-IsLeased st (Reach-IsLeased v r)

abbrev pub fresh : DomainConfig → Out
fresh cfg = record { lb = new cfg; guards = [] }

fresh-Tallies : (urls : List Text) → Tallies [] (actives (map Backend.new urls))
unfolding Backend.new
fresh-Tallies [] j a e = cc
fresh-Tallies (u ∷ us) zero a e = ground arith
fresh-Tallies (u ∷ us) (suc j) a e = fresh-Tallies us j a e

pub fresh-IsLeased : (cfg : DomainConfig) → IsLeased (fresh cfg)
unfolding new
fresh-IsLeased cfg = record { tallies = fresh-Tallies cfg.backends; bounded = omega arith }

pub get_elem?-map :
    (bs : List Backend) (j : ℕ) (b : Backend)
    → get_elem? bs j ≡ some b
    → get_elem? (actives bs) j ≡ some b.active
get_elem?-map [] j b e = cc
get_elem?-map (x ∷ bs) zero b e = ground arith
get_elem?-map (x ∷ bs) (suc j) b e = get_elem?-map bs j b e

-- After any history of requests, dropped guards and recorded outcomes, in any order and with fewer
-- than 2^64 guards out at once, a backend's count of active requests is the number of its guards
-- that are out.
Reach-IsCounted : (cfg : DomainConfig) (o : Out) → Reach (fresh cfg) o → IsCounted o
Reach-IsCounted cfg o r j b e =
    (Reach-IsLeased (fresh-IsLeased cfg) r).tallies j b.active (get_elem?-map o.lb.backends j b e)
