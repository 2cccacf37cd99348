-- ===== src/Balancer/Atomics/Alone.antt =====
-- A method that runs with no other beside it does what src/load_balancer.rs does when each method is
-- one step.
use curf.Common.{
  ℕ, suc, ◌≡◌, refl, ap, sym, ◌∙◌, false, Option, none, some, List, [], ◌∷◌, length-map, Text,
  arith, length, map, nat_beq, Bool-cases, Option-cases, inl, inr, get_elem?,
}
use curf.Common.Equality.{◌==◌, list_key, nat_key}
use curf.Common.Address.{IpAddr}
use curf.Config.{LoadBalance}
use curf.Backend
use curf.Backend.{Backend, cb_threshold, cb_reset_secs}
use curf.Balancer
use curf.Balancer.{
  LoadBalancer, ConnectionGuard, Pick, modify, probe, hash_of, min_key, pick_by, index_of,
}
use curf.Balancer.Atomics.{
  Prog, done, record_success, record_failure, pick, acquire_found, select, success, failure,
  release, index_of_url, on_found, alone, program, Method, selects, succeeds, fails,
}
use curf.Balancer.Atomics.Probe.{alone-bind, alone-record_success, alone-record_failure}
use curf.Balancer.Atomics.Loops.{after, alone-pick}

abbrev pub guard_index : Option (Text × ConnectionGuard) → Option ℕ
guard_index none = none
guard_index (some (url, g)) = some g.index

-- What a call does where each method is one step.
abbrev pub whole : ℕ → Method → LoadBalancer → LoadBalancer × Option ℕ
whole now (selects ip) lb = let (lb', r) = Balancer.select now ip lb in (lb', guard_index r)
whole now (succeeds url) lb = (Balancer.success url lb, none)
whole now (fails url) lb = (Balancer.failure now url lb, none)

alone-acquire_found :
    (now : ℕ) (lb : LoadBalancer) (p : Pick)
    → alone now (acquire_found p.found) (after lb p).0
      ≡ (let (lb', r) = Balancer.grant lb p in (lb', guard_index r))
unfolding alone Balancer.grant Backend.acquire after
alone-acquire_found now lb p = elim (Option-cases p.found) [
  | inl nothing ↦ rw nothing refl
  | inr (i, found) ↦ rw found refl
]

alone-select :
    (now : ℕ) (ip : Option IpAddr) (s : LoadBalance) (cursor : ℕ) (bs : List Backend)
    → let lb : LoadBalancer = record { backends = bs; strategy = s; cursor = cursor } in
      alone now (select s (length bs) ip) lb ≡ whole now (selects ip) lb
unfolding alone select Balancer.select after
alone-select now ip s cursor [] = refl
alone-select now ip s cursor (b ∷ bs) =
    let lb : LoadBalancer = record { backends = b ∷ bs; strategy = s; cursor = cursor } in
    let picked = alone-pick now s ip lb (omega arith) in
    let some_there : nat_beq (length (b ∷ bs)) 0 ≡ false = ground arith in
    rw some_there (
      alone-bind now (pick s (length (b ∷ bs)) ip) acquire_found lb
      ∙ ap (λ r. alone now (acquire_found r.1) r.0) picked
      ∙ alone-acquire_found now lb (pick_by s now ip lb))

-- The backend that `find` comes to, by its index.
abbrev Finds : (Backend → Backend) → Text → List Backend → Option ℕ → Type 0
Finds f url bs none = Balancer.at_url url f bs ≡ bs
Finds f url bs (some i) =
    (Balancer.at_url url f bs ≡ modify f i bs) × ((b : Backend) × (get_elem? bs i ≡ some b))

abbrev pub urls_of : List Backend → List Text
urls_of = map λ b. b.url

finds :
    (f : Backend → Backend) (url : Text) (bs : List Backend)
    → Finds f url bs (index_of_url url (urls_of bs))
unfolding Balancer.at_url
finds f url [] = refl
finds f url (b ∷ bs) = elim (Bool-cases (b.url == url)) [
  | inl here ↦ rw here (rw here refl, (b, refl))
  | inr there ↦ rw there (later there (index_of_url url (urls_of bs)) (finds f url bs))
]
  where
    later :
        (b.url == url) ≡ false
        → (o : Option ℕ) → Finds f url bs o
        → Finds f url (b ∷ bs) (elim o [ none ↦ none | some i ↦ some (suc i) ])
    later there none e = rw there (ap (λ ys. b ∷ ys) e)
    later there (some i) (e, found) = (rw there (ap (λ ys. b ∷ ys) e), found)

alone-on_found :
    (now : ℕ) (lb : LoadBalancer) (url : Text) (f : Backend → Backend) (p : ℕ → Prog (Unit {0}))
    → ((i : ℕ) (b : Backend)
        → get_elem? lb.backends i ≡ some b
        → alone now (p i) lb ≡ (record lb { backends = modify f i lb.backends }, tt))
    → alone now (on_found p (index_of_url url (urls_of lb.backends))) lb
      ≡ (record lb { backends = Balancer.at_url url f lb.backends }, tt)
unfolding alone
alone-on_found now lb url f p one =
    on_index (index_of_url url (urls_of lb.backends)) (finds f url lb.backends)
  where
    on_index :
        (o : Option ℕ)
        → Finds f url lb.backends o
        → alone now (on_found p o) lb
          ≡ (record lb { backends = Balancer.at_url url f lb.backends }, tt)
    on_index none e = ap (λ bs. (record lb { backends = bs }, tt)) (sym e)
    on_index (some i) (e, (b, at)) =
        one i b at ∙ ap (λ bs. (record lb { backends = bs }, tt)) (sym e)

-- When a call runs with no other thread beside it, at one time, its atomic operations together do to
-- the balancer what the method does in one step, and it gives the guard that the method gives.
alone-program :
    (now : ℕ) (m : Method) (lb : LoadBalancer)
    → alone now (program lb.strategy (urls_of lb.backends) m) lb ≡ whole now m lb
unfolding alone success failure Balancer.success Balancer.failure
alone-program now (selects ip) lb =
    rw (length-map (λ (b : Backend). b.url) lb.backends)
      (alone-select now ip lb.strategy lb.cursor lb.backends)
alone-program now (succeeds url) lb =
    alone-bind now (success url (urls_of lb.backends)) (λ _. done none) lb
    ∙ ap (λ (r : LoadBalancer × Unit {0}). (r.0, none))
        (alone-on_found now lb url Backend.record_success record_success
          (λ i b at. alone-record_success now i lb))
alone-program now (fails url) lb =
    alone-bind now (failure url (urls_of lb.backends)) (λ _. done none) lb
    ∙ ap (λ (r : LoadBalancer × Unit {0}). (r.0, none))
        (alone-on_found now lb url (Backend.record_failure now) record_failure
          (λ i b at. alone-record_failure now i lb b at))

-- The drop of a guard is one atomic operation.
pub alone-release :
    (now i : ℕ) (lb : LoadBalancer)
    → alone now (release i) lb ≡ (Balancer.drop_guard (record { index = i }) lb, tt)
unfolding alone release Balancer.drop_guard Backend.release
alone-release now i lb = refl
