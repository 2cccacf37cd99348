-- ===== src/Balancer.antt =====
-- src/load_balancer.rs, `LoadBalancer`: the backends of a domain, shared by reference, are the list
-- `backends`, and a reference to one is its index. A `ConnectionGuard` holds such a reference, and
-- dropping it is `drop_guard`. The tests of `usize` arithmetic are those of a 64-bit target.
pub mod View
pub mod Visits
pub mod Search
pub mod Rotation
pub mod Picks
pub mod Choice
pub mod Preference
pub mod Tally
pub mod Leases
pub mod Keeping
pub mod Closed
pub mod Atomics
pub mod Manager
mod Tests
use curf.Common.{
  ℕ, zero, suc, ◌+◌, ◌^◌, ◌%◌, Bool, true, false, Option, none, some, List, [], ◌∷◌, map, Text, ltb,
  if◌then◌else◌, length, get_elem?,
}
use curf.Common.Equality.{◌==◌, list_key, nat_key}
use curf.Common.Words.{add64}
use curf.Common.Address.{IpAddr, v4, v6}
use curf.Config.{LoadBalance, round_robin, least_connections, ip_hash, DomainConfig}
use curf.Backend
use curf.Backend.{Backend}

pub record LoadBalancer : Type 0 where
  pub backends : List Backend
  pub strategy : LoadBalance
  pub cursor : ℕ

pub record ConnectionGuard : Type 0 where
  pub index : ℕ

unfoldable pub new : DomainConfig → LoadBalancer
unfolding Backend.new
new cfg = record {
  backends = map Backend.new cfg.backends;
  strategy = cfg.load_balance;
  cursor = 0;
}

-- A change of one backend, `self.backends[i]`.
abbrev pub modify : (Backend → Backend) → ℕ → List Backend → List Backend
modify f i [] = []
modify f zero (b ∷ bs) = f b ∷ bs
modify f (suc i) (b ∷ bs) = b ∷ modify f i bs

-- `self.backends[i].is_healthy()`. The callers' indices are in range.
unfoldable pub probe : ℕ → ℕ → List Backend → List Backend × Bool
probe now i [] = ([], false)
probe now zero (b ∷ bs) = let (b', ok) = Backend.is_healthy now b in (b' ∷ bs, ok)
probe now (suc i) (b ∷ bs) = let (bs', ok) = probe now i bs in (b ∷ bs', ok)

-- One loop's outcome: the backends, the cursor, and the index that the loop returns.
pub record Pick : Type 0 where
  pub backends : List Backend
  pub cursor : ℕ
  pub found : Option ℕ

-- The loop of `round_robin` with the rounds that are left, over `n` backends.
unfoldable pub round_robin_loop : ℕ → ℕ → ℕ → ℕ → List Backend → Pick
round_robin_loop now n zero cursor bs = record { backends = bs; cursor = cursor; found = none }
round_robin_loop now n (suc rounds) cursor bs =
    let idx = cursor % n in
    let (bs', ok) = probe now idx bs in
    let rest = round_robin_loop now n rounds (add64 cursor 1) bs' in
    if ok then record { backends = bs'; cursor = add64 cursor 1; found = some idx } else rest

unfoldable pub pick_round_robin : ℕ → LoadBalancer → Pick
unfolding round_robin_loop
pick_round_robin now lb =
    let n = length lb.backends in round_robin_loop now n n lb.cursor lb.backends

-- `min_by_key` keeps the first of the least keys.
abbrev pub min_key : Option (ℕ × ℕ) → ℕ × ℕ → Option (ℕ × ℕ)
min_key none c = some c
min_key (some m) c = if ltb c.1 m.1 then some c else some m

-- `iter().filter(is_healthy).min_by_key(active_count)` from index `i` on, with the best so far.
unfoldable pub least_loop : ℕ → ℕ → List Backend → Option (ℕ × ℕ) → List Backend × Option (ℕ × ℕ)
least_loop now i [] best = ([], best)
least_loop now i (b ∷ bs) best =
    let (b', ok) = Backend.is_healthy now b in
    let best' = if ok then min_key best (i, Backend.active_count b') else best in
    let (bs', found) = least_loop now (suc i) bs best' in (b' ∷ bs', found)

abbrev pub index_of : Option (ℕ × ℕ) → Option ℕ
index_of none = none
index_of (some c) = some c.0

unfoldable pub pick_least_connections : ℕ → LoadBalancer → Pick
unfolding least_loop
pick_least_connections now lb =
    let (bs', found) = least_loop now 0 lb.backends none in
    record { backends = bs'; cursor = lb.cursor; found = index_of found }

-- The number of an IPv4 address, or the last four octets of an IPv6 address.
unfoldable pub hash_of : Option IpAddr → ℕ
hash_of (some (v4 a)) = a
hash_of (some (v6 a)) = a % 2 ^ 32
hash_of none = 0

-- The loop of `ip_hash` from round `i` on.
unfoldable pub ip_hash_loop : ℕ → ℕ → ℕ → ℕ → ℕ → List Backend → List Backend × Option ℕ
ip_hash_loop now n hash zero i bs = (bs, none)
ip_hash_loop now n hash (suc rounds) i bs =
    let idx = (hash + i) % n in
    let (bs', ok) = probe now idx bs in
    let rest = ip_hash_loop now n hash rounds (suc i) bs' in if ok then (bs', some idx) else rest

unfoldable pub pick_ip_hash : ℕ → Option IpAddr → LoadBalancer → Pick
unfolding hash_of ip_hash_loop
pick_ip_hash now ip lb =
    let n = length lb.backends in
    let (bs', found) = ip_hash_loop now n (hash_of ip) n 0 lb.backends in
    record { backends = bs'; cursor = lb.cursor; found = found }

abbrev pub pick_by : LoadBalance → ℕ → Option IpAddr → LoadBalancer → Pick
pick_by round_robin now ip lb = pick_round_robin now lb
pick_by least_connections now ip lb = pick_least_connections now lb
pick_by ip_hash now ip lb = pick_ip_hash now ip lb

abbrev pub url_at : ℕ → List Backend → Text
url_at i [] = []
url_at zero (b ∷ bs) = b.url
url_at (suc i) (b ∷ bs) = url_at i bs

-- What `select` does with the outcome of the strategy.
unfoldable pub grant : LoadBalancer → Pick → LoadBalancer × Option (Text × ConnectionGuard)
grant lb p = elim p.found [
  | none ↦ (record lb { backends = p.backends; cursor = p.cursor }, none)
  | some i ↦ (
    record lb { backends = modify Backend.acquire i p.backends; cursor = p.cursor },
    some (url_at i p.backends, record { index = i }),
  )
]

abbrev is_empty : List Backend → Bool
is_empty [] = true
is_empty (b ∷ bs) = false

unfoldable pub select :
    ℕ → Option IpAddr → LoadBalancer → LoadBalancer × Option (Text × ConnectionGuard)
unfolding grant pick_round_robin pick_least_connections pick_ip_hash
select now ip lb =
    if is_empty lb.backends then (lb, none) else grant lb (pick_by lb.strategy now ip lb)

-- `Drop` of a guard.
unfoldable pub drop_guard : ConnectionGuard → LoadBalancer → LoadBalancer
drop_guard g lb = record lb { backends = modify Backend.release g.index lb.backends }

-- `iter().find(|b| b.url == url)`, and the change of the backend found.
unfoldable pub at_url : Text → (Backend → Backend) → List Backend → List Backend
at_url url f [] = []
at_url url f (b ∷ bs) = if b.url == url then f b ∷ bs else b ∷ at_url url f bs

unfoldable pub success : Text → LoadBalancer → LoadBalancer
unfolding at_url
success url lb = record lb { backends = at_url url Backend.record_success lb.backends }

unfoldable pub failure : ℕ → Text → LoadBalancer → LoadBalancer
unfolding at_url
failure now url lb = record lb { backends = at_url url (Backend.record_failure now) lb.backends }
