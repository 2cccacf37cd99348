-- ===== src/Balancer/Atomics.antt =====
-- src/load_balancer.rs with its atomics one at a time: a method is a program of loads, stores and
-- `fetch_add`s, between which other threads run. The fields of the balancer that are no atomics, the
-- urls, the strategy and the number of backends, are arguments of the programs. The atomic operations
-- of all threads take place one after another.
pub mod Progress
pub mod Probe
pub mod Loops
pub mod Alone
pub mod Threads
pub mod Acquires
pub mod Counts
pub mod Turns
pub mod Sharing
pub mod Reports
pub mod Low
pub mod Observed
pub mod Sound
pub mod Answers
pub mod Threshold
mod Tests
use curf.Common.{
  ℕ, zero, suc, ◌+◌, ◌%◌, Bool, true, false, not, Option, none, some, List, [], ◌∷◌, Text,
  if◌then◌else◌, leb, nat_beq, length, map,
}
use curf.Common.Equality.{◌==◌, list_key, nat_key}
use curf.Common.Words.{add64, sub64}
use curf.Common.Address.{IpAddr}
use curf.Config.{LoadBalance, round_robin, least_connections, ip_hash}
use curf.Backend.{Backend, cb_threshold, cb_reset_secs}
use curf.Balancer.{LoadBalancer, modify, min_key, index_of, hash_of}

-- The atomic operations on the balancer, by the index of the backend, and the reading of the clock.
pub data Op : Type 0 where
  load_circuit load_last load_active add_failures add_active sub_active : ℕ → Op
  store_circuit : ℕ → Bool → Op
  store_failures store_last : ℕ → ℕ → Op
  add_cursor clock : Op

-- `fetch_add` and `fetch_sub` give the old value.
abbrev pub Answer : Op → Type 0
Answer (load_circuit i) = Bool
Answer (store_circuit i v) = Unit {0}
Answer (store_failures i n) = Unit {0}
Answer (store_last i n) = Unit {0}
Answer _ = ℕ

-- A field of a backend, or a default where there is none.
abbrev pub read {ℓ} : {A : Type ℓ} → (Backend → A) → A → ℕ → List Backend → A
read f a i [] = a
read f a zero (b ∷ bs) = f b
read f a (suc i) (b ∷ bs) = read f a i bs

abbrev pub write : (Backend → Backend) → ℕ → LoadBalancer → LoadBalancer
write f i lb = record lb { backends = modify f i lb.backends }

unfoldable pub apply : (now : ℕ) (o : Op) → LoadBalancer → LoadBalancer × Answer o
apply now (load_circuit i) lb = (lb, read (λ b. b.circuit_open) false i lb.backends)
apply now (load_last i) lb = (lb, read (λ b. b.last_failure) 0 i lb.backends)
apply now (load_active i) lb = (lb, read (λ b. b.active) 0 i lb.backends)
apply now (add_failures i) lb = (
  write (λ b. record b { failures = add64 b.failures 1 }) i lb,
  read (λ b. b.failures) 0 i lb.backends,
)
apply now (add_active i) lb =
    (write (λ b. record b { active = add64 b.active 1 }) i lb, read (λ b. b.active) 0 i lb.backends)
apply now (sub_active i) lb =
    (write (λ b. record b { active = sub64 b.active 1 }) i lb, read (λ b. b.active) 0 i lb.backends)
apply now (store_circuit i v) lb = (write (λ b. record b { circuit_open = v }) i lb, tt)
apply now (store_failures i n) lb = (write (λ b. record b { failures = n }) i lb, tt)
apply now (store_last i n) lb = (write (λ b. record b { last_failure = n }) i lb, tt)
apply now add_cursor lb = (record lb { cursor = add64 lb.cursor 1 }, lb.cursor)
apply now clock lb = (lb, now)

-- A program returns, or makes an operation and goes on with its answer.
pub data Prog (A : Type 0) : Type 0 where
  done : A → Prog A
  call : (o : Op) → (Answer o → Prog A) → Prog A

infixl 5 ◌>>=◌ ◌>>◌
abbrev pub ◌>>=◌ : {A B : Type 0} → Prog A → (A → Prog B) → Prog B
done a >>= f = f a
call o k >>= f = call o (λ x. k x >>= f)

abbrev pub ◌>>◌ : {A B : Type 0} → Prog A → Prog B → Prog B
p >> q = p >>= λ _. q

abbrev pub atomic : (o : Op) → Prog (Answer o)
atomic o = call o (λ x. done x)

unfoldable pub is_healthy : ℕ → Prog Bool
is_healthy i = do
  is_open ← atomic (load_circuit i)
  if not is_open then done true else do
    now ← atomic clock
    last ← atomic (load_last i)
    if leb cb_reset_secs (sub64 now last)
        then (do atomic (store_circuit i false); atomic (store_failures i 0); done true)
        else done false

unfoldable pub record_success : ℕ → Prog (Unit {0})
record_success i = do atomic (store_failures i 0); atomic (store_circuit i false)

unfoldable pub record_failure : ℕ → Prog (Unit {0})
record_failure i = do
  old ← atomic (add_failures i)
  now ← atomic clock
  atomic (store_last i now)
  if leb cb_threshold (add64 old 1) then atomic (store_circuit i true) else done tt

-- The loop of `round_robin` with the rounds that are left, over `n` backends.
unfoldable pub round_robin_from : ℕ → ℕ → Prog (Option ℕ)
round_robin_from n zero = done none
round_robin_from n (suc rounds) = do
  cursor ← atomic add_cursor
  ok ← is_healthy (cursor % n)
  elim ok [ true ↦ done (some (cursor % n)) | false ↦ round_robin_from n rounds ]

-- `filter(is_healthy).min_by_key(active_count)` from index `i` on, with the best so far.
unfoldable pub least_from : ℕ → ℕ → Option (ℕ × ℕ) → Prog (Option ℕ)
least_from zero i best = done (index_of best)
least_from (suc rest) i best = do
  ok ← is_healthy i
  elim ok [
    | true ↦ atomic (load_active i) >>= λ active. least_from rest (suc i) (min_key best (i, active))
    | false ↦ least_from rest (suc i) best
  ]

-- The loop of `ip_hash` from round `i` on.
unfoldable pub ip_hash_from : ℕ → ℕ → ℕ → ℕ → Prog (Option ℕ)
ip_hash_from n hash zero i = done none
ip_hash_from n hash (suc rounds) i = do
  ok ← is_healthy ((hash + i) % n)
  elim ok [ true ↦ done (some ((hash + i) % n)) | false ↦ ip_hash_from n hash rounds (suc i) ]

abbrev pub pick : LoadBalance → ℕ → Option IpAddr → Prog (Option ℕ)
pick round_robin n ip = round_robin_from n n
pick least_connections n ip = least_from n 0 none
pick ip_hash n ip = ip_hash_from n (hash_of ip) n 0

abbrev pub acquire_found : Option ℕ → Prog (Option ℕ)
acquire_found none = done none
acquire_found (some i) = atomic (add_active i) >>= λ _. done (some i)

-- The guard that is given, by the index of its backend.
unfoldable pub select : LoadBalance → ℕ → Option IpAddr → Prog (Option ℕ)
unfolding is_healthy round_robin_from least_from ip_hash_from
select strategy n ip = if nat_beq n 0 then done none else pick strategy n ip >>= acquire_found

-- `iter().find(|b| b.url == url)` reads no atomic.
abbrev pub index_of_url : Text → List Text → Option ℕ
index_of_url url [] = none
index_of_url url (u ∷ urls) =
    if u == url
    then some 0
    else elim (index_of_url url urls) [ none ↦ none | some i ↦ some (suc i) ]

abbrev pub on_found : (ℕ → Prog (Unit {0})) → Option ℕ → Prog (Unit {0})
on_found f none = done tt
on_found f (some i) = f i

unfoldable pub success : Text → List Text → Prog (Unit {0})
unfolding record_success
success url urls = on_found record_success (index_of_url url urls)

unfoldable pub failure : Text → List Text → Prog (Unit {0})
unfolding record_failure
failure url urls = on_found record_failure (index_of_url url urls)

-- `Drop` of a guard.
unfoldable pub release : ℕ → Prog (Unit {0})
release i = atomic (sub_active i) >>= λ _. done tt

-- A call of a method, and its program: what it gives is a guard, or nothing.
pub data Method : Type 0 where
  selects : Option IpAddr → Method
  succeeds fails : Text → Method

abbrev pub program : LoadBalance → List Text → Method → Prog (Option ℕ)
program strategy urls (selects ip) = select strategy (length urls) ip
program strategy urls (succeeds url) = success url urls >>= λ _. done none
program strategy urls (fails url) = failure url urls >>= λ _. done none

-- A program that runs with no other beside it, at one time.
unfoldable pub alone : {A : Type 0} → ℕ → Prog A → LoadBalancer → LoadBalancer × A
unfolding apply
alone now (done a) lb = (lb, a)
alone now (call o k) lb = let (lb', x) = apply now o lb in alone now (k x) lb'

-- A program among others: before each of its operations the other threads change the balancer, and
-- the clock goes on. What is left of it when its turns are used up.
unfoldable pub among :
    {A : Type 0} → List (ℕ × (LoadBalancer → LoadBalancer)) → Prog A → LoadBalancer → Prog A
unfolding apply
among turns (done a) lb = done a
among [] (call o k) lb = call o k
among ((now, others) ∷ turns) (call o k) lb =
    let (lb', x) = apply now o (others lb) in among turns (k x) lb'
