-- ===== src/Balancer/Atomics/Progress.antt =====
-- The methods are wait-free: a call returns after a bounded number of its own atomic operations,
-- whatever the other threads do in between.
use curf.Common.{
  ℕ, zero, suc, ◌+◌, ◌*◌, ◌%◌, ◌≤◌, ◌≡◌, refl, Bool, true, false, not, Option, none, some, List, [],
  ◌∷◌, Text, arith, length, subst, if◌then◌else◌, leb, nat_beq,
}
use curf.Common.Words.{sub64, add64}
use curf.Common.Address.{IpAddr}
use curf.Config.{LoadBalance, round_robin, least_connections, ip_hash}
use curf.Backend.{cb_threshold, cb_reset_secs}
use curf.Balancer.{LoadBalancer, hash_of, min_key}
use curf.Balancer.Atomics.{
  Op, Answer, Prog, done, call, ◌>>=◌, is_healthy, record_success, record_failure, round_robin_from,
  least_from, ip_hash_from, pick, acquire_found, select, success, failure, index_of_url, on_found,
  among, program, Method, selects, succeeds, fails,
}

-- No more than so many operations, whatever their answers.
pub data IsWithin {A : Type 0} : ℕ → Prog A → Type 0 where
  returns : {n : ℕ} (a : A) → IsWithin n (done a)
  goes_on :
      {n : ℕ} (o : Op) (k : Answer o → Prog A)
      → ((x : Answer o) → IsWithin n (k x))
      → IsWithin (suc n) (call o k)

module _ {A : Type 0} where
  IsWithin-le : {n : ℕ} {p : Prog A} → IsWithin n p → (m : ℕ) → n ≤ m → IsWithin m p
  IsWithin-le (returns a) m h = returns a
  IsWithin-le (goes_on {n} o k w) zero h = absurd (omega arith)
  IsWithin-le (goes_on {n} o k w) (suc m) h = goes_on o k (λ x. IsWithin-le (w x) m (omega arith))

  among-returns :
      {n : ℕ} {p : Prog A}
      → IsWithin n p
      → (turns : List (ℕ × (LoadBalancer → LoadBalancer))) (lb : LoadBalancer) → n ≤ length turns
      → (a : A) × (among turns p lb ≡ done a)
  unfolding among
  among-returns (returns a) turns lb h = (a, refl)
  among-returns (goes_on o k w) [] lb h = absurd (omega arith)
  among-returns (goes_on o k w) ((now, others) ∷ turns) lb h =
      among-returns (w _) turns _ (omega arith)

IsWithin-bind :
    {A B : Type 0} {n : ℕ} {p : Prog A}
    → IsWithin n p
    → (m : ℕ) (f : A → Prog B) → ((a : A) → IsWithin m (f a))
    → IsWithin (n + m) (p >>= f)
IsWithin-bind (returns {n} a) m f w = IsWithin-le (w a) (n + m) (omega arith)
IsWithin-bind (goes_on {n} o k v) m f w =
    let e : suc (n + m) ≡ suc n + m = omega arith in
    subst (λ t. IsWithin t (call o k >>= f)) e (goes_on o _ (λ x. IsWithin-bind (v x) m f w))

IsWithin-if :
    {A : Type 0} {n : ℕ} (b : Bool) {p q : Prog A}
    → IsWithin n p
    → IsWithin n q
    → IsWithin n (if b then p else q)
IsWithin-if true v w = v
IsWithin-if false v w = w

is_healthy-IsWithin : (i : ℕ) → IsWithin 5 (is_healthy i)
unfolding is_healthy
is_healthy-IsWithin i = goes_on _ _ λ is_open. IsWithin-if (not is_open) (returns true) (
    goes_on _ _ λ now. goes_on _ _ λ last.
      IsWithin-if (leb cb_reset_secs (sub64 now last))
        (goes_on _ _ λ _. goes_on _ _ λ _. returns true) (returns false))

round_robin_from-IsWithin : (n rounds : ℕ) → IsWithin (6 * rounds) (round_robin_from n rounds)
unfolding round_robin_from
round_robin_from-IsWithin n zero = returns none
round_robin_from-IsWithin n (suc rounds) =
    let e : suc (5 + 6 * rounds) ≡ 6 * suc rounds = omega arith in
    subst (λ t. IsWithin t (round_robin_from n (suc rounds))) e
      (goes_on _ _ λ cursor.
        IsWithin-bind (is_healthy-IsWithin (cursor % n)) (6 * rounds) _
          (elim [ true ↦ returns _ | false ↦ round_robin_from-IsWithin n rounds ]))

least_from-IsWithin :
    (rest i : ℕ) (best : Option (ℕ × ℕ)) → IsWithin (6 * rest) (least_from rest i best)
unfolding least_from
least_from-IsWithin zero i best = returns _
least_from-IsWithin (suc rest) i best =
    let e : 5 + suc (6 * rest) ≡ 6 * suc rest = omega arith in
    let here = is_healthy-IsWithin i in
    subst (λ t. IsWithin t (least_from (suc rest) i best)) e
      (IsWithin-bind here (suc (6 * rest)) _ (elim [
        | true ↦ goes_on _ _ λ active. least_from-IsWithin rest (suc i) (min_key best (i, active))
        | false ↦ IsWithin-le (least_from-IsWithin rest (suc i) best) (suc (6 * rest)) (omega arith)
      ]))

ip_hash_from-IsWithin : (n hash rounds i : ℕ) → IsWithin (6 * rounds) (ip_hash_from n hash rounds i)
unfolding ip_hash_from
ip_hash_from-IsWithin n hash zero i = returns none
ip_hash_from-IsWithin n hash (suc rounds) i =
    IsWithin-le
      (IsWithin-bind (is_healthy-IsWithin ((hash + i) % n)) (6 * rounds) _
        (elim [ true ↦ returns _ | false ↦ ip_hash_from-IsWithin n hash rounds (suc i) ]))
      (6 * suc rounds) (omega arith)

pick-IsWithin : (s : LoadBalance) (n : ℕ) (ip : Option IpAddr) → IsWithin (6 * n) (pick s n ip)
pick-IsWithin round_robin n ip = round_robin_from-IsWithin n n
pick-IsWithin least_connections n ip = least_from-IsWithin n 0 none
pick-IsWithin ip_hash n ip = ip_hash_from-IsWithin n (hash_of ip) n 0

acquire_found-IsWithin : (found : Option ℕ) → IsWithin 1 (acquire_found found)
acquire_found-IsWithin none = returns none
acquire_found-IsWithin (some i) = goes_on _ _ λ _. returns (some i)

select-IsWithin :
    (s : LoadBalance) (n : ℕ) (ip : Option IpAddr) → IsWithin (6 * n + 1) (select s n ip)
unfolding select
select-IsWithin s n ip =
    IsWithin-if (nat_beq n 0) (returns none)
      (IsWithin-bind (pick-IsWithin s n ip) 1 _ acquire_found-IsWithin)

on_found-IsWithin :
    {n : ℕ} (f : ℕ → Prog (Unit {0}))
    → ((i : ℕ) → IsWithin n (f i))
    → (found : Option ℕ) → IsWithin n (on_found f found)
on_found-IsWithin f w none = returns tt
on_found-IsWithin f w (some i) = w i

success-IsWithin : (url : Text) (urls : List Text) → IsWithin 2 (success url urls)
unfolding success record_success
success-IsWithin url urls =
    on_found-IsWithin record_success (λ i. goes_on _ _ λ _. goes_on _ _ λ _. returns tt)
      (index_of_url url urls)

failure-IsWithin : (url : Text) (urls : List Text) → IsWithin 4 (failure url urls)
unfolding failure record_failure
failure-IsWithin url urls =
    on_found-IsWithin record_failure
      (λ i. goes_on _ _ λ old. goes_on _ _ λ now. goes_on _ _ λ _.
        IsWithin-if (leb cb_threshold (add64 old 1)) (goes_on _ _ λ _. returns tt) (returns tt))
      (index_of_url url urls)

-- The operations of a call, at most.
abbrev pub cost : List Text → Method → ℕ
cost urls (selects ip) = 6 * length urls + 1
cost urls (succeeds url) = 2
cost urls (fails url) = 4

program-IsWithin :
    (s : LoadBalance) (urls : List Text) (m : Method) → IsWithin (cost urls m) (program s urls m)
program-IsWithin s urls (selects ip) = select-IsWithin s (length urls) ip
program-IsWithin s urls (succeeds url) =
    IsWithin-le (IsWithin-bind (success-IsWithin url urls) 0 _ λ _. returns none) 2 (omega arith)
program-IsWithin s urls (fails url) =
    IsWithin-le (IsWithin-bind (failure-IsWithin url urls) 0 _ λ _. returns none) 4 (omega arith)

-- A call of a method returns however its atomic operations and those of other threads are
-- interleaved, and whatever those do to the balancer: `select` of `n` backends after at most
-- 6 * n + 1 operations of its own, `failure` after four and `success` after two. No call waits for
-- another.
pub program-returns :
    (strategy : LoadBalance) (urls : List Text) (m : Method)
    (turns : List (ℕ × (LoadBalancer → LoadBalancer))) (lb : LoadBalancer)
    → cost urls m ≤ length turns
    → (found : Option ℕ) × (among turns (program strategy urls m) lb ≡ done found)
program-returns strategy urls m turns lb h =
    among-returns (program-IsWithin strategy urls m) turns lb h
