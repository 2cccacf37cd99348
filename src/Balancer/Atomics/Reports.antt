-- ===== src/Balancer/Atomics/Reports.antt =====
-- How many failures a call counts, and when it opens a circuit.
use curf.Common.{
  ℕ, zero, suc, ◌<◌, ◌≡◌, refl, Bool, true, false, not, Option, none, some, List, Text, arith,
  length, if◌then◌else◌, leb, nat_beq,
}
use curf.Common.Words.{add64, sub64}
use curf.Common.Address.{IpAddr}
use curf.Config.{LoadBalance, round_robin, least_connections, ip_hash}
use curf.Backend.{cb_threshold, cb_reset_secs}
use curf.Balancer.{min_key, hash_of}
use curf.Balancer.Atomics.{
  Op, add_failures, store_circuit, store_failures, Answer, Prog, done, call, ◌>>=◌, is_healthy,
  round_robin_from, least_from, ip_hash_from, pick, acquire_found, select, program, Method, selects,
  succeeds, fails, success, failure, record_success, record_failure, index_of_url, on_found,
}

-- Operations that count no failure and open no circuit.
abbrev pub is_calm : Op → Bool
is_calm (add_failures i) = false
is_calm (store_circuit i v) = not v
is_calm (store_failures i n) = nat_beq n 0
is_calm _ = true

-- A program that counts at most so many failures, and opens no circuit while a count is below four.
pub data Reports {A : Type 0} : ℕ → Prog A → Type 0 where
  ends : {c : ℕ} (a : A) → Reports c (done a)
  adds :
      {c : ℕ} (i : ℕ) (k : ℕ → Prog A)
      → ((x : ℕ) → x < 4 → Reports c (k x))
      → Reports (suc c) (call (add_failures i) k)
  calm :
      {c : ℕ} (o : Op) (k : Answer o → Prog A)
      → is_calm o ≡ true
      → ((x : Answer o) → Reports c (k x))
      → Reports c (call o k)

Reports-bind :
    {A B : Type 0} {c : ℕ} {p : Prog A}
    → Reports c p
    → (f : A → Prog B) → ((d : ℕ) (a : A) → Reports d (f a))
    → Reports c (p >>= f)
Reports-bind (ends {c} a) f w = w c a
Reports-bind (adds i k v) f w = adds i _ (λ x lt. Reports-bind (v x lt) f w)
Reports-bind (calm o k e v) f w = calm o _ e (λ x. Reports-bind (v x) f w)

Reports-if :
    {A : Type 0} {c : ℕ} (b : Bool) {p q : Prog A}
    → Reports c p
    → Reports c q
    → Reports c (if b then p else q)
Reports-if true v w = v
Reports-if false v w = w

is_healthy-Reports : (c i : ℕ) → Reports c (is_healthy i)
unfolding is_healthy
is_healthy-Reports c i = calm _ _ refl λ is_open. Reports-if (not is_open) (ends true) (
    calm _ _ refl λ now. calm _ _ refl λ last.
      Reports-if (leb cb_reset_secs (sub64 now last))
        (calm _ _ refl λ _. calm _ _ refl λ _. ends true) (ends false))

round_robin_from-Reports : (c n rounds : ℕ) → Reports c (round_robin_from n rounds)
unfolding round_robin_from
round_robin_from-Reports c n zero = ends none
round_robin_from-Reports c n (suc rounds) = calm _ _ refl λ cursor.
    Reports-bind (is_healthy-Reports c _) _
      (λ d. elim [ true ↦ ends _ | false ↦ round_robin_from-Reports d n rounds ])

least_from-Reports : (c rest i : ℕ) (best : Option (ℕ × ℕ)) → Reports c (least_from rest i best)
unfolding least_from
least_from-Reports c zero i best = ends _
least_from-Reports c (suc rest) i best = Reports-bind (is_healthy-Reports c i) _ (λ d. elim [
  | true ↦ calm _ _ refl λ active. least_from-Reports d rest (suc i) (min_key best (i, active))
  | false ↦ least_from-Reports d rest (suc i) best
])

ip_hash_from-Reports : (c n hash rounds i : ℕ) → Reports c (ip_hash_from n hash rounds i)
unfolding ip_hash_from
ip_hash_from-Reports c n hash zero i = ends none
ip_hash_from-Reports c n hash (suc rounds) i =
    Reports-bind (is_healthy-Reports c _) _
      (λ d. elim [ true ↦ ends _ | false ↦ ip_hash_from-Reports d n hash rounds (suc i) ])

pick-Reports : (c : ℕ) (s : LoadBalance) (n : ℕ) (ip : Option IpAddr) → Reports c (pick s n ip)
pick-Reports c round_robin n ip = round_robin_from-Reports c n n
pick-Reports c least_connections n ip = least_from-Reports c n 0 none
pick-Reports c ip_hash n ip = ip_hash_from-Reports c n (hash_of ip) n 0

acquire_found-Reports : (c : ℕ) (found : Option ℕ) → Reports c (acquire_found found)
acquire_found-Reports c none = ends none
acquire_found-Reports c (some i) = calm _ _ refl (λ x. ends (some i))

-- A call of `failure` counts one failure at most, and no other call counts any.
abbrev pub credit : Method → ℕ
credit (selects ip) = 0
credit (succeeds url) = 0
credit (fails url) = 1

record_failure-Reports : (i : ℕ) → Reports 1 (record_failure i)
unfolding record_failure
record_failure-Reports i = adds i _ λ old lt. calm _ _ refl λ (now : ℕ).
    calm _ _ refl
      λ _. let few : leb cb_threshold (add64 old 1) ≡ false = ground arith in rw few (ends tt)

on_found-Reports :
    {c : ℕ} (f : ℕ → Prog (Unit {0}))
    → ((i : ℕ) → Reports c (f i))
    → (found : Option ℕ) → Reports c (on_found f found)
on_found-Reports f w none = ends tt
on_found-Reports f w (some i) = w i

pub program-Reports :
    (s : LoadBalance) (urls : List Text) (m : Method) → Reports (credit m) (program s urls m)
unfolding select success failure record_success
program-Reports s urls (selects ip) =
    Reports-if (nat_beq (length urls) 0) (ends none)
      (Reports-bind (pick-Reports 0 s (length urls) ip) _ acquire_found-Reports)
program-Reports s urls (succeeds url) =
    Reports-bind
      (on_found-Reports record_success (λ i. calm _ _ refl λ _. calm _ _ refl λ _. ends tt)
        (index_of_url url urls))
      _ (λ d _. ends none)
program-Reports s urls (fails url) =
    Reports-bind (on_found-Reports record_failure record_failure-Reports (index_of_url url urls)) _
      (λ d _. ends none)
