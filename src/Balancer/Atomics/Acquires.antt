-- ===== src/Balancer/Atomics/Acquires.antt =====
-- Which operations of a call change a count of active requests: one, the last of a `select` that gives
-- a guard.
use curf.Common.{
  ℕ, zero, suc, ◌≡◌, refl, Bool, true, false, not, Option, none, some, List, Text, length,
  if◌then◌else◌, leb, nat_beq, Bool-cases, inl, inr,
}
use curf.Common.Words.{sub64, add64}
use curf.Common.Address.{IpAddr}
use curf.Config.{LoadBalance, round_robin, least_connections, ip_hash}
use curf.Backend.{cb_threshold, cb_reset_secs}
use curf.Balancer.{hash_of, min_key}
use curf.Balancer.Atomics.{
  Op, add_active, sub_active, Answer, Prog, done, call, ◌>>=◌, is_healthy, record_success,
  record_failure, round_robin_from, least_from, ip_hash_from, pick, acquire_found, select, success,
  failure, index_of_url, on_found, program, Method, selects, succeeds, fails,
}

-- Operations that leave the counts alone.
abbrev pub keeps_active : Op → Bool
keeps_active (add_active i) = false
keeps_active (sub_active i) = false
keeps_active _ = true

pub data IsQuiet {A : Type 0} : Prog A → Type 0 where
  quiet_done : (a : A) → IsQuiet (done a)
  quiet_call :
      (o : Op) (k : Answer o → Prog A)
      → keeps_active o ≡ true
      → ((x : Answer o) → IsQuiet (k x))
      → IsQuiet (call o k)

-- A program that makes one more request active just before it gives the guard, and gives none
-- otherwise.
pub data Acquires : Prog (Option ℕ) → Type 0 where
  misses : Acquires (done none)
  takes :
      (i : ℕ) (k : ℕ → Prog (Option ℕ))
      → ((x : ℕ) → k x ≡ done (some i))
      → Acquires (call (add_active i) k)
  works :
      (o : Op) (k : Answer o → Prog (Option ℕ))
      → keeps_active o ≡ true
      → ((x : Answer o) → Acquires (k x))
      → Acquires (call o k)

IsQuiet-bind :
    {A B : Type 0} {p : Prog A}
    → IsQuiet p
    → (f : A → Prog B) → ((a : A) → IsQuiet (f a))
    → IsQuiet (p >>= f)
IsQuiet-bind (quiet_done a) f w = w a
IsQuiet-bind (quiet_call o k c v) f w = quiet_call o _ c (λ x. IsQuiet-bind (v x) f w)

Acquires-bind :
    {A : Type 0} {p : Prog A}
    → IsQuiet p
    → (f : A → Prog (Option ℕ)) → ((a : A) → Acquires (f a))
    → Acquires (p >>= f)
Acquires-bind (quiet_done a) f w = w a
Acquires-bind (quiet_call o k c v) f w = works o _ c (λ x. Acquires-bind (v x) f w)

IsQuiet-if :
    {A : Type 0} (b : Bool) {p q : Prog A} → IsQuiet p → IsQuiet q → IsQuiet (if b then p else q)
IsQuiet-if true v w = v
IsQuiet-if false v w = w

is_healthy-IsQuiet : (i : ℕ) → IsQuiet (is_healthy i)
unfolding is_healthy
is_healthy-IsQuiet i = quiet_call _ _ refl λ is_open. IsQuiet-if (not is_open) (quiet_done true) (
    quiet_call _ _ refl λ now. quiet_call _ _ refl λ last.
      IsQuiet-if (leb cb_reset_secs (sub64 now last))
        (quiet_call _ _ refl λ _. quiet_call _ _ refl λ _. quiet_done true) (quiet_done false))

round_robin_from-IsQuiet : (n rounds : ℕ) → IsQuiet (round_robin_from n rounds)
unfolding round_robin_from
round_robin_from-IsQuiet n zero = quiet_done none
round_robin_from-IsQuiet n (suc rounds) = quiet_call _ _ refl λ cursor.
    IsQuiet-bind (is_healthy-IsQuiet _) _
      (elim [ true ↦ quiet_done _ | false ↦ round_robin_from-IsQuiet n rounds ])

least_from-IsQuiet : (rest i : ℕ) (best : Option (ℕ × ℕ)) → IsQuiet (least_from rest i best)
unfolding least_from
least_from-IsQuiet zero i best = quiet_done _
least_from-IsQuiet (suc rest) i best = IsQuiet-bind (is_healthy-IsQuiet i) _ (elim [
  | true ↦ quiet_call _ _ refl λ active. least_from-IsQuiet rest (suc i) (min_key best (i, active))
  | false ↦ least_from-IsQuiet rest (suc i) best
])

ip_hash_from-IsQuiet : (n hash rounds i : ℕ) → IsQuiet (ip_hash_from n hash rounds i)
unfolding ip_hash_from
ip_hash_from-IsQuiet n hash zero i = quiet_done none
ip_hash_from-IsQuiet n hash (suc rounds) i =
    IsQuiet-bind (is_healthy-IsQuiet _) _
      (elim [ true ↦ quiet_done _ | false ↦ ip_hash_from-IsQuiet n hash rounds (suc i) ])

pick-IsQuiet : (s : LoadBalance) (n : ℕ) (ip : Option IpAddr) → IsQuiet (pick s n ip)
pick-IsQuiet round_robin n ip = round_robin_from-IsQuiet n n
pick-IsQuiet least_connections n ip = least_from-IsQuiet n 0 none
pick-IsQuiet ip_hash n ip = ip_hash_from-IsQuiet n (hash_of ip) n 0

acquire_found-Acquires : (found : Option ℕ) → Acquires (acquire_found found)
acquire_found-Acquires none = misses
acquire_found-Acquires (some i) = takes i _ (λ x. refl)

on_found-IsQuiet :
    (f : ℕ → Prog (Unit {0}))
    → ((i : ℕ) → IsQuiet (f i))
    → (found : Option ℕ) → IsQuiet (on_found f found)
on_found-IsQuiet f w none = quiet_done tt
on_found-IsQuiet f w (some i) = w i

pub program-Acquires :
    (s : LoadBalance) (urls : List Text) (m : Method) → Acquires (program s urls m)
unfolding select success failure record_success record_failure
program-Acquires s urls (selects ip) = elim (Bool-cases (nat_beq (length urls) 0)) [
  | inl nobody ↦ rw nobody misses
  | inr there ↦ rw there (Acquires-bind (pick-IsQuiet s (length urls) ip) _ acquire_found-Acquires)
]
program-Acquires s urls (succeeds url) =
    Acquires-bind
      (on_found-IsQuiet record_success
        (λ i. quiet_call _ _ refl λ _. quiet_call _ _ refl λ _. quiet_done tt)
        (index_of_url url urls))
      _ (λ _. misses)
program-Acquires s urls (fails url) =
    Acquires-bind
      (on_found-IsQuiet record_failure
        (λ i. quiet_call _ _ refl λ old. quiet_call _ _ refl λ now. quiet_call _ _ refl λ _.
          IsQuiet-if (leb cb_threshold (add64 old 1)) (quiet_call _ _ refl λ _. quiet_done tt)
            (quiet_done tt))
        (index_of_url url urls))
      _ (λ _. misses)
