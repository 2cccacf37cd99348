-- ===== src/Balancer/Atomics/Turns.antt =====
-- Round robin with many calls at once: each call takes a turn of the cursor, and no two the same.
use curf.Common.{
  ℕ, zero, suc, ◌+◌, ◌*◌, ◌%◌, ◌≤◌, ◌<◌, ◌≡◌, refl, ap, Bool, false, Option, none, some, List, [],
  ◌∷◌, Text, arith, length, subst, if◌then◌else◌, ltb, nat_beq, get_elem?, set, remove_at,
}
use curf.Common.Address.{IpAddr}
use curf.Config.{round_robin}
use curf.Balancer.Tally.{count}
use curf.Balancer.Atomics.{
  add_active, add_cursor, load_circuit, Prog, done, call, select, program, selects,
}

-- The backends whose turns the first values of the cursor are, the last first.
abbrev pub turns : ℕ → ℕ → List ℕ
turns n zero = []
turns n (suc cursor) = (cursor % n) ∷ turns n cursor

-- In whole rounds of the cursor every backend has its turn once, and then the first ones have it.
pub count-turns :
    (n j k r : ℕ) → j < n → r ≤ n → count j (turns n (k * n + r)) ≡ k + (if ltb j r then 1 else 0)
count-turns n j zero zero lt h = let e : 0 * n + 0 ≡ 0 = omega arith in rw e (ground arith)
count-turns n j (suc k) zero lt h =
    let e : suc k * n + 0 ≡ k * n + n = grind arith in rw e (ground (arith, count-turns n j k n))
count-turns n j k (suc r) lt h =
    let e : k * n + suc r ≡ suc (k * n + r) = omega arith in
    let here : (k * n + r) % n ≡ r = grind arith in
    let rest = count-turns n j k r lt (omega arith) in rw e (rw here (ground (arith, rest)))

-- A call that has had its turn, at backend `i`, and has not given its guard yet.
pub data Holds : ℕ → Prog (Option ℕ) → Type 0 where
  acquires :
      (i : ℕ) (k : ℕ → Prog (Option ℕ))
      → ((x : ℕ) → k x ≡ done (some i))
      → Holds i (call (add_active i) k)
  looks :
      (i : ℕ) (k : Bool → Prog (Option ℕ)) → Holds i (k false) → Holds i (call (load_circuit i) k)

-- A call of `select`, with the backend whose turn it has taken.
pub data Serves (n : ℕ) : Option ℕ → Prog (Option ℕ) → Type 0 where
  fresh :
      (k : ℕ → Prog (Option ℕ))
      → ((c : ℕ) → Holds (c % n) (k c))
      → Serves n none (call add_cursor k)
  holds : {i : ℕ} {p : Prog (Option ℕ)} → Holds i p → Serves n (some i) p

pub program-Serves :
    (n : ℕ) (urls : List Text) (ip : Option IpAddr)
    → length urls ≡ n
    → 0 < n
    → Serves n none (program round_robin urls (selects ip))
unfolding select
program-Serves n [] ip e pos = absurd (omega arith)
program-Serves n (u ∷ urls) ip e pos =
    let there : nat_beq (suc (length urls)) 0 ≡ false = ground arith in
    subst (λ m. Serves m none (program round_robin (u ∷ urls) (selects ip))) e
      (rw there (fresh _ (λ c. looks _ _ (acquires _ _ (λ x. refl)))))

-- The turns that are taken and not yet granted.
abbrev pub taken : List (Option ℕ) → List ℕ
taken [] = []
taken (none ∷ hs) = taken hs
taken (some i ∷ hs) = i ∷ taken hs

pub count-taken-set :
    (j i : ℕ) (hs : List (Option ℕ)) (k : ℕ)
    → get_elem? hs k ≡ some none
    → count j (taken (set hs k (some i))) ≡ count j (i ∷ taken hs)
count-taken-set j i [] k e = cc
count-taken-set j i (h ∷ hs) zero e = let same : h ≡ none = (ground arith) in rw same refl
count-taken-set j i (none ∷ hs) (suc k) e = count-taken-set j i hs k e
count-taken-set j i (some g ∷ hs) (suc k) e = ground (arith, count-taken-set j i hs k e)

pub count-taken-remove_at :
    (j i : ℕ) (hs : List (Option ℕ)) (k : ℕ)
    → get_elem? hs k ≡ some (some i)
    → count j (taken hs) ≡ count j (i ∷ taken (remove_at hs k))
count-taken-remove_at j i [] k e = cc
count-taken-remove_at j i (h ∷ hs) zero e = let same : h ≡ some i = (ground arith) in rw same refl
count-taken-remove_at j i (none ∷ hs) (suc k) e = count-taken-remove_at j i hs k e
count-taken-remove_at j i (some g ∷ hs) (suc k) e = ground (arith, count-taken-remove_at j i hs k e)

pub length-taken-set :
    (i : ℕ) (hs : List (Option ℕ)) (k : ℕ)
    → get_elem? hs k ≡ some none
    → length (taken (set hs k (some i))) ≡ suc (length (taken hs))
length-taken-set i [] k e = cc
length-taken-set i (h ∷ hs) zero e = let same : h ≡ none = (ground arith) in rw same refl
length-taken-set i (none ∷ hs) (suc k) e = length-taken-set i hs k e
length-taken-set i (some g ∷ hs) (suc k) e = ap suc (length-taken-set i hs k e)

pub length-taken-remove_at :
    (i : ℕ) (hs : List (Option ℕ)) (k : ℕ)
    → get_elem? hs k ≡ some (some i)
    → length (taken hs) ≡ suc (length (taken (remove_at hs k)))
length-taken-remove_at i [] k e = cc
length-taken-remove_at i (h ∷ hs) zero e = let same : h ≡ some i = (ground arith) in rw same refl
length-taken-remove_at i (none ∷ hs) (suc k) e = length-taken-remove_at i hs k e
length-taken-remove_at i (some g ∷ hs) (suc k) e = ap suc (length-taken-remove_at i hs k e)
