-- ===== src/Balancer/Visits.antt =====
-- The places that a loop over the backends visits, in order, and the first of them that is up.
use native.Mathlib.Nat.{mod-add-mod, mod-lt, mod-eq_of_lt, mod-eq-sub-mod}
use curf.Common.{
  ℕ, zero, suc, ◌+◌, ◌-◌, ◌%◌, ◌≤◌, ◌<◌, ◌≡◌, ap, ◌∙◌, ◌⊎◌, inl, inr, true, false, Option, none,
  some, List, [], ◌∷◌, arith, length, if◌then◌else◌, ltb, Bool-cases, Option-cases, All, subst,
}
use curf.Common.Words.{word, add64}
use curf.Balancer.View.{View, up_at, lt_of_up_at}

-- The slots of `round_robin`, from a cursor.
abbrev pub turn_slots : ℕ → ℕ → ℕ → List ℕ
turn_slots n zero cursor = []
turn_slots n (suc rounds) cursor = cursor % n ∷ turn_slots n rounds (add64 cursor 1)

-- The slots of `ip_hash`, from round `i`.
abbrev pub hash_slots : ℕ → ℕ → ℕ → ℕ → List ℕ
hash_slots n hash zero i = []
hash_slots n hash (suc rounds) i = (hash + i) % n ∷ hash_slots n hash rounds (suc i)

abbrev pub first_up : List View → List ℕ → Option ℕ
first_up vs [] = none
first_up vs (i ∷ is) = if up_at i vs then some i else first_up vs is

-- What a search over the backends ought to find: an index that is up, or nothing when all are down.
abbrev pub Finds : List View → Option ℕ → Type 0
Finds vs none = (i : ℕ) → up_at i vs ≡ false
Finds vs (some i) = up_at i vs ≡ true

pub first_up-up :
    (vs : List View) (is : List ℕ) (i : ℕ) → first_up vs is ≡ some i → up_at i vs ≡ true
first_up-up vs [] i h = cc
first_up-up vs (j ∷ is) i h = ground (arith, first_up-up vs is i)

pub first_up-none :
    (vs : List View) (is : List ℕ) → first_up vs is ≡ none → All (λ i. up_at i vs ≡ false) is
first_up-none vs [] h = tt
first_up-none vs (j ∷ is) h = elim (Bool-cases (up_at j vs)) [
  | inl up ↦ absurd (ground arith)
  | inr down ↦ (down, first_up-none vs is (ground arith))
]

-- To show that a search finds what it ought to, only the empty outcome needs a look.
Finds-of_none :
    (vs : List View) (is : List ℕ)
    → (first_up vs is ≡ none → (j : ℕ) → j < length vs → up_at j vs ≡ false)
    → Finds vs (first_up vs is)
Finds-of_none vs is h = elim (Option-cases (first_up vs is)) [
  | inl missed ↦ rw missed λ j. down j (Bool-cases (up_at j vs)) missed
  | inr (i, found) ↦ rw found (first_up-up vs is i found)
]
  where
    down :
        (j : ℕ)
        → (up_at j vs ≡ true) ⊎ (up_at j vs ≡ false)
        → first_up vs is ≡ none
        → up_at j vs ≡ false
    down j (inl up) missed = h missed j (lt_of_up_at j vs up)
    down j (inr d) missed = d

-- The turn `k` of the rounds, while the cursor does not wrap.
turn_at :
    (P : ℕ → Type 0) (n rounds cursor k : ℕ)
    → cursor + rounds ≤ word
    → k < rounds
    → All P (turn_slots n rounds cursor)
    → P ((cursor + k) % n)
turn_at P n zero cursor k w h a = elim h [ ]
turn_at P n (suc rounds) cursor zero w h a = let e : cursor + 0 ≡ cursor = omega arith in rw e a.0
turn_at P n (suc rounds) cursor (suc k) w h a =
    let e : add64 cursor 1 + k ≡ cursor + suc k = omega arith in
    rw (← e) (turn_at P n rounds (add64 cursor 1) k (omega arith) (omega arith) a.1)

hash_at :
    (P : ℕ → Type 0) (n hash rounds i k : ℕ)
    → k < rounds
    → All P (hash_slots n hash rounds i)
    → P ((hash + (i + k)) % n)
hash_at P n hash zero i k h a = elim h [ ]
hash_at P n hash (suc rounds) i zero h a = let e : i + 0 ≡ i = omega arith in rw e a.0
hash_at P n hash (suc rounds) i (suc k) h a =
    let e : suc i + k ≡ i + suc k = omega arith in
    rw (← e) (hash_at P n hash rounds (suc i) k (omega arith) a.1)

-- How far slot `j` lies from slot `c % n`.
distance : ℕ → ℕ → ℕ → ℕ
distance n c j = if ltb j (c % n) then j + n - c % n else j - c % n

distance-lt : (n c j : ℕ) → j < n → distance n c j < n
unfolding distance
distance-lt n c j h = ground (arith, mod-lt c {m = n} (omega arith))

add_self-mod : (n j : ℕ) → j < n → (j + n) % n ≡ j
add_self-mod n j h =
    let e : j + n - n ≡ j = omega arith in
    mod-eq-sub-mod {n = j + n} {m = n} (omega arith) ∙ rw e (mod-eq_of_lt h)

reach_slot : (n c j : ℕ) → j < n → (c + distance n c j) % n ≡ j
unfolding distance
reach_slot n c j h = elim (Bool-cases (ltb j (c % n))) [
  | inl below ↦
      let e : c % n + (j + n - c % n) ≡ j + n = omega (arith, mod-lt c {m = n} (omega arith)) in
      rw (below, ← mod-add-mod c n (j + n - c % n), e) (add_self-mod n j h)
  | inr above ↦
      let e : c % n + (j - c % n) ≡ j = ground arith in
      rw (above, ← mod-add-mod c n (j - c % n), e) (mod-eq_of_lt h)
]

-- A full round of `n` turns visits every slot, so a round that finds nothing shows all are down.
pub turn_slots-Finds :
    (vs : List View) (cursor : ℕ)
    → cursor + length vs ≤ word
    → Finds vs (first_up vs (turn_slots (length vs) (length vs) cursor))
turn_slots-Finds vs cursor w = Finds-of_none vs _ λ e j h.
    let n = length vs in
    subst (λ k. up_at k vs ≡ false) (reach_slot n cursor j h)
      (turn_at (λ k. up_at k vs ≡ false) n n cursor (distance n cursor j) w
        (distance-lt n cursor j h) (first_up-none vs _ e))

-- What holds of every slot of a full round holds of every backend.
pub hash_slots-visit : (P : ℕ → Type 0) (n hash j : ℕ) → j < n → All P (hash_slots n hash n 0) → P j
hash_slots-visit P n hash j h a =
    let d = distance n hash j in
    let start : hash + (0 + d) ≡ hash + d = omega arith in
    subst P (ap (λ m. m % n) start ∙ reach_slot n hash j h)
      (hash_at P n hash n 0 d (distance-lt n hash j h) a)

pub hash_slots-Finds :
    (vs : List View) (hash : ℕ) → Finds vs (first_up vs (hash_slots (length vs) hash (length vs) 0))
hash_slots-Finds vs hash =
    Finds-of_none vs _ λ e j h.
      hash_slots-visit (λ k. up_at k vs ≡ false) (length vs) hash j h (first_up-none vs _ e)
