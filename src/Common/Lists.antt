-- ===== src/Common/Lists.antt =====
-- Lists measured and indexed by native numbers, under the library's names, and predicates on lists.
use Prim.Native.Nat.{ℕ, zero, suc, ◌+◌, ◌≤◌, ◌<◌}
use mathlib.Core.Path.{◌≡◌, refl, ap, subst}
use mathlib.Core.Logic.{◌≢◌}
use mathlib.Core.List.{List, [], ◌∷◌, ◌++◌, map}
use mathlib.Core.Option.{Option, none, some}
use native.Mathlib.Omega.{arith}

module _ {ℓ} {A : Type ℓ} where
  abbrev pub length : List A → ℕ
  length [] = 0
  length (x ∷ xs) = suc (length xs)

  abbrev pub get_elem? : List A → ℕ → Option A
  get_elem? [] i = none
  get_elem? (x ∷ xs) zero = some x
  get_elem? (x ∷ xs) (suc i) = get_elem? xs i

  -- A write out of bounds changes nothing.
  abbrev pub set : List A → ℕ → A → List A
  set [] i v = []
  set (x ∷ xs) zero v = v ∷ xs
  set (x ∷ xs) (suc i) v = x ∷ set xs i v

  abbrev pub remove_at : List A → ℕ → List A
  remove_at [] i = []
  remove_at (x ∷ xs) zero = xs
  remove_at (x ∷ xs) (suc i) = x ∷ remove_at xs i

  pub length-remove_at : (xs : List A) (i : ℕ) → length (remove_at xs i) ≤ length xs
  length-remove_at [] i = omega arith
  length-remove_at (x ∷ xs) zero = omega arith
  length-remove_at (x ∷ xs) (suc i) = omega (arith, length-remove_at xs i)

  pub length-append : (xs ys : List A) → length (xs ++ ys) ≡ length xs + length ys
  length-append [] ys = omega arith
  length-append (x ∷ xs) ys = omega (arith, length-append xs ys)

  pub length-set : (xs : List A) (i : ℕ) (v : A) → length (set xs i v) ≡ length xs
  length-set [] i v = refl
  length-set (x ∷ xs) zero v = refl
  length-set (x ∷ xs) (suc i) v = ap suc (length-set xs i v)

  pub get_elem?-set_self :
      (xs : List A) (i : ℕ) (v : A) → i < length xs → get_elem? (set xs i v) i ≡ some v
  get_elem?-set_self [] i v h = elim h [ ]
  get_elem?-set_self (x ∷ xs) zero v h = refl
  get_elem?-set_self (x ∷ xs) (suc i) v h = get_elem?-set_self xs i v (omega arith)

  pub get_elem?-set_ne :
      (xs : List A) {i j : ℕ} (v : A) → i ≢ j → get_elem? (set xs i v) j ≡ get_elem? xs j
  get_elem?-set_ne [] v h = refl
  get_elem?-set_ne (x ∷ xs) {i = zero} {j = zero} v h = absurd (h refl)
  get_elem?-set_ne (x ∷ xs) {i = zero} {j = suc j} v h = refl
  get_elem?-set_ne (x ∷ xs) {i = suc i} {j = zero} v h = refl
  get_elem?-set_ne (x ∷ xs) {i = suc i} {j = suc j} v h = get_elem?-set_ne xs v (λ e. h (ap suc e))

  pub get_elem?-some : (xs : List A) (i : ℕ) → i < length xs → (a : A) × (get_elem? xs i ≡ some a)
  get_elem?-some [] i h = elim h [ ]
  get_elem?-some (x ∷ xs) zero h = (x, refl)
  get_elem?-some (x ∷ xs) (suc i) h = get_elem?-some xs i (omega arith)

  pub lt_of_get_elem? : (xs : List A) (i : ℕ) {a : A} → get_elem? xs i ≡ some a → i < length xs
  lt_of_get_elem? [] i h = cc
  lt_of_get_elem? (x ∷ xs) zero h = omega arith
  lt_of_get_elem? (x ∷ xs) (suc i) h = omega (arith, lt_of_get_elem? xs i h)

  abbrev pub replicate : ℕ → A → List A
  replicate zero a = []
  replicate (suc n) a = a ∷ replicate n a

  abbrev pub All {κ} : (A → Type κ) → List A → Type κ
  All P [] = Unit
  All P (x ∷ xs) = P x × All P xs

  pub All-get_elem? {κ} :
      (P : A → Type κ) (xs : List A) (i : ℕ) {a : A} → All P xs → get_elem? xs i ≡ some a → P a
  All-get_elem? P [] i h e = cc
  All-get_elem? P (x ∷ xs) zero h e = subst P (ground arith) h.0
  All-get_elem? P (x ∷ xs) (suc i) h e = All-get_elem? P xs i h.1 e

module _ {ℓ κ} {A : Type ℓ} (P : A → Type κ) where
  pub All-set : (xs : List A) (i : ℕ) (a : A) → All P xs → P a → All P (set xs i a)
  All-set [] i a h p = h
  All-set (x ∷ xs) zero a h p = (p, h.1)
  All-set (x ∷ xs) (suc i) a h p = (h.0, All-set xs i a h.1 p)

  pub All-remove_at : (xs : List A) (i : ℕ) → All P xs → All P (remove_at xs i)
  All-remove_at [] i h = h
  All-remove_at (x ∷ xs) zero h = h.1
  All-remove_at (x ∷ xs) (suc i) h = (h.0, All-remove_at xs i h.1)

pub length-map {ℓ κ} :
    {A : Type ℓ} {B : Type κ} (f : A → B) (xs : List A) → length (map f xs) ≡ length xs
length-map f [] = refl
length-map f (x ∷ xs) = ap suc (length-map f xs)

pub set_same {ℓ} :
    {A : Type ℓ} (xs : List A) (k : ℕ) (a : A) → get_elem? xs k ≡ some a → set xs k a ≡ xs
set_same [] k a e = refl
set_same (x ∷ xs) zero a e = let same : a ≡ x = (ground arith) in ap (λ y. y ∷ xs) same
set_same (x ∷ xs) (suc k) a e = ap (λ ys. x ∷ ys) (set_same xs k a e)

-- Two lists of the same length whose members go together place by place.
module _ {ℓ κ} {A : Type ℓ} {B : Type κ} (P : A → B → Type 0) where
  abbrev pub Pairs : List A → List B → Type 0
  Pairs [] [] = Unit {0}
  Pairs [] (y ∷ ys) = ⊥
  Pairs (x ∷ xs) [] = ⊥
  Pairs (x ∷ xs) (y ∷ ys) = P x y × Pairs xs ys

  pub Pairs-get_elem? :
      (xs : List A) (ys : List B) (k : ℕ) {y : B}
      → Pairs xs ys
      → get_elem? ys k ≡ some y
      → (x : A) × (get_elem? xs k ≡ some x) × P x y
  Pairs-get_elem? [] [] k m e = cc
  Pairs-get_elem? [] (y ∷ ys) k m e = elim m [ ]
  Pairs-get_elem? (x ∷ xs) [] k m e = elim m [ ]
  Pairs-get_elem? (x ∷ xs) (y ∷ ys) zero m e = (x, refl, subst (P x) (ground arith) m.0)
  Pairs-get_elem? (x ∷ xs) (y ∷ ys) (suc k) m e = Pairs-get_elem? xs ys k m.1 e

  pub Pairs-set :
      (xs : List A) (ys : List B) (k : ℕ) (x : A) (y : B)
      → Pairs xs ys
      → P x y
      → Pairs (set xs k x) (set ys k y)
  Pairs-set [] [] k x y m v = m
  Pairs-set [] (w ∷ ys) k x y m v = elim m [ ]
  Pairs-set (u ∷ xs) [] k x y m v = elim m [ ]
  Pairs-set (u ∷ xs) (w ∷ ys) zero x y m v = (v, m.1)
  Pairs-set (u ∷ xs) (w ∷ ys) (suc k) x y m v = (m.0, Pairs-set xs ys k x y m.1 v)

  pub Pairs-remove_at :
      (xs : List A) (ys : List B) (k : ℕ) → Pairs xs ys → Pairs (remove_at xs k) (remove_at ys k)
  Pairs-remove_at [] [] k m = m
  Pairs-remove_at [] (w ∷ ys) k m = elim m [ ]
  Pairs-remove_at (u ∷ xs) [] k m = elim m [ ]
  Pairs-remove_at (u ∷ xs) (w ∷ ys) zero m = m.1
  Pairs-remove_at (u ∷ xs) (w ∷ ys) (suc k) m = (m.0, Pairs-remove_at xs ys k m.1)

  pub Pairs-nil : (xs : List A) → Pairs xs [] → xs ≡ []
  Pairs-nil [] m = refl
  Pairs-nil (x ∷ xs) m = elim m [ ]
