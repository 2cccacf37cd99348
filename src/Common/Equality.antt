-- ===== src/Common/Equality.antt =====
-- Boolean equality that decides, as an interface: what a map asks of its keys.
use Prim.Native.Nat.{ℕ}
use mathlib.Core.Path.{◌≡◌, refl}
use mathlib.Core.Logic.{◌↔◌}
use mathlib.Core.Bool.{Bool, true, false, ◌&&◌}
use mathlib.Core.List.{List, [], ◌∷◌}
use native.Mathlib.Omega.{arith}
use curf.Common.Tests.{nat_beq, nat_beq_iff}

pub record Key {ℓ} (K : Type ℓ) : Type ℓ where
  pub same : K → K → Bool
  pub decides : (k l : K) → (same k l ≡ true) ↔ (k ≡ l)

instance abbrev pub nat_key : Key ℕ
nat_key = record { same = nat_beq; decides = nat_beq_iff }

module _ {ℓ} {K : Type ℓ} ⦃key : Key K⦄ where
  infix 50 ◌==◌
  abbrev pub ◌==◌ : K → K → Bool
  k == l = key.same k l

  pub ==_refl : (k : K) → (k == k) ≡ true
  ==_refl k = (key.decides k k).1 refl

  -- Lists are compared place by place.
  abbrev pub list_beq : List K → List K → Bool
  list_beq [] [] = true
  list_beq [] (l ∷ ls) = false
  list_beq (k ∷ ks) [] = false
  list_beq (k ∷ ks) (l ∷ ls) = k == l && list_beq ks ls

  pub list_beq_iff : (ks ls : List K) → (list_beq ks ls ≡ true) ↔ (ks ≡ ls)
  list_beq_iff [] [] = ground arith
  list_beq_iff [] (l ∷ ls) = ground arith
  list_beq_iff (k ∷ ks) [] = ground arith
  list_beq_iff (k ∷ ks) (l ∷ ls) = ground (arith, key.decides k l, list_beq_iff ks ls)

  instance abbrev pub list_key : Key (List K)
  list_key = record { same = list_beq; decides = list_beq_iff }
