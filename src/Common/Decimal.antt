-- ===== src/Common/Decimal.antt =====
-- Numbers in decimal, as `format!` writes them. The fuel of `digits` is one more than the number.
use Prim.Native.Nat.{ℕ, zero, suc, ◌+◌, ◌-◌, ◌*◌, ◌<◌, ◌/◌, ◌%◌}
use mathlib.Core.Bool.{true, false}
use mathlib.Core.List.{[], ◌∷◌, ◌++◌}
use curf.Common.Tests.{ltb, Text, Bool-cases}
use mathlib.Core.Path.{◌≡◌, refl, subst}
use curf.Common.Lists.{All}
use mathlib.Core.Logic.{inl, inr}
use native.Mathlib.Omega.{arith}

abbrev pub digits : ℕ → ℕ → Text
digits zero n = []
digits (suc k) n = elim (ltb n 10) [
  | true ↦ (b'0' + n) ∷ []
  | false ↦ digits k (n / 10) ++ (b'0' + n % 10) ∷ []
]

unfoldable pub decimal : ℕ → Text
decimal n = digits (suc n) n

-- The number that a text of digits writes, after `acc`.
abbrev pub value : ℕ → Text → ℕ
value acc [] = acc
value acc (c ∷ s) = value (acc * 10 + (c - 48)) s

value-append : (acc : ℕ) (s : Text) (c : ℕ) → value acc (s ++ c ∷ []) ≡ value acc s * 10 + (c - 48)
value-append acc [] c = refl
value-append acc (x ∷ s) c = value-append (acc * 10 + (x - 48)) s c

value-digits : (k n : ℕ) → n < k → value 0 (digits k n) ≡ n
value-digits zero n h = omega arith
value-digits (suc k) n h = elim (Bool-cases (ltb n 10)) [
  | inl small ↦ ground arith
  | inr large ↦
      let rest = value-digits k (n / 10) (ground arith) in
      grind (arith, value-append 0 (digits k (n / 10)) (b'0' + n % 10), rest)
]

pub value-decimal : (n : ℕ) → value 0 (decimal n) ≡ n
unfolding decimal
value-decimal n = value-digits (suc n) n (omega arith)

-- A digit, and neither `-` nor a quote.
abbrev pub IsDigit : ℕ → Type 0
IsDigit c = (47 < c) × (c < 58)

digits_snoc : (s : Text) (c : ℕ) → All IsDigit s → IsDigit c → All IsDigit (s ++ c ∷ [])
digits_snoc [] c h p = (p, tt)
digits_snoc (x ∷ s) c h p = (h.0, digits_snoc s c h.1 p)

digits-IsDigit : (k n : ℕ) → All IsDigit (digits k n)
digits-IsDigit zero n = tt
digits-IsDigit (suc k) n =
    let rest = digits-IsDigit k (n / 10) in
    elim (Bool-cases (ltb n 10)) [
      | inl small ↦
          let e : (b'0' + n) ∷ [] ≡ digits (suc k) n = (cc) in
          subst (All IsDigit) e ((ground arith), tt)
      | inr large ↦
          let e : digits k (n / 10) ++ (b'0' + n % 10) ∷ [] ≡ digits (suc k) n = (cc) in
          subst (All IsDigit) e
            (digits_snoc (digits k (n / 10)) (b'0' + n % 10) rest (ground arith))
    ]

pub decimal-IsDigit : (n : ℕ) → All IsDigit (decimal n)
unfolding decimal
decimal-IsDigit n = digits-IsDigit (suc n) n

-- Digits before a mark that is no digit can be told from what follows.
pub mark-injective :
    (m : ℕ) (a b s t : Text)
    → ¬ IsDigit m
    → All IsDigit a
    → All IsDigit b
    → a ++ m ∷ s ≡ b ++ m ∷ t
    → (a ≡ b) × (s ≡ t)
mark-injective m [] [] s t mark p q e = (refl, cc)
mark-injective m [] (y ∷ b) s t mark p q e = absurd (mark (subst IsDigit (cc) q.0))
mark-injective m (x ∷ a) [] s t mark p q e = absurd (mark (subst IsDigit (cc) p.0))
mark-injective m (x ∷ a) (y ∷ b) s t mark p q e =
    let (same, rest) = mark-injective m a b s t mark p.1 q.1 (cc) in (cc, rest)

-- A decimal ends in a digit.
pub decimal_snoc : (n : ℕ) → (s : Text) × (c : ℕ) × (decimal n ≡ s ++ c ∷ []) × IsDigit c
unfolding decimal
decimal_snoc n = elim (Bool-cases (ltb n 10)) [
  | inl small ↦ ([], b'0' + n, cc, ground arith)
  | inr large ↦ (digits n (n / 10), b'0' + n % 10, cc, ground arith)
]
