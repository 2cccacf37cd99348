-- ===== src/HealthCheck/Numbers.antt =====
-- A number that `format!` writes is read back by `parse::<u16>`.
use curf.Common.{
  ℕ, ◌+◌, ◌-◌, ◌*◌, ◌<◌, ◌≤◌, ◌≡◌, refl, ap, ◌∙◌, some, [], ◌∷◌, ◌++◌, Text, arith, All,
}
use curf.Common.Decimal.{decimal, value, IsDigit, value-decimal, decimal-IsDigit, decimal_snoc}
use curf.HealthCheck.{scan_u16, parse_u16}

le-value : (acc : ℕ) (s : Text) → acc ≤ value acc s
le-value acc [] = omega arith
le-value acc (c ∷ s) = omega (arith, le-value (acc * 10 + (c - 48)) s)

scan_u16_lem :
    (acc : ℕ) (s : Text) → All IsDigit s → value acc s < 65536 → scan_u16 acc s ≡ some (value acc s)
unfolding scan_u16
scan_u16_lem acc [] p fits = refl
scan_u16_lem acc (c ∷ s) p fits =
    let rest = scan_u16_lem (acc * 10 + (c - 48)) s p.1 fits in
    ground (arith, rest, le-value (acc * 10 + (c - 48)) s, p.0)

parse_u16-scan : (c : ℕ) (s : Text) → IsDigit c → parse_u16 (c ∷ s) ≡ scan_u16 0 (c ∷ s)
unfolding parse_u16
parse_u16-scan c [] p = refl
parse_u16-scan c (d ∷ s) p = ground (arith, p)

pub parse_u16-decimal : (n : ℕ) → n < 65536 → parse_u16 (decimal n) ≡ some n
parse_u16-decimal n fits =
    let (s, c, e, _) = decimal_snoc n in
    cases (decimal n) (decimal-IsDigit n) (value-decimal n) s c e
  where
    cases :
        (s : Text)
        → All IsDigit s
        → value 0 s ≡ n
        → (t : Text) (d : ℕ) → s ≡ t ++ d ∷ []
        → parse_u16 s ≡ some n
    cases [] p e [] d shape = cc
    cases [] p e (x ∷ t) d shape = cc
    cases (c ∷ s) p e t d shape =
        parse_u16-scan c s p.0 ∙ scan_u16_lem 0 (c ∷ s) p (omega arith) ∙ ap some e
