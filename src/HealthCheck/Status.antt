-- ===== src/HealthCheck/Status.antt =====
-- Which answers of a backend count as healthy.
use curf.Common.{
  ℕ, ◌<◌, ◌≡◌, refl, Bool, false, ◌&&◌, Option, none, some, List, [], ◌∷◌, ◌++◌, Text, codes, arith,
  All, leb, ltb,
}
use curf.Common.Decimal.{decimal, IsDigit, decimal-IsDigit, decimal_snoc}
use curf.Common.Search.{is_whitespace}
use curf.HealthCheck.{
  split_whitespace, status_of, Reply, received, timed_out, connect_failed, write_failed,
  read_failed,
}
use curf.HealthCheck.Numbers.{parse_u16-decimal}

abbrev pub IsWord : Text → Type 0
IsWord = All λ c. is_whitespace c ≡ false

split_whitespace-word :
    (c : ℕ) (v s : Text)
    → IsWord (c ∷ v)
    → split_whitespace ((c ∷ v) ++ b' ' ∷ s) ≡ (c ∷ v) ∷ split_whitespace s
unfolding split_whitespace
split_whitespace-word c [] s p = rw p.0 refl
split_whitespace-word c (d ∷ v) s p = ground (arith, p.0, p.1.0, split_whitespace-word d v s p.1)

digits-IsWord : (d : Text) → All IsDigit d → IsWord d
unfolding is_whitespace
digits-IsWord [] p = tt
digits-IsWord (c ∷ d) p = (ground (arith, p.0), digits-IsWord d p.1)

number_word :
    (n : ℕ) (s : Text) → split_whitespace (decimal n ++ b' ' ∷ s) ≡ decimal n ∷ split_whitespace s
number_word n s =
    let (t, d, e, _) = decimal_snoc n in
    cases (decimal n) t d e (digits-IsWord (decimal n) (decimal-IsDigit n))
  where
    cases :
        (w t : Text) (d : ℕ)
        → w ≡ t ++ d ∷ []
        → IsWord w
        → split_whitespace (w ++ b' ' ∷ s) ≡ w ∷ split_whitespace s
    cases [] [] d e p = cc
    cases [] (x ∷ t) d e p = cc
    cases (c ∷ w) t d e p = split_whitespace-word c w s p

-- The status of a response is the number after its first word.
pub status_of_lem :
    (c : ℕ) (version rest : Text) (status : ℕ)
    → IsWord (c ∷ version)
    → status < 65536
    → status_of ((c ∷ version) ++ b' ' ∷ (decimal status ++ b' ' ∷ rest)) ≡ status
unfolding status_of
status_of_lem c version rest status p fits =
    rw
      (
        split_whitespace-word c version (decimal status ++ b' ' ∷ rest) p,
        number_word status rest,
        parse_u16-decimal status fits,
      )
      refl

-- The text of lines, each with its end.
abbrev pub lines : List Text → Text
lines [] = []
lines (l ∷ ls) = l ++ (13 ∷ 10 ∷ lines ls)

-- The request that a backend is sent for a check.
abbrev pub asked_for : Text → Text → Text
asked_for host path = lines (
    (codes "GET " ++ (path ++ codes " HTTP/1.0"))
    ∷ (codes "Host: " ++ host)
    ∷ codes "User-Agent: curf-healthcheck/0.1"
    ∷ codes "Connection: close"
    ∷ []
    ∷ [])

-- What a backend says of itself: a status where it answers with a status line, and nothing where it
-- cannot be asked, does not answer, or does not answer with text.
pub data Says : Reply → Option ℕ → Type 0 where
  gives :
      (c : ℕ) (version rest : Text) (status : ℕ)
      → IsWord (c ∷ version)
      → status < 65536
      → Says
          (received (some ((c ∷ version) ++ b' ' ∷ (decimal status ++ b' ' ∷ rest))))
          (some status)
  is_no_text : Says (received none) none
  times_out : Says timed_out none
  refuses : Says connect_failed none
  hears_nothing : Says write_failed none
  sends_nothing : Says read_failed none

abbrev pub is_2xx : Option ℕ → Bool
is_2xx none = false
is_2xx (some status) = leb 200 status && ltb status 300
