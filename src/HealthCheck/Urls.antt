-- ===== src/HealthCheck/Urls.antt =====
-- The url of a check, read back: the host, the port and the path that the settings name.
use mathlib.Core.List.{reverse-append, reverse-reverse}
use curf.Common.{
  ℕ, zero, suc, ◌<◌, ◌≡◌, refl, ap, sym, ◌∙◌, Bool, true, false, none, some, [], ◌∷◌, ◌++◌, Text,
  codes, arith, if◌then◌else◌, All, nat_beq, nat_beq_iff, inl, inr, Bool-cases, replicate, subst,
}
use mathlib.Core.List.{append_assoc, append-nil}
use curf.Common.Decimal.{decimal, IsDigit, decimal-IsDigit, decimal_snoc}
use curf.Common.Search.{starts_with, trim_end_while, drop_while}
use curf.HealthCheck.{
  is_slash, check_url, strip_prefix, split_path, split_port, target_of, parse_url,
}
use curf.HealthCheck.Numbers.{parse_u16-decimal}

strip_prefix-append : (pat s : Text) → strip_prefix pat (pat ++ s) ≡ some s
unfolding strip_prefix
strip_prefix-append [] s = refl
strip_prefix-append (c ∷ pat) s = ground (arith, strip_prefix-append pat s)

split_path-append :
    (a s : Text) → All (λ c. is_slash c ≡ false) a → split_path (a ++ b'/' ∷ s) ≡ (a, b'/' ∷ s)
unfolding split_path
split_path-append [] s p = refl
split_path-append (c ∷ a) s p = rw (p.0, split_path-append a s p.1) refl

split_port-none : (d : Text) → All IsDigit d → split_port d ≡ none
unfolding split_port
split_port-none [] p = refl
split_port-none (c ∷ d) p = ground (arith, p.0, split_port-none d p.1)

split_port-append : (h d : Text) → All IsDigit d → split_port (h ++ b':' ∷ d) ≡ some (h, d)
unfolding split_port
split_port-append [] d p = rw (split_port-none d p) refl
split_port-append (c ∷ h) d p = rw (split_port-append h d p) refl

trim_end-stays :
    (p : ℕ → Bool) (s : Text) (c : ℕ) → p c ≡ false → trim_end_while p (s ++ c ∷ []) ≡ s ++ c ∷ []
unfolding trim_end_while drop_while
trim_end-stays p s c stays =
    rw (reverse-append s (c ∷ []), stays, drop_while)
      (rw (← reverse-append s (c ∷ []), reverse-reverse) refl)

trim_end-drops :
    (p : ℕ → Bool) (s : Text) (c : ℕ)
    → p c ≡ true
    → trim_end_while p (s ++ c ∷ []) ≡ trim_end_while p s
unfolding trim_end_while drop_while
trim_end-drops p s c drops = rw (reverse-append s (c ∷ []), drops, drop_while) refl

trim_end-slashes :
    (s : Text) (k : ℕ) → trim_end_while is_slash (s ++ replicate k b'/') ≡ trim_end_while is_slash s
trim_end-slashes s zero = ap (trim_end_while is_slash) (append-nil s)
trim_end-slashes s (suc k) =
    ap (trim_end_while is_slash) (sym (append_assoc s (b'/' ∷ []) (replicate k b'/')))
    ∙ trim_end-slashes (s ++ b'/' ∷ []) k
    ∙ trim_end-drops is_slash s b'/' refl

-- A path with a slash before it, if it has none.
abbrev pub rooted : Text → Text
rooted path = if starts_with (codes "/") path then path else b'/' ∷ path

rooted_shape : (path : Text) → (rest : Text) × (rooted path ≡ b'/' ∷ rest)
unfolding starts_with
rooted_shape [] = ([], refl)
rooted_shape (c ∷ path) = elim (Bool-cases (nat_beq b'/' c)) [
  | inl same ↦ (path, ground (arith, nat_beq_iff b'/' c))
  | inr other ↦ (c ∷ path, ground arith)
]

-- The authority that a backend's url has.
abbrev pub authority : Text → ℕ → Text
authority host port = host ++ b':' ∷ decimal port

digits_plain : (d : Text) → All IsDigit d → All (λ c. is_slash c ≡ false) d
digits_plain [] p = tt
digits_plain (c ∷ d) p = (ground (arith, p.0), digits_plain d p.1)

append_plain :
    (s t : Text)
    → All (λ c. is_slash c ≡ false) s
    → All (λ c. is_slash c ≡ false) t
    → All (λ c. is_slash c ≡ false) (s ++ t)
append_plain [] t p q = q
append_plain (c ∷ s) t p q = (p.0, append_plain s t p.1 q)

trim_end-authority :
    (host : Text) (port : ℕ)
    → trim_end_while is_slash (codes "http://" ++ authority host port)
      ≡ codes "http://" ++ authority host port
trim_end-authority host port =
    let (s, c, e, digit) = decimal_snoc port in
    let front = codes "http://" ++ (host ++ b':' ∷ s) in
    let shape : front ++ c ∷ [] ≡ codes "http://" ++ authority host port =
      rw (e, append_assoc host (b':' ∷ s) (c ∷ [])) refl in
    subst (λ u. trim_end_while is_slash u ≡ u) shape
      (trim_end-stays is_slash front c (ground (arith, digit)))

check_url_lem :
    (host path : Text) (port slashes : ℕ)
    → check_url (codes "http://" ++ (authority host port ++ replicate slashes b'/')) path
      ≡ codes "http://" ++ (authority host port ++ rooted path)
unfolding check_url
check_url_lem host path port slashes =
    ap (λ u. u ++ rooted path)
      (trim_end-slashes (codes "http://" ++ authority host port) slashes
        ∙ trim_end-authority host port)

parse_url-base :
    (host rest : Text) (port : ℕ)
    → All (λ c. is_slash c ≡ false) host
    → port < 65536
    → parse_url (codes "http://" ++ (authority host port ++ b'/' ∷ rest))
      ≡ some (record { host = host; port = port; path = b'/' ∷ rest })
unfolding parse_url strip_prefix
parse_url-base host rest port plain fits =
    let colon_plain : All (λ c. is_slash c ≡ false) (b':' ∷ decimal port) =
      (refl, digits_plain (decimal port) (decimal-IsDigit port)) in
    ap (λ x. some (target_of x))
      (split_path-append (authority host port) rest
        (append_plain host (b':' ∷ decimal port) plain colon_plain))
    ∙ rw
        (
          split_port-append host (decimal port) (decimal-IsDigit port),
          target_of,
          parse_u16-decimal port fits,
        )
        refl

-- The url of a check of `http://host:port`, with any slashes at its end, is read as this host, this
-- port and the path of the settings, which gets a leading slash if it has none.
pub parse_url-check_url :
    (host path : Text) (port slashes : ℕ)
    → All (λ c. is_slash c ≡ false) host
    → port < 65536
    → parse_url
        (check_url (codes "http://" ++ (authority host port ++ replicate slashes b'/')) path)
      ≡ some (record { host = host; port = port; path = rooted path })
parse_url-check_url host path port slashes plain fits =
    let (rest, shape) = rooted_shape path in
    ap parse_url (check_url_lem host path port slashes)
    ∙ rw shape (parse_url-base host rest port plain fits)
