-- ===== src/Waf/Filter.antt =====
-- What the request filter lets through.
use mathlib.Core.List.{map-append}
use curf.Common.{
  ℕ, ◌+◌, ◌≡◌, ◌≢◌, ◌↔◌, refl, ap, sym, ◌∙◌, Bool, true, false, Option, some, List, [], ◌∷◌, ◌++◌,
  ◌&&◌, ◌||◌, if◌then◌else◌, ok, Text, arith, Bool-cases, inl, inr, All, get_elem?, leb, map,
  All-get_elem?,
}
use curf.Common.Search.{
  contains, contains_iff, Occurs, trim, is_empty, all_of, is_whitespace, is_empty-trim,
}
use curf.Config.{SecurityFlags}
use curf.Waf.{
  sqli_patterns, xss_patterns, up_slash, up_backslash, or_blank, target_of, any_contained,
  check_lower, check_request,
}

not_contained : (pat s : Text) → (contains pat s ≡ false) ↔ (¬ Occurs pat s)
not_contained pat s = (
  no,
  elim (Bool-cases (contains pat s)) as (λ _. ¬ Occurs pat s → contains pat s ≡ false) [
    | inl h ↦ λ n. absurd (n ((contains_iff pat s).0 h))
    | inr h ↦ λ n. h
  ],
)
  where
    no : contains pat s ≡ false → ¬ Occurs pat s
    no h o = cc (h, (contains_iff pat s).1 o)

none_contained :
    (pats : List Text) (s : Text)
    → (any_contained pats s ≡ false) ↔ All (λ pat. ¬ Occurs pat s) pats
unfolding any_contained
none_contained [] s = (λ h. tt, λ h. refl)
none_contained (pat ∷ pats) s = (
  λ h. ((not_contained pat s).0 (ground arith), (none_contained pats s).0 (ground arith)),
  λ (n, ns). ground (arith, (not_contained pat s).1 n, (none_contained pats s).1 ns),
)

-- A request that the settings let through: it names a user agent that is not blank, and its target
-- in lower case holds none of the patterns that are looked for.
pub record IsClean (to_lowercase : Text → Text) (flags : SecurityFlags) (path : Text)
    (query user_agent : Option Text) : Type 0 where
  pub agent :
      flags.block_empty_user_agent ≡ true → all_of is_whitespace (or_blank user_agent) ≡ false
  pub traversal :
      flags.waf_path_traversal ≡ true
      → (¬ Occurs up_slash (to_lowercase (target_of path query)))
        × (¬ Occurs up_backslash (to_lowercase (target_of path query)))
  pub sqli :
      flags.waf_sqli ≡ true
      → All (λ pat. ¬ Occurs pat (to_lowercase (target_of path query))) sqli_patterns
  pub xss :
      flags.waf_xss ≡ true
      → All (λ pat. ¬ Occurs pat (to_lowercase (target_of path query))) xss_patterns

-- The tests of the filter, all passed.
abbrev AllPass : (Text → Text) → SecurityFlags → Text → Option Text → Option Text → Type 0
AllPass to_lowercase flags path query user_agent =
    let lower = to_lowercase (target_of path query) in
    ((flags.block_empty_user_agent && is_empty (trim (or_blank user_agent))) ≡ false)
    × ((flags.waf_path_traversal && (contains up_slash lower || contains up_backslash lower))
        ≡ false)
    × ((flags.waf_sqli && any_contained sqli_patterns lower) ≡ false)
    × ((flags.waf_xss && any_contained xss_patterns lower) ≡ false)

module _ (to_lowercase : Text → Text) (flags : SecurityFlags) (path : Text)
    (query user_agent : Option Text) where
  abbrev lower : Text
  lower = to_lowercase (target_of path query)

  passes_iff :
      (check_request to_lowercase flags path query user_agent ≡ ok tt)
      ↔ AllPass to_lowercase flags path query user_agent
  unfolding check_request check_lower
  passes_iff = (λ h. ground arith, λ h. ground arith)

  -- The filter lets a request through exactly when it is clean, for each of the settings.
  pub check_request_iff :
      (check_request to_lowercase flags path query user_agent ≡ ok tt)
      ↔ IsClean to_lowercase flags path query user_agent
  check_request_iff = (clean, through)
    where
      clean :
          check_request to_lowercase flags path query user_agent ≡ ok tt
          → IsClean to_lowercase flags path query user_agent
      clean e =
          let (a, t, q, x) = passes_iff.0 e in
          record {
            agent = λ on. sym (is_empty-trim (or_blank user_agent)) ∙ ground (arith, a, on);
            traversal = λ on. (
              (not_contained up_slash lower).0 (ground (arith, t, on)),
              (not_contained up_backslash lower).0 (ground (arith, t, on)),
            );
            sqli = λ on. (none_contained sqli_patterns lower).0 (ground (arith, q, on));
            xss = λ on. (none_contained xss_patterns lower).0 (ground (arith, x, on));
          }

      off_or : (b c : Bool) → (b ≡ true → c ≡ false) → (b && c) ≡ false
      off_or true c h = h refl
      off_or false c h = refl

      through :
          IsClean to_lowercase flags path query user_agent
          → check_request to_lowercase flags path query user_agent ≡ ok tt
      through c = passes_iff.1 (
        off_or flags.block_empty_user_agent _
            (λ on. is_empty-trim (or_blank user_agent) ∙ c.agent on),
        off_or flags.waf_path_traversal _ (λ on.
            let (slash, back) = c.traversal on in
            let s = (not_contained up_slash lower).1 slash in
            let b = (not_contained up_backslash lower).1 back in rw (s, b)),
        off_or flags.waf_sqli _ (λ on. (none_contained sqli_patterns lower).1 (c.sqli on)),
        off_or flags.waf_xss _ (λ on. (none_contained xss_patterns lower).1 (c.xss on)),
      )

abbrev pub ascii_lower : ℕ → ℕ
ascii_lower c = if leb b'A' c && leb c b'Z' then c + 32 else c

abbrev pub is_ascii : ℕ → Bool
is_ascii c = leb c 127

-- What the documentation of `str::to_lowercase` says of ASCII text.
abbrev pub LowersAscii : (Text → Text) → Type 0
LowersAscii to_lowercase =
    (s : Text) → all_of is_ascii s ≡ true → to_lowercase s ≡ map ascii_lower s

-- Where injection patterns are looked for, an ASCII target that holds one of them in any mixture of
-- upper and lower case is not let through.
check_request-any_case :
    (to_lowercase : Text → Text) (flags : SecurityFlags) (path : Text)
    (query user_agent : Option Text) (before word after : Text) (i : ℕ)
    → LowersAscii to_lowercase
    → flags.waf_sqli ≡ true
    → all_of is_ascii (target_of path query) ≡ true
    → target_of path query ≡ before ++ (word ++ after)
    → get_elem? sqli_patterns i ≡ some (map ascii_lower word)
    → check_request to_lowercase flags path query user_agent ≢ ok tt
check_request-any_case to_lowercase flags path query user_agent before word after i lowers on ascii
      split listed e =
    let clean = (check_request_iff to_lowercase flags path query user_agent).0 e in
    let lowered : to_lowercase (target_of path query)
        ≡ map ascii_lower before ++ (map ascii_lower word ++ map ascii_lower after) =
      lowers (target_of path query) ascii
      ∙ ap (map ascii_lower) split
      ∙ map-append ascii_lower before (word ++ after)
      ∙ ap (λ t. map ascii_lower before ++ t) (map-append ascii_lower word after) in
    All-get_elem? (λ pat. ¬ Occurs pat (to_lowercase (target_of path query))) sqli_patterns i
      (clean.sqli on) listed (map ascii_lower before, map ascii_lower after, lowered)
