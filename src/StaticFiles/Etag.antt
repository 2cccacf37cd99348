-- ===== src/StaticFiles/Etag.antt =====
-- The entity tag of `serve_file`.
use curf.Common.{ℕ, ◌≡◌, ◌↔◌, refl, some, ap, sym, ◌∙◌, [], ◌∷◌, ◌++◌, arith, Text}
use curf.Common.Decimal.{decimal, value, value-decimal, decimal-IsDigit, mark-injective}
use curf.StaticFiles.Serve.{Metadata, after_epoch, etag_of, mtime_secs}

abbrev unquoted : Text → Text
unquoted [] = []
unquoted (c ∷ s) = s

etag_of-numbers :
    (a b : Metadata)
    → etag_of a ≡ etag_of b
    → (a.len ≡ b.len) × (mtime_secs a.modified ≡ mtime_secs b.modified)
unfolding etag_of
etag_of-numbers a b e =
    let (lens, rest) =
      mark-injective b'-' (decimal a.len) (decimal b.len)
        (decimal (mtime_secs a.modified) ++ b'"' ∷ [])
        (decimal (mtime_secs b.modified) ++ b'"' ∷ []) (λ d. omega (arith, d.0))
        (decimal-IsDigit a.len) (decimal-IsDigit b.len) (ap unquoted e) in
    let (times, _) =
      mark-injective b'"' (decimal (mtime_secs a.modified)) (decimal (mtime_secs b.modified)) [] []
        (λ d. omega (arith, d.0)) (decimal-IsDigit _) (decimal-IsDigit _) rest in
    (
      sym (value-decimal a.len) ∙ ap (value 0) lens ∙ value-decimal b.len,
      sym (value-decimal _) ∙ ap (value 0) times ∙ value-decimal _,
    )

-- Two versions of a file that were modified after 1970 have the same entity tag exactly when they
-- have the same size and the same second of modification, whatever its fractions.
pub etag_of_iff :
    (a b : Metadata) (secs nanos secs' nanos' : ℕ)
    → a.modified ≡ some (after_epoch secs nanos)
    → b.modified ≡ some (after_epoch secs' nanos')
    → (etag_of a ≡ etag_of b) ↔ ((a.len ≡ b.len) × (secs ≡ secs'))
unfolding etag_of
etag_of_iff a b secs nanos secs' nanos' ta tb = (
  (λ e.
      let (lens, times) = etag_of-numbers a b e in
      (lens, sym (ap mtime_secs ta) ∙ times ∙ ap mtime_secs tb)),
  λ (lens, times). rw (ta, tb, lens, times, etag_of) refl,
)
