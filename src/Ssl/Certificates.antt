-- ===== src/Ssl/Certificates.antt =====
-- Which certificate a client is shown.
use curf.Common.{
  ◌≡◌, refl, ◌∙◌, false, some, List, [], ◌∷◌, Text, codes, arith, Result, ok, err, Option-cases,
  inl, inr, All,
}
use curf.Common.Equality.{◌==◌, ==_refl, list_key, nat_key}
use curf.Ssl.{LoadError, DomainCert, SslManager, Acceptor, register_all, build, acceptor_of}
use curf.Ssl.Crates.{Tls, IsTls}

module _ (tls : Tls) where
  -- The domain's own certificates, with a key that signs for its own.
  pub record IsShown (d : DomainCert) (r : tls.Resolver) : Type 0 where
    pub key : tls.SigningKey
    pub signs : tls.signing_key d.key ≡ some key
    pub shown : tls.resolve d.name r ≡ some (d.certs, key)

  abbrev pub Differs : Text → List DomainCert → Type 0
  Differs name = All λ d. (tls.dns_name d.name == tls.dns_name name) ≡ false

  -- No two domains have the same DNS name.
  abbrev pub AreDistinct : List DomainCert → Type 0
  AreDistinct [] = Unit {0}
  AreDistinct (d ∷ ds) = Differs d.name ds × AreDistinct ds

  module _ (law : IsTls tls) where
    register_all-keeps :
        (ds : List DomainCert) (r r' : tls.Resolver) (name : Text)
        → Differs name ds
        → register_all tls ds r ≡ ok r'
        → tls.resolve name r' ≡ tls.resolve name r
    unfolding register_all
    register_all-keeps [] r r' name h e = ground arith
    register_all-keeps (d ∷ ds) r r' name h e = elim (Option-cases (tls.signing_key d.key)) [
      | inl bad ↦ absurd (ground arith)
      | inr (key, signs) ↦ elim (Option-cases (tls.add d.name (d.certs, key) r)) [
        | inl bad ↦ absurd (ground arith)
        | inr (r1, added) ↦
            register_all-keeps ds r1 r' name h.1 (ground arith)
            ∙ law.resolve-add d.name name (d.certs, key) r r1 added
            ∙ rw h.0 refl
      ]
    ]

    register_all-IsShown :
        (ds : List DomainCert) (r r' : tls.Resolver)
        → AreDistinct ds
        → register_all tls ds r ≡ ok r'
        → All (λ d. IsShown d r') ds
    unfolding register_all
    register_all-IsShown [] r r' h e = tt
    register_all-IsShown (d ∷ ds) r r' h e = elim (Option-cases (tls.signing_key d.key)) [
      | inl bad ↦ absurd (ground arith)
      | inr (key, signs) ↦ elim (Option-cases (tls.add d.name (d.certs, key) r)) [
        | inl bad ↦ absurd (ground arith)
        | inr (r1, added) ↦
            let rest = register_all-IsShown ds r1 r' h.1 (ground arith) in
            let kept = register_all-keeps ds r1 r' d.name h.0 (ground arith) in
            let own = law.resolve-add d.name d.name (d.certs, key) r r1 added in
            (
              record {
                key = key;
                signs = signs;
                shown = kept ∙ own ∙ rw (==_refl (tls.dns_name d.name)) refl;
              },
              rest,
            )
      ]
    ]

    -- When the manager has been built from domains with different DNS names, its acceptor shows for
    -- each of them its own certificates, with a signing key of its own private key, and offers
    -- HTTP/2 before HTTP/1.1.
    pub build-IsShown :
        (m m' : SslManager tls)
        → AreDistinct m.domains
        → build tls m ≡ ok m'
        → (a : Acceptor tls) × (acceptor_of tls m' ≡ some a)
          × (a.alpn_protocols ≡ codes "h2" ∷ codes "http/1.1" ∷ [])
          × All (λ d. IsShown d a.resolver) m.domains
    unfolding build acceptor_of
    build-IsShown m m' h e = cases (register_all tls m.domains tls.no_certs) refl
      where
        cases :
            (r : Result tls.Resolver LoadError)
            → register_all tls m.domains tls.no_certs ≡ r
            → (a : Acceptor tls) × (acceptor_of tls m' ≡ some a)
              × (a.alpn_protocols ≡ codes "h2" ∷ codes "http/1.1" ∷ [])
              × All (λ d. IsShown d a.resolver) m.domains
        cases (ok r) f = (
          record { resolver = r; alpn_protocols = codes "h2" ∷ codes "http/1.1" ∷ [] },
          ground arith,
          refl,
          register_all-IsShown m.domains tls.no_certs r h f,
        )
        cases (err x) f = absurd (ground arith)
