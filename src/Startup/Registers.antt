-- ===== src/Startup/Registers.antt =====
-- Which certificates can be loaded and registered with the resolver.
use curf.Common.{
  ◌≡◌, refl, ap, ◌∙◌, none, some, List, [], ◌∷◌, ◌++◌, Text, arith, ok, Option-cases, true, inl,
  inr,
}
use curf.Common.Dict.{Dict}
use curf.Config.{DomainConfig, TlsConfig}
use curf.Ssl
use curf.Ssl.{
  DomainCert, SslManager, Acceptor, load_cert_and_key, add_domain, load_domains, register_all,
  build, has_domains,
}
use curf.Ssl.Crates.{Tls, KeyDer}
use curf.Startup.Loads.{Loads, append_one, append_nil}

module _ (tls : Tls) where
  -- The files of each domain with TLS can be read and hold certificates and a key that signs, which
  -- the resolver takes for the domain's name after those of the domains before it.
  pub data CanServe : Dict Text DomainConfig → tls.Resolver → Type 0 where
    no_more : (r : tls.Resolver) → CanServe [] r
    without_tls :
        (domain : Text) (cfg : DomainConfig) (rest : Dict Text DomainConfig) (r : tls.Resolver)
        → cfg.tls ≡ none
        → CanServe rest r
        → CanServe ((domain, cfg) ∷ rest) r
    with_tls :
        (domain : Text) (cfg : DomainConfig) (rest : Dict Text DomainConfig) (r r' : tls.Resolver)
        (t : TlsConfig) (certs : List Text) (key : KeyDer) (signing_key : tls.SigningKey)
        → cfg.tls ≡ some t
        → load_cert_and_key tls t.cert t.key ≡ ok (certs, key)
        → tls.signing_key key ≡ some signing_key
        → tls.add domain (certs, signing_key) r ≡ some r'
        → CanServe rest r'
        → CanServe ((domain, cfg) ∷ rest) r

  -- What is loaded can be registered.
  abbrev Registers : Dict Text DomainConfig → tls.Resolver → Type 0
  Registers configs r =
      (ds : List DomainCert) × Loads tls configs ds
      × (r' : tls.Resolver) × (register_all tls ds r ≡ ok r')

  pub CanServe-Registers :
      (configs : Dict Text DomainConfig) (r : tls.Resolver)
      → CanServe configs r
      → Registers configs r
  unfolding register_all
  CanServe-Registers configs r (no_more _) = ([], Loads.done, r, refl)
  CanServe-Registers configs r (without_tls domain cfg rest _ e c) =
      let (ds, l, r', done) = CanServe-Registers rest r c in
      (ds, Loads.plain domain cfg rest ds e l, r', done)
  CanServe-Registers configs r
        (with_tls domain cfg rest _ r1 t certs key sk e loaded signs added c) =
      let (ds, l, r', done) = CanServe-Registers rest r1 c in
      (
        record { name = domain; certs = certs; key = key } ∷ ds,
        Loads.secured domain cfg rest ds t certs key e loaded l,
        r',
        rw (signs, added) done,
      )

  pub Registers-CanServe :
      (configs : Dict Text DomainConfig) (ds : List DomainCert) (r r' : tls.Resolver)
      → Loads tls configs ds
      → register_all tls ds r ≡ ok r'
      → CanServe configs r
  unfolding register_all
  Registers-CanServe configs ds r r' Loads.done e = no_more r
  Registers-CanServe configs ds r r' (Loads.plain domain cfg rest _ w l) e =
      without_tls domain cfg rest r w (Registers-CanServe rest ds r r' l e)
  Registers-CanServe configs ds r r' (Loads.secured domain cfg rest others t certs key w loaded l)
        e =
      elim (Option-cases (tls.signing_key key)) [
        | inl bad ↦ absurd (ground arith)
        | inr (sk, signs) ↦ elim (Option-cases (tls.add domain (certs, sk) r)) [
          | inl bad ↦ absurd (ground arith)
          | inr (r1, added) ↦
              with_tls domain cfg rest r r1 t certs key sk w loaded signs added
                (Registers-CanServe rest others r1 r' l (ground arith))
        ]
      ]

  pub Loads-load_domains :
      (configs : Dict Text DomainConfig) (ds : List DomainCert) (m : SslManager tls)
      → Loads tls configs ds
      → load_domains tls configs m ≡ ok (record m { domains = m.domains ++ ds })
  unfolding load_domains add_domain
  Loads-load_domains configs ds m Loads.done =
      ap (λ x. ok (record m { domains = x })) (append_nil tls m.domains)
  Loads-load_domains configs ds m (Loads.plain domain cfg rest _ w l) =
      rw w (Loads-load_domains rest ds m l)
  Loads-load_domains configs ds m (Loads.secured domain cfg rest others t certs key w loaded l) =
      let d : DomainCert = record { name = domain; certs = certs; key = key } in
      let m1 : SslManager tls = record m { domains = m.domains ++ d ∷ [] } in
      let all = ap (λ x. ok (record m { domains = x })) (append_one tls m.domains others d) in
      rw (w, loaded) (Loads-load_domains rest others m1 l ∙ all)

  pub register_all-empty :
      (ds : List DomainCert) (r : tls.Resolver)
      → Ssl.is_empty ds ≡ true
      → (r' : tls.Resolver) × (register_all tls ds r ≡ ok r')
  unfolding register_all
  register_all-empty [] r e = (r, refl)
  register_all-empty (d ∷ ds) r e = cc
