-- ===== src/Startup/Loads.antt =====
-- What the loop of `main` over the domains loads: the certificates of each domain that has TLS, in
-- the order of the domains.
use curf.Common.{
  false, ◌≡◌, refl, ap, sym, ◌∙◌, none, some, List, [], ◌∷◌, ◌++◌, Text, arith, ok, Option-cases,
  Result-cases, inl, inr, All,
}
use curf.Common.Dict.{Dict}
use curf.Common.Equality.{◌==◌, list_key, nat_key}
use curf.Config.{DomainConfig, TlsConfig}
use curf.Ssl.{DomainCert, SslManager, load_cert_and_key, add_domain, load_domains}
use curf.Ssl.Crates.{Tls, KeyDer}
use curf.Ssl.Certificates.{Differs, AreDistinct}

module _ (tls : Tls) where
  open tls use {dns_name}

  pub data Loads : Dict Text DomainConfig → List DomainCert → Type 0 where
    done : Loads [] []
    plain :
        (domain : Text) (cfg : DomainConfig) (rest : Dict Text DomainConfig) (ds : List DomainCert)
        → cfg.tls ≡ none
        → Loads rest ds
        → Loads ((domain, cfg) ∷ rest) ds
    secured :
        (domain : Text) (cfg : DomainConfig) (rest : Dict Text DomainConfig) (ds : List DomainCert)
        (t : TlsConfig) (certs : List Text) (key : KeyDer)
        → cfg.tls ≡ some t
        → load_cert_and_key tls t.cert t.key ≡ ok (certs, key)
        → Loads rest ds
        → Loads ((domain, cfg) ∷ rest) (record { name = domain; certs = certs; key = key } ∷ ds)

  -- No two domains have the same DNS name.
  abbrev pub AreNamed : Dict Text DomainConfig → Type 0
  AreNamed [] = Unit {0}
  AreNamed (c ∷ cs) = All (λ c'. (dns_name c'.0 == dns_name c.0) ≡ false) cs × AreNamed cs

  pub append_one : (xs ys : List DomainCert) (x : DomainCert) → (xs ++ x ∷ []) ++ ys ≡ xs ++ x ∷ ys
  append_one [] ys x = refl
  append_one (y ∷ xs) ys x = ap (λ zs. y ∷ zs) (append_one xs ys x)

  pub append_nil : (xs : List DomainCert) → xs ≡ xs ++ []
  append_nil [] = refl
  append_nil (x ∷ xs) = ap (λ zs. x ∷ zs) (append_nil xs)

  pub load_domains-Loads :
      (configs : Dict Text DomainConfig) (m m' : SslManager tls)
      → load_domains tls configs m ≡ ok m'
      → (ds : List DomainCert) × (m'.domains ≡ m.domains ++ ds) × Loads configs ds
  unfolding load_domains add_domain
  load_domains-Loads [] m m' e =
      let same : m ≡ m' = (ground arith) in
      ([], ap (λ x. x.domains) (sym same) ∙ append_nil m.domains, done)
  load_domains-Loads ((domain, cfg) ∷ rest) m m' e = elim (Option-cases cfg.tls) [
    | inl without ↦
        let (ds, added, l) = load_domains-Loads rest m m' (ground arith) in
        (ds, added, plain domain cfg rest ds without l)
    | inr (t, with_tls) ↦ elim (Result-cases (load_cert_and_key tls t.cert t.key)) [
      | inr (x, bad) ↦ absurd (ground arith)
      | inl ((certs, key), good) ↦
          let d : DomainCert = record { name = domain; certs = certs; key = key } in
          let m1 : SslManager tls = record m { domains = m.domains ++ d ∷ [] } in
          let (ds, added, l) = load_domains-Loads rest m1 m' (ground arith) in
          (
            d ∷ ds,
            added ∙ append_one m.domains ds d,
            secured domain cfg rest ds t certs key with_tls good l,
          )
    ]
  ]

  Loads-Differs :
      (name : Text) (configs : Dict Text DomainConfig) (ds : List DomainCert)
      → All (λ c. (dns_name c.0 == dns_name name) ≡ false) configs
      → Loads configs ds
      → Differs tls name ds
  Loads-Differs name configs ds h done = tt
  Loads-Differs name configs ds h (plain _ _ rest _ _ l) = Loads-Differs name rest ds h.1 l
  Loads-Differs name configs ds h (secured _ _ rest others _ _ _ _ _ l) =
      (h.0, Loads-Differs name rest others h.1 l)

  pub Loads-AreDistinct :
      (configs : Dict Text DomainConfig) (ds : List DomainCert)
      → AreNamed configs
      → Loads configs ds
      → AreDistinct tls ds
  Loads-AreDistinct configs ds h done = tt
  Loads-AreDistinct configs ds h (plain _ _ rest _ _ l) = Loads-AreDistinct rest ds h.1 l
  Loads-AreDistinct configs ds h (secured domain _ rest others _ _ _ _ _ l) =
      (Loads-Differs domain rest others h.0 l, Loads-AreDistinct rest others h.1 l)
