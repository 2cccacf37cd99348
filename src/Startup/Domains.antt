-- ===== src/Startup/Domains.antt =====
-- What a domain of the configuration has once the program has started.
use curf.Common.{
  ℕ, false, ◌++◌, codes, nat_beq, ◌≡◌, refl, ap, sym, ◌∙◌, Option, some, List, [], ◌∷◌, Text, arith,
  ok, Result-cases, Bool-cases, inl, inr, All, subst,
}
use curf.Common.Dict.{Dict, lookup}
use curf.Common.Equality.{◌==◌, list_key, nat_key, list_beq_iff}
use curf.Balancer
use curf.Balancer.Manager
use curf.Balancer.Manager.{add_domains, get-add_domains}
use curf.Config.{Config, DomainConfig, TlsConfig}
use curf.Http.{text}
use curf.Proxy.Headers.{header_text}
use curf.Proxy.Responses.{before_colon, host_of}
use curf.Proxy.State
use curf.Ssl
use curf.Ssl.{
  LoadError, DomainCert, SslManager, Acceptor, load_cert_and_key, load_domains, build, has_domains,
  acceptor_of,
}
use curf.Ssl.Crates.{Tls, IsTls, KeyDer}
use curf.Ssl.Certificates.{IsShown, build-IsShown}
use curf.Startup.{Args, Started, overridden, load, https_of, started, main, or_port}
use curf.Startup.Loads.{
  Loads, done, plain, secured, AreNamed, load_domains-Loads, Loads-AreDistinct,
}
use curf.Startup.Outside.{Machine}

module _ (tls : Tls) where
  -- The certificates and the key of the domain's files are what a client that asks for it is shown.
  pub record IsSecured (domain : Text) (t : TlsConfig) (r : tls.Resolver) : Type 0 where
    pub certs : List Text
    pub key : KeyDer
    pub signing_key : tls.SigningKey
    pub loaded : load_cert_and_key tls t.cert t.key ≡ ok (certs, key)
    pub signs : tls.signing_key key ≡ some signing_key
    pub shown : tls.resolve domain r ≡ some (certs, signing_key)

  module _ (d : Text) (cfg : DomainConfig) (t : TlsConfig) (with_tls : cfg.tls ≡ some t) where
    Loads-IsSecured :
        (r : tls.Resolver) (configs : Dict Text DomainConfig) (ds : List DomainCert)
        → Loads tls configs ds
        → lookup d configs ≡ some cfg
        → All (λ c. IsShown tls c r) ds
        → IsSecured d t r
    unfolding lookup
    Loads-IsSecured r configs ds done found shown = absurd (ground arith)
    Loads-IsSecured r configs ds (plain k c rest _ without l) found shown =
        elim (Bool-cases (k == d)) [
          | inl same ↦ absurd (ground arith)
          | inr other ↦ Loads-IsSecured r rest ds l (ground arith) shown
        ]
    Loads-IsSecured r configs ds (secured k c rest others t' certs key with_t' good l) found shown =
        elim (Bool-cases (k == d)) [
          | inl same ↦
              let eq : t' ≡ t = (ground arith) in
              let here : IsShown tls (record { name = k; certs = certs; key = key }) r = shown.0 in
              record {
                certs = certs;
                key = key;
                signing_key = here.key;
                loaded = subst (λ u. load_cert_and_key tls u.cert u.key ≡ ok (certs, key)) eq good;
                signs = here.signs;
                shown =
                    subst (λ name. tls.resolve name r ≡ some (certs, here.key))
                      ((list_beq_iff k d).0 same) here.shown;
              }
          | inr other ↦ Loads-IsSecured r rest others l (ground arith) shown.1
        ]

    Loads-some :
        (configs : Dict Text DomainConfig) (ds : List DomainCert)
        → Loads tls configs ds
        → lookup d configs ≡ some cfg
        → Ssl.is_empty ds ≡ false
    unfolding lookup
    Loads-some configs ds done found = absurd (ground arith)
    Loads-some configs ds (plain k c rest _ without l) found = elim (Bool-cases (k == d)) [
      | inl same ↦ absurd (ground arith)
      | inr other ↦ Loads-some rest ds l (ground arith)
    ]
    Loads-some configs ds (secured k c rest others t' certs key with_t' good l) found = refl

  -- The keys of a `HashMap` that have different DNS names are different.
  AreNamed-AreDistinct :
      (configs : Dict Text DomainConfig) → AreNamed tls configs → Manager.AreDistinct configs
  AreNamed-AreDistinct [] h = tt
  AreNamed-AreDistinct ((k, cfg) ∷ rest) h = (others rest h.0, AreNamed-AreDistinct rest h.1)
    where
      others :
          (cs : Dict Text DomainConfig)
          → All (λ c. (tls.dns_name c.0 == tls.dns_name k) ≡ false) cs
          → All (λ c. (c.0 == k) ≡ false) cs
      others [] h = tt
      others ((k', cfg') ∷ cs) h = elim (Bool-cases (k' == k)) [
        | inl same ↦
            let e = ap tls.dns_name ((list_beq_iff k' k).0 same) in
            absurd (ground (arith, h.0, (list_beq_iff (tls.dns_name k') (tls.dns_name k)).1 e))
        | inr other ↦ (other, others cs h.1)
      ]

-- What may follow the name in a Host header: nothing, or a colon and a port.
abbrev pub IsPort : Text → Type 0
IsPort [] = Unit {0}
IsPort (c ∷ s) = c ≡ b':'

before_colon-append :
    (d port : Text)
    → All (λ c. nat_beq c b':' ≡ false) d
    → IsPort port
    → before_colon (d ++ port) ≡ d
unfolding before_colon
before_colon-append [] [] h p = refl
before_colon-append [] (c ∷ port) h p = rw p refl
before_colon-append (c ∷ d) port h p = rw (h.0) (ap (λ s. c ∷ s) (before_colon-append d port h.1 p))

module _ (mc : Machine) where
  open mc use {world, tls, sem}

  -- A domain with TLS is served: the HTTPS listener runs on its port with an acceptor that shows
  -- the domain's own certificates, and for a request with these headers the handler finds the
  -- domain's own balancer.
  pub record IsServed (args : Args) (config : Config) (s : Started mc) (d : Text)
      (cfg : DomainConfig) (t : TlsConfig) (headers : world.http.Headers) : Type 0 where
    pub manager : SslManager tls
    pub acceptor : Acceptor tls
    pub listens : s.https ≡ some (or_port config.server.https_port args.https_port, manager)
    pub accepts : acceptor_of tls manager ≡ some acceptor
    pub is_secured : IsSecured tls d t acceptor.resolver
    pub balanced : Manager.get (host_of world headers) s.proxy.lb_manager ≡ some (Balancer.new cfg)

  started-balanced :
      (config : Config) (https : Option (ℕ × SslManager tls)) (d : Text) (cfg : DomainConfig)
      → AreNamed tls config.domains
      → lookup d config.domains ≡ some cfg
      → Manager.get d (started mc config https).proxy.lb_manager ≡ some (Balancer.new cfg)
  unfolding started State.new
  started-balanced config https d cfg named found =
      get-add_domains config.domains d (AreNamed-AreDistinct tls config.domains named)
      ∙ rw (found) refl

  named_host :
      (d port : Text) (headers : world.http.Headers)
      → All (λ c. nat_beq c b':' ≡ false) d
      → IsPort port
      → world.lower d ≡ d
      → world.http.find (codes "host") headers ≡ some (text (d ++ port))
      → host_of world headers ≡ d
  unfolding host_of header_text
  named_host d port headers uncoloned p low found =
      rw (found, header_text, host_of)
        (ap world.lower (before_colon-append d port uncoloned p) ∙ low)

  -- Domains have different DNS names. When the program has started, a domain with TLS has the HTTPS
  -- listener, on the port of the command line or else of the file, with an acceptor that shows the
  -- certificates and the key of its own files. When its name is written in lower case and has no
  -- colon, the host that the handler takes from a request whose Host header is that name, with a
  -- port or without, is the one under which the manager has the balancer made of its own settings.
  pub main-IsServed :
      IsTls tls
      → (args : Args) (config : Config) (s : Started mc) (d : Text) (cfg : DomainConfig)
        (t : TlsConfig) (port : Text) (headers : world.http.Headers)
      → AreNamed tls config.domains
      → load mc args.config ≡ ok config
      → main mc args ≡ ok s
      → lookup d config.domains ≡ some cfg
      → cfg.tls ≡ some t
      → All (λ c. nat_beq c b':' ≡ false) d
      → IsPort port
      → world.lower d ≡ d
      → world.http.find (codes "host") headers ≡ some (text (d ++ port))
      → IsServed args config s d cfg t headers
  unfolding main https_of started overridden has_domains State.new Ssl.new
  main-IsServed law args config s d cfg t suffix headers named read runs found with_tls uncoloned p
        low host =
      elim (Result-cases (load_domains tls config.domains (Ssl.new tls))) [
        | inr (e, bad) ↦ absurd (ground arith)
        | inl (m, good) ↦
            let (ds, added, on_start) =
              load_domains-Loads tls config.domains (Ssl.new tls) m good in
            let l = subst (Loads tls config.domains) (sym added) on_start in
            let there = Loads-some tls d cfg t with_tls config.domains m.domains l found in
            elim (Result-cases (build tls m)) [
              | inr (e, bad) ↦ absurd (ground arith)
              | inl (m', built) ↦
                  let port = or_port config.server.https_port args.https_port in
                  let start_of =
                    λ (x : SslManager tls). started mc (overridden args config) (some (port, x)) in
                  let same : started mc (overridden args config) (some (port, m')) ≡ s =
                    (ground arith) in
                  let (a, accepts, alpn, shown) =
                    build-IsShown tls law m m'
                      (Loads-AreDistinct tls config.domains m.domains named l) built in
                  record {
                    manager = m';
                    acceptor = a;
                    listens = ap (λ (x : Started mc). x.https) (sym same);
                    accepts = accepts;
                    is_secured =
                        Loads-IsSecured tls d cfg t with_tls a.resolver config.domains m.domains l
                          found shown;
                    balanced =
                        subst
                          (λ (x : Started mc).
                            Manager.get (host_of world headers) x.proxy.lb_manager
                            ≡ some (Balancer.new cfg))
                          same
                          (ap (λ x. Manager.get x (start_of m').proxy.lb_manager)
                              (named_host d suffix headers uncoloned p low host)
                            ∙ started-balanced (overridden args config) (some (port, m')) d cfg
                                named found);
                  }
            ]
      ]
