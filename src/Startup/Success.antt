-- ===== src/Startup/Success.antt =====
-- Which configurations the program starts with.
use curf.Common.{
  ℕ, ◌≡◌, ◌↔◌, refl, Option, none, some, [], ◌∷◌, Text, codes, arith, ok, Option-cases,
  Result-cases, Bool-cases, inl, inr, subst,
}
use curf.Config.{Config}
use curf.Ssl
use curf.Ssl.{
  DomainCert, SslManager, Acceptor, load_cert_and_key, add_domain, load_domains, register_all,
  build, has_domains,
}
use curf.Startup.{Args, Started, overridden, load, https_of, started, main}
use curf.Startup.Loads.{load_domains-Loads}
use curf.Startup.Outside.{Machine}
use curf.Startup.Registers.{
  CanServe, CanServe-Registers, Registers-CanServe, Loads-load_domains, register_all-empty,
}

module _ (mc : Machine) where
  open mc use {world, tls, sem, read_to_string, from_str}

  -- There is an HTTPS listener, or none is wanted, exactly when the certificates can be registered.
  https_of-registers :
      (port : ℕ) (m : SslManager tls) (https : Option (ℕ × SslManager tls))
      → https_of mc port m ≡ ok https
      → (r : tls.Resolver) × (register_all tls m.domains tls.no_certs ≡ ok r)
  unfolding https_of build has_domains
  https_of-registers port m https e = elim (Bool-cases (Ssl.is_empty m.domains)) [
    | inl empty ↦ register_all-empty tls m.domains tls.no_certs empty
    | inr some_domains ↦ elim (Result-cases (register_all tls m.domains tls.no_certs)) [
      | inl found ↦ found
      | inr (x, bad) ↦ absurd (ground arith)
    ]
  ]

  https_of-ok :
      (port : ℕ) (m : SslManager tls) (r : tls.Resolver)
      → register_all tls m.domains tls.no_certs ≡ ok r
      → (https : Option (ℕ × SslManager tls)) × (https_of mc port m ≡ ok https)
  unfolding https_of build has_domains
  https_of-ok port m r e = elim (Bool-cases (Ssl.is_empty m.domains)) [
    | inl empty ↦ (none, rw empty refl)
    | inr some_domains ↦
        let acceptor : Acceptor tls = record {
          resolver = r;
          alpn_protocols = codes "h2" ∷ codes "http/1.1" ∷ [];
        } in
        (some (port, record m { acceptor = some acceptor }), rw (some_domains, e) refl)
  ]

  load-ok :
      (path : Text) (config : Config)
      → load mc path ≡ ok config
      → (raw : Text) × (read_to_string path ≡ some raw) × (from_str raw ≡ some config)
  unfolding load
  load-ok path config e = elim (Option-cases (read_to_string path)) [
    | inl bad ↦ absurd (ground arith)
    | inr (raw, read) ↦ elim (Option-cases (from_str raw)) [
      | inl bad ↦ absurd (ground arith)
      | inr (c, parsed) ↦
          let same : c ≡ config = (ground arith) in
          (raw, read, subst (λ x. from_str raw ≡ some x) same parsed)
    ]
  ]

  ok-load :
      (path raw : Text) (config : Config)
      → read_to_string path ≡ some raw
      → from_str raw ≡ some config
      → load mc path ≡ ok config
  unfolding load
  ok-load path raw config e f = ground arith

  main-CanServe :
      (args : Args) (s : Started mc)
      → main mc args ≡ ok s
      → (config : Config) × (load mc args.config ≡ ok config)
        × CanServe tls config.domains tls.no_certs
  unfolding main overridden Ssl.new
  main-CanServe args s e = elim (Result-cases (load mc args.config)) [
    | inr (x, bad) ↦ absurd (ground arith)
    | inl (config, read) ↦ elim (Result-cases (load_domains tls config.domains (Ssl.new tls))) [
      | inr (x, bad) ↦ absurd (ground arith)
      | inl (m, good) ↦
          elim (Result-cases (https_of mc (overridden args config).server.https_port m)) [
            | inr (x, bad) ↦ absurd (ground arith)
            | inl (https, listens) ↦
                let (ds, added, l) = load_domains-Loads tls config.domains (Ssl.new tls) m good in
                let (r, registered) = https_of-registers _ m https listens in
                let same : register_all tls ds tls.no_certs ≡ ok r =
                  subst (λ x. register_all tls x tls.no_certs ≡ ok r) added registered in
                (config, read, Registers-CanServe tls config.domains ds tls.no_certs r l same)
          ]
    ]
  ]

  CanServe-main :
      (args : Args) (config : Config)
      → load mc args.config ≡ ok config
      → CanServe tls config.domains tls.no_certs
      → (s : Started mc) × (main mc args ≡ ok s)
  unfolding main overridden Ssl.new
  CanServe-main args config read c =
      let (ds, l, r, registered) = CanServe-Registers tls config.domains tls.no_certs c in
      let good = Loads-load_domains tls config.domains ds (Ssl.new tls) l in
      let (https, listens) =
        https_of-ok (overridden args config).server.https_port
          (record (Ssl.new tls) { domains = ds }) r registered in
      (started mc (overridden args config) https, ground arith)

  -- The program starts exactly when its configuration can be read and parsed, and the certificates
  -- and the key of every domain with TLS can be loaded, sign, and are taken by the resolver; a
  -- configuration with no such domain asks for none of that.
  pub main-starts_iff :
      (args : Args)
      → ((s : Started mc) × (main mc args ≡ ok s)) ↔ (
          (raw : Text) × (config : Config) × (read_to_string args.config ≡ some raw)
          × (from_str raw ≡ some config)
          × CanServe tls config.domains tls.no_certs)
  main-starts_iff args = (
    (λ (s, starts).
        let (config, loaded, c) = main-CanServe args s starts in
        let (raw, read, parsed) = load-ok args.config config loaded in
        (raw, config, read, parsed, c)),
    (λ (raw, config, read, parsed, c).
        CanServe-main args config (ok-load args.config raw config read parsed) c),
  )
