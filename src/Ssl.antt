-- ===== src/Ssl.antt =====
-- src/ssl.rs, `SslManager`, and the part of `main` that fills it. The file system, the PEM parsers
-- of rustls_pemfile and the certificate resolver of rustls are the interface Tls.
pub mod Crates
pub mod Keys
pub mod Certificates
pub mod Table
mod Tests
use curf.Common.{
  ℕ, Bool, true, false, not, Option, none, some, List, [], ◌∷◌, ◌++◌, Text, codes, if◌then◌else◌,
  Result, ok, err,
}
use curf.Common.Dict.{Dict}
use curf.Config.{DomainConfig, TlsConfig}
use Crates.{Tls, File, KeyDer, pkcs8, pkcs1, sec1}

-- What an error says first.
pub data LoadError : Type 0 where
  no_cert_file bad_certs no_certs no_key_file no_key cannot_seek : LoadError
  bad_key bad_name : Text → LoadError

pub record DomainCert : Type 0 where
  pub name : Text
  pub certs : List Text
  pub key : KeyDer

-- `collect::<Result<Vec<_>, _>>().unwrap_or_default().into_iter().next()`
abbrev pub first_of : Option (List Text) → Option Text
first_of none = none
first_of (some []) = none
first_of (some (k ∷ ks)) = some k

infixl 5 ◌>>=◌
abbrev ◌>>=◌ {ℓ κ} :
    {A : Type ℓ} {B : Type κ} → Result A LoadError → (A → Result B LoadError) → Result B LoadError
ok a >>= k = k a
err e >>= k = err e

abbrev guard : Bool → LoadError → Result (Unit {0}) LoadError
guard true e = ok tt
guard false e = err e

abbrev or_err {ℓ} : {A : Type ℓ} → Option A → LoadError → Result A LoadError
or_err none e = err e
or_err (some a) e = ok a

abbrev pub is_empty {ℓ} : {A : Type ℓ} → List A → Bool
is_empty [] = true
is_empty (x ∷ xs) = false

module _ (tls : Tls) where
  open tls use {file, read_certs, read_pkcs8, read_rsa, read_ec}

  -- Each parser reads the file from its start.
  unfoldable pub load_key : File → Result KeyDer LoadError
  load_key f = elim (first_of (read_pkcs8 f.content)) [
    | some k ↦ ok (pkcs8 k)
    | none ↦
        if not f.seeks then err LoadError.cannot_seek else elim (first_of (read_rsa f.content)) [
          | some k ↦ ok (pkcs1 k)
          | none ↦ elim (first_of (read_ec f.content)) [
            | some k ↦ ok (sec1 k)
            | none ↦ err LoadError.no_key
          ]
        ]
  ]

  unfoldable pub load_cert_and_key : Text → Text → Result (List Text × KeyDer) LoadError
  unfolding load_key
  load_cert_and_key cert_path key_path = do
    cert_file ← or_err (file cert_path) LoadError.no_cert_file
    certs ← or_err (read_certs cert_file.content) LoadError.bad_certs
    _ ← guard (not (is_empty certs)) LoadError.no_certs
    key_file ← or_err (file key_path) LoadError.no_key_file
    key ← load_key key_file
    ok (certs, key)

  pub record Acceptor : Type 0 where
    pub resolver : tls.Resolver
    pub alpn_protocols : List Text

  pub record SslManager : Type 0 where
    pub domains : List DomainCert
    pub acceptor : Option Acceptor

  unfoldable pub new : SslManager
  new = record { domains = []; acceptor = none }

  unfoldable pub add_domain : Text → Text → Text → SslManager → Result SslManager LoadError
  unfolding load_cert_and_key
  add_domain domain cert_path key_path m = do
    loaded ← load_cert_and_key cert_path key_path
    ok (record m {
      domains = m.domains ++ record { name = domain; certs = loaded.0; key = loaded.1 } ∷ [];
    })

  -- The loop of `build` over the domains.
  unfoldable pub register_all : List DomainCert → tls.Resolver → Result tls.Resolver LoadError
  register_all [] r = ok r
  register_all (d ∷ ds) r = do
    signing_key ← or_err (tls.signing_key d.key) (LoadError.bad_key d.name)
    r' ← or_err (tls.add d.name (d.certs, signing_key) r) (LoadError.bad_name d.name)
    register_all ds r'

  unfoldable pub build : SslManager → Result SslManager LoadError
  unfolding register_all
  build m = do
    resolver ← register_all m.domains tls.no_certs
    ok (record m {
      acceptor =
          some
            (record { resolver = resolver; alpn_protocols = codes "h2" ∷ codes "http/1.1" ∷ [] });
    })

  unfoldable pub has_domains : SslManager → Bool
  has_domains m = not (is_empty m.domains)

  -- None is the panic of a manager that has not been built.
  unfoldable pub acceptor_of : SslManager → Option Acceptor
  acceptor_of m = m.acceptor

  -- The loop of `main` over the domains, as far as it concerns TLS.
  unfoldable pub load_domains : Dict Text DomainConfig → SslManager → Result SslManager LoadError
  unfolding add_domain
  load_domains [] m = ok m
  load_domains ((domain, cfg) ∷ rest) m = elim cfg.tls [
    | none ↦ load_domains rest m
    | some t ↦ add_domain domain t.cert t.key m >>= λ m'. load_domains rest m'
  ]
