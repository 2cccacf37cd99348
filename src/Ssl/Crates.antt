-- ===== src/Ssl/Crates.antt =====
-- What src/ssl.rs takes from outside. A parser of PEM gives none where the text cannot be parsed.
-- The resolver of rustls keeps a certificate for each DNS name, whatever the case of its letters.
use curf.Common.{◌≡◌, Bool, Option, some, List, Text, if◌then◌else◌}
use curf.Common.Equality.{◌==◌, list_key, nat_key}

pub record File : Type 0 where
  pub content : Text
  pub seeks : Bool

pub data KeyDer : Type 0 where
  pkcs8 pkcs1 sec1 : Text → KeyDer

pub record Tls : Type 1 where
  pub file : Text → Option File
  pub read_certs : Text → Option (List Text)
  pub read_pkcs8 : Text → Option (List Text)
  pub read_rsa : Text → Option (List Text)
  pub read_ec : Text → Option (List Text)
  pub SigningKey : Type 0
  pub signing_key : KeyDer → Option SigningKey
  pub Resolver : Type 0
  pub no_certs : Resolver
  pub add : Text → List Text × SigningKey → Resolver → Option Resolver
  pub resolve : Text → Resolver → Option (List Text × SigningKey)
  pub dns_name : Text → Text

module _ (tls : Tls) where
  open tls use {add, resolve, dns_name}

  pub record IsTls : Type 0 where
    pub resolve-add :
        (name sought : Text) (ck : List Text × tls.SigningKey) (r r' : tls.Resolver)
        → add name ck r ≡ some r'
        → resolve sought r'
          ≡ (if dns_name name == dns_name sought then some ck else resolve sought r)
