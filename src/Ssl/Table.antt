-- ===== src/Ssl/Table.antt =====
-- A model of the interface Tls, for tests: every file is there, and holds one item that is its path.
use curf.Common.{◌≡◌, true, none, some, List, [], ◌∷◌, Text, arith, if◌then◌else◌, subst}
use curf.Common.Dict.{Dict, lookup, insert, lookup-insert}
use curf.Common.Equality.{◌==◌, list_key, nat_key}
use curf.Ssl.Crates.{Tls, IsTls, KeyDer}

abbrev pub tls : Tls
tls = record {
  file = λ path. some (record { content = path; seeks = true });
  read_certs = λ s. some (s ∷ []);
  read_pkcs8 = λ s. none;
  read_rsa = λ s. some (s ∷ []);
  read_ec = λ s. some (s ∷ []);
  SigningKey = KeyDer;
  signing_key = some;
  Resolver = Dict Text (List Text × KeyDer);
  no_certs = [];
  add = λ name ck r. some (insert name ck r);
  resolve = lookup;
  dns_name = λ name. name;
}

pub tls-IsTls : IsTls tls
tls-IsTls = record {
  resolve-add = λ name sought ck r r' e.
      let same : insert name ck r ≡ r' = (ground arith) in
      subst (λ t. lookup sought t ≡ (if name == sought then some ck else lookup sought r)) same
        (lookup-insert name sought ck r);
}
