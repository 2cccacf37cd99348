-- ===== src/Ssl/Tests.antt =====
-- Two domains and a file of keys, with parsers that take a file for one item.
use curf.Common.{◌≡◌, refl, true, none, some, [], ◌∷◌, Text, codes, ok}
use curf.Common.Dict.{insert}
use curf.Common.Equality.{list_key, nat_key}
use curf.Ssl.{DomainCert, SslManager, build}
use curf.Ssl.Crates.{File, pkcs1}
use curf.Ssl.Table.{tls}

abbrev key_file : File
key_file = record { content = codes "key"; seeks = true }

abbrev cert : Text → DomainCert
cert name = record { name = name; certs = name ∷ []; key = pkcs1 name }

abbrev loaded : SslManager tls
loaded = record { domains = cert (codes "a.org") ∷ cert (codes "b.org") ∷ []; acceptor = none }

abbrev built : SslManager tls
built = record loaded {
  acceptor = some (record {
    resolver =
        (codes "a.org", (codes "a.org" ∷ [], pkcs1 (codes "a.org")))
        ∷ (codes "b.org", (codes "b.org" ∷ [], pkcs1 (codes "b.org")))
        ∷ [];
    alpn_protocols = codes "h2" ∷ codes "http/1.1" ∷ [];
  });
}

builds : build tls loaded ≡ ok built
unfolding build insert
builds = refl
