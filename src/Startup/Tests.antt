-- ===== src/Startup/Tests.antt =====
-- A configuration with a domain that has TLS and one that has not, and a start with it.
use curf.Common.{
  ℕ, zero, suc, ◌≡◌, ◌↔◌, refl, Text, Option, none, some, [], ◌∷◌, ◌++◌, codes, ok, err,
}
use curf.Common.Dict.{Dict, lookup, insert}
use curf.Http.{HeaderValue, text}
use curf.Common.Equality.{list_key, nat_key}
use curf.Config.{Config, DomainConfig, TlsConfig, default_domain_config, default_server_config}
use curf.Proxy.Table.{world}
use curf.Server.Semaphores.{Semaphore}
use curf.Ssl
use curf.Ssl.{SslManager, LoadError}
use curf.Ssl.Crates.{KeyDer}
use curf.Ssl.Table.{tls, tls-IsTls}
use curf.Startup.{cannot_load, Args, Started, main, load, started, overridden}
use curf.Startup.Domains.{IsServed, main-IsServed}
use curf.Startup.Registers.{CanServe}
use curf.Startup.Success.{main-starts_iff}
use curf.Startup.Outside.{Machine}

abbrev take_one : ℕ → Option ℕ
take_one zero = none
take_one (suc n) = some n

abbrev permits : Semaphore
permits = record {
  S = ℕ;
  new = λ n. n;
  try_acquire = take_one;
  release = suc;
  available = λ n. n;
  max_permits = 100;
}

abbrev files_of_a : TlsConfig
files_of_a = record { cert = codes "a.pem"; key = codes "a.key" }

abbrev cfg_a : DomainConfig
cfg_a = record (default_domain_config (codes "http://h" ∷ [])) { tls = some files_of_a }

abbrev config : Config
config = record {
  server = default_server_config;
  domains =
      (codes "b.org", default_domain_config (codes "http://i" ∷ [])) ∷ (codes "a.org", cfg_a) ∷ [];
}

abbrev machine : Machine
machine = record {
  world = world;
  tls = tls;
  sem = permits;
  read_to_string = some;
  from_str = λ raw. some config;
}

abbrev args : Args
args = record { config = codes "curf.yml"; http_port = none; https_port = some 8443 }

abbrev manager : SslManager tls
manager = record {
  domains =
      record {
        name = codes "a.org";
        certs = codes "a.pem" ∷ [];
        key = KeyDer.pkcs1 (codes "a.key");
      }
      ∷ [];
  acceptor = some (record {
    resolver = (codes "a.org", (codes "a.pem" ∷ [], KeyDer.pkcs1 (codes "a.key"))) ∷ [];
    alpn_protocols = codes "h2" ∷ codes "http/1.1" ∷ [];
  });
}

abbrev running : Started machine
running = started machine (overridden args config) (some (8443, manager))

starts : main machine args ≡ ok running
unfolding main Ssl.load_domains Ssl.build Ssl.has_domains insert Ssl.new Ssl.add_domain
starts = refl

reads : load machine args.config ≡ ok config
unfolding load
reads = refl

finds : lookup (codes "a.org") config.domains ≡ some cfg_a
unfolding lookup
finds = refl

-- A request for the domain, at a port.
abbrev asks_a : Dict Text HeaderValue
asks_a = (codes "host", text (codes "a.org:8443")) ∷ []

asks : world.http.find (codes "host") asks_a ≡ some (text (codes "a.org" ++ codes ":8443"))
unfolding lookup
asks = refl

main-IsServed_example : IsServed machine args config running (codes "a.org") cfg_a files_of_a asks_a
main-IsServed_example =
    main-IsServed machine tls-IsTls args config running (codes "a.org") cfg_a files_of_a
      (codes ":8443") asks_a ((refl, tt), (tt, tt)) reads starts finds refl
      (refl, (refl, (refl, (refl, (refl, tt))))) refl refl asks

main-starts_iff_example : ((s : Started machine) × (main machine args ≡ ok s)) ↔ (
    (raw : Text) × (c : Config) × (some args.config ≡ some raw)
    × (some config ≡ some c)
    × CanServe tls c.domains [])
main-starts_iff_example = main-starts_iff machine args

-- With a file that holds no key, the program does not start.
abbrev keyless : Machine
keyless = record machine { tls = record tls { read_rsa = λ s. none; read_ec = λ s. none } }

refuses : main keyless args ≡ err (cannot_load LoadError.no_key)
unfolding main Ssl.load_domains Ssl.add_domain Ssl.new
refuses = refl
