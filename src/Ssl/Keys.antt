-- ===== src/Ssl/Keys.antt =====
-- Which key a file gives.
use curf.Common.{Option, none, some, List, [], ◌∷◌, ◌++◌, map, Text, Result, ok, err}
use curf.Ssl.{LoadError}
use curf.Ssl.Crates.{Tls, KeyDer, pkcs8, pkcs1, sec1}

abbrev pub or_none : Option (List Text) → List Text
or_none none = []
or_none (some ks) = ks

-- The keys of a file in the order of preference. Where a key of one format does not parse, no key of
-- this format counts.
abbrev pub keys_in : Tls → Text → List KeyDer
keys_in tls s =
    map pkcs8 (or_none (tls.read_pkcs8 s))
    ++ (map pkcs1 (or_none (tls.read_rsa s)) ++ map sec1 (or_none (tls.read_ec s)))

abbrev pub first_key : List KeyDer → Result KeyDer LoadError
first_key [] = err LoadError.no_key
first_key (k ∷ ks) = ok k
