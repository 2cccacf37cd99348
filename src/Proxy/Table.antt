-- ===== src/Proxy/Table.antt =====
-- Models of the interfaces Http and World, for tests: a header map as an association list, and no file.
use curf.Common.{
  ℕ, ◌≡◌, refl, inl, inr, Bool, true, ◌&&◌, ◌||◌, ap, subst, Option-cases, Option, none, some, [],
  ◌∷◌, Text, codes, arith, All, if◌then◌else◌, leb, ltb, nat_beq, Bool-cases,
}
use curf.Common.Address.{IpAddr, ip_key}
use curf.Common.Dict.{Dict, lookup, insert, lookup-insert}
use curf.Common.Equality.{◌==◌, list_key, nat_key}
use curf.Http.{Http, IsHttp, HeaderValue, text, opaque, Uri, IsVisible, IsValue}
use curf.Proxy.State.{new}
use curf.Proxy.Outside.{World}
use curf.RateLimit.Window.{exact}
use curf.StaticFiles.Serve.{Files}

-- A header map as an association list, which shows as opaque what `to_str` would not give.
abbrev pub visible : ℕ → Bool
visible c = nat_beq c 9 || (leb 32 c && ltb c 127)

abbrev pub all_visible : Text → Bool
all_visible [] = true
all_visible (c ∷ t) = visible c && all_visible t

abbrev pub seen : HeaderValue → HeaderValue
seen (text t) = if all_visible t then text t else opaque
seen opaque = opaque

abbrev pub find_seen : Text → Dict Text HeaderValue → Option HeaderValue
find_seen name h = elim (lookup name h) [ none ↦ none | some v ↦ some (seen v) ]

abbrev pub upstream : Uri
upstream = record {
  host = some (codes "h");
  port = some 80;
  path = codes "/";
  query = none;
  path_and_query = some (codes "/");
}

abbrev pub table : Http
table = record {
  Headers = Dict Text HeaderValue;
  empty = [];
  find = find_seen;
  insert = insert;
  from_str = λ t. some (seen (text t));
  header_name = some;
  parse_uri = λ t. some upstream;
}

pub all_visible_sound : (t : Text) → all_visible t ≡ true → All IsVisible t
all_visible_sound [] e = tt
all_visible_sound (c ∷ t) e = (ground arith, all_visible_sound t (ground arith))

all_visible_complete : (t : Text) → All IsVisible t → all_visible t ≡ true
all_visible_complete [] p = refl
all_visible_complete (c ∷ t) p = ground (arith, p.0, all_visible_complete t p.1)

seen-IsValue : (v : HeaderValue) → IsValue (seen v)
seen-IsValue opaque = tt
seen-IsValue (text t) = elim (Bool-cases (all_visible t)) [
  | inl good ↦ rw good (all_visible_sound t good)
  | inr bad ↦ rw bad tt
]

seen_same : (v : HeaderValue) → IsValue v → seen v ≡ v
seen_same opaque p = refl
seen_same (text t) p = rw (all_visible_complete t p) refl

find_seen-insert :
    (new sought : Text) (v : HeaderValue) (h : Dict Text HeaderValue)
    → IsValue v
    → find_seen sought (insert new v h) ≡ (if new == sought then some v else find_seen sought h)
find_seen-insert new sought v h p = elim (Bool-cases (new == sought)) [
  | inl same ↦ rw (find_seen, lookup-insert new sought v h, same, seen_same v p) refl
  | inr other ↦ rw (find_seen, lookup-insert new sought v h, other) refl
]

find_seen-IsValue :
    (name : Text) (h : Dict Text HeaderValue) (v : HeaderValue)
    → find_seen name h ≡ some v
    → IsValue v
find_seen-IsValue name h v e = elim (Option-cases (lookup name h)) [
  | inl absent ↦ absurd (ground arith)
  | inr (u, found) ↦ let same : seen u ≡ v = (ground arith) in subst IsValue same (seen-IsValue u)
]

from_seen-IsValue : (t : Text) (v : HeaderValue) → some (seen (text t)) ≡ some v → IsValue v
from_seen-IsValue t v e =
    let same : seen (text t) ≡ v = (ground arith) in subst IsValue same (seen-IsValue (text t))

pub table-IsHttp : IsHttp table
unfolding lookup
table-IsHttp = record {
  find-empty = λ name. refl;
  find-insert = find_seen-insert;
  find-IsValue = find_seen-IsValue;
  from_str-IsValue = λ t v e. from_seen-IsValue t v e;
  from_str-visible = λ t p. ap some (seen_same (text t) p);
}

abbrev files : Files
files = record {
  metadata = λ p. none;
  read = λ p. none;
  parse_http_date = λ t. none;
  fmt_http_date = λ t. [];
  mime = λ p. [];
  read_dir = λ p. none;
}

abbrev show_ip : IpAddr → Text
show_ip ip = codes "10.0.0.1"

abbrev pub world : World
world = record {
  float = exact;
  http = table;
  files = files;
  decode = some;
  lower = λ t. t;
  show_ip = show_ip;
}
