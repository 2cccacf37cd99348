-- ===== src/Http.antt =====
-- The parts of the crates http and hyper that the program uses: methods, header values, header
-- maps, uris. What a header map and the parsers do is the interface Http, with the laws that their
-- documentation gives.
use curf.Common.{ℕ, ◌≤◌, ◌<◌, ◌≡◌, ◌⊎◌, Option, none, some, Text, All, if◌then◌else◌}
use curf.Common.Equality.{◌==◌, list_key, nat_key}

pub data Method : Type 0 where
  get head : Method
  other : Text → Method

-- A header value, by what `to_str` gives for it.
pub data HeaderValue : Type 0 where
  text : Text → HeaderValue
  opaque : HeaderValue

abbrev pub to_str : HeaderValue → Option Text
to_str (text t) = some t
to_str opaque = none

-- A uri by its parts. `path_and_query` is absent where the uri has only an authority.
pub record Uri : Type 0 where
  pub host : Option Text
  pub port : Option ℕ
  pub path : Text
  pub query : Option Text
  pub path_and_query : Option Text

-- Of the values that a name has in a header map, `find` gives the first, as `HeaderMap::get` does;
-- `insert` puts one in the place of all of them.
pub record Http : Type 1 where
  pub Headers : Type 0
  pub empty : Headers
  pub find : Text → Headers → Option HeaderValue
  pub insert : Text → HeaderValue → Headers → Headers
  pub from_str : Text → Option HeaderValue
  pub header_name : Text → Option Text
  pub parse_uri : Text → Option Uri

-- The characters that a header value may hold and that `to_str` gives back: a tab, and those that
-- ASCII can print.
abbrev pub IsVisible : ℕ → Type 0
IsVisible c = (c ≡ 9) ⊎ ((32 ≤ c) × (c < 127))

-- The values that there are: a text that `to_str` gives is visible.
abbrev pub IsValue : HeaderValue → Type 0
IsValue (text t) = All IsVisible t
IsValue opaque = Unit {0}

module _ (http : Http) where
  open http use {empty, find, insert, from_str}

  pub record IsHttp : Type 0 where
    pub find-empty : (name : Text) → find name empty ≡ none
    pub find-insert :
        (new sought : Text) (v : HeaderValue) (h : http.Headers)
        → IsValue v
        → find sought (insert new v h) ≡ (if new == sought then some v else find sought h)
    pub find-IsValue :
        (name : Text) (h : http.Headers) (v : HeaderValue) → find name h ≡ some v → IsValue v
    pub from_str-IsValue : (t : Text) (v : HeaderValue) → from_str t ≡ some v → IsValue v
    pub from_str-visible : (t : Text) → All IsVisible t → from_str t ≡ some (text t)
