-- ===== src/HealthCheck.antt =====
-- src/health_check.rs: the url of a check, the parsing of urls and status lines, and a round of
-- checks. What the network answers is an argument: a backend's first bytes as a text, none where
-- they are not UTF-8.
pub mod Numbers
pub mod Urls
pub mod Status
pub mod Rounds
pub mod Failing
pub mod Outage
mod Tests
use curf.Common.{
  ℕ, zero, suc, ◌+◌, ◌-◌, ◌*◌, Bool, true, false, not, ◌&&◌, ◌||◌, Option, none, some, List, [],
  ◌∷◌, ◌++◌, Text, codes, if◌then◌else◌, ltb, leb, nat_beq,
}
use curf.Common.Decimal.{decimal}
use curf.Common.Dict.{Dict}
use curf.Common.Search.{starts_with, is_whitespace, trim_end_while}
use curf.Config.{DomainConfig, HealthCheckConfig}
use curf.Balancer
use curf.Balancer.{LoadBalancer}
use curf.Balancer.Manager
use curf.Balancer.Manager.{LoadBalancerManager}

abbrev pub is_slash : ℕ → Bool
is_slash c = nat_beq c b'/'

unfoldable pub check_url : Text → Text → Text
unfolding starts_with trim_end_while
check_url backend_url path =
    trim_end_while is_slash backend_url
    ++ (if starts_with (codes "/") path then path else b'/' ∷ path)

unfoldable pub strip_prefix : Text → Text → Option Text
strip_prefix [] s = some s
strip_prefix (p ∷ pat) [] = none
strip_prefix (p ∷ pat) (c ∷ s) = if nat_beq p c then strip_prefix pat s else none

-- The text before the first slash, and from it on; a text with no slash has the path `/`.
unfoldable pub split_path : Text → Text × Text
split_path [] = ([], codes "/")
split_path (c ∷ s) =
    let (before, from) = split_path s in if is_slash c then ([], c ∷ s) else (c ∷ before, from)

-- The texts before and after the last colon.
unfoldable pub split_port : Text → Option (Text × Text)
split_port [] = none
split_port (c ∷ s) = elim (split_port s) [
  | some (before, after) ↦ some (c ∷ before, after)
  | none ↦ if nat_beq c b':' then some ([], s) else none
]

abbrev pub is_digit : ℕ → Bool
is_digit c = leb b'0' c && leb c b'9'

-- The digits of a `u16` after those that make `acc`.
unfoldable pub scan_u16 : ℕ → Text → Option ℕ
scan_u16 acc [] = some acc
scan_u16 acc (c ∷ s) =
    let next = acc * 10 + (c - 48) in
    let rest = scan_u16 next s in if is_digit c && ltb next 65536 then rest else none

-- `str::parse::<u16>`: one `+` may lead, and there is a digit.
unfoldable pub parse_u16 : Text → Option ℕ
unfolding scan_u16
parse_u16 [] = none
parse_u16 (c ∷ []) = scan_u16 0 (c ∷ [])
parse_u16 (c ∷ d ∷ s) = scan_u16 0 (if nat_beq c b'+' then d ∷ s else c ∷ d ∷ s)

abbrev pub or_number : ℕ → Option ℕ → ℕ
or_number n none = n
or_number n (some m) = m

pub record Target : Type 0 where
  pub host : Text
  pub port : ℕ
  pub path : Text

abbrev pub target_of : Text × Text → Target
target_of (host_port, path) = elim (split_port host_port) [
  | none ↦ record { host = host_port; port = 80; path = path }
  | some (host, port) ↦ record { host = host; port = or_number 80 (parse_u16 port); path = path }
]

unfoldable pub parse_url : Text → Option Target
unfolding strip_prefix split_path split_port parse_u16
parse_url url = elim (strip_prefix (codes "http://") url) [
  | none ↦ none
  | some without_scheme ↦ some (target_of (split_path without_scheme))
]

abbrev pub address_of : Target → Text
address_of t = t.host ++ (codes ":" ++ decimal t.port)

abbrev pub crlf : Text
crlf = 13 ∷ 10 ∷ []

unfoldable pub request_of : Target → Text
request_of t =
    codes "GET "
    ++ (t.path
        ++ (codes " HTTP/1.0"
            ++ (crlf
                ++ (codes "Host: "
                    ++ (t.host
                        ++ (crlf
                            ++ (codes "User-Agent: curf-healthcheck/0.1"
                                ++ (crlf ++ (codes "Connection: close" ++ (crlf ++ crlf))))))))))

abbrev pub begins_word : Text → Bool
begins_word [] = false
begins_word (c ∷ s) = not (is_whitespace c)

abbrev pub add_to_first : ℕ → List Text → List Text
add_to_first c [] = (c ∷ []) ∷ []
add_to_first c (u ∷ us) = (c ∷ u) ∷ us

unfoldable pub split_whitespace : Text → List Text
unfolding is_whitespace
split_whitespace [] = []
split_whitespace (c ∷ s) =
    let rest = split_whitespace s in
    if is_whitespace c then rest else if begins_word s then add_to_first c rest else (c ∷ []) ∷ rest

abbrev pub second_number : List Text → Option ℕ
second_number [] = none
second_number (u ∷ []) = none
second_number (u ∷ v ∷ us) = parse_u16 v

unfoldable pub status_of : Text → ℕ
unfolding split_whitespace parse_u16
status_of response = or_number 0 (second_number (split_whitespace response))

pub data Reply : Type 0 where
  timed_out connect_failed write_failed read_failed : Reply
  received : Option Text → Reply

abbrev pub or_blank : Option Text → Text
or_blank none = []
or_blank (some s) = s

abbrev pub status_in : Reply → Option ℕ
status_in (received r) = some (status_of (or_blank r))
status_in _ = none

-- The network is asked at an address, with the text of a request.
unfoldable pub do_get : (Text → Text → Reply) → Text → Option ℕ
unfolding parse_url request_of status_of
do_get net url = elim (parse_url url) [
  | none ↦ none
  | some t ↦ status_in (net (address_of t) (request_of t))
]

abbrev pub is_success : Option ℕ → Bool
is_success none = false
is_success (some status) = leb 200 status && ltb status 300

unfoldable pub check_backend : (Text → Text → Reply) → Text → Bool
unfolding do_get
check_backend net url = is_success (do_get net url)

-- What the world does during one check: the time of its end, and the network.
pub record Probe : Type 0 where
  pub time : ℕ
  pub net : Text → Text → Reply

unfoldable pub check_one : Text → Probe → Text → LoadBalancer → LoadBalancer
unfolding check_backend check_url
check_one path w url lb =
    if check_backend w.net (check_url url path)
    then Balancer.success url lb
    else Balancer.failure w.time url lb

-- One tick: every backend of the list in turn. `probe i` is what happens during the check `i`.
unfoldable pub check_all : Text → (ℕ → Probe) → ℕ → List Text → LoadBalancer → LoadBalancer
unfolding check_one
check_all path probe i [] lb = lb
check_all path probe i (url ∷ urls) lb =
    check_all path probe (suc i) urls (check_one path (probe i) url lb)

abbrev pub is_empty : List Text → Bool
is_empty [] = true
is_empty (u ∷ us) = false

-- Whether a domain has a task.
unfoldable pub is_checked : DomainConfig → Bool
is_checked cfg = not (not cfg.health_check.enabled || is_empty cfg.backends)

-- The domains that have a task, with their settings.
unfoldable pub start_health_checks : Dict Text DomainConfig → Dict Text DomainConfig
unfolding is_checked
start_health_checks [] = []
start_health_checks ((domain, cfg) ∷ rest) =
    let others = start_health_checks rest in
    if is_checked cfg then (domain, cfg) ∷ others else others

-- A tick of a domain's task; it ends where the domain has no balancer.
unfoldable pub tick :
    Text → DomainConfig → (ℕ → Probe) → LoadBalancerManager → Option LoadBalancerManager
unfolding check_all
tick domain cfg probe m = elim (Manager.get domain m) [
  | none ↦ none
  | some lb ↦ some (Manager.update domain (check_all cfg.health_check.path probe 0 cfg.backends) m)
]
