-- ===== src/Proxy/Headers.antt =====
-- The headers that the handler reads and writes: `is_websocket_upgrade`, `add_forwarding_headers`,
-- `inject_extra_headers`.
use curf.Common.{
  ℕ, ◌+◌, Bool, ◌&&◌, Option, none, some, List, [], ◌∷◌, ◌++◌, map, Text, codes, if◌then◌else◌, leb,
}
use curf.Common.Address.{IpAddr}
use curf.Common.Dict.{Dict, lookup}
use curf.Common.Equality.{list_beq, list_key, nat_key}
use curf.Common.Search.{is_empty}
use curf.Config.{DomainConfig, ExtraHeader}
use curf.ErrorPages.{Response}
use curf.Http.{HeaderValue, text, to_str}
use curf.Proxy.Outside.{World}

abbrev pub x_forwarded_for : Text
x_forwarded_for = codes "x-forwarded-for"

abbrev pub x_real_ip : Text
x_real_ip = codes "x-real-ip"

abbrev pub x_forwarded_host : Text
x_forwarded_host = codes "x-forwarded-host"

abbrev pub to_ascii_lower : ℕ → ℕ
to_ascii_lower c = if leb b'A' c && leb c b'Z' then c + 32 else c

unfoldable pub eq_ignore_ascii_case : Text → Text → Bool
eq_ignore_ascii_case s t = list_beq (map to_ascii_lower s) (map to_ascii_lower t)

abbrev pub or_blank_value : Option HeaderValue → HeaderValue
or_blank_value none = text []
or_blank_value (some v) = v

module _ (w : World) where
  open w use {show_ip}

  -- `get(name).and_then(|v| v.to_str().ok())`
  unfoldable pub header_text : Text → w.http.Headers → Option Text
  header_text name h = elim (w.http.find name h) [ none ↦ none | some v ↦ to_str v ]

  unfoldable pub is_websocket_upgrade : w.http.Headers → Bool
  unfolding eq_ignore_ascii_case
  is_websocket_upgrade h = elim (header_text (codes "upgrade") h) [
    | none ↦ eq_ignore_ascii_case [] (codes "websocket")
    | some t ↦ eq_ignore_ascii_case t (codes "websocket")
  ]

  -- The value of X-Forwarded-For with the address of the peer at its end.
  unfoldable pub forwarded_for : IpAddr → w.http.Headers → Text
  forwarded_for peer h = elim (header_text x_forwarded_for h) [
    | none ↦ show_ip peer
    | some existing ↦ existing ++ (codes ", " ++ show_ip peer)
  ]

  unfoldable pub add_forwarded_host : Text → w.http.Headers → w.http.Headers
  add_forwarded_host host h =
      if is_empty host
      then h
      else elim (w.http.from_str host) [ none ↦ h | some v ↦ w.http.insert x_forwarded_host v h ]

  unfoldable pub add_forwarding_headers : IpAddr → Text → w.http.Headers → w.http.Headers
  add_forwarding_headers peer host h =
      let xff = or_blank_value (w.http.from_str (forwarded_for peer h)) in
      let real_ip = or_blank_value (w.http.from_str (show_ip peer)) in
      add_forwarded_host host
        (w.http.insert x_real_ip real_ip (w.http.insert x_forwarded_for xff h))

  -- One header, where its name and its value can be parsed.
  unfoldable pub inject_one : ExtraHeader → w.http.Headers → w.http.Headers
  inject_one e h = elim (w.http.header_name e.name) [
    | none ↦ h
    | some name ↦ elim (w.http.from_str e.value) [ none ↦ h | some v ↦ w.http.insert name v h ]
  ]

  unfoldable pub inject_all : List ExtraHeader → w.http.Headers → w.http.Headers
  unfolding inject_one
  inject_all [] h = h
  inject_all (e ∷ es) h = inject_all es (inject_one e h)

  unfoldable pub inject_extra_headers :
      Text → Dict Text DomainConfig → Response w.http → Response w.http
  unfolding inject_all
  inject_extra_headers host configs r = elim (lookup host configs) [
    | none ↦ r
    | some cfg ↦ record r { headers = inject_all cfg.headers r.headers }
  ]
