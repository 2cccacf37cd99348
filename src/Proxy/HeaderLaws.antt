-- ===== src/Proxy/HeaderLaws.antt =====
-- What a backend and a client see of the headers that the handler writes.
use curf.Common.{
  ◌≡◌, refl, ap, ◌∙◌, inl, inr, not, ◌&&◌, Option, none, some, List, [], ◌∷◌, ◌++◌, Text, codes,
  arith, if◌then◌else◌, Option-cases, All, subst,
}
use curf.Common.Address.{IpAddr}
use curf.Common.Dict.{Dict, lookup}
use curf.Common.Equality.{◌==◌, list_key, nat_key}
use curf.Common.Search.{is_empty}
use curf.Config.{DomainConfig, ExtraHeader}
use curf.ErrorPages.{Response}
use curf.Http.{HeaderValue, text, opaque, IsHttp, IsVisible}
use curf.Proxy.Outside.{World}
use curf.Proxy.Headers.{
  x_forwarded_for, x_real_ip, x_forwarded_host, header_text, forwarded_for, add_forwarded_host,
  add_forwarding_headers, inject_one, inject_all, inject_extra_headers,
}

append-IsVisible : (s t : Text) → All IsVisible s → All IsVisible t → All IsVisible (s ++ t)
append-IsVisible [] t p q = q
append-IsVisible (c ∷ s) t p q = (p.0, append-IsVisible s t p.1 q)

abbrev pub or_found : Option HeaderValue → Option HeaderValue → Option HeaderValue
or_found (some v) found = some v
or_found none found = found

abbrev pub headers_of : Option DomainConfig → List ExtraHeader
headers_of none = []
headers_of (some cfg) = cfg.headers

-- The list of addresses in X-Forwarded-For with one more at its end; a value that is no text is
-- replaced.
abbrev pub with_address : Option HeaderValue → Text → Text
with_address (some (text there)) ip = there ++ (codes ", " ++ ip)
with_address (some opaque) ip = ip
with_address none ip = ip

module _ (w : World) where
  -- The value that a setting gives for a header: none where its name or its value cannot be parsed.
  unfoldable pub own_value : Text → ExtraHeader → Option HeaderValue
  own_value name e = elim (w.http.header_name e.name) [
    | none ↦ none
    | some n ↦ if n == name then w.http.from_str e.value else none
  ]

  -- The value that a list of settings gives, by the last of them that gives one.
  abbrev pub configured : Text → List ExtraHeader → Option HeaderValue
  configured name [] = none
  configured name (e ∷ es) = or_found (configured name es) (own_value name e)

module _ (w : World) (law : IsHttp w.http) where
  header_text-IsVisible :
      (name : Text) (h : w.http.Headers) (t : Text)
      → header_text w name h ≡ some t
      → All IsVisible t
  unfolding header_text
  header_text-IsVisible name h t e = elim (Option-cases (w.http.find name h)) [
    | inl absent ↦ absurd (ground arith)
    | inr (text s, found) ↦
        let same : s ≡ t = (ground arith) in
        subst (All IsVisible) same (law.find-IsValue name h (text s) found)
    | inr (opaque, found) ↦ absurd (ground arith)
  ]

  module _ (peer : IpAddr) (shown : All IsVisible (w.show_ip peer)) where
    forwarded_for-IsVisible : (h : w.http.Headers) → All IsVisible (forwarded_for w peer h)
    unfolding forwarded_for
    forwarded_for-IsVisible h = elim (Option-cases (header_text w x_forwarded_for h)) [
      | inl absent ↦ rw (absent, forwarded_for) shown
      | inr (t, found) ↦
          rw (found, forwarded_for)
            (append-IsVisible t _ (header_text-IsVisible x_forwarded_for h t found) (
              append-IsVisible (codes ", ") (w.show_ip peer)
                (inr (omega arith, omega arith), (inr (omega arith, omega arith), tt)) shown))
    ]

    forwarded_for_lem :
        (h : w.http.Headers)
        → forwarded_for w peer h ≡ with_address (w.http.find x_forwarded_for h) (w.show_ip peer)
    unfolding forwarded_for header_text
    forwarded_for_lem h = elim (Option-cases (w.http.find x_forwarded_for h)) [
      | inl absent ↦ rw (absent, forwarded_for) refl
      | inr (text t, found) ↦ rw (found, forwarded_for) refl
      | inr (opaque, found) ↦ rw (found, forwarded_for) refl
    ]

    find-add_forwarded_host :
        (host : Text) (h : w.http.Headers) (name : Text)
        → All IsVisible host
        → w.http.find name (add_forwarded_host w host h) ≡ (
            if not (is_empty host) && x_forwarded_host == name
            then some (text host)
            else w.http.find name h)
    unfolding add_forwarded_host
    find-add_forwarded_host [] h name visible = refl
    find-add_forwarded_host (c ∷ host) h name visible = rw (
      law.from_str-visible (c ∷ host) visible,
      law.find-insert x_forwarded_host name (text (c ∷ host)) h visible,
    )

    -- The backend is sent the address of the peer as the last of X-Forwarded-For, after a comma and
    -- the text that the first such header of the client had, if it was visible text, and as
    -- X-Real-IP; the host as X-Forwarded-Host where there is one; and every
    -- other header as it came.
    pub find-add_forwarding_headers :
        (host : Text) (h : w.http.Headers) (name : Text)
        → All IsVisible host
        → w.http.find name (add_forwarding_headers w peer host h) ≡ (
            if not (is_empty host) && x_forwarded_host == name
            then some (text host)
            else if x_real_ip == name
            then some (text (w.show_ip peer))
            else if x_forwarded_for == name
            then some (text (with_address (w.http.find x_forwarded_for h) (w.show_ip peer)))
            else w.http.find name h)
    unfolding add_forwarding_headers
    find-add_forwarding_headers host h name visible = rw (
      ← forwarded_for_lem h,
      find-add_forwarded_host host _ name visible,
      law.from_str-visible _ (forwarded_for-IsVisible h),
      law.from_str-visible _ shown,
      law.find-insert x_real_ip name (text (w.show_ip peer)) _ shown,
      law.find-insert x_forwarded_for name (text (forwarded_for w peer h)) h
          (forwarded_for-IsVisible h),
    )

  find-inject_one :
      (e : ExtraHeader) (h : w.http.Headers) (name : Text)
      → w.http.find name (inject_one w e h) ≡ or_found (own_value w name e) (w.http.find name h)
  unfolding inject_one own_value
  find-inject_one e h name = elim (Option-cases (w.http.header_name e.name)) [
    | inl bad ↦ rw (bad, inject_one, own_value) refl
    | inr (n, named) ↦ elim (Option-cases (w.http.from_str e.value)) [
      | inl bad ↦ rw (named, bad, inject_one, own_value) (ground arith)
      | inr (v, good) ↦
          rw
            (
              named,
              good,
              inject_one,
              own_value,
              law.find-insert n name v h (law.from_str-IsValue e.value v good),
            )
            (ground arith)
    ]
  ]

  or_found_assoc :
      (a b c : Option HeaderValue) → or_found a (or_found b c) ≡ or_found (or_found a b) c
  or_found_assoc none b c = refl
  or_found_assoc (some v) b c = refl

  find-inject_all :
      (es : List ExtraHeader) (h : w.http.Headers) (name : Text)
      → w.http.find name (inject_all w es h) ≡ or_found (configured w name es) (w.http.find name h)
  unfolding inject_all
  find-inject_all [] h name = refl
  find-inject_all (e ∷ es) h name =
      find-inject_all es (inject_one w e h) name
      ∙ ap (or_found (configured w name es)) (find-inject_one e h name)
      ∙ or_found_assoc (configured w name es) (own_value w name e) (w.http.find name h)

  -- A client finds in a response each header that the settings of the host's domain give, with the
  -- value that the last of them gives; every other header, the status and the body are as they were.
  pub inject_extra_headers_lem :
      (host : Text) (configs : Dict Text DomainConfig) (r : Response w.http) (name : Text)
      → let r' = inject_extra_headers w host configs r in
        (w.http.find name r'.headers
          ≡ or_found
              (configured w name (headers_of (lookup host configs)))
              (w.http.find name r.headers))
        × (r'.status ≡ r.status)
        × (r'.body ≡ r.body)
  unfolding inject_extra_headers
  inject_extra_headers_lem host configs r name = elim (Option-cases (lookup host configs)) [
    | inl absent ↦ rw (absent, inject_extra_headers) (refl, refl, refl)
    | inr (cfg, found) ↦
        rw (found, inject_extra_headers) (find-inject_all cfg.headers r.headers name, refl, refl)
  ]
