-- ===== src/Proxy/Responses.antt =====
-- src/proxy.rs: the parts of a request that are read, and the responses that the handler makes.
use curf.Common.{
  ℕ, Bool, true, false, Option, none, some, [], ◌∷◌, ◌++◌, Text, codes, if◌then◌else◌, nat_beq,
}
use curf.Common.Decimal.{decimal}
use curf.Common.Dict.{Dict, lookup}
use curf.Common.Equality.{list_key, nat_key}
use curf.Config.{DomainConfig}
use curf.ErrorPages.{Response, error_response, html_error, content_type, cache_control}
use curf.Http.{Uri, text}
use curf.StaticFiles.Serve
use curf.StaticFiles.Serve.{StaticFileServer, RequestHeaders, serve, join}
use curf.StaticFiles.Listing.{directory_listing, entries_in}
use curf.Proxy.Outside.{World}
use curf.Proxy.Headers.{header_text}

-- `h.split(':').next()`
unfoldable pub before_colon : Text → Text
before_colon [] = []
before_colon (c ∷ s) = let rest = before_colon s in if nat_beq c b':' then [] else c ∷ rest

abbrev pub or_text : Text → Option Text → Text
or_text t none = t
or_text t (some s) = s

abbrev pub or_port : Option ℕ → ℕ
or_port none = 80
or_port (some n) = n

module _ (w : World) where
  open w use {http, files, lower}

  unfoldable pub host_of : w.http.Headers → Text
  unfolding header_text before_colon
  host_of h = elim (header_text w (codes "host") h) [ none ↦ [] | some t ↦ lower (before_colon t) ]

  abbrev pub forbidden : Text → Response w.http
  forbidden reason = html_error http 403 (codes "Forbidden") reason

  abbrev pub too_many_requests : Response w.http
  too_many_requests = error_response http 429 (codes "Too Many Requests")

  -- What `handle` makes of an error of `proxy_websocket` and of `proxy_http`.
  abbrev pub bad_gateway : Bool → Response w.http
  bad_gateway true = error_response http 502 (codes "WebSocket proxy error")
  bad_gateway false =
      html_error http 502 (codes "Bad Gateway") (codes "The upstream server is unreachable.")

  -- The value may be one that a header cannot hold.
  unfoldable pub redirect : Text → Uri → Option (Response w.http)
  redirect host uri =
      elim (http.from_str (codes "https://" ++ (host ++ or_text (codes "/") uri.path_and_query))) [
        | none ↦ none
        | some location ↦ some (record {
          status = 301;
          headers = http.insert (codes "location") location http.empty;
          body = [];
        })
      ]

  unfoldable pub redirects : Text → Dict Text DomainConfig → Bool
  redirects host configs = elim (lookup host configs) [
    | none ↦ false
    | some cfg ↦ cfg.redirect_to_https
  ]

  unfoldable pub request_headers : w.http.Headers → RequestHeaders
  request_headers h = record {
    if_none_match = http.find (codes "if-none-match") h;
    if_modified_since = http.find (codes "if-modified-since") h;
  }

  abbrev pub header : Text → Text → w.http.Headers → w.http.Headers
  header name value h = http.insert name (text value) h

  -- The response of the static file server.
  unfoldable pub static_response : Serve.Response → Response w.http
  static_response Serve.not_modified = record { status = 304; headers = http.empty; body = [] }
  static_response (Serve.head_of mime len etag) = record {
    status = 200;
    headers =
        header (codes "etag") etag
          (header (codes "content-length") (decimal len) (header content_type mime http.empty));
    body = [];
  }
  static_response (Serve.file mime len etag modified bytes) = record {
    status = 200;
    headers = header cache_control (codes "public, max-age=3600") (
        header (codes "last-modified") modified (
          header (codes "etag") etag
            (header (codes "content-length") (decimal len) (header content_type mime http.empty))));
    body = bytes;
  }
  static_response (Serve.listing dir url) = record {
    status = 200;
    headers = header content_type (codes "text/html; charset=utf-8") http.empty;
    body = directory_listing (entries_in (files.read_dir dir)) url;
  }

  -- The 101 response is a new one: the headers of the backend's are not passed on.
  abbrev pub switching_protocols : Response w.http
  switching_protocols = record { status = 101; headers = http.empty; body = [] }
