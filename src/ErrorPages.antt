-- ===== src/ErrorPages.antt =====
-- src/error.rs: the two builders of error responses, and what a response is. The body of a backend's
-- response is passed on as it comes.
use curf.Common.{ℕ, ◌++◌, Text, codes}
use curf.Common.Decimal.{decimal}
use curf.Http.{Http, text}

pub record Response (http : Http) : Type 0 where
  pub status : ℕ
  pub headers : http.Headers
  pub body : Text

abbrev pub content_type : Text
content_type = codes "content-type"

abbrev pub cache_control : Text
cache_control = codes "cache-control"

abbrev pub no_store : Text
no_store = codes "no-store"

-- The page up to the title, between the parts that are filled in, and the end.
abbrev pub page_top : Text
page_top = codes "<!DOCTYPE html>\n<html>\n<head><title>"

abbrev pub page_style : Text
page_style =
    codes
      "</title>\n<style>body{font-family:sans-serif;text-align:center;padding:4em}h1{font-size:3em}p{color:#666}</style>\n</head>\n<body>\n<h1>"

abbrev pub page_end : Text
page_end = codes "</p>\n<hr><small>curf</small>\n</body>\n</html>"

module _ (http : Http) where
  open http use {empty, insert}

  unfoldable pub error_response : ℕ → Text → Response http
  error_response status message = record {
    status = status;
    headers =
        insert cache_control (text no_store)
          (insert content_type (text (codes "text/plain; charset=utf-8")) empty);
    body = decimal status ++ (codes " " ++ (message ++ codes "\n"));
  }

  unfoldable pub html_error : ℕ → Text → Text → Response http
  html_error status title body = record {
    status = status;
    headers =
        insert cache_control (text no_store)
          (insert content_type (text (codes "text/html; charset=utf-8")) empty);
    body =
        page_top
        ++ (decimal status
            ++ (codes " "
                ++ (title
                    ++ (page_style
                        ++ (decimal status ++ (codes "</h1>\n<p>" ++ (body ++ page_end)))))));
  }
