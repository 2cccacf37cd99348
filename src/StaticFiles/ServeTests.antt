-- ===== src/StaticFiles/ServeTests.antt =====
-- A small site, and the theorems on what is served of it.
use curf.Common.{
  ◌≡◌, ◌↔◌, refl, ◌⊎◌, ℕ, true, false, Option, none, some, List, [], ◌∷◌, ◌++◌, map, Text, codes,
  All, get_elem?, if◌then◌else◌, nat_beq,
}
use curf.Common.Decimal.{decimal}
use curf.Http.{get, head, text}
use curf.StaticFiles.{Component, root_dir, normal, safe_path, path_beq}
use curf.StaticFiles.Names.{IsName}
use curf.StaticFiles.Serve.{
  SystemTime, after_epoch, Metadata, Files, RequestHeaders, Response, not_modified, file, etag_of,
  serve_file, join, serve_index, StaticFileServer, serve,
}
use curf.StaticFiles.Etag.{etag_of_iff}
use curf.StaticFiles.Conditional.{serve_file-etag, serve_file-last_modified, serve-under_root}

abbrev www : List Component
www = normal (codes "www") ∷ root_dir ∷ []

abbrev index : List Component
index = normal (codes "index.html") ∷ www

-- Half a second past.
abbrev about : Metadata
about = record { is_dir = false; len = 2; modified = some (after_epoch 90 500000000) }

abbrev dir : Metadata
dir = record { is_dir = true; len = 0; modified = none }

abbrev stat : List Component → Option Metadata
stat p = if path_beq p www then some dir else if path_beq p index then some about else none

abbrev contents : List Component → Option Text
contents p = if path_beq p index then some (codes "hi") else none

-- Dates are written with seconds only.
abbrev write_date : SystemTime → Text
write_date (after_epoch s n) = s ∷ []
write_date _ = []

abbrev read_date : Text → Option SystemTime
read_date [] = none
read_date (s ∷ _) = some (after_epoch s 0)

abbrev site : Files
site = record {
  metadata = stat;
  read = contents;
  parse_http_date = read_date;
  fmt_http_date = write_date;
  mime = λ p. codes "text/html";
  read_dir = λ p. none;
}

abbrev server : StaticFileServer
server = record { root = www; index_files = codes "index.html" ∷ []; autoindex = false }

abbrev plain : Text → Option Text
plain s = some s

abbrev no_headers : RequestHeaders
no_headers = record { if_none_match = none; if_modified_since = none }

abbrev answer : Response
answer = file (codes "text/html") 2 (etag_of about) (write_date (after_epoch 90 0)) (codes "hi")

abbrev with_etag : RequestHeaders
with_etag = record { if_none_match = some (text (etag_of about)); if_modified_since = none }

abbrev with_date : RequestHeaders
with_date = record {
  if_none_match = none;
  if_modified_since = some (text (write_date (after_epoch 90 500000000)));
}

checker : Unit {0}
unfolding serve serve_file serve_index safe_path join
checker = tt

serves_index :
    (serve site plain server (codes "/") get no_headers ≡ some answer)
    × (serve_file site index get no_headers ≡ some answer)
unfolding checker
serves_index = (refl, refl)

etag_text : etag_of about ≡ codes "\"2-90\""
unfolding etag_of decimal
etag_text = refl

serve_file-etag_example : serve_file site index head with_etag ≡ some not_modified
unfolding checker
serve_file-etag_example =
    serve_file-etag site index about no_headers (codes "text/html") (etag_of about)
      (write_date (after_epoch 90 0)) (codes "hi") 2 head with_etag refl serves_index.1 refl

serve_file-last_modified_example :
    serve_file site index get with_date
    ≡ some (if nat_beq 500000000 0 then not_modified else answer)
unfolding checker
serve_file-last_modified_example =
    serve_file-last_modified site index about 90 500000000 no_headers with_date (codes "text/html")
      (etag_of about) (write_date (after_epoch 90 0)) (codes "hi") 2 refl refl refl serves_index.1
      refl refl

serve-under_root_example :
    (names : List Text) × All IsName names
    × (let path = map normal names ++ www in
        (contents path ≡ some (codes "hi"))
        ⊎ ((i : ℕ) × (idx : Text) × (get_elem? server.index_files i ≡ some idx)
            × (contents (join site path idx) ≡ some (codes "hi"))))
serve-under_root_example =
    serve-under_root site plain server (codes "/") get no_headers (codes "text/html")
      (etag_of about) (write_date (after_epoch 90 0)) (codes "hi") 2 serves_index.0

-- A later half of the same second.
abbrev later : Metadata
later = record about { modified = some (after_epoch 90 750000000) }

same_tag : etag_of about ≡ etag_of later
unfolding etag_of decimal
same_tag = refl

etag_of_iff_example :
    (etag_of about ≡ etag_of later) ↔ ((about.len ≡ later.len) × (◌≡◌ {A = ℕ} 90 90))
etag_of_iff_example = etag_of_iff about later 90 500000000 90 750000000 refl refl
