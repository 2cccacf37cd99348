-- ===== src/StaticFiles/Serve.antt =====
-- src/static_files.rs, `serve` and `serve_file`: conditional requests, HEAD, index files. The file
-- system and the crates httpdate and mime_guess are the interface Files. Of a
-- listing, the answer here has the directory and the url.
use curf.Common.{
  ℕ, Bool, true, false, Option, none, some, List, [], ◌∷◌, ◌++◌, ◌&&◌, ◌||◌, length, if◌then◌else◌,
  Text, codes, ltb, leb, nat_beq,
}
use curf.Common.Decimal.{decimal}
use curf.Common.Equality.{list_beq, nat_key}
use curf.Http.{Method, get, head, other, HeaderValue, text, opaque}
use curf.StaticFiles.Listing.{DirEntry}
use curf.StaticFiles.{Component, root_dir, cur_dir, components, safe_path}

-- Before or after 1970, in seconds and nanoseconds.
pub data SystemTime : Type 0 where
  after_epoch before_epoch : ℕ → ℕ → SystemTime

abbrev pub earlier : ℕ → ℕ → ℕ → ℕ → Bool
earlier s n s' n' = ltb s s' || (nat_beq s s' && leb n n')

abbrev pub time_leb : SystemTime → SystemTime → Bool
time_leb (after_epoch s n) (after_epoch s' n') = earlier s n s' n'
time_leb (after_epoch s n) (before_epoch s' n') = false
time_leb (before_epoch s n) (after_epoch s' n') = true
time_leb (before_epoch s n) (before_epoch s' n') = earlier s' n' s n

pub record Metadata : Type 0 where
  pub is_dir : Bool
  pub len : ℕ
  pub modified : Option SystemTime

pub record Files : Type 0 where
  pub metadata : List Component → Option Metadata
  pub read : List Component → Option Text
  pub parse_http_date : Text → Option SystemTime
  pub fmt_http_date : SystemTime → Text
  pub mime : List Component → Text
  pub read_dir : List Component → Option (List (Option DirEntry))

pub record RequestHeaders : Type 0 where
  pub if_none_match : Option HeaderValue
  pub if_modified_since : Option HeaderValue

pub data Response : Type 0 where
  not_modified : Response
  head_of : (content_type : Text) (content_length : ℕ) (etag : Text) → Response
  file :
      (content_type : Text) (content_length : ℕ) (etag last_modified : Text) (data_of : Text)
      → Response
  listing : (dir : List Component) (url_path : Text) → Response

-- The modification time in seconds, 0 where there is none or it lies before 1970.
abbrev pub mtime_secs : Option SystemTime → ℕ
mtime_secs none = 0
mtime_secs (some (after_epoch s n)) = s
mtime_secs (some (before_epoch s n)) = 0

unfoldable pub etag_of : Metadata → Text
etag_of meta =
    codes "\""
    ++ (decimal meta.len ++ (codes "-" ++ (decimal (mtime_secs meta.modified) ++ codes "\"")))

-- `inm.to_str().unwrap_or("") == etag`
abbrev pub matches : Option HeaderValue → Text → Bool
matches none etag = false
matches (some (text t)) etag = list_beq t etag
matches (some opaque) etag = list_beq [] etag

abbrev pub not_later : Option SystemTime → Option SystemTime → Bool
not_later none ims = false
not_later (some t) none = false
not_later (some t) (some ims) = time_leb t ims

module _ (f : Files) where
  open f use {metadata, read, parse_http_date, fmt_http_date, mime}

  abbrev pub unchanged_since : Option HeaderValue → Option SystemTime → Bool
  unchanged_since none modified = false
  unchanged_since (some opaque) modified = false
  unchanged_since (some (text t)) modified = not_later modified (parse_http_date t)

  abbrev pub last_modified_of : Option SystemTime → Text
  last_modified_of none = []
  last_modified_of (some t) = fmt_http_date t

  abbrev pub send : List Component → Metadata → Method → Option Response
  send path meta head = some (head_of (mime path) meta.len (etag_of meta))
  send path meta method = elim (read path) [
    | none ↦ none
    | some data_of ↦
        some (
          file (mime path) (length data_of) (etag_of meta) (last_modified_of meta.modified) data_of)
  ]

  unfoldable pub serve_file : List Component → Method → RequestHeaders → Option Response
  serve_file path method headers = elim (metadata path) [
    | none ↦ none
    | some meta ↦
        if matches headers.if_none_match (etag_of meta)
        then some not_modified
        else if unchanged_since headers.if_modified_since meta.modified
        then some not_modified
        else send path meta method
  ]

  -- `Path::join`: an absolute path takes the place of the base, a leading `.` is dropped.
  abbrev pub push_all : List Component → List Component → List Component
  push_all base [] = base
  push_all base (c ∷ cs) = push_all (c ∷ base) cs

  abbrev pub join_components : List Component → List Component → List Component
  join_components base (root_dir ∷ cs) = push_all (root_dir ∷ []) cs
  join_components [] cs = push_all [] cs
  join_components base (cur_dir ∷ cs) = push_all base cs
  join_components base cs = push_all base cs

  unfoldable pub join : List Component → Text → List Component
  join base t = join_components base (components t)

  -- The first index file that exists, or a listing.
  unfoldable pub serve_index :
      List Text → Bool → List Component → Text → Method → RequestHeaders → Option Response
  serve_index [] autoindex dir url_path method headers =
      if autoindex then some (listing dir url_path) else none
  serve_index (idx ∷ idxs) autoindex dir url_path method headers = elim (metadata (join dir idx)) [
    | some _ ↦ serve_file (join dir idx) method headers
    | none ↦ serve_index idxs autoindex dir url_path method headers
  ]

  abbrev pub serve_path :
      List Text → Bool → List Component → Text → Method → RequestHeaders → Option Response
  serve_path idxs autoindex path url_path method headers = elim (metadata path) [
    | none ↦ none
    | some meta ↦ elim meta.is_dir [
      | true ↦ serve_index idxs autoindex path url_path method headers
      | false ↦ serve_file path method headers
    ]
  ]

pub record StaticFileServer : Type 0 where
  pub root : List Component
  pub index_files : List Text
  pub autoindex : Bool

abbrev pub is_read : Method → Bool
is_read get = true
is_read head = true
is_read (other m) = false

unfoldable pub serve :
    Files
    → (Text → Option Text)
    → StaticFileServer
    → Text
    → Method
    → RequestHeaders
    → Option Response
serve f decode s url_path method headers = elim (is_read method) [
  | false ↦ none
  | true ↦ elim (safe_path decode s.root url_path) [
    | none ↦ none
    | some path ↦ serve_path f s.index_files s.autoindex path url_path method headers
  ]
]
