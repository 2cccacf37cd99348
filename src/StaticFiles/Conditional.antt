-- ===== src/StaticFiles/Conditional.antt =====
-- Conditional requests, HEAD beside GET, and which files are read.
use curf.Common.{
  ℕ, ◌≡◌, refl, ◌⊎◌, inl, inr, Bool, Option, none, some, List, [], ◌∷◌, ◌++◌, map, subst, suc,
  get_elem?, if◌then◌else◌, Text, arith, nat_beq, All, Bool-cases, Option-cases,
}
use curf.Common.Equality.{list_beq_iff, nat_key}
use curf.Http.{Method, get, head, other, text}
use curf.StaticFiles.{Component, normal, safe_path}
use curf.StaticFiles.Names.{IsName}
use curf.StaticFiles.Inside.{safe_path-inside}
use curf.StaticFiles.Serve.{
  after_epoch, Metadata, Files, RequestHeaders, not_modified, file, etag_of, serve_file, join,
  serve_index, serve_path, StaticFileServer, serve,
}

module _ (f : Files) (path : List Component) where
  open f use {metadata, read, parse_http_date, fmt_http_date, mime}

  -- A client that asks for a file again with the `ETag` that it was sent is told that the file has
  -- not changed, where its size and modification time are the same.
  pub serve_file-etag :
      (meta : Metadata) (headers : RequestHeaders) (content_type etag last_modified data_of : Text)
      (n : ℕ) (method : Method) (headers' : RequestHeaders)
      → metadata path ≡ some meta
      → serve_file f path get headers ≡ some (file content_type n etag last_modified data_of)
      → headers'.if_none_match ≡ some (text etag)
      → serve_file f path method headers' ≡ some not_modified
  unfolding serve_file
  serve_file-etag meta headers ct etag lm d n method headers' m e h =
      ground (arith, list_beq_iff etag (etag_of meta))

  -- A client that asks for a file again with the `Last-Modified` that it was sent, and no `ETag`, is
  -- told that the file has not changed when the file's time is a whole second, and is sent the same
  -- once more when it is not. An http date has no fraction of a second: that is what is asked of the
  -- two functions on dates.
  pub serve_file-last_modified :
      (meta : Metadata) (secs nanos : ℕ) (headers headers' : RequestHeaders)
      (content_type etag last_modified data_of : Text) (n : ℕ)
      → metadata path ≡ some meta
      → meta.modified ≡ some (after_epoch secs nanos)
      → parse_http_date (fmt_http_date (after_epoch secs nanos)) ≡ some (after_epoch secs 0)
      → serve_file f path get headers ≡ some (file content_type n etag last_modified data_of)
      → headers'.if_none_match ≡ none
      → headers'.if_modified_since ≡ some (text last_modified)
      → serve_file f path get headers'
        ≡ some (
            if nat_beq nanos 0
            then not_modified
            else file content_type n etag last_modified data_of)
  unfolding serve_file
  serve_file-last_modified meta secs nanos headers headers' ct etag lm d n m t p e h g =
      ground (arith, p)

module _ (f : Files) where
  open f use {metadata, read}

  -- The bytes that are sent are those of the file.
  serve_file-read :
      (path : List Component) (method : Method) (headers : RequestHeaders)
      (content_type etag last_modified data_of : Text) (n : ℕ)
      → serve_file f path method headers ≡ some (file content_type n etag last_modified data_of)
      → read path ≡ some data_of
  unfolding serve_file
  serve_file-read path get headers ct etag lm d n e = ground arith
  serve_file-read path head headers ct etag lm d n e = ground arith
  serve_file-read path (other m) headers ct etag lm d n e = ground arith

  serve_index-read :
      (idxs : List Text) (autoindex : Bool) (dir : List Component) (url_path : Text)
      (method : Method) (headers : RequestHeaders) (content_type etag last_modified data_of : Text)
      (n : ℕ)
      → serve_index f idxs autoindex dir url_path method headers
        ≡ some (file content_type n etag last_modified data_of)
      → (i : ℕ) × (idx : Text) × (get_elem? idxs i ≡ some idx)
        × (read (join f dir idx) ≡ some data_of)
  unfolding serve_index
  serve_index-read [] a dir u method headers ct etag lm d n e = ground arith
  serve_index-read (idx ∷ idxs) a dir u method headers ct etag lm d n e =
      elim (Option-cases (metadata (join f dir idx))) [
        | inl m ↦
            let (i, idx', at, r) =
              serve_index-read idxs a dir u method headers ct etag lm d n (cc) in
            (suc i, idx', at, r)
        | inr (meta, m) ↦
            (0, idx, refl, serve_file-read (join f dir idx) method headers ct etag lm d n (cc))
      ]

  serve_path-read :
      (idxs : List Text) (autoindex : Bool) (path : List Component) (url_path : Text)
      (method : Method) (headers : RequestHeaders) (content_type etag last_modified data_of : Text)
      (n : ℕ)
      → serve_path f idxs autoindex path url_path method headers
        ≡ some (file content_type n etag last_modified data_of)
      → (read path ≡ some data_of)
        ⊎ ((i : ℕ) × (idx : Text) × (get_elem? idxs i ≡ some idx)
            × (read (join f path idx) ≡ some data_of))
  serve_path-read idxs a path u method headers ct etag lm d n e =
      elim (Option-cases (metadata path)) [
        | inl m ↦ absurd (ground arith)
        | inr (meta, m) ↦ elim (Bool-cases meta.is_dir) [
          | inl is_directory ↦
              inr (serve_index-read idxs a path u method headers ct etag lm d n (cc))
          | inr is_file ↦ inl (serve_file-read path method headers ct etag lm d n (cc))
        ]
      ]

  -- The bytes that are sent for a url are those of a file under the root, or of an index file of a
  -- directory under the root, whatever the url holds.
  pub serve-under_root :
      (decode : Text → Option Text) (s : StaticFileServer) (url_path : Text) (method : Method)
      (headers : RequestHeaders) (content_type etag last_modified data_of : Text) (n : ℕ)
      → serve f decode s url_path method headers
        ≡ some (file content_type n etag last_modified data_of)
      → (names : List Text) × All IsName names
        × (let path = map normal names ++ s.root in
            (read path ≡ some data_of)
            ⊎ ((i : ℕ) × (idx : Text) × (get_elem? s.index_files i ≡ some idx)
                × (read (join f path idx) ≡ some data_of)))
  unfolding serve
  serve-under_root decode s url method headers ct etag lm d n e =
      elim (Option-cases (safe_path decode s.root url)) [
        | inl m ↦ ground arith
        | inr (path, m) ↦
            let (names, below, plain) = safe_path-inside decode s.root url path m in
            (
              names,
              plain,
              subst
                  (λ p.
                    (read p ≡ some d)
                    ⊎ ((i : ℕ) × (idx : Text) × (get_elem? s.index_files i ≡ some idx)
                        × (read (join f p idx) ≡ some d)))
                  below
                  (serve_path-read s.index_files s.autoindex path url method headers ct etag lm d n
                    (ground arith)),
            )
      ]
