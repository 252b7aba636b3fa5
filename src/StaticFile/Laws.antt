-- ===== src/StaticFile/Laws.antt =====
-- What the handler of a static file answers.
use xtemplate.Prelude.{
  ℕ, ◌+◌, ◌-◌, ◌<◌, ◌≡◌, refl, ◌∙◌, true, ◌⊎◌, inl, inr, Option, some, text_eq, text_eq_iff, Text,
  length, get_elem?, get_elem?-lt, arith, Bool-cases, [], ◌∷◌, ◌++◌, codes, if◌then◌else◌,
}
use xtemplate.Prelude.Errors.{Error, Result, ok, err}
use xtemplate.Paths.{clean}
use xtemplate.Http.{Header}
use xtemplate.Negotiate.{EncodingInfo, chosen, negotiate_encoding}
use xtemplate.Negotiate.Floats.{Float64}
use xtemplate.Negotiate.Laws.{negotiate_total}
use xtemplate.StaticFile.{
  FileInfo, Request, Files, World, not_found, server_error, hash_matches, file_header, send_file,
  open_file, serve_encoding, static_file_handler,
}

open_cases : {A : Type 0} (r : Result A) → ((a : A) × (r ≡ ok a)) ⊎ ((x : Error) × (r ≡ err x))
open_cases (ok a) = inl (a, refl)
open_cases (err x) = inr (x, refl)

-- The header fields of a file in the encoding `e`; it may be cached for good only if the request
-- names its hash.
abbrev pub sent_header : FileInfo → Request → EncodingInfo → Header
sent_header info r e =
    (codes "Etag", (b'"' ∷ (info.hash ++ b'"' ∷ [])) ∷ [])
    ∷ (codes "Content-Type", info.content_type ∷ [])
    ∷ (codes "Content-Encoding", e.encoding ∷ [])
    ∷ (codes "Vary", codes "Accept-Encoding" ∷ [])
    ∷ (if text_eq r.query_hash []
        then []
        else (codes "Cache-Control", codes "public, max-age=31536000, immutable" ∷ []) ∷ [])

module _ (f : Float64) (fs : Files) (info : FileInfo) (r : Request) (w : World) where
  handler-open_file :
      (i : ℕ) (e : EncodingInfo) {x : Option Error}
      → clean r.url_path ≡ info.identity_path
      → hash_matches info r ≡ true
      → negotiate_encoding f r.accept info.encodings ≡ chosen i x
      → get_elem? info.encodings i ≡ some e
      → static_file_handler f fs info r w ≡ open_file f fs info r e w
  unfolding static_file_handler serve_encoding
  handler-open_file i e same hash choice found =
      rw ((text_eq_iff (clean r.url_path) info.identity_path).1 same, hash, choice)
        (rw (serve_encoding, found))

  server_error-opened : (server_error w).opened ≡ w.opened
  unfolding server_error
  server_error-opened = refl

  not_found-opened : (not_found w).opened ≡ w.opened
  unfolding not_found
  not_found-opened = refl

  open_file-opened :
      (e : EncodingInfo)
      → ((file : ℕ) → fs.open_ e.path ≡ ok file → fs.can_seek file ≡ true)
      → (u : World) × (open_file f fs info r e w ≡ some u) × (u.opened ≡ w.opened)
  unfolding open_file send_file
  open_file-opened e seeks = elim (open_cases (fs.open_ e.path)) [
    | inl (file, h) ↦ (
      record {
        response =
            fs.serve_content r e.path e.modtime file
              (record w.response { header = file_header info e r w.response.header });
        opened = w.opened + 1 - 1;
      },
      rw (open_file, h, seeks file h) refl,
      omega arith,
    )
    | inr (x, h) ↦ (server_error w, rw (open_file, h) refl, server_error-opened)
  ]

  -- For a file with at least one encoding, on a file system whose files can seek, the handler does not
  -- panic, whatever the request is, and leaves as many files open as there were before it.
  pub static_closes :
      0 < length info.encodings
      → ((path : Text) (file : ℕ) → fs.open_ path ≡ ok file → fs.can_seek file ≡ true)
      → (u : World) × (static_file_handler f fs info r w ≡ some u) × (u.opened ≡ w.opened)
  unfolding static_file_handler
  static_closes h seeks = elim (Bool-cases (text_eq (clean r.url_path) info.identity_path)) [
    | inr other ↦ (not_found w, rw (static_file_handler, other) refl, not_found-opened)
    | inl same ↦ elim (Bool-cases (hash_matches info r)) [
      | inr other ↦ (not_found w, rw (static_file_handler, same, other) refl, not_found-opened)
      | inl hash ↦
          let (i, choice, fits) = negotiate_total f r.accept info.encodings h in
          let (e, found) = get_elem?-lt info.encodings i fits in
          let (u, opened, closed) = open_file-opened e (seeks e.path) in
          (u, handler-open_file i e ((text_eq_iff _ _).0 same) hash choice found ∙ opened, closed)
    ]
  ]

module _ (f : Float64) (fs : Files) (info : FileInfo) (r : Request) (w : World)
    (new : w.response.header ≡ []) where
  -- The world after `e` was served from `file`: the handler has closed it.
  abbrev pub served : EncodingInfo → ℕ → World
  served e file = record {
    response =
        fs.serve_content r e.path e.modtime file
          (record w.response { header = sent_header info r e });
    opened = w.opened;
  }
