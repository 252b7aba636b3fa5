-- ===== src/StaticFile.antt =====
-- handlers.go, `staticFileHandler`: a file of the templates directory, in the encoding that suits the
-- request.
pub mod Laws
mod Tests
use xtemplate.Prelude.{
  ℕ, ◌+◌, ◌-◌, Bool, true, false, ◌&&◌, Option, none, some, List, [], ◌∷◌, ◌++◌, Text, codes,
  text_eq, not, get_elem?, if◌then◌else◌,
}
use xtemplate.Prelude.Errors.{Result, ok, err}
use xtemplate.Paths.{clean}
use xtemplate.Http.{Header, Response, header_add, header_set, http_error}
use xtemplate.Negotiate.{EncodingInfo, Choice, no_encoding, chosen, negotiate_encoding}
use xtemplate.Negotiate.Floats.{Float64}

-- build.go
pub record FileInfo : Type 0 where
  pub identity_path : Text
  pub hash : Text
  pub content_type : Text
  pub encodings : List EncodingInfo

-- What the handler reads of a request: `r.URL.Path`, `r.URL.Query().Get("hash")` and
-- `r.Header["Accept-Encoding"]`.
pub record Request : Type 0 where
  pub url_path : Text
  pub query_hash : Text
  pub accept : List Text

-- The `fs.FS`, whether a file is an `io.ReadSeeker`, and `http.ServeContent`, which is given the path, the time and the file, a number.
pub record Files : Type 0 where
  pub open_ : Text → Result ℕ
  pub can_seek : ℕ → Bool
  pub serve_content : Request → Text → ℕ → ℕ → Response → Response

-- The response writer, and the number of files that are open.
pub record World : Type 0 where
  pub response : Response
  pub opened : ℕ

abbrev pub respond : (Response → Response) → World → World
respond f w = record w { response = f w.response }

pub not_found : World → World
unfolding http_error
not_found w = respond (http_error (codes "404 page not found") 404) w

pub server_error : World → World
unfolding http_error
server_error w = respond (http_error (codes "internal server error") 500) w

unfoldable pub hash_matches : FileInfo → Request → Bool
unfolding text_eq
hash_matches info r = not (not (text_eq r.query_hash []) && not (text_eq r.query_hash info.hash))

pub cached : Request → Header → Header
unfolding text_eq header_set
cached r h =
    if text_eq r.query_hash []
    then h
    else header_set (codes "Cache-Control") (codes "public, max-age=31536000, immutable") h

pub file_header : FileInfo → EncodingInfo → Request → Header → Header
unfolding cached header_add
file_header info e r h = cached r (
    header_add (codes "Vary") (codes "Accept-Encoding") (
      header_add (codes "Content-Encoding") e.encoding (
        header_add (codes "Content-Type") info.content_type
          (header_add (codes "Etag") (b'"' ∷ (info.hash ++ b'"' ∷ [])) h))))

module _ (f : Float64) (fs : Files) where
  -- The file is closed when the handler returns. That it was modified is only logged. `none`: a file
  -- without `Seek`, at which the type assertion panics.
  send_file : FileInfo → Request → EncodingInfo → ℕ → World → Option World
  unfolding file_header
  send_file info r e file w =
      let v = record w { opened = w.opened + 1 } in
      let u = respond (λ p. record p { header = file_header info e r p.header }) v in
      let t = respond (fs.serve_content r e.path e.modtime file) u in
      if fs.can_seek file then some (record t { opened = t.opened - 1 }) else none

  open_file : FileInfo → Request → EncodingInfo → World → Option World
  unfolding send_file server_error
  open_file info r e w = elim (fs.open_ e.path) [
    | err x ↦ some (server_error w)
    | ok file ↦ send_file info r e file w
  ]

  -- `none`: also an index that is out of range, which panics.
  serve_encoding : FileInfo → Request → Choice → World → Option World
  unfolding open_file server_error
  serve_encoding info r (no_encoding e) w = some (server_error w)
  serve_encoding info r (chosen i e) w = elim (get_elem? info.encodings i) [
    | none ↦ none
    | some encoding ↦ open_file info r encoding w
  ]

  pub static_file_handler : FileInfo → Request → World → Option World
  unfolding serve_encoding not_found hash_matches clean negotiate_encoding text_eq
  static_file_handler info r w =
      if not (text_eq (clean r.url_path) info.identity_path)
      then some (not_found w)
      else if not (hash_matches info r)
      then some (not_found w)
      else serve_encoding info r (negotiate_encoding f r.accept info.encodings) w
