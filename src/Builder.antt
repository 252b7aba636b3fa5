-- ===== src/Builder.antt =====
-- build.go, the builder: the files of the templates directory that are not templates, with the compressed
-- files beside them as encodings.
pub mod Entries
pub mod Loads
pub mod Templates
pub mod Invariant
pub mod Counts
pub mod Laws
mod Tests
use xtemplate.Prelude.{
  ℕ, ◌+◌, Bool, true, false, not, Option, none, some, List, [], ◌∷◌, ◌++◌, Text, codes, text_eq,
  if◌then◌else◌,
}
use xtemplate.Prelude.Errors.{Error, Result, ok, err, errorf, wrapf, text, int}
use xtemplate.Routes.{Handler, static_handler, template_route}
use xtemplate.Strings.{has_suffix, trim_suffix}
use xtemplate.Paths.{clean, ext}
use xtemplate.Negotiate.{EncodingInfo, identity}
use xtemplate.StaticFile.{FileInfo}

-- What the builder calls and reads of the configuration: the file system, whose files must be
-- `io.ReadSeeker`s (the builder panics at another, which is not modelled), the decompressors, the hash of what a reader yields as it
-- is written in `sri`, the detection of a content type, `sort.Slice` by size, and
-- `ServeMux.HandleFunc`, which may panic with a value on account of the patterns it has; the minifier,
-- if there is one, the parser, which returns a map as a list in the order it is gone through, and
-- `AddParseTree`.
pub record Sources : Type 0 where
  pub open_ : Text → Result ℕ
  pub stat : ℕ → Result (ℕ × ℕ)
  pub gzip_reader : ℕ → Result ℕ
  pub zstd_reader : ℕ → Result ℕ
  pub brotli_reader : ℕ → ℕ
  pub hash_reader : ℕ → Result Text
  pub detect : ℕ → Result Text
  pub sort_by_size : List EncodingInfo → List EncodingInfo
  pub handle_func : List Text → Text → Option ℕ
  pub template_extension : Text
  pub read_file : Text → Result Text
  pub minify : Option (Text → Result Text)
  pub parse : Text → Text → Result (List (Text × ℕ))
  pub add_parse_tree : Text → ℕ → Result ℕ

-- `files`, a map of pointers, `router`, `routes` and the counters.
pub record Builder : Type 0 where
  pub files : List (Text × FileInfo)
  pub router : List Text
  pub routes : List (Text × Handler)
  pub route_count : ℕ
  pub static_files : ℕ
  pub alternate_encodings : ℕ
  pub template_files : ℕ
  pub template_definitions : ℕ
  pub templates : List (Text × ℕ)

abbrev pub new_builder : Builder
new_builder = record {
  files = [];
  router = [];
  routes = [];
  route_count = 0;
  static_files = 0;
  alternate_encodings = 0;
  template_files = 0;
  template_definitions = 0;
  templates = [];
}

pub find_file : Text → List (Text × FileInfo) → Option FileInfo
unfolding text_eq
find_file k [] = none
find_file k ((j, f) ∷ fs) = let rest = find_file k fs in if text_eq j k then some f else rest

-- `files[k] = f`, or a write to the `fileInfo` that `files[k]` points to
pub put_file : Text → FileInfo → List (Text × FileInfo) → List (Text × FileInfo)
unfolding text_eq
put_file k f [] = (k, f) ∷ []
put_file k f ((j, g) ∷ fs) =
    let rest = put_file k f fs in if text_eq j k then (k, f) ∷ fs else (j, g) ∷ rest

pub full_path : Text → Text
unfolding clean
full_path path = clean (b'/' ∷ path)

-- The path without its extension: that of the file which this one may be an encoding of.
pub stem : Text → Text
unfolding full_path trim_suffix ext
stem path = trim_suffix (full_path path) (ext path)

pub with_reader : Text → Text → Result ℕ → Result (Text × ℕ)
with_reader encoding path (ok r) = ok (encoding, r)
with_reader encoding path (err e) =
    err (wrapf "failed to create decompressor for file `%s`: %w" (text path ∷ []) e)

-- The encoding and the reader; the switch has no default.
pub encoding_of : Sources → Text → ℕ → Option FileInfo → Result (Text × ℕ)
unfolding with_reader text_eq ext
encoding_of s path file none = ok (identity, file)
encoding_of s path file (some f) =
    if text_eq (ext path) (codes ".gz")
    then with_reader (codes "gzip") path (s.gzip_reader file)
    else if text_eq (ext path) (codes ".zst")
    then with_reader (codes "zstd") path (s.zstd_reader file)
    else if text_eq (ext path) (codes ".br")
    then ok (codes "br", s.brotli_reader file)
    else ok (identity, file)

-- `identityPath`
pub key_of : Text → Option FileInfo → Text
unfolding stem full_path
key_of path none = full_path path
key_of path (some f) = stem path

-- The local variables where `encoding == "identity"` is tested; `known` is the `fileInfo` that was
-- found at the stem.
pub record Loaded : Type 0 where
  pub path : Text
  pub file : ℕ
  pub known : Option FileInfo
  pub key : Text
  pub info : EncodingInfo
  pub sri : Text

load_hashed : Text → Option FileInfo → ℕ → ℕ × ℕ → Text × ℕ → Result Text → Result Loaded
unfolding key_of
load_hashed path known file st enc (err e) = err (wrapf "failed to hash file %w" [] e)
load_hashed path known file st enc (ok sri) = ok (record {
  path = path;
  file = file;
  known = known;
  key = key_of path known;
  info = record { encoding = enc.0; path = path; size = st.0; modtime = st.1 };
  sri = sri;
})

load_decoded : Sources → Text → Option FileInfo → ℕ → ℕ × ℕ → Result (Text × ℕ) → Result Loaded
unfolding load_hashed
load_decoded s path known file st (err e) = err e
load_decoded s path known file st (ok enc) =
    load_hashed path known file st enc (s.hash_reader enc.1)

load_stated : Sources → Text → Option FileInfo → ℕ → Result (ℕ × ℕ) → Result Loaded
unfolding load_decoded encoding_of
load_stated s path known file (err e) =
    err (wrapf "failed to stat file '%s': %w" (text path ∷ []) e)
load_stated s path known file (ok st) =
    load_decoded s path known file st (encoding_of s path file known)

load_opened : Sources → Text → Option FileInfo → Result ℕ → Result Loaded
unfolding load_stated
load_opened s path known (err e) =
    err (wrapf "failed to open static file '%s': %w" (text path ∷ []) e)
load_opened s path known (ok file) = load_stated s path known file (s.stat file)

-- The part before the test of `encoding`, which changes nothing.
pub load : Sources → Text → Builder → Result Loaded
unfolding load_opened find_file stem
load s path b = load_opened s path (find_file (stem path) b.files) (s.open_ path)

-- `file`: what was found, or a new one
pub known_file : Option FileInfo → FileInfo
known_file none = record { identity_path = []; hash = []; content_type = []; encodings = [] }
known_file (some f) = f

-- A write to `file`, which the map shows if it was found there.
pub write_file : Loaded → FileInfo → Builder → Builder
unfolding put_file
write_file x f b = elim x.known [
  | none ↦ b
  | some g ↦ record b { files = put_file x.key f b.files }
]

abbrev extension_content_type : Text → Option Text
extension_content_type e =
    if text_eq e (codes ".css")
    then some (codes "text/css; charset=utf-8")
    else if text_eq e (codes ".js")
    then some (codes "text/javascript; charset=utf-8")
    else if text_eq e (codes ".csv")
    then some (codes "text/csv")
    else none

pub content_type_of : Sources → Loaded → Result Text
unfolding text_eq ext
content_type_of s x = elim (extension_content_type (ext x.path)) [
  | some t ↦ ok t
  | none ↦ elim (s.detect x.file) [
    | ok t ↦ ok t
    | err e ↦ err (wrapf "failed to read file to guess content type '%s': %w" (text x.path ∷ []) e)
  ]
]

pub get_pattern : Text → Text
get_pattern path = codes "GET " ++ path

-- `catch(…, func() { b.router.HandleFunc(pattern, handler) })`, and then the route and its count.
pub add_route : Sources → Text → Handler → Builder → Builder × Option Error
add_route s pattern handler b = elim (s.handle_func b.router pattern) [
  | some v ↦
      (b, some (errorf "failed to add handler to servemux '%s': %v" (text pattern ∷ int v ∷ [])))
  | none ↦ (
    record b {
      router = pattern ∷ b.router;
      routes = b.routes ++ (pattern, handler) ∷ [];
      route_count = b.route_count + 1;
    },
    none,
  )
]

count_static : Loaded → FileInfo → Builder × Option Error → Builder × Option Error
unfolding put_file
count_static x f (b, some e) = (b, some e)
count_static x f (b, none) =
    (record b { static_files = b.static_files + 1; files = put_file x.key f b.files }, none)

pub add_typed : Sources → Loaded → FileInfo → Result Text → Builder → Builder × Option Error
unfolding write_file add_route get_pattern count_static
add_typed s x f (err e) b = (write_file x f b, some e)
add_typed s x f (ok t) b =
    let g = record f { content_type = t; encodings = x.info ∷ [] } in
    count_static x g (add_route s (get_pattern x.key) static_handler (write_file x g b))

pub add_identity : Sources → Loaded → Builder → Builder × Option Error
unfolding add_typed content_type_of known_file
add_identity s x b =
    add_typed s x (record (known_file x.known) { hash = x.sri; identity_path = x.key })
      (content_type_of s x) b

pub add_alternate : Sources → Loaded → Builder → Builder × Option Error
unfolding known_file write_file text_eq
add_alternate s x b =
    let f = known_file x.known in
    let g = record f { encodings = s.sort_by_size (f.encodings ++ x.info ∷ []) } in
    let w = write_file x g b in
    if text_eq f.hash x.sri
    then (record w { alternate_encodings = w.alternate_encodings + 1 }, none)
    else (
      b,
      some (
          errorf "encoded file contents did not match original file '%s': expected %s, got %s"
            (text x.path ∷ text f.hash ∷ text x.sri ∷ [])),
    )

pub add_loaded : Sources → Result Loaded → Builder → Builder × Option Error
unfolding add_identity add_alternate text_eq
add_loaded s (err e) b = (b, some e)
add_loaded s (ok x) b =
    if text_eq x.info.encoding identity then add_identity s x b else add_alternate s x b

pub add_static_file_handler : Sources → Text → Builder → Builder × Option Error
unfolding add_loaded load
add_static_file_handler s path b = add_loaded s (load s path b) b

-- `DotX.StaticFileHash` of dot_instance.go, on the files of the instance.
pub static_file_hash : List (Text × FileInfo) → Text → Result Text
unfolding find_file full_path
static_file_hash files urlpath = elim (find_file (full_path urlpath) files) [
  | none ↦ err (errorf "file does not exist: '%s'" (text (full_path urlpath) ∷ []))
  | some f ↦ ok f.hash
]
