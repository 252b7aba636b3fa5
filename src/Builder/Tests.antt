-- ===== src/Builder/Tests.antt =====
-- Runs of the builder, and its theorems at a directory with three files.
mod Sorting
use xtemplate.Prelude.{
  ℕ, ◌≡◌, ◌≤◌, ◌⊎◌, refl, arith, Bool, true, ◌||◌, ◌+◌, ap, length, Bool-cases, inl, inr, Option,
  none, some, List, [], ◌∷◌, Text, codes, text_eq, leb, ◌==◌, any, All, if◌then◌else◌,
}
use xtemplate.Prelude.Errors.{ok, err, errorf, text, int, external}
use xtemplate.Paths.{ext}
use xtemplate.Http.{no_response, write}
use xtemplate.Negotiate.{EncodingInfo, identity, index_of}
use xtemplate.StaticFile.{FileInfo, Request, Files, World}
use xtemplate.Routes.{static_handler, buffering, flushing}
use xtemplate.Builder.Templates.{walk}
use xtemplate.Builder.{
  Sources, Builder, new_builder, find_file, stem, add_static_file_handler, get_pattern,
}
use xtemplate.Builder.Counts.{encodings_in}
use xtemplate.Builder.Templates.Counts.{walk_counts}
use xtemplate.Builder.Tests.Sorting.{sort, sort-SortsBySize}
use xtemplate.Builder.Entries.{IsSorted, SortsBySize}
use xtemplate.Builder.Laws.{RefusesTwice, built_files, stem_clash}

refuse : List Text → Text → Option ℕ
refuse router p = if any (λ q. text_eq q p) router then some 0 else none

refuse-RefusesTwice : RefusesTwice refuse
unfolding refuse
refuse-RefusesTwice router p h = (0, rw h refl)

-- Each file has the size 9, but a.css.gz; the content of all is "x".
abbrev sources : Sources
sources = record {
  open_ = λ p. ok (if text_eq p (codes "a.css.gz") then 1 else 0);
  stat = λ file. ok ((if file == 1 then 4 else 9), 0);
  gzip_reader = λ file. ok file;
  zstd_reader = λ file. err (external 3);
  brotli_reader = λ file. file;
  hash_reader = λ file. ok (codes "sha384-x");
  detect = λ file. ok (codes "text/plain");
  sort_by_size = sort;
  handle_func = refuse;
  template_extension = codes ".html";
  read_file = λ p. ok [];
  minify = none;
  parse = λ p content. ok ((p, 0) ∷ (codes "SSE /events", 1) ∷ []);
  add_parse_tree = λ name tree. ok tree;
}

-- `index.html` defines a page, and a template that streams.
abbrev directory : List Text
directory = codes "a.css" ∷ codes "a.css.gz" ∷ codes "b" ∷ codes "index.html" ∷ []

abbrev info : Text → Text → ℕ → EncodingInfo
info name path size = record { encoding = name; path = path; size = size; modtime = 0 }

abbrev a_css : FileInfo
a_css = record {
  identity_path = codes "/a.css";
  hash = codes "sha384-x";
  content_type = codes "text/css; charset=utf-8";
  encodings = info (codes "gzip") (codes "a.css.gz") 4 ∷ info identity (codes "a.css") 9 ∷ [];
}

walk_found : find_file (codes "/a.css") (walk sources directory new_builder).0.files ≡ some a_css
unfolding walk refuse sort
walk_found = refl

walk_finishes : (walk sources directory new_builder).1 ≡ none
unfolding walk refuse
walk_finishes = refl

walk_routes :
    (walk sources directory new_builder).0.routes
    ≡ (codes "GET /a.css", static_handler)
      ∷ (codes "GET /b", static_handler)
      ∷ (codes "GET /", buffering 0)
      ∷ (codes "GET /events", flushing 1)
      ∷ []
unfolding walk refuse
walk_routes = refl

-- Beside `b`, the file `b.txt` is refused.
walk_clashes :
    (walk sources (codes "b" ∷ codes "b.txt" ∷ []) new_builder).1
    ≡ some
        (errorf "failed to add handler to servemux '%s': %v" (text (codes "GET /b") ∷ int 0 ∷ []))
unfolding walk refuse
walk_clashes = refl

abbrev counted : Builder
counted = (walk sources directory new_builder).0

walk_counts_example :
    (counted.route_count ≡ length counted.routes)
    × (length counted.templates ≤ counted.template_definitions)
    × (counted.static_files ≡ length counted.files)
    × (counted.static_files + counted.alternate_encodings ≡ encodings_in counted.files)
    × (counted.template_files + counted.static_files + counted.alternate_encodings
        ≡ length directory)
walk_counts_example =
    walk_counts sources sort-SortsBySize refuse-RefusesTwice directory counted
      (ap (λ e. (counted, e)) walk_finishes)

built_files_example :
    (a_css.identity_path ≡ codes "/a.css")
    × ((j : ℕ) × (index_of identity a_css.encodings ≡ some j))
    × IsSorted a_css.encodings
    × (any
          (λ p. text_eq p (get_pattern (codes "/a.css")))
          (walk sources directory new_builder).0.router
        ≡ true)
built_files_example = built_files sources directory (codes "/a.css") sort-SortsBySize walk_found

abbrev two_files : Files
two_files = record {
  open_ = λ p. if text_eq p (codes "a.css.gz") then ok 1 else err (external 2);
  can_seek = λ file. true;
  serve_content = λ r path t file w. write path w;
}

abbrev request : Request
request = record { url_path = codes "/a.css"; query_hash = []; accept = codes "gzip" ∷ [] }

abbrev idle : World
idle = record { response = no_response; opened = 0 }

stem_clash_example :
    (ext (codes "a.css.gz") ≡ codes ".gz")
    ⊎ ((ext (codes "a.css.gz") ≡ codes ".zst") ⊎ (ext (codes "a.css.gz") ≡ codes ".br"))
unfolding walk stem add_static_file_handler refuse
stem_clash_example =
    stem_clash sources directory (codes "a.css.gz") sort-SortsBySize refuse-RefusesTwice walk_found
      refl

abbrev hashed_request : Request
hashed_request = record { url_path = codes "/a.css"; query_hash = codes "sha384-x"; accept = [] }
