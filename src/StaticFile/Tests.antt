-- ===== src/StaticFile/Tests.antt =====
-- Runs of the handler of a static file, and its theorems at a concrete file.
use xtemplate.Prelude.{◌≡◌, refl, true, some, [], ◌∷◌, codes, arith, text_eq, if◌then◌else◌}
use xtemplate.Prelude.Errors.{ok, err, external}
use xtemplate.Http.{no_response, write}
use xtemplate.Negotiate.{identity}
use xtemplate.Negotiate.Floats.{tenths}
use xtemplate.StaticFile.{FileInfo, Request, Files, World, static_file_handler}
use xtemplate.StaticFile.Laws.{static_closes}

abbrev reset_css : FileInfo
reset_css = record {
  identity_path = codes "/reset.css";
  hash = codes "sha384-x";
  content_type = codes "text/css; charset=utf-8";
  encodings =
      record { encoding = codes "gzip"; path = codes "reset.css.gz"; size = 700; modtime = 1 }
      ∷ record { encoding = identity; path = codes "reset.css"; size = 2769; modtime = 1 }
      ∷ [];
}

-- Two files; `ServeContent` writes the path.
abbrev two_files : Files
two_files = record {
  open_ = λ p.
      if text_eq p (codes "reset.css.gz")
      then ok 1
      else if text_eq p (codes "reset.css")
      then ok 2
      else err (external 2);
  can_seek = λ file. true;
  serve_content = λ r path t file w. write path w;
}

abbrev with_hash : Request
with_hash = record {
  url_path = codes "/./reset.css";
  query_hash = codes "sha384-x";
  accept = codes "gzip" ∷ [];
}

abbrev idle : World
idle = record { response = no_response; opened = 0 }

static_closes_example :
    (u : World) × (static_file_handler tenths two_files reset_css with_hash idle ≡ some u)
    × (u.opened ≡ 0)
static_closes_example =
    static_closes tenths two_files reset_css with_hash idle (omega arith) (λ path file h. refl)
