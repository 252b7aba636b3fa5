-- ===== src/Builder/Templates.antt =====
-- build.go, `addTemplateHandler`, and the walk over the files in instance.go.
pub mod Walks
pub mod Counts
use xtemplate.Prelude.{
  ℕ, ◌+◌, Bool, true, false, not, Option, none, some, List, [], ◌∷◌, ◌++◌, Text, codes, text_eq,
  if◌then◌else◌,
}
use xtemplate.Prelude.Errors.{Error, Result, ok, err, errorf, wrapf, text, int}
use xtemplate.Routes.{Handler, static_handler, template_route}
use xtemplate.Strings.{has_suffix, trim_suffix}
use xtemplate.Paths.{clean, ext}
use xtemplate.Negotiate.{EncodingInfo, identity}
use xtemplate.StaticFile.{FileInfo}
use xtemplate.Builder.{Sources, Builder, full_path, add_route, add_static_file_handler}

unless_failed : (Builder → Builder × Option Error) → Builder × Option Error → Builder × Option Error
unless_failed rest (b, some e) = (b, some e)
unless_failed rest (b, none) = rest b

add_template_route : Sources → Option (Text × Handler) → Builder → Builder × Option Error
unfolding add_route
add_template_route s none b = (b, none)
add_template_route s (some (pattern, handler)) b = add_route s pattern handler b

-- `b.templates.AddParseTree`: a definition takes the place of one with the same name.
unfoldable pub put_template : Text → ℕ → List (Text × ℕ) → List (Text × ℕ)
unfolding text_eq
put_template name tmpl [] = (name, tmpl) ∷ []
put_template name tmpl ((other, old) ∷ ts) =
    let rest = put_template name tmpl ts in
    if text_eq other name then (name, tmpl) ∷ ts else (other, old) ∷ rest

-- The loop over the parsed templates of a file. An error that is formatted by `%v` is not wrapped, and
-- its text is left out of the arguments.
pub template_loop : Sources → Text → List (Text × ℕ) → Builder → Builder × Option Error
unfolding unless_failed add_template_route template_route put_template
template_loop s path [] b = (b, none)
template_loop s path ((name, tree) ∷ trees) b = elim (s.add_parse_tree name tree) [
  | err e ↦
      (b, some (errorf "could not add template '%s' from '%s': %v" (text name ∷ text path ∷ [])))
  | ok tmpl ↦
      let c = record b {
        template_definitions = b.template_definitions + 1;
        templates = put_template name tmpl b.templates;
      } in
      unless_failed (template_loop s path trees)
        (add_template_route s (template_route s.template_extension path name tmpl) c)
]

minified : Option (Text → Result Text) → Text → Result Text
minified none content = ok content
minified (some m) content = m content

add_parsed : Sources → Text → Result (List (Text × ℕ)) → Builder → Builder × Option Error
unfolding template_loop
add_parsed s path (err e) b =
    (b, some (errorf "could not parse template file '%s': %v" (text path ∷ [])))
add_parsed s path (ok trees) b =
    template_loop s path trees (record b { template_files = b.template_files + 1 })

add_minified : Sources → Text → Result Text → Builder → Builder × Option Error
unfolding add_parsed full_path
add_minified s path (err e) b =
    (b, some (errorf "could not minify template file '%s': %v" (text path ∷ [])))
add_minified s path (ok content) b =
    add_parsed s (full_path path) (s.parse (full_path path) content) b

add_content : Sources → Text → Result Text → Builder → Builder × Option Error
unfolding add_minified minified
add_content s path (err e) b =
    (b, some (errorf "could not read template file '%s': %v" (text path ∷ [])))
add_content s path (ok content) b = add_minified s path (minified s.minify content) b

pub add_template_handler : Sources → Text → Builder → Builder × Option Error
unfolding add_content
add_template_handler s path b = add_content s path (s.read_file path) b

-- A file that `fs.WalkDir` finds in instance.go.
pub add_file : Sources → Text → Builder → Builder × Option Error
unfolding add_static_file_handler add_template_handler has_suffix
add_file s path b =
    if has_suffix path s.template_extension
    then add_template_handler s path b
    else add_static_file_handler s path b

-- The walk ends at the first error.
unfoldable pub walk : Sources → List Text → Builder → Builder × Option Error
unfolding add_file unless_failed
walk s [] b = (b, none)
walk s (path ∷ paths) b = unless_failed (walk s paths) (add_file s path b)
