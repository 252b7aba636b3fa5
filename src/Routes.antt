-- ===== src/Routes.antt =====
-- build.go, `addTemplateHandler`: which route a template gets by its name.
pub mod Laws
mod Tests
use xtemplate.Prelude.{
  ℕ, Bool, true, false, not, ◌&&◌, ◌||◌, Option, none, some, List, [], ◌∷◌, ◌++◌, Text, codes,
  text_eq, any, ◌==◌, if◌then◌else◌,
}
use xtemplate.Strings.{trim_suffix, strip_prefix}
use xtemplate.Paths.{clean, base, dir, split_path}

-- The handler of a route: `staticFileHandler`, or one of the two template handlers with its template.
pub data Handler : Type 0 where
  static_handler : Handler
  buffering : ℕ → Handler
  flushing : ℕ → Handler

starts_with_dot : Text → Bool
starts_with_dot [] = false
starts_with_dot (c ∷ s) = c == b'.'

-- `_, file := filepath.Split(path_)`, and the test of its first character
pub is_hidden : Text → Bool
unfolding starts_with_dot split_path
is_hidden path = starts_with_dot (split_path path).1

pub index_path : Text → Text
unfolding base dir text_eq
index_path p =
    if text_eq (base p) (codes "index")
    then dir p ++ codes "/"
    else if text_eq (base p) (codes "index{$}")
    then dir p ++ codes "/{$}"
    else p

-- The path that a template file handles.
pub route_path : Text → Text → Text
unfolding index_path clean trim_suffix
route_path extension path = clean (index_path (trim_suffix path extension))

-- The dot of the regular expression does not match a newline.
one_line : Text → Option Text
one_line s = if any (λ c. c == 10) s then none else some s

-- One alternative of `routeMatcher`: what follows the method and the blank.
pub after_method : Text → Text → Option Text
unfolding one_line strip_prefix
after_method method name = elim (strip_prefix (method ++ codes " ") name) [
  | none ↦ none
  | some rest ↦ one_line rest
]

pub methods : List Text
methods =
    codes "GET" ∷ codes "POST" ∷ codes "PUT" ∷ codes "PATCH" ∷ codes "DELETE" ∷ codes "SSE" ∷ []

-- `routeMatcher.FindStringSubmatch(name)`: the method and the path. No method with a blank is the
-- beginning of another.
pub match_route : List Text → Text → Option (Text × Text)
unfolding after_method
match_route [] name = none
match_route (m ∷ ms) name =
    let others = match_route ms name in
    elim (after_method m name) [ some rest ↦ some (m, rest) | none ↦ others ]

pub method_route : ℕ → Option (Text × Text) → Option (Text × Handler)
unfolding text_eq
method_route tmpl none = none
method_route tmpl (some (method, path)) =
    if text_eq method (codes "SSE")
    then some (codes "GET " ++ path, flushing tmpl)
    else some (method ++ (codes " " ++ path), buffering tmpl)

-- The pattern and the handler of the template `name` of the file `path`, if it has a route.
unfoldable pub template_route : Text → Text → Text → ℕ → Option (Text × Handler)
unfolding is_hidden route_path match_route methods method_route text_eq
template_route extension path name tmpl =
    if text_eq name path
    then (if is_hidden path
        then none
        else some (codes "GET " ++ route_path extension path, buffering tmpl))
    else method_route tmpl (match_route methods name)
