-- ===== src/Builder/Templates/Walks.antt =====
-- The invariant of the map of static files through `addTemplateHandler` and the walk.
use xtemplate.Prelude.{
  ℕ, ◌+◌, ◌≡◌, refl, ◌⊎◌, inl, inr, Bool-cases, Option, none, some, Option-cases, List, [], ◌∷◌,
  Text,
}
use xtemplate.Prelude.Errors.{Error, Result, ok, err}
use xtemplate.Strings.{has_suffix}
use xtemplate.Routes.{Handler, template_route}
use xtemplate.Builder.{Sources, Builder, load, add_route, add_static_file_handler}
use xtemplate.Builder.Entries.{SortsBySize, Entries-routed}
use xtemplate.Builder.Invariant.{Sound, load-KnownFits, add_loaded-Sound}
use xtemplate.Builder.Templates.{
  unless_failed, add_template_route, put_template, template_loop, add_parsed, add_minified,
  add_content, add_template_handler, add_file, walk,
}

unless_failed-Sound :
    (rest : Builder → Builder × Option Error) (r : Builder × Option Error)
    → ((c : Builder) → Sound c → Sound (rest c).0)
    → Sound r.0
    → Sound (unless_failed rest r).0
unfolding unless_failed
unless_failed-Sound rest (c, some e) hs h = h
unless_failed-Sound rest (c, none) hs h = hs c h

add_template_route-Sound :
    (s : Sources) (o : Option (Text × Handler)) (b : Builder)
    → Sound b
    → Sound (add_template_route s o b).0
unfolding add_template_route add_route
add_template_route-Sound s none b hs = hs
add_template_route-Sound s (some (pattern, handler)) b hs =
    elim (Option-cases (s.handle_func b.router pattern)) [
      | inr (v, panics) ↦ rw (add_route, panics) hs
      | inl fine ↦ rw (add_route, fine) (Entries-routed b.router pattern b.files hs)
    ]

pub result_cases :
    {A : Type 0} (r : Result A) → ((a : A) × (r ≡ ok a)) ⊎ ((e : Error) × (r ≡ err e))
result_cases (ok a) = inl (a, refl)
result_cases (err e) = inr (e, refl)

template_loop-Sound :
    (s : Sources) (path : Text) (trees : List (Text × ℕ)) (b : Builder)
    → Sound b
    → Sound (template_loop s path trees b).0
unfolding template_loop
template_loop-Sound s path [] b hs = hs
template_loop-Sound s path ((name, tree) ∷ trees) b hs =
    elim (result_cases (s.add_parse_tree name tree)) [
      | inr (e, fails) ↦ rw (put_template, template_loop, fails) hs
      | inl (tmpl, added) ↦
          let c : Builder = record b {
            template_definitions = b.template_definitions + 1;
            templates = put_template name tmpl b.templates;
          } in
          let route = template_route s.template_extension path name tmpl in
          rw (put_template, template_loop, added)
            (unless_failed-Sound (template_loop s path trees) (add_template_route s route c)
              (λ d h. template_loop-Sound s path trees d h) (add_template_route-Sound s route c hs))
    ]

add_parsed-Sound :
    (s : Sources) (path : Text) (r : Result (List (Text × ℕ))) (b : Builder)
    → Sound b
    → Sound (add_parsed s path r b).0
unfolding add_parsed
add_parsed-Sound s path (err e) b hs = hs
add_parsed-Sound s path (ok trees) b hs = template_loop-Sound s path trees _ hs

add_minified-Sound :
    (s : Sources) (path : Text) (r : Result Text) (b : Builder)
    → Sound b
    → Sound (add_minified s path r b).0
unfolding add_minified
add_minified-Sound s path (err e) b hs = hs
add_minified-Sound s path (ok content) b hs = add_parsed-Sound s _ _ b hs

add_content-Sound :
    (s : Sources) (path : Text) (r : Result Text) (b : Builder)
    → Sound b
    → Sound (add_content s path r b).0
unfolding add_content
add_content-Sound s path (err e) b hs = hs
add_content-Sound s path (ok content) b hs = add_minified-Sound s path _ b hs

pub add_file-Sound :
    (s : Sources) (path : Text) (b : Builder)
    → SortsBySize s.sort_by_size
    → Sound b
    → Sound (add_file s path b).0
unfolding add_file add_static_file_handler add_template_handler
add_file-Sound s path b sorts hs = elim (Bool-cases (has_suffix path s.template_extension)) [
  | inl page ↦ rw (add_file, page) (add_content-Sound s path (s.read_file path) b hs)
  | inr other ↦
      rw (add_file, other)
        (add_loaded-Sound s (load s path b) b sorts (λ x h. load-KnownFits s path b h hs) hs)
]

pub walk-Sound :
    (s : Sources) (paths : List Text) (b : Builder)
    → SortsBySize s.sort_by_size
    → Sound b
    → Sound (walk s paths b).0
unfolding walk
walk-Sound s [] b sorts hs = hs
walk-Sound s (path ∷ paths) b sorts hs =
    unless_failed-Sound (walk s paths) (add_file s path b) (λ c h. walk-Sound s paths c sorts h)
      (add_file-Sound s path b sorts hs)
