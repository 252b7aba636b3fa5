-- ===== src/Builder/Templates/Counts.antt =====
-- The counters of the builder through `addTemplateHandler` and the walk over the files.
use mathlib.Core.Path.{subst}
use xtemplate.Prelude.{
  ℕ, ◌+◌, ◌≡◌, ◌≤◌, text_eq, refl, ap, arith, Bool-cases, inl, inr, Option, none, some, List, [],
  ◌∷◌, Text, length, length-append,
}
use xtemplate.Prelude.Errors.{Error, Result, ok, err}
use xtemplate.Strings.{has_suffix}
use xtemplate.Routes.{Handler, template_route}
use xtemplate.Builder.{Sources, Builder, new_builder}
use xtemplate.Builder.Entries.{SortsBySize}
use xtemplate.Builder.Invariant.{Sound}
use xtemplate.Builder.Templates.{
  unless_failed, add_template_route, put_template, template_loop, add_parsed, add_minified,
  add_content, add_template_handler, add_file, walk,
}
use xtemplate.Builder.Templates.Walks.{add_file-Sound, result_cases}
use xtemplate.Builder.Laws.{RefusesTwice}
use xtemplate.Builder.Counts.{encodings_in, IsCounted, Adds, add_route-none}
use xtemplate.Builder.Counts.Statics.{add_static_file_handler-Adds}

unless_failed-none :
    (rest : Builder → Builder × Option Error) (r : Builder × Option Error) (c : Builder)
    → unless_failed rest r ≡ (c, none)
    → (d : Builder) × (r ≡ (d, none)) × (rest d ≡ (c, none))
unfolding unless_failed
unless_failed-none rest (d, none) c h = (d, refl, h)
unless_failed-none rest (d, some e) c h = absurd (ground (arith, h))

add_template_route-Adds :
    (s : Sources) (o : Option (Text × Handler)) (b c : Builder)
    → IsCounted b
    → add_template_route s o b ≡ (c, none)
    → Adds 0 b c
unfolding add_template_route
add_template_route-Adds s none b c counted h =
    let same : b ≡ c = ap (λ r. r.0) h in rw (← same) (counted, omega arith)
add_template_route-Adds s (some (p, handler)) b c counted h =
    let (free, is) = add_route-none s p handler b c h in
    rw is (
      record {
        by_routes = omega (arith, counted.by_routes, length-append b.routes ((p, handler) ∷ []));
        by_templates = counted.by_templates;
        by_files = counted.by_files;
        by_encodings = counted.by_encodings;
      },
      omega arith,
    )

length-put_template :
    (name : Text) (tmpl : ℕ) (ts : List (Text × ℕ))
    → length (put_template name tmpl ts) ≤ 1 + length ts
unfolding put_template
length-put_template name tmpl [] = omega arith
length-put_template name tmpl ((other, old) ∷ ts) = elim (Bool-cases (text_eq other name)) [
  | inl same ↦ rw same (omega arith)
  | inr differs ↦ rw differs (omega (arith, length-put_template name tmpl ts))
]

template_loop-Adds :
    (s : Sources) (path : Text) (trees : List (Text × ℕ)) (b c : Builder)
    → IsCounted b
    → template_loop s path trees b ≡ (c, none)
    → Adds 0 b c
unfolding template_loop
template_loop-Adds s path [] b c counted h =
    let same : b ≡ c = ap (λ r. r.0) h in rw (← same) (counted, omega arith)
template_loop-Adds s path ((name, tree) ∷ trees) b c counted h =
    elim (result_cases (s.add_parse_tree name tree)) [
      | inr (e, fails) ↦ absurd (ground (arith, rw (template_loop, fails) at h))
      | inl (tmpl, parsed) ↦
          let u : Builder = record b {
            template_definitions = b.template_definitions + 1;
            templates = put_template name tmpl b.templates;
          } in
          let counted_u : IsCounted u = record {
            by_routes = counted.by_routes;
            by_templates =
                omega (arith, counted.by_templates, length-put_template name tmpl b.templates);
            by_files = counted.by_files;
            by_encodings = counted.by_encodings;
          } in
          let (d, routed, rest) =
            unless_failed-none (template_loop s path trees)
              (add_template_route s (template_route s.template_extension path name tmpl) u) c
              (rw (template_loop, parsed) at h) in
          let (counted_d, same_d) = add_template_route-Adds s _ u d counted_u routed in
          let (counted_c, same_c) = template_loop-Adds s path trees d c counted_d rest in
          (counted_c, omega (arith, same_c, same_d))
    ]

add_parsed-Adds :
    (s : Sources) (path : Text) (r : Result (List (Text × ℕ))) (b c : Builder)
    → IsCounted b
    → add_parsed s path r b ≡ (c, none)
    → Adds 1 b c
unfolding add_parsed
add_parsed-Adds s path (err e) b c counted h = absurd (ground (arith, h))
add_parsed-Adds s path (ok trees) b c counted h =
    let u : Builder = record b { template_files = b.template_files + 1 } in
    let counted_u : IsCounted u = record {
      by_routes = counted.by_routes;
      by_templates = counted.by_templates;
      by_files = counted.by_files;
      by_encodings = counted.by_encodings;
    } in
    let (counted_c, same) = template_loop-Adds s path trees u c counted_u h in
    (counted_c, omega (arith, same))

add_minified-Adds :
    (s : Sources) (path : Text) (r : Result Text) (b c : Builder)
    → IsCounted b
    → add_minified s path r b ≡ (c, none)
    → Adds 1 b c
unfolding add_minified
add_minified-Adds s path (err e) b c counted h = absurd (ground (arith, h))
add_minified-Adds s path (ok content) b c counted h = add_parsed-Adds s _ _ b c counted h

add_content-Adds :
    (s : Sources) (path : Text) (r : Result Text) (b c : Builder)
    → IsCounted b
    → add_content s path r b ≡ (c, none)
    → Adds 1 b c
unfolding add_content
add_content-Adds s path (err e) b c counted h = absurd (ground (arith, h))
add_content-Adds s path (ok content) b c counted h = add_minified-Adds s path _ b c counted h

module _ (s : Sources) (sorts : SortsBySize s.sort_by_size) (mux : RefusesTwice s.handle_func) where
  add_file-Adds :
      (path : Text) (b c : Builder)
      → Sound b
      → IsCounted b
      → add_file s path b ≡ (c, none)
      → Adds 1 b c
  unfolding add_file add_template_handler
  add_file-Adds path b c sound counted h =
      elim (Bool-cases (has_suffix path s.template_extension)) [
        | inl page ↦
            add_content-Adds s path (s.read_file path) b c counted (rw (add_file, page) at h)
        | inr other ↦
            add_static_file_handler-Adds s path b c sorts mux sound counted
              (rw (add_file, other) at h)
      ]

  walk-Adds :
      (paths : List Text) (b c : Builder)
      → Sound b
      → IsCounted b
      → walk s paths b ≡ (c, none)
      → Adds (length paths) b c
  unfolding walk
  walk-Adds [] b c sound counted h =
      let same : b ≡ c = ap (λ r. r.0) h in rw (← same) (counted, omega arith)
  walk-Adds (path ∷ paths) b c sound counted h =
      let (d, first, rest) = unless_failed-none (walk s paths) (add_file s path b) c h in
      let (counted_d, one) = add_file-Adds path b d sound counted first in
      let (counted_c, more) =
        walk-Adds paths d c
          (subst Sound (ap (λ r. r.0) first) (add_file-Sound s path b sorts sound)) counted_d
          rest in
      (counted_c, omega (arith, one, more))

  -- If the walk ends without an error, what the instance reports fits what it has: the counts of routes
  -- and of static files are those of the router's routes and of the entries in the map; there are at
  -- most as many templates as definitions were counted (one may override another); the static files and alternate encodings together are the
  -- encodings in the map; and each file that the walk met was counted once, as a template file, a
  -- static file or an alternate encoding.
  pub walk_counts :
      (paths : List Text) (c : Builder)
      → walk s paths new_builder ≡ (c, none)
      → (c.route_count ≡ length c.routes)
        × (length c.templates ≤ c.template_definitions)
        × (c.static_files ≡ length c.files)
        × (c.static_files + c.alternate_encodings ≡ encodings_in c.files)
        × (c.template_files + c.static_files + c.alternate_encodings ≡ length paths)
  walk_counts paths c h =
      let start : IsCounted new_builder = record {
        by_routes = refl;
        by_templates = omega arith;
        by_files = refl;
        by_encodings = unfold encodings_in in refl;
      } in
      let (k, sum) = walk-Adds paths new_builder c tt start h in
      (k.by_routes, k.by_templates, k.by_files, k.by_encodings, omega (arith, sum))
