-- ===== src/Builder/Counts.antt =====
-- The counters of the builder, which `Config.Instance` reports, against what the builder holds.
pub mod Statics
use xtemplate.Prelude.{
  ℕ, ◌+◌, ◌≡◌, ◌≤◌, refl, sym, ap, arith, Bool-cases, inl, inr, none, some, Option-cases, List, [],
  ◌∷◌, ◌++◌, Text, text_eq, length,
}
use xtemplate.StaticFile.{FileInfo}
use xtemplate.Routes.{Handler}
use xtemplate.Builder.{Sources, Builder, find_file, put_file, add_route}

unfoldable pub encodings_in : List (Text × FileInfo) → ℕ
encodings_in [] = 0
encodings_in ((k, f) ∷ fs) = length f.encodings + encodings_in fs

-- The files of the templates directory that have been added.
abbrev pub added : Builder → ℕ
added b = b.template_files + b.static_files + b.alternate_encodings

pub record IsCounted (b : Builder) : Type 0 where
  pub by_routes : b.route_count ≡ length b.routes
  pub by_templates : length b.templates ≤ b.template_definitions
  pub by_files : b.static_files ≡ length b.files
  pub by_encodings : b.static_files + b.alternate_encodings ≡ encodings_in b.files

-- `c` comes of `b` by `n` files.
abbrev pub Adds : ℕ → Builder → Builder → Type 0
Adds n b c = IsCounted c × (added c ≡ added b + n)

put_file-new :
    (k : Text) (f : FileInfo) (fs : List (Text × FileInfo))
    → find_file k fs ≡ none
    → (length (put_file k f fs) ≡ length fs + 1)
      × (encodings_in (put_file k f fs) ≡ encodings_in fs + length f.encodings)
unfolding find_file put_file encodings_in
put_file-new k f [] h = (refl, omega arith)
put_file-new k f ((j, g) ∷ fs) h = elim (Bool-cases (text_eq j k)) [
  | inl same ↦ absurd (ground (arith, rw (find_file, same) at h))
  | inr other ↦
      let (l, e) = put_file-new k f fs (rw (find_file, other) at h) in
      (rw (put_file, other) (omega (arith, l)), rw (put_file, other) (omega (arith, e)))
]

put_file-old :
    (k : Text) (f g : FileInfo) (fs : List (Text × FileInfo))
    → find_file k fs ≡ some g
    → (length (put_file k f fs) ≡ length fs)
      × (encodings_in (put_file k f fs) + length g.encodings ≡ encodings_in fs + length f.encodings)
unfolding find_file put_file encodings_in
put_file-old k f g [] h = absurd (ground (arith, h))
put_file-old k f g ((j, u) ∷ fs) h = elim (Bool-cases (text_eq j k)) [
  | inl same ↦
      let is : u ≡ g = ground (arith, rw (find_file, same) at h) in
      (rw (put_file, same) refl, rw (put_file, same, is) (omega arith))
  | inr other ↦
      let (l, e) = put_file-old k f g fs (rw (find_file, other) at h) in
      (rw (put_file, other) (omega (arith, l)), rw (put_file, other) (omega (arith, e)))
]

-- A route that is added without an error.
pub add_route-none :
    (s : Sources) (p : Text) (h : Handler) (b c : Builder)
    → add_route s p h b ≡ (c, none)
    → (s.handle_func b.router p ≡ none)
      × (c ≡ record b {
        router = p ∷ b.router;
        routes = b.routes ++ (p, h) ∷ [];
        route_count = b.route_count + 1;
      })
unfolding add_route
add_route-none s p h b c e = elim (Option-cases (s.handle_func b.router p)) [
  | inr (v, panics) ↦ absurd (ground (arith, rw (add_route, panics) at e))
  | inl fine ↦ (fine, sym (ap (λ r. r.0) (rw (add_route, fine) at e)))
]
