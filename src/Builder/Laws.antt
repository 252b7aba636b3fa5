-- ===== src/Builder/Laws.antt =====
-- What the builder has made of the static files.
use mathlib.Core.Path.{subst}
use xtemplate.Prelude.{
  ℕ, ◌≡◌, ◌≢◌, refl, sym, ◌∙◌, ap, arith, true, false, ◌⊎◌, inl, inr, Bool-cases, Option, none,
  some, Option-cases, List, [], ◌∷◌, Text, codes, text_eq, text_eq_iff, any,
}
use xtemplate.Prelude.Errors.{Result, ok, err}
use xtemplate.Paths.{ext}
use xtemplate.Negotiate.{EncodingInfo, identity, index_of}
use xtemplate.Negotiate.Laws.{any_of_missing}
use xtemplate.StaticFile.{FileInfo}
use xtemplate.Builder.Templates.{walk}
use xtemplate.Builder.{
  Sources, Builder, new_builder, find_file, stem, key_of, encoding_of, Loaded, load, write_file,
  get_pattern, add_route, count_static, add_typed, add_identity, add_loaded,
  add_static_file_handler,
}
use xtemplate.Builder.Entries.{IsSorted, SortsBySize, is_identity, IsEntry, find_file-IsEntry}
use xtemplate.Builder.Loads.{load-Found}
use xtemplate.Builder.Templates.Walks.{walk-Sound}

index_of-identity :
    (es : List EncodingInfo) → any is_identity es ≡ true → (j : ℕ) × (index_of identity es ≡ some j)
index_of-identity es h = elim (Option-cases (index_of identity es)) [
  | inl missing ↦ absurd (ground (arith, h, any_of_missing es identity missing))
  | inr found ↦ found
]

walk-IsEntry :
    (s : Sources) (is : List Text) (k : Text) {f : FileInfo}
    → SortsBySize s.sort_by_size
    → find_file k (walk s is new_builder).0.files ≡ some f
    → IsEntry (walk s is new_builder).0.router k f
walk-IsEntry s is k sorts found = find_file-IsEntry k _ (walk-Sound s is new_builder sorts tt) found

-- Whatever the walk has met, and also if it ended with an error: a file that the map has under a path
-- has this identity path and an identity encoding, its encodings are sorted by size, and the router
-- has the pattern for GET requests of the path.
pub built_files :
    (s : Sources) (is : List Text) (k : Text) {f : FileInfo}
    → SortsBySize s.sort_by_size
    → find_file k (walk s is new_builder).0.files ≡ some f
    → (f.identity_path ≡ k)
      × ((j : ℕ) × (index_of identity f.encodings ≡ some j))
      × IsSorted f.encodings
      × (any (λ p. text_eq p (get_pattern k)) (walk s is new_builder).0.router ≡ true)
built_files s is k {f} sorts found =
    let h = walk-IsEntry s is k sorts found in
    (h.path, index_of-identity f.encodings h.has_identity, h.sorted, h.routed)

-- `ServeMux.HandleFunc` panics if the pattern is registered.
abbrev pub RefusesTwice : (List Text → Text → Option ℕ) → Type 0
RefusesTwice handle_func =
    (router : List Text) (p : Text)
    → any (λ q. text_eq q p) router ≡ true
    → (v : ℕ) × (handle_func router p ≡ some v)

router-write_file : (x : Loaded) (f : FileInfo) (b : Builder) → (write_file x f b).router ≡ b.router
unfolding write_file
router-write_file x f b = elim (Option-cases x.known) [
  | inl missing ↦ rw (write_file, missing) refl
  | inr (g, found) ↦ rw (write_file, found) refl
]

pub add_typed-taken :
    (s : Sources) (x : Loaded) (f : FileInfo) (t : Result Text) (b : Builder) {v : ℕ}
    → s.handle_func b.router (get_pattern x.key) ≡ some v
    → (add_typed s x f t b).1 ≢ none
unfolding add_typed add_route count_static
add_typed-taken s x f (err e) b panics h = ground (arith, h)
add_typed-taken s x f (ok t) b panics h =
    let g = record f { content_type = t; encodings = x.info ∷ [] } in
    let refused =
      ap (λ router. s.handle_func router (get_pattern x.key)) (router-write_file x g b) ∙ panics in
    ground (arith, rw (add_typed, add_route, refused) at h)

encoding_of-other :
    (s : Sources) (path : Text) (file : ℕ) (f : FileInfo)
    → text_eq (ext path) (codes ".gz") ≡ false
    → text_eq (ext path) (codes ".zst") ≡ false
    → text_eq (ext path) (codes ".br") ≡ false
    → encoding_of s path file (some f) ≡ ok (identity, file)
unfolding encoding_of
encoding_of-other s path file f gz zst br = rw (encoding_of, gz, zst, br) refl

pub ok-identity :
    {name : Text} {m n : ℕ}
    → ◌≡◌ {A = Result (Text × ℕ)} (ok (identity, m)) (ok (name, n))
    → name ≡ identity
ok-identity h = ground (arith, h)

add_loaded-taken :
    (s : Sources) (r : Result Loaded) (b : Builder)
    → ((x : Loaded)
        → r ≡ ok x
        → (x.info.encoding ≡ identity)
          × ((v : ℕ) × (s.handle_func b.router (get_pattern x.key) ≡ some v)))
    → (add_loaded s r b).1 ≢ none
unfolding add_loaded add_identity
add_loaded-taken s (err e) b taken h = ground (arith, h)
add_loaded-taken s (ok x) b taken h =
    let (same, (v, panics)) = taken x refl in
    let is_same = (text_eq_iff x.info.encoding identity).1 same in
    add_typed-taken s x _ _ b panics (rw (add_loaded, is_same) at h)

-- If the map has a file under the path of another file without its extension, that other file is
-- added without an error only if its extension is ".gz", ".zst" or ".br": beside the file `a`, any
-- other static file `a.ext` ends the walk with an error.
pub stem_clash :
    (s : Sources) (is : List Text) (path : Text) {f : FileInfo}
    → SortsBySize s.sort_by_size
    → RefusesTwice s.handle_func
    → find_file (stem path) (walk s is new_builder).0.files ≡ some f
    → (add_static_file_handler s path (walk s is new_builder).0).1 ≡ none
    → (ext path ≡ codes ".gz") ⊎ ((ext path ≡ codes ".zst") ⊎ (ext path ≡ codes ".br"))
unfolding add_static_file_handler key_of
stem_clash s is path {f} sorts mux found h = elim (Bool-cases (text_eq (ext path) (codes ".gz"))) [
  | inl gz ↦ inl ((text_eq_iff _ _).0 gz)
  | inr not_gz ↦ elim (Bool-cases (text_eq (ext path) (codes ".zst"))) [
    | inl zst ↦ inr (inl ((text_eq_iff _ _).0 zst))
    | inr not_zst ↦ elim (Bool-cases (text_eq (ext path) (codes ".br"))) [
      | inl br ↦ inr (inr ((text_eq_iff _ _).0 br))
      | inr not_br ↦ absurd (
          add_loaded-taken s (load s path (walk s is new_builder).0) (walk s is new_builder).0
            (λ x loaded.
              let l = load-Found s path (walk s is new_builder).0 loaded in
              let key : stem path ≡ x.key = sym (l.at_key ∙ ap (key_of path) found) in
              (
                ok-identity (
                    sym (encoding_of-other s path l.opened f not_gz not_zst not_br)
                    ∙ ap (encoding_of s path l.opened) (sym found)
                    ∙ l.decoded),
                mux (walk s is new_builder).0.router (get_pattern x.key) (
                    subst
                      (λ k.
                        any (λ q. text_eq q (get_pattern k)) (walk s is new_builder).0.router
                        ≡ true)
                      key (walk-IsEntry s is (stem path) sorts found).routed),
              ))
            h)
    ]
  ]
]
