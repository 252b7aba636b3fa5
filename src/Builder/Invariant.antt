-- ===== src/Builder/Invariant.antt =====
-- An invariant of the map of static files, through each branch of `addStaticFileHandler`.
use mathlib.Core.Path.{subst}
use xtemplate.Prelude.{
  ◌≡◌, refl, sym, ◌∙◌, ap, arith, Bool, true, inl, inr, Bool-cases, some, Option-cases, List, [],
  ◌∷◌, ◌++◌, Text, text_eq, text_eq_iff, text_eq_refl, any,
}
use xtemplate.Prelude.Errors.{Result, ok, err}
use xtemplate.Negotiate.{EncodingInfo, identity}
use xtemplate.StaticFile.{FileInfo}
use xtemplate.Routes.{static_handler}
use xtemplate.Builder.{
  Sources, Builder, find_file, stem, key_of, Loaded, load, known_file, write_file, content_type_of,
  get_pattern, add_route, count_static, add_typed, add_identity, add_alternate, add_loaded,
}
use xtemplate.Builder.Entries.{
  SortsBySize, is_identity, IsEntry, Entries, put_file-Entries, find_file-IsEntry, Entries-routed,
}
use xtemplate.Builder.Loads.{load-Found}

-- What holds of a builder's files, and of the file that was found for `x`.
abbrev pub Sound : Builder → Type 0
Sound b = Entries b.router b.files

abbrev KnownFits : Loaded → Builder → Type 0
KnownFits x b = (g : FileInfo) → x.known ≡ some g → IsEntry b.router x.key g

write_file-Sound :
    (x : Loaded) (f : FileInfo) (b : Builder)
    → ((g : FileInfo) → x.known ≡ some g → IsEntry b.router x.key f)
    → Sound b
    → Sound (write_file x f b)
unfolding write_file
write_file-Sound x f b h hs = elim (Option-cases x.known) [
  | inl missing ↦ rw (write_file, missing) hs
  | inr (g, found) ↦ rw (write_file, found) (put_file-Entries x.key f b.files (h g found) hs)
]

identity-IsEntry :
    (s : Sources) (x : Loaded) (t : Text) (f : FileInfo) (router : List Text)
    → x.info.encoding ≡ identity
    → f.identity_path ≡ x.key
    → any (λ p. text_eq p (get_pattern x.key)) router ≡ true
    → IsEntry router x.key (record f { content_type = t; encodings = x.info ∷ [] })
identity-IsEntry s x t f router same path routed = record {
  path = path;
  has_identity = ground (arith, (text_eq_iff x.info.encoding identity).1 same);
  sorted = (tt, tt);
  routed = routed;
}

count_static-Sound :
    (s : Sources) (x : Loaded) (g : FileInfo) (w : Builder)
    → IsEntry (get_pattern x.key ∷ w.router) x.key g
    → Sound w
    → Sound (count_static x g (add_route s (get_pattern x.key) static_handler w)).0
unfolding count_static add_route
count_static-Sound s x g w entry hs =
    elim (Option-cases (s.handle_func w.router (get_pattern x.key))) [
      | inr (v, panics) ↦ rw (add_route, panics) hs
      | inl fine ↦
          rw (add_route, fine)
            (put_file-Entries x.key g w.files entry
              (Entries-routed w.router (get_pattern x.key) w.files hs))
    ]

add_typed-Sound :
    (s : Sources) (x : Loaded) (f : FileInfo) (t : Result Text) (b : Builder)
    → x.info.encoding ≡ identity
    → f.identity_path ≡ x.key
    → ((g : FileInfo) → x.known ≡ some g → IsEntry b.router x.key f)
    → Sound b
    → Sound (add_typed s x f t b).0
unfolding add_typed
add_typed-Sound s x f (err e) b same path fits hs = write_file-Sound x f b fits hs
add_typed-Sound s x f (ok t) b same path fits hs =
    let g = record f { content_type = t; encodings = x.info ∷ [] } in
    let written =
      write_file-Sound x g b
        (λ u found. identity-IsEntry s x t f b.router same path (fits u found).routed) hs in
    count_static-Sound s x g (write_file x g b)
      (identity-IsEntry s x t f _ same path (ground (arith, text_eq_refl (get_pattern x.key))))
      written

add_identity-Sound :
    (s : Sources) (x : Loaded) (b : Builder)
    → x.info.encoding ≡ identity
    → KnownFits x b
    → Sound b
    → Sound (add_identity s x b).0
unfolding add_identity known_file
add_identity-Sound s x b same fits hs =
    add_typed-Sound s x (record (known_file x.known) { hash = x.sri; identity_path = x.key })
      (content_type_of s x) b same refl
      (λ g found.
        let h = fits g found in
        rw (known_file, found)
          (record {
            path = refl;
            has_identity = h.has_identity;
            sorted = h.sorted;
            routed = h.routed;
          }))
      hs

any-append :
    (p : EncodingInfo → Bool) (es fs : List EncodingInfo)
    → any p es ≡ true
    → any p (es ++ fs) ≡ true
any-append p [] fs h = absurd (ground (arith, h))
any-append p (e ∷ es) fs h = elim (Bool-cases (p e)) [
  | inl this ↦ ground (arith, this)
  | inr other ↦ ground (arith, other, h, any-append p es fs)
]

add_alternate-Sound :
    (s : Sources) (x : Loaded) (b : Builder)
    → SortsBySize s.sort_by_size
    → KnownFits x b
    → Sound b
    → Sound (add_alternate s x b).0
unfolding add_alternate known_file
add_alternate-Sound s x b sorts fits hs =
    let f = known_file x.known in
    let g = record f { encodings = s.sort_by_size (f.encodings ++ x.info ∷ []) } in
    let written =
      write_file-Sound x g b
        (λ u found.
          let h = fits u found in
          rw (known_file, found)
            (record {
              path = h.path;
              has_identity =
                  sorts.kept is_identity (u.encodings ++ x.info ∷ [])
                  ∙ any-append is_identity u.encodings (x.info ∷ []) h.has_identity;
              sorted = sorts.sorted (u.encodings ++ x.info ∷ []);
              routed = h.routed;
            }))
        hs in
    elim (Bool-cases (text_eq f.hash x.sri)) [
      | inl same ↦ rw (add_alternate, same) written
      | inr other ↦ rw (add_alternate, other) hs
    ]

pub load-KnownFits :
    (s : Sources) (path : Text) (b : Builder) {x : Loaded}
    → load s path b ≡ ok x
    → Sound b
    → KnownFits x b
unfolding key_of
load-KnownFits s path b {x} h hs g found =
    let l = load-Found s path b h in
    let at_stem : find_file (stem path) b.files ≡ some g = sym l.same_known ∙ found in
    let same : x.key ≡ stem path = l.at_key ∙ ap (key_of path) at_stem in
    subst (λ k. IsEntry b.router k g) (sym same) (find_file-IsEntry (stem path) b.files hs at_stem)

pub add_loaded-Sound :
    (s : Sources) (r : Result Loaded) (b : Builder)
    → SortsBySize s.sort_by_size
    → ((x : Loaded) → r ≡ ok x → KnownFits x b)
    → Sound b
    → Sound (add_loaded s r b).0
unfolding add_loaded
add_loaded-Sound s (err e) b sorts fits hs = hs
add_loaded-Sound s (ok x) b sorts fits hs = elim (Bool-cases (text_eq x.info.encoding identity)) [
  | inl same ↦
      rw (add_loaded, same)
        (add_identity-Sound s x b ((text_eq_iff x.info.encoding identity).0 same) (fits x refl) hs)
  | inr other ↦ rw (add_loaded, other) (add_alternate-Sound s x b sorts (fits x refl) hs)
]
