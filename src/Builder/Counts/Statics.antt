-- ===== src/Builder/Counts/Statics.antt =====
-- The counters of the builder through each branch of `addStaticFileHandler`.
use xtemplate.Prelude.{
  ◌+◌, ◌≡◌, refl, sym, ◌∙◌, ap, arith, Bool-cases, inl, inr, Option, none, some, Option-cases, [],
  ◌∷◌, ◌++◌, Text, text_eq, text_eq_iff, length, length-append, true, false,
}
use xtemplate.Prelude.Errors.{Error, Result, ok, err}
use xtemplate.Negotiate.{identity}
use xtemplate.StaticFile.{FileInfo}
use xtemplate.Routes.{static_handler}
use xtemplate.Builder.{
  Sources, Builder, find_file, put_file, stem, key_of, Loaded, load, known_file, write_file,
  get_pattern, add_route, count_static, add_typed, add_identity, add_alternate, add_loaded,
  encoding_of, add_static_file_handler,
}
use xtemplate.Builder.Entries.{SortsBySize, find_file-IsEntry}
use xtemplate.Builder.Invariant.{Sound}
use xtemplate.Builder.Loads.{Found, load-Found}
use xtemplate.Builder.Laws.{RefusesTwice, add_typed-taken, ok-identity}
use xtemplate.Builder.Counts.{IsCounted, Adds, put_file-new, put_file-old, add_route-none}

-- The map has the file that was found for `x`.
abbrev KnownAt : Loaded → Builder → Type 0
KnownAt x b = (g : FileInfo) → x.known ≡ some g → find_file x.key b.files ≡ some g

count_static-none :
    (x : Loaded) (g : FileInfo) (r : Builder × Option Error) (c : Builder)
    → count_static x g r ≡ (c, none)
    → (d : Builder) × (r ≡ (d, none))
      × (c ≡ record d { static_files = d.static_files + 1; files = put_file x.key g d.files })
unfolding count_static
count_static-none x g (d, none) c h = (d, refl, sym (ap (λ r. r.0) h))
count_static-none x g (d, some e) c h = absurd (ground (arith, h))

-- A route and a file under a new path.
count_static-Adds :
    (s : Sources) (x : Loaded) (g : FileInfo) (b c : Builder)
    → IsCounted b
    → find_file x.key b.files ≡ none
    → length g.encodings ≡ 1
    → count_static x g (add_route s (get_pattern x.key) static_handler b) ≡ (c, none)
    → Adds 1 b c
count_static-Adds s x g b c counted missing one h =
    let (d, routed, is) = count_static-none x g _ c h in
    let (free, was) = add_route-none s (get_pattern x.key) static_handler b d routed in
    let (l, e) = put_file-new x.key g b.files missing in
    rw (is, was)
      (
        record {
          by_routes = omega (
            arith,
            counted.by_routes,
            length-append b.routes ((get_pattern x.key, static_handler) ∷ []),
          );
          by_templates = counted.by_templates;
          by_files = omega (arith, counted.by_files, l);
          by_encodings = omega (arith, counted.by_encodings, e, one);
        },
        omega arith,
      )

module _ (s : Sources) (x : Loaded) (b : Builder) (mux : RefusesTwice s.handle_func)
    (sound : Sound b) (counted : IsCounted b) (at_key : KnownAt x b) where
  add_typed-new :
      (f : FileInfo) (t : Result Text) (c : Builder)
      → find_file x.key b.files ≡ none
      → x.known ≡ none
      → add_typed s x f t b ≡ (c, none)
      → Adds 1 b c
  unfolding add_typed write_file
  add_typed-new f (err e) c missing new h = absurd (ground (arith, h))
  add_typed-new f (ok u) c missing new h =
      count_static-Adds s x (record f { content_type = u; encodings = x.info ∷ [] }) b c counted
        missing refl (rw (add_typed, write_file, new) at h)

  add_typed-Adds :
      (f : FileInfo) (t : Result Text) (c : Builder) → add_typed s x f t b ≡ (c, none) → Adds 1 b c
  add_typed-Adds f t c h = elim (Option-cases (find_file x.key b.files)) [
    | inr (g, found) ↦
        let (v, panics) =
          mux b.router (get_pattern x.key) (find_file-IsEntry x.key b.files sound found).routed in
        absurd (add_typed-taken s x f t b panics (ap (λ r. r.1) h))
    | inl missing ↦ elim (Option-cases x.known) [
      | inr (g, known) ↦ absurd (ground (arith, sym missing ∙ at_key g known))
      | inl new ↦ add_typed-new f t c missing new h
    ]
  ]

  write_file-known :
      (g : FileInfo)
      → x.known ≡ some g
      → (f : FileInfo) → write_file x f b ≡ record b { files = put_file x.key f b.files }
  unfolding write_file
  write_file-known g known f = rw (write_file, known) refl

  add_alternate-none :
      (g : FileInfo) (c : Builder)
      → x.known ≡ some g
      → add_alternate s x b ≡ (c, none)
      → c ≡ record b {
        files =
            put_file x.key
              (record g { encodings = s.sort_by_size (g.encodings ++ x.info ∷ []) })
              b.files;
        alternate_encodings = b.alternate_encodings + 1;
      }
  unfolding add_alternate known_file
  add_alternate-none g c known h = elim (Bool-cases (text_eq g.hash x.sri)) [
    | inr other ↦ absurd (ground (arith, rw (add_alternate, known_file, known, other) at h))
    | inl same ↦
        let is : known_file x.known ≡ g = rw known refl in
        let found : text_eq (known_file x.known).hash x.sri ≡ true = rw is same in
        let after : FileInfo → Builder = λ (f : FileInfo). record b {
          files =
              put_file x.key (record f { encodings = s.sort_by_size (f.encodings ++ x.info ∷ []) })
                b.files;
          alternate_encodings = b.alternate_encodings + 1;
        } in
        let does : add_alternate s x b ≡ (after (known_file x.known), none) =
          rw (add_alternate, found)
            (ap
              (λ (w : Builder).
                (record w { alternate_encodings = w.alternate_encodings + 1 }, none))
              (write_file-known g known (record (known_file x.known) {
                encodings = s.sort_by_size ((known_file x.known).encodings ++ x.info ∷ []);
              }))) in
        let changed : c ≡ after (known_file x.known) = ap (λ r. r.0) (sym h ∙ does) in
        changed ∙ ap after is
  ]

  add_alternate-Adds :
      (g : FileInfo) (c : Builder)
      → SortsBySize s.sort_by_size
      → x.known ≡ some g
      → add_alternate s x b ≡ (c, none)
      → Adds 1 b c
  add_alternate-Adds g c sorts known h =
      let u : FileInfo = record g { encodings = s.sort_by_size (g.encodings ++ x.info ∷ []) } in
      let (l, e) = put_file-old x.key u g b.files (at_key g known) in
      let longer =
        sorts.as_long (g.encodings ++ x.info ∷ []) ∙ length-append g.encodings (x.info ∷ []) in
      rw (add_alternate-none g c known h) (
        record {
          by_routes = counted.by_routes;
          by_templates = counted.by_templates;
          by_files = omega (arith, counted.by_files, l);
          by_encodings = omega (arith, counted.by_encodings, e, longer);
        },
        omega arith,
      )

  -- An encoding other than the identity is only there for a file that was found.
  known_of_encoding :
      {path : Text} {k : Option FileInfo}
      → Found s path k x
      → text_eq x.info.encoding identity ≡ false
      → (g : FileInfo) × (x.known ≡ some g)
  unfolding encoding_of
  known_of_encoding {path} {k} l other = elim (Option-cases x.known) [
    | inr found ↦ found
    | inl new ↦
        let missing : k ≡ none = sym l.same_known ∙ new in
        let same = ok-identity (ap (encoding_of s path l.opened) (sym missing) ∙ l.decoded) in
        absurd (ground (arith, other, (text_eq_iff x.info.encoding identity).1 same))
  ]

load-KnownAt :
    (s : Sources) (path : Text) (b : Builder) {x : Loaded} → load s path b ≡ ok x → KnownAt x b
unfolding key_of
load-KnownAt s path b {x} h g known =
    let l = load-Found s path b h in
    let at_stem : find_file (stem path) b.files ≡ some g = sym l.same_known ∙ known in
    let same : x.key ≡ stem path = l.at_key ∙ ap (key_of path) at_stem in
    ap (λ k. find_file k b.files) same ∙ at_stem

add_loaded-Adds :
    (s : Sources) (path : Text) (r : Result Loaded) (b c : Builder)
    → SortsBySize s.sort_by_size
    → RefusesTwice s.handle_func
    → Sound b
    → IsCounted b
    → load s path b ≡ r
    → add_loaded s r b ≡ (c, none)
    → Adds 1 b c
unfolding add_loaded add_identity
add_loaded-Adds s path (err e) b c sorts mux sound counted loaded h = absurd (ground (arith, h))
add_loaded-Adds s path (ok x) b c sorts mux sound counted loaded h =
    let l = load-Found s path b loaded in
    let at_key = load-KnownAt s path b loaded in
    elim (Bool-cases (text_eq x.info.encoding identity)) [
      | inl same ↦ add_typed-Adds s x b mux sound counted at_key _ _ c (rw (add_loaded, same) at h)
      | inr other ↦
          let (g, known) = known_of_encoding s x b mux sound counted at_key l other in
          add_alternate-Adds s x b mux sound counted at_key g c sorts known
            (rw (add_loaded, other) at h)
    ]

pub add_static_file_handler-Adds :
    (s : Sources) (path : Text) (b c : Builder)
    → SortsBySize s.sort_by_size
    → RefusesTwice s.handle_func
    → Sound b
    → IsCounted b
    → add_static_file_handler s path b ≡ (c, none)
    → Adds 1 b c
unfolding add_static_file_handler
add_static_file_handler-Adds s path b c sorts mux sound counted h =
    add_loaded-Adds s path (load s path b) b c sorts mux sound counted refl h
