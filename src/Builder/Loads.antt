-- ===== src/Builder/Loads.antt =====
-- What `addStaticFileHandler` knows of a file before it changes the builder.
use xtemplate.Prelude.{ℕ, ◌≡◌, refl, ◌∙◌, ap, arith, Option, Text}
use xtemplate.Prelude.Errors.{Result, ok, err}
use xtemplate.StaticFile.{FileInfo}
use xtemplate.Builder.{
  Sources, Builder, find_file, stem, key_of, Loaded, load, load_hashed, encoding_of, load_decoded,
  load_stated, load_opened,
}

-- What `load` found, under which path, and in which encoding.
pub record Found (s : Sources) (path : Text) (known : Option FileInfo) (x : Loaded) : Type 0 where
  pub same_known : x.known ≡ known
  pub at_key : x.key ≡ key_of path known
  pub opened : ℕ
  pub reader : ℕ
  pub decoded : encoding_of s path opened known ≡ ok (x.info.encoding, reader)

hashed-Found :
    (s : Sources) (path : Text) (known : Option FileInfo) (file : ℕ) (st : ℕ × ℕ) (enc : Text × ℕ)
    (r : Result Text) {x : Loaded}
    → encoding_of s path file known ≡ ok enc
    → load_hashed path known file st enc r ≡ ok x
    → Found s path known x
unfolding load_hashed
hashed-Found s path known file st (name, reader) (ok sri) {x} d h = record {
  same_known = ground (arith, h);
  at_key = ground (arith, h);
  opened = file;
  reader = reader;
  decoded =
      let same : name ≡ x.info.encoding = ground (arith, h) in d ∙ ap (λ n. ok (n, reader)) same;
}
hashed-Found s path known file st enc (err e) d h = absurd (ground (arith, h))

decoded-Found :
    (s : Sources) (path : Text) (known : Option FileInfo) (file : ℕ) (st : ℕ × ℕ)
    (r : Result (Text × ℕ)) {x : Loaded}
    → encoding_of s path file known ≡ r
    → load_decoded s path known file st r ≡ ok x
    → Found s path known x
unfolding load_decoded
decoded-Found s path known file st (ok enc) d h = hashed-Found s path known file st enc _ d h
decoded-Found s path known file st (err e) d h = absurd (ground (arith, h))

stated-Found :
    (s : Sources) (path : Text) (known : Option FileInfo) (file : ℕ) (r : Result (ℕ × ℕ))
    {x : Loaded}
    → load_stated s path known file r ≡ ok x
    → Found s path known x
unfolding load_stated
stated-Found s path known file (ok st) h = decoded-Found s path known file st _ refl h
stated-Found s path known file (err e) h = absurd (ground (arith, h))

opened-Found :
    (s : Sources) (path : Text) (known : Option FileInfo) (r : Result ℕ) {x : Loaded}
    → load_opened s path known r ≡ ok x
    → Found s path known x
unfolding load_opened
opened-Found s path known (ok file) h = stated-Found s path known file _ h
opened-Found s path known (err e) h = absurd (ground (arith, h))

pub load-Found :
    (s : Sources) (path : Text) (b : Builder) {x : Loaded}
    → load s path b ≡ ok x
    → Found s path (find_file (stem path) b.files) x
unfolding load
load-Found s path b h = opened-Found s path (find_file (stem path) b.files) (s.open_ path) h
