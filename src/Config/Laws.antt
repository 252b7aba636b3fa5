-- ===== src/Config/Laws.antt =====
-- Defaults and options of config.go.
use xtemplate.Prelude.{ℕ, ◌≡◌, ◌≢◌, refl, arith, Option, none, some, List, [], ◌∷◌, ◌++◌, Text, All}
use xtemplate.Prelude.Errors.{Error}
use xtemplate.Config.{
  Config, Ambient, defaults, ConfigOption, options, after_option, with_template_fs, with_logger,
  with_func_maps, with_provider, with_db, with_flags, with_dir, with_nats,
}

-- Every field that `Defaults` looks at is set.
pub record IsFilled (c : Config) : Type 0 where
  pub templates_dir : c.templates_dir ≢ []
  pub template_extension : c.template_extension ≢ []
  pub ldelim : c.ldelim ≢ []
  pub rdelim : c.rdelim ≢ []
  pub logger : c.logger ≢ none
  pub ctx : c.ctx ≢ none

-- `Defaults` leaves every field that it looks at set.
defaults-IsFilled : (a : Ambient) (c : Config) → IsFilled (defaults a c)
unfolding defaults
defaults-IsFilled a c = ground arith

abbrev pub and_then :
    (Config → Config × Option Error) → Config × Option Error → Config × Option Error
and_then rest (c, none) = rest c
and_then rest (c, some e) = (c, some e)

after_option-and_then :
    (os ps : List ConfigOption) (r : Config × Option Error)
    → ((c : Config) → options (os ++ ps) c ≡ and_then (options ps) (options os c))
    → after_option (options (os ++ ps)) r ≡ and_then (options ps) (after_option (options os) r)
unfolding after_option
after_option-and_then os ps (c, none) ih = ih c
after_option-and_then os ps (c, some e) ih = refl

-- `Options` with two lists of options after one another: the second list is applied to what the
-- first one left, unless an option of the first fails.
options-append :
    (os ps : List ConfigOption) (c : Config)
    → options (os ++ ps) c ≡ and_then (options ps) (options os c)
unfolding options
options-append [] ps c = refl
options-append (o ∷ os) ps c = after_option-and_then os ps (o c) (options-append os ps)

-- The options of this repository.
pub data IsOwn : ConfigOption → Type 0 where
  template_fs : (fs : Option ℕ) → IsOwn (with_template_fs fs)
  logger : (l : Option ℕ) → IsOwn (with_logger l)
  func_maps : (fm : List ℕ) → IsOwn (with_func_maps fm)
  provider : (p : ℕ) → IsOwn (with_provider p)
  db : (name : Text) (d opt : Option ℕ) → IsOwn (with_db name d opt)
  flags : (name : Text) (m : Option (List (Text × Text))) → IsOwn (with_flags name m)
  dir : (name : Text) (fs : Option ℕ) → IsOwn (with_dir name fs)
  nats : (name : Text) (s o : Option ℕ) (js : List ℕ) → IsOwn (with_nats name s o js)

-- What an option of this repository leaves alone, also if it fails.
pub record SameBase (c d : Config) : Type 0 where
  pub ctx : d.ctx ≡ c.ctx
  pub templates_dir : d.templates_dir ≡ c.templates_dir
  pub template_extension : d.template_extension ≡ c.template_extension
  pub minify : d.minify ≡ c.minify
  pub ldelim : d.ldelim ≡ c.ldelim
  pub rdelim : d.rdelim ≡ c.rdelim

IsOwn-SameBase : {o : ConfigOption} (c : Config) → IsOwn o → SameBase c (o c).0
unfolding with_template_fs with_logger with_func_maps with_provider with_db with_flags with_dir
    with_nats
IsOwn-SameBase c (template_fs none) = ground arith
IsOwn-SameBase c (template_fs (some fs)) = ground arith
IsOwn-SameBase c (logger none) = ground arith
IsOwn-SameBase c (logger (some fs)) = ground arith
IsOwn-SameBase c (db n none o) = ground arith
IsOwn-SameBase c (db n (some d) o) = ground arith
IsOwn-SameBase c (flags n none) = ground arith
IsOwn-SameBase c (flags n (some d)) = ground arith
IsOwn-SameBase c (dir n none) = ground arith
IsOwn-SameBase c (dir n (some d)) = ground arith
IsOwn-SameBase c _ = ground arith

after_option-SameBase :
    {c : Config} (os : List ConfigOption) (r : Config × Option Error)
    → SameBase c r.0
    → ((d : Config) → SameBase d (options os d).0)
    → SameBase c (after_option (options os) r).0
unfolding after_option
after_option-SameBase os (d, none) h rest = let k = rest d in ground (arith, h, k)
after_option-SameBase os (d, some e) h rest = h

-- Options of this repository never change the context, the templates directory, the extension,
-- minification or the delimiters: so the context of a reloaded instance is the one that `Reload`
-- made for it.
options-SameBase :
    (os : List ConfigOption) (c : Config) → All IsOwn os → SameBase c (options os c).0
unfolding options
options-SameBase [] c h = ground arith
options-SameBase (o ∷ os) c (h, hs) =
    after_option-SameBase os (o c) (IsOwn-SameBase c h) (λ d. options-SameBase os d hs)
