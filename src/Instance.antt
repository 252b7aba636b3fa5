-- ===== src/Instance.antt =====
-- instance.go, `Config.Instance`: what is built from a configuration, and when it is refused.
pub mod Loops
pub mod Laws
pub mod Functions
pub mod Initializers
pub mod Reloads
pub mod Answers
mod Tests
use xtemplate.Prelude.{
  ℕ, ◌+◌, Bool, true, false, Option, none, some, List, [], ◌∷◌, ◌++◌, Text, codes, text_eq, ltb,
  map, if◌then◌else◌,
}
use xtemplate.Prelude.Errors.{Error, Result, ok, err, errorf, wrapf, text, int}
use xtemplate.Strings.{has_prefix}
use xtemplate.Http.{no_response}
use xtemplate.Config.{Config, ConfigOption, Ambient, defaults, options}
use xtemplate.Dot.{Dot, DotConfig, Pooled, make_dot, value, cleanup}
use xtemplate.Handlers.{Value, World, Execution, db_provider, buffer_stack, flusher_stack}
use xtemplate.Handlers.Configured.{flags_provider, nats_provider}
use xtemplate.Db.{Driver}
use xtemplate.Builder.Templates.{walk}
use xtemplate.Funcs.Tables.{xtemplate_funcs}
use xtemplate.Funcs.Maps.{Funcs, copy_all}
use xtemplate.Builder.{Sources, Builder, new_builder}
use xtemplate.Providers.Fields.{configured, count_names, check_names}
use xtemplate.Providers.{
  Provider, database, flag, directory, nats_client, custom, Outside, field_name, init,
}

-- What `Config.Instance` uses and this repository does not implement, on a state `W` of the libraries
-- and systems. `listing` is what `fs.WalkDir` goes through: the files, and the error it ends with, if
-- any. `names_order` and `templates_order` are the orders in which Go goes through two maps. `driver` is
-- the driver of a connection pool. `as_dot` gives the methods `Value` and `Cleanup` of a directory or of
-- a provider that is not of this repository, `execute` is `Template.Execute`, and
-- `struct_of` tells whether `reflect.StructOf` accepts fields of these names and does not panic.
pub record Surroundings (W : Type 0) : Type 0 where
  pub ambient : Ambient
  pub outside : Outside W
  pub dir_fs : Text → ℕ
  pub sources : ℕ → Sources
  pub minifier : Text → Text → Text → Result Text
  pub listing : ℕ → List Text × Option Error
  pub sprig_funcs : Funcs
  pub func_map : ℕ → Funcs
  pub names_order : List (Text × ℕ) → List (Text × ℕ)
  pub templates_order : List (Text × ℕ) → List (Text × ℕ)
  pub driver : Option ℕ → Driver
  pub as_dot : Provider → DotConfig World Value
  pub execute : ℕ → List Value → World → Execution
  pub struct_of : List Text → Bool

-- A provider as `makeDot` gets it.
unfoldable pub dot_config : {W : Type 0} → Surroundings W → Provider → DotConfig World Value
unfolding db_provider flags_provider nats_provider
dot_config s (database d) = db_provider d.name (s.driver d.db)
dot_config s (flag d) = flags_provider d.name d.values
dot_config s (nats_client d) = nats_provider d.name d.conn d.js
dot_config s p = s.as_dot p

-- The instance, with what `Config.Instance` returns beside it.
pub record Instance : Type 0 where
  pub id : ℕ
  pub config : Config
  pub funcs : Funcs
  pub built : Builder
  pub providers : List Provider
  pub buffer_dot : Dot World Value
  pub flusher_dot : Dot World Value
  pub template_initializers : ℕ

unfoldable pub init_prefix : Text
init_prefix = codes "INIT "

module _ {W : Type 0} (s : Surroundings W) where
  -- `names`, and the loop that looks for a name that is used twice
  pub names_error : List Provider → Option Error
  unfolding check_names count_names
  names_error ps = check_names (s.names_order (count_names (map (field_name s.outside) ps) []))

  next_init :
      (W → W × List Provider × Option Error)
      → Text
      → W × Provider × Option Error
      → W × List Provider × Option Error
  next_init rest name (w, p, some e) =
      (w, p ∷ [], some (wrapf "failed to initialize dot field '%s': %w" (text name ∷ []) e))
  next_init rest name (w, p, none) = let (w', ps, e) = rest w in (w', p ∷ ps, e)

  -- The loop over `Init`; the providers as it leaves them, up to the one that failed.
  pub init_loop : ℕ → List Provider → W → W × List Provider × Option Error
  unfolding next_init init field_name
  init_loop ctx [] w = (w, [], none)
  init_loop ctx (p ∷ ps) w =
      next_init (init_loop ctx ps) (field_name s.outside p) (init s.outside ctx p w)

  -- A recorder and a request without headers for an initialization template. The databases that were
  -- cleaned up are kept in a row over all of them.
  recorder : World → World
  recorder w = record w { request = []; response = no_response; can_flush = true }

  -- After the cleanup: `none` is a panic.
  init_cleaned : Text → Option (Pooled World × Option Error) → Option (Pooled World × Option Error)
  init_cleaned name none = none
  init_cleaned name (some (p, none)) = some (p, none)
  init_cleaned name (some (p, some e)) =
      some (p, some (wrapf "template initializer '%s' failed: %w" (text name ∷ []) e))

  init_valued :
      Dot World Value
      → Text
      → ℕ
      → Pooled World × Result (List Value)
      → Option (Pooled World × Option Error)
  unfolding init_cleaned
  init_valued d name tmpl (p, err e) =
      some (p, some (wrapf "failed to initialize dot value: %w" [] e))
  init_valued d name tmpl (p, ok vs) =
      let x = s.execute tmpl vs p.world in
      init_cleaned name (cleanup d x.fields x.error (record p { world = x.world }))

  pub init_template :
      Dot World Value → Text → ℕ → Pooled World → Option (Pooled World × Option Error)
  unfolding init_valued recorder
  init_template d name tmpl p =
      init_valued d name tmpl (value d (record p { world = recorder p.world }))

  next_template :
      (Pooled World → Option (Pooled World × ℕ × Option Error))
      → Option (Pooled World × Option Error)
      → Option (Pooled World × ℕ × Option Error)
  next_template rest none = none
  next_template rest (some (p, some e)) = some (p, 0, some e)
  next_template rest (some (p, none)) = elim (rest p) [
    | none ↦ none
    | some (q, n, e) ↦ some (q, n + 1, e)
  ]

  -- The loop over the templates, with the number of initializers that ran.
  pub init_templates :
      Dot World Value → List (Text × ℕ) → Pooled World → Option (Pooled World × ℕ × Option Error)
  unfolding next_template init_template init_prefix has_prefix
  init_templates d [] p = some (p, 0, none)
  init_templates d ((name, tmpl) ∷ ts) p =
      let skipped = init_templates d ts p in
      let ran = next_template (init_templates d ts) (init_template d name tmpl p) in
      if has_prefix name init_prefix then ran else skipped

-- How `Config.Instance` ends: with a panic, or with an instance or an error. The first state is that of
-- the libraries and systems, the second what the initialization templates leave.
pub data Outcome (W : Type 0) : Type 0 where
  panicked : Outcome W
  returned : W → Pooled World → Result Instance → Outcome W

abbrev pub no_world : Pooled World
no_world = record {
  world = record { request = []; response = no_response; can_flush = true; closed = [] };
  taken = 0;
}

or_error : Option Error → Option Error → Option Error
or_error none e = e
or_error (some e) f = some e

module _ {W : Type 0} (s : Surroundings W) where
  -- `if build.config.TemplatesFS == nil { … }`
  pub templates_fs : Config → ℕ
  templates_fs c = elim c.templates_fs [ some fs ↦ fs | none ↦ s.dir_fs c.templates_dir ]

  -- `config.Minify` is read of the configuration before the options, the rest after them.
  pub sources_of : Config → Config → Sources
  unfolding templates_fs
  sources_of before c = record (s.sources (templates_fs c)) {
    template_extension = c.template_extension;
    minify = if before.minify then some (s.minifier c.ldelim c.rdelim) else none;
  }

  -- `fs.WalkDir`
  pub scan : Config → Config → Builder × Option Error
  unfolding sources_of walk or_error
  scan before c =
      let (paths, last) = s.listing (templates_fs c) in
      let (b, e) = walk (sources_of before c) paths new_builder in (b, or_error e last)

  initialized : Instance → W → Option (Pooled World × ℕ × Option Error) → Outcome W
  initialized i w none = panicked
  initialized i w (some (p, n, some e)) = returned w p (err e)
  initialized i w (some (p, n, none)) = returned w p (ok (record i { template_initializers = n }))

  -- `makeDot` twice, and the initialization templates
  make_dots : Instance → W → Outcome W
  unfolding initialized init_templates buffer_stack flusher_stack make_dot
  make_dots i w =
      let dots = map (dot_config s) i.providers in
      let j = record i {
        buffer_dot = make_dot (buffer_stack dots);
        flusher_dot = make_dot (flusher_stack dots);
      } in
      if s.struct_of (j.buffer_dot.fields)
      then (if s.struct_of (j.flusher_dot.fields)
          then initialized j w
              (init_templates s j.buffer_dot (s.templates_order i.built.templates) no_world)
          else panicked)
      else panicked

  with_providers : Instance → W × List Provider × Option Error → Outcome W
  unfolding make_dots
  with_providers i (w, ps, some e) = returned w no_world (err e)
  with_providers i (w, ps, none) = make_dots (record i { providers = ps }) w

  init_providers : ℕ → Instance → Option Error → W → Outcome W
  unfolding with_providers init_loop configured
  init_providers ctx i (some e) w = returned w no_world (err e)
  init_providers ctx i none w = with_providers i (init_loop s ctx (configured i.config) w)

  unfoldable pub ctx_of : Option ℕ → ℕ
  ctx_of none = s.ambient.background
  ctx_of (some ctx) = ctx

  -- The instance before its providers: `build.funcs` is filled by the three `maps.Copy`.
  unfoldable pub new_instance : ℕ → Config → Builder → Instance
  unfolding copy_all
  new_instance id c b = record {
    id = id;
    config = record c { templates_fs = some (templates_fs c) };
    funcs = copy_all [] (xtemplate_funcs ∷ s.sprig_funcs ∷ map s.func_map c.func_maps);
    built = b;
    providers = [];
    buffer_dot = make_dot [];
    flusher_dot = make_dot [];
    template_initializers = 0;
  }

  scanned : ℕ → Config → Builder × Option Error → W → Outcome W
  unfolding init_providers names_error ctx_of new_instance configured
  scanned id c (b, some e) w = returned w no_world (err (wrapf "error scanning files: %w" [] e))
  scanned id c (b, none) w =
      init_providers (ctx_of c.ctx) (new_instance id c b) (names_error s (configured c)) w

  after_options : ℕ → Config → Config × Option Error → W → Outcome W
  unfolding scanned scan
  after_options id before (c, some e) w = returned w no_world (err e)
  after_options id before (c, none) w = scanned id c (scan before c) w

  -- `config.Instance(opts...)` where the counter of identities stands at `n`.
  pub instance_ : List ConfigOption → Config → ℕ → W → Outcome W
  unfolding after_options defaults options
  instance_ opts c n w =
      let before = defaults s.ambient c in after_options (n + 1) before (options opts before) w
