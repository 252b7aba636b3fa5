-- ===== src/App.antt =====
-- app/app.go: the command line program, from its arguments to its exit.
pub mod Configs
mod Tests
use xtemplate.Prelude.{
  ℕ, Bool, true, false, ◌&&◌, not, Option, none, some, List, [], ◌∷◌, ◌++◌, Text, codes, text_eq,
  ◌==◌, if◌then◌else◌,
}
use xtemplate.Prelude.Errors.{Error, Result, ok, err}
use xtemplate.Config.{zero_config, Config, ConfigOption, Ambient, defaults, options}

-- `Args`; a log level is an `int` as a word.
pub record Args : Type 0 where
  pub config : Config
  pub watch : List Text
  pub watch_templates : Bool
  pub listen : Text
  pub log_level : ℕ
  pub configs : List Text
  pub config_files : List Text

-- `defaultArgs`, of the strings in `defaultWatchTemplates` and `defaultListenAddress`, which the linker
-- can set.
unfoldable pub default_args : Text → Text → Args
unfolding text_eq
default_args watch_templates listen = record {
  config = zero_config;
  watch = [];
  watch_templates = text_eq watch_templates (codes "true");
  listen = listen;
  log_level = 0;
  configs = [];
  config_files = [];
}

-- A part of `Main` exits the process, or goes on.
pub data Run (A : Type 0) : Type 0 where
  exited : ℕ → Run A
  going : A → Run A

-- `arg.MustParse` overwrites fields or exits; `open_file` gives what there is to read of a file, and
-- `decode` is `Decode` of a JSON decoder into arguments that are there. `load` is the first load of
-- `Config.Server`, after its options, `watch_dirs` is `watch.Watch`, and `new_logger` makes the logger
-- of a level.
pub record Platform : Type 0 where
  pub ambient : Ambient
  pub must_parse : Args → Run Args
  pub open_file : Text → Result Text
  pub decode : Text → Args → Result Args
  pub new_logger : ℕ → ℕ
  pub load : Config → Option Error
  pub watch_dirs : List Text → Option Error

-- `jsonConfig` and `decoded`
pub record Decoded : Type 0 where
  pub args : Args
  pub decoded : Bool

-- How the program ends: it exits, or it serves at an address until the server stops.
pub data Ended : Type 0 where
  exits : ℕ → Ended
  serves : Text → List Text → Ended

module _ (o : Platform) where
  decoded_one : Result Args → Run Decoded
  decoded_one (err e) = exited 1
  decoded_one (ok a) = going (record { args = a; decoded = true })

  opened_file : Decoded → Result Text → Run Decoded
  unfolding decoded_one
  opened_file d (err e) = exited 1
  opened_file d (ok t) = decoded_one (o.decode t d.args)

  next_file : (Decoded → Run Decoded) → Run Decoded → Run Decoded
  next_file rest (exited n) = exited n
  next_file rest (going d) = rest d

  -- The loop over the configuration files
  pub read_files : List Text → Decoded → Run Decoded
  unfolding next_file opened_file
  read_files [] d = going d
  read_files (name ∷ names) d = next_file (read_files names) (opened_file d (o.open_file name))

  -- The loop over the configurations of the command line
  pub read_configs : List Text → Decoded → Run Decoded
  unfolding next_file decoded_one
  read_configs [] d = going d
  read_configs (conf ∷ confs) d =
      next_file (read_configs confs) (decoded_one (o.decode conf d.args))

  -- `if decoded { … }`
  chosen : Args → Run Decoded → Run Args
  chosen a (exited n) = exited n
  chosen a (going d) = if d.decoded then o.must_parse d.args else going a

  -- The logger is made again if the level has changed.
  logger_of : ℕ → Args → ℕ
  logger_of level a = if a.log_level == level then o.new_logger level else o.new_logger a.log_level

  pub with_logger : ℕ → Run Args → Run Args
  unfolding logger_of
  with_logger level (exited n) = exited n
  with_logger level (going a) =
      going (record a { config = record a.config { logger = some (logger_of level a) } })

  pub read_all : Args → Args → Run Decoded
  unfolding next_file read_files read_configs
  read_all default_args a =
      next_file (read_configs a.configs)
        (read_files a.config_files (record { args = default_args; decoded = false }))

  parsed : Args → Run Args → Run Args
  unfolding chosen with_logger read_all defaults
  parsed default_args (exited n) = exited n
  parsed default_args (going p) =
      let a = record p { config = defaults o.ambient p.config } in
      with_logger a.log_level (chosen a (read_all default_args a))

  -- The first block of `Main`: the configuration.
  pub configure : Args → Run Args
  unfolding parsed
  configure default_args = parsed default_args (o.must_parse default_args)

  -- `config.Server(overrides...)`; the method has a copy of the configuration.
  server_error : List ConfigOption → Config → Option Error
  unfolding defaults options
  server_error overrides c =
      let (c', e) = options overrides (defaults o.ambient c) in
      elim e [ some f ↦ some f | none ↦ o.load c' ]

  -- The directories to watch; `config` is as it was before the overrides.
  pub watched : Args → List Text
  watched a = elim a.config.templates_fs [
    | some fs ↦ a.watch
    | none ↦ if a.watch_templates then a.watch ++ a.config.templates_dir ∷ [] else a.watch
  ]

  watching : Text → List Text → Ended
  watching listen [] = serves listen []
  watching listen (d ∷ ds) = elim (o.watch_dirs (d ∷ ds)) [
    | some e ↦ exits 4
    | none ↦ serves listen (d ∷ ds)
  ]

  started : List ConfigOption → Run Args → Ended
  unfolding server_error watched watching
  started overrides (exited n) = exits n
  started overrides (going a) = elim (server_error overrides a.config) [
    | some e ↦ exits 2
    | none ↦ watching a.listen (watched a)
  ]

  pub main : List ConfigOption → Args → Ended
  unfolding started configure
  main overrides default_args = started overrides (configure default_args)
