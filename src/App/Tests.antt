-- ===== src/App/Tests.antt =====
-- Starts of the program, and the theorems of App/Configs at them.
use xtemplate.Prelude.{◌≡◌, refl, none, some, [], ◌∷◌, ◌++◌, codes}
use xtemplate.Prelude.Errors.{ok}
use xtemplate.Config.{zero_config, with_template_fs, defaults, options}
use xtemplate.App.{
  Args, default_args, going, Platform, configure, read_all, main, parsed, chosen, next_file,
  read_files, read_configs, with_logger, logger_of, started, server_error, watched, watching,
}
use xtemplate.App.Configs.{main-watched}

-- With what `arg.MustParse` adds.
abbrev parsed_args : Args
parsed_args = record (default_args (codes "true") (codes "0.0.0.0:8080")) {
  config = record zero_config { templates_dir = codes "templates" };
}

-- A JSON text is the address to listen at.
abbrev platform : Platform
platform = record {
  ambient = record { default_logger = 1; background = 2 };
  must_parse = λ a. going a;
  open_file = λ name. ok (codes "file:80");
  decode = λ t a. ok (record a { listen = t });
  new_logger = λ level. level;
  load = λ c. none;
  watch_dirs = λ dirs. none;
}

abbrev given : Args
given = record parsed_args { configs = codes "flag:81" ∷ []; config_files = codes "a.json" ∷ [] }

-- What the program goes on with: the address is that of the command line's configuration.
abbrev completed_args : Args
completed_args = record given { config = defaults platform.ambient given.config }

-- The templates come from a file system, and the directory is watched all the same.
abbrev configured : Args
configured = record parsed_args {
  config = record (defaults platform.ambient parsed_args.config) { logger = some 0 };
}

main-watched_example : codes "templates" ∷ [] ≡ [] ++ codes "templates" ∷ []
unfolding default_args configure parsed chosen read_all next_file read_files read_configs
    with_logger logger_of defaults main started server_error watched watching options
    with_template_fs
main-watched_example =
    main-watched platform (with_template_fs (some 7) ∷ []) parsed_args configured
      (codes "0.0.0.0:8080") (codes "templates" ∷ []) refl refl refl refl
