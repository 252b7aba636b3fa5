-- ===== src/Config/Tests.antt =====
-- Runs of the configuration.
use xtemplate.Prelude.{◌≡◌, refl, List, [], ◌∷◌, codes, some, none}
use xtemplate.Prelude.Errors.{errorf, wrapf}
use xtemplate.Config.{Ambient, new, ConfigOption, options, with_template_fs, with_provider}

abbrev ambient : Ambient
ambient = record { default_logger = 1; background = 2 }

new_runs : (new ambient).template_extension ≡ codes ".html"
unfolding new
new_runs = refl

abbrev given : List ConfigOption
given = with_provider 7 ∷ with_template_fs none ∷ with_provider 8 ∷ []

-- The failing option ends the row; what came before it stays.
options_run : options given (new ambient) ≡ (
  record (new ambient) { custom_providers = 7 ∷ [] },
  some (wrapf "failed to apply xtemplate config option: %w" [] (errorf "nil fs" [])),
)
unfolding new options with_provider with_template_fs
options_run = refl
