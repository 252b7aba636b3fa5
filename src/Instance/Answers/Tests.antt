-- ===== src/Instance/Answers/Tests.antt =====
-- Requests to instances that were built, and the theorems of Instance/Answers at them.
use xtemplate.Prelude.{true, ℕ, ◌≡◌, refl, none, some, List, [], ◌∷◌, ◌++◌, codes}
use xtemplate.Prelude.Errors.{ok, error_status, errors_join, as_return}
use xtemplate.Http.{no_response}
use xtemplate.Config.{Config, zero_config, options}
use xtemplate.Db
use xtemplate.Db.{DotDb, new_dot_db}
use xtemplate.Dot.{Pooled, make_dot, value, cleanup}
use xtemplate.Handlers.{
  Value, x_value, req_value, resp_value, db_value, World, Execution, buffer_stack, flusher_stack,
  x_provider, req_provider, resp_provider, flush_provider, buffering_template_handler,
}
use xtemplate.Handlers.Databases.{Used, rolled_back}
use xtemplate.Builder.Templates.{walk}
use xtemplate.Providers.{field_name, init}
use xtemplate.Providers.Fields.{configured, check_names, count_names, add_name}
use xtemplate.Instance.{
  Outcome, Instance, init_loop, returned, scan, instance_, names_error, after_options, scanned,
  init_providers, with_providers, make_dots, initialized, init_templates, next_init, next_template,
  init_template, init_valued, init_cleaned, init_prefix, dot_config,
}
use xtemplate.Instance.Tests.Around.{
  distinct, around, db_config, store, identity-IsOrder, instance_of, left_by,
}
use xtemplate.Instance.Answers.{instance_-request_failed}

-- A configuration with one database.
abbrev one_database : Config
one_database = record zero_config { databases = db_config ∷ [] }

abbrev outcome : Outcome ℕ
outcome = instance_ around [] one_database 4 0

abbrev served : Instance
served = instance_of outcome

outcome_returns : outcome ≡ returned 1 (left_by outcome) (ok served)
unfolding instance_of left_by instance_ after_options options scanned scan walk init_providers
    configured names_error check_names count_names add_name init_loop next_init init field_name
    with_providers make_dots initialized make_dot buffer_stack flusher_stack distinct init_templates
    x_provider req_provider resp_provider flush_provider value cleanup next_template init_template
    init_valued init_cleaned init_prefix dot_config Db.cleanup errors_join
outcome_returns = refl

abbrev visitor : Pooled World
visitor = record {
  world = record { request = []; response = no_response; can_flush = true; closed = [] };
  taken = 2;
}

-- A template that begins a transaction and ends with the status 404.
abbrev open_field : DotDb
open_field = record { tx = some 0; begins = 1; trail = [] }

abbrev missing : List Value → World → Execution
missing vs w = record {
  fields =
      x_value
      ∷ req_value
      ∷ db_value open_field
      ∷ resp_value (record { header = []; status = 200 })
      ∷ [];
  world = w;
  output = codes "half";
  error = some (error_status 404);
}

abbrev used : List Used
used = record { name = codes "DB"; sql = store; field = open_field } ∷ []

instance_-request_failed_example :
    (final : Pooled World) × (buffering_template_handler missing served.buffer_dot visitor
      ≡ some final)
    × (final.world.response.sent ≡ some (404, []))
    × (final.world.response.body ≡ codes "internal server error" ++ 10 ∷ [])
    × (final.world.closed ≡ rolled_back used [])
    × (final.taken ≡ 2)
unfolding instance_of instance_ after_options options scanned scan walk init_providers configured
    names_error check_names count_names add_name init_loop next_init init with_providers make_dots
    initialized distinct init_templates make_dot buffer_stack flusher_stack value cleanup
    next_template init_template init_valued init_cleaned init_prefix dot_config Db.cleanup as_return
    errors_join field_name x_provider req_provider resp_provider flush_provider
    xtemplate.Prelude.Errors.as_status
instance_-request_failed_example =
    instance_-request_failed around (λ p. refl) (λ p m. refl) identity-IsOrder [] one_database 4 0 1
      (left_by outcome) served outcome_returns missing visitor
      ((record db_config { db = some 7 }, open_field) ∷ []) refl
      (record { header = []; status = 200 }) (error_status 404) refl refl refl
