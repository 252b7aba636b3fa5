-- ===== src/Handlers/Tests.antt =====
-- Runs of the template handlers, and the theorems of Handlers/Buffering and Handlers/Databases
-- at them.
use xtemplate.Prelude.{
  ℕ, zero, suc, ◌≡◌, ◌⊎◌, refl, arith, true, false, Option, none, some, List, [], ◌∷◌, ◌++◌, Text,
  codes, text_eq,
}
use xtemplate.Prelude.Errors.{Error, error_status, return_error, external, Result, ok, as_status}
use xtemplate.Http.{no_response}
use xtemplate.Db
use xtemplate.Db.{Driver, DotDb, begun}
use xtemplate.Db.Transactions.{after_commit, after_rollback}
use xtemplate.Dot.{Pooled, make_dot, DotConfig, value}
use xtemplate.Dot.Aligned.{clean_pairs}
use xtemplate.Handlers.{
  DotResp, Value, x_value, req_value, resp_value, db_value, World, Execution, db_provider,
  buffer_stack, buffering_template_handler, flushing_template_handler,
}
use xtemplate.Handlers.Buffering.{error_code, error_sent_header, buffering_error}
use xtemplate.Handlers.Databases.{
  Used, providers, fields, rolled_back, committed, databases_not_atomic,
}

abbrev sqlite : Driver
sqlite = record {
  begin_tx = λ n. none;
  commit = λ n. none;
  rollback = λ n. none;
  exec = λ n k q. ok k;
  query = λ n k q. Result.err (external 0);
}

-- Its commits fail.
abbrev broken : Driver
broken = record sqlite { commit = λ n. some (external 1) }

abbrev open_field : DotDb
open_field = record { tx = some 0; begins = 1; trail = begun 0 ∷ [] }

abbrev request : World
request = record { request = []; response = no_response; can_flush = true; closed = [] }

abbrev entry : Pooled World
entry = record { world = request; taken = 3 }

abbrev mids : List (DotConfig World Value)
mids = db_provider (codes "DB") sqlite ∷ []

abbrev teapot : DotResp
teapot = record { header = []; status = 418 }

-- A template that opens a transaction, sets a status and ends with the error.
abbrev template : Option Error → List Value → World → Execution
template e vs w = record {
  fields = x_value ∷ req_value ∷ db_value open_field ∷ resp_value teapot ∷ [];
  world = w;
  output = codes "hello";
  error = e;
}

abbrev made_fields : List Value
made_fields =
    x_value
    ∷ req_value
    ∷ db_value (record { tx = none; begins = 0; trail = [] })
    ∷ resp_value (record { header = []; status = 200 })
    ∷ []

abbrev entered : Pooled World
entered = record { world = request; taken = 4 }

made : value (make_dot (buffer_stack mids)) entry ≡ (entered, ok made_fields)
unfolding value make_dot buffer_stack db_provider xtemplate.Handlers.x_provider
    xtemplate.Handlers.req_provider xtemplate.Handlers.resp_provider
made = refl

buffering_error_example :
    (final : Pooled World) × (buffering_template_handler
        (template (some (error_status 404)))
        (make_dot (buffer_stack mids))
        entry
      ≡ some final)
    × (final.world.response.sent
        ≡ some (error_code (error_status 404), error_sent_header (as_status (error_status 404)) []))
    × (final.world.response.body ≡ codes "internal server error" ++ 10 ∷ [])
    × (final.world.closed ≡ after_rollback open_field ∷ [])
    × (final.taken ≡ 3)
unfolding clean_pairs db_provider Db.cleanup xtemplate.Handlers.x_cleanup
    xtemplate.Prelude.Errors.errors_join
buffering_error_example =
    buffering_error (template (some (error_status 404))) mids entry entered made_fields
      (db_value open_field ∷ []) teapot made refl refl _ (error_status 404) refl refl

abbrev used : Driver → Used
used sql = record { name = codes "DB"; sql = sql; field = open_field }

databases_not_atomic_example :
    (f : Error) × (clean_pairs
        (providers (used sqlite ∷ used broken ∷ []))
        (fields (used sqlite ∷ used broken ∷ []))
        (request, none)
      ≡ (
        record request {
          closed = rolled_back [] (after_commit open_field ∷ committed (used sqlite ∷ []) []);
        },
        some f,
      ))
databases_not_atomic_example =
    databases_not_atomic (used sqlite ∷ []) (used broken) [] request (external 1) (refl, tt) refl
