-- ===== src/Handlers/Typed/Tests.antt =====
-- The dot value of an instance with a database, and the theorems of Handlers/Typed at it.
use xtemplate.Prelude.{ℕ, ◌≡◌, refl, arith, true, none, some, List, [], ◌∷◌, ◌++◌, codes, map}
use xtemplate.Prelude.Errors.{Result, ok, external}
use xtemplate.Http.{no_response}
use xtemplate.Db.{Driver, new_dot_db}
use xtemplate.Dot.{Pooled, make_dot, value}
use xtemplate.Dot.Typed.{Probed, configs, TypedDot, make_typed_dot, typed_value}
use xtemplate.Dot.Typed.Safety.{HasType, HaveTypes}
use xtemplate.Handlers.{
  DotResp, Value, x_value, req_value, resp_value, db_value, World, Execution, db_provider,
  buffer_stack, buffering_template_handler,
}
use xtemplate.Handlers.Typed.{probed, type_of, buffer_probes}
use xtemplate.Handlers.Typed.Assertions.{buffer_fields}

abbrev memory : Driver
memory = record {
  begin_tx = λ n. none;
  commit = λ n. none;
  rollback = λ n. none;
  exec = λ n k q. ok k;
  query = λ n k q. Result.err (external 0);
}

abbrev database_probe : Probed World Value
database_probe = probed (db_provider (codes "DB") memory) none

abbrev no_type : ℕ → ℕ
no_type n = n

abbrev visit : World
visit = record { request = []; response = no_response; can_flush = true; closed = [] }

abbrev before : Pooled World
before = record { world = visit; taken = 0 }

abbrev after : Pooled World
after = record { world = visit; taken = 1 }

abbrev fresh_fields : List Value
fresh_fields =
    x_value
    ∷ req_value
    ∷ db_value new_dot_db
    ∷ resp_value (record { header = []; status = 200 })
    ∷ []

-- The template sets the status to 404.
abbrev left_fields : List Value
left_fields =
    x_value
    ∷ req_value
    ∷ db_value new_dot_db
    ∷ resp_value (record { header = []; status = 404 })
    ∷ []

database-HaveTypes : HaveTypes (type_of no_type) (4 ∷ []) (database_probe ∷ [])
unfolding HaveTypes HasType probed db_provider type_of
database-HaveTypes = (((_, refl, refl), λ w u v e. ground (arith, e)), tt)

fields_made :
    value (make_dot (buffer_stack (configs (database_probe ∷ [])))) before
    ≡ (after, ok fresh_fields)
unfolding value make_dot buffer_stack probed db_provider xtemplate.Handlers.x_provider
    xtemplate.Handlers.req_provider xtemplate.Handlers.resp_provider
fields_made = refl

buffer_fields_example :
    (d : TypedDot World Value) × (make_typed_dot
        (type_of no_type)
        (buffer_probes (database_probe ∷ []))
      ≡ some d)
    × (typed_value (type_of no_type) d before ≡ some (after, ok fresh_fields))
    × (mids : List Value) × (r : DotResp) × (left_fields
        ≡ x_value ∷ req_value ∷ (mids ++ resp_value r ∷ []))
    × (map (type_of no_type) mids ≡ 4 ∷ [])
unfolding type_of
buffer_fields_example =
    buffer_fields no_type (4 ∷ []) (database_probe ∷ []) before left_fields database-HaveTypes
      fields_made refl
