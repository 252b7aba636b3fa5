-- ===== src/Handlers.antt =====
-- handlers.go, the two template handlers, with the providers of dot_instance.go, dot_req.go,
-- dot_resp.go and dot_flush.go that every dot value has.
pub mod Buffering
pub mod Databases
pub mod Flushing
pub mod Content
pub mod Configured
pub mod Requests
pub mod Sessions
pub mod Streams
pub mod Typed
mod Tests
use xtemplate.Prelude.{
  ℕ, Bool, true, false, Option, none, some, List, [], ◌∷◌, ◌++◌, Text, codes, text_eq,
  if◌then◌else◌,
}
use xtemplate.Prelude.Errors.{Error, Result, ok, err, errorf, return_error, as_status, as_return}
use xtemplate.Http.{
  Header, Response, canonical, values, header_set, header_add, header_del, copy, write_header,
  write, flush, http_error,
}
use xtemplate.Db
use xtemplate.Db.{DotDb, Driver, new_dot_db}
use xtemplate.Dot.{DotConfig, Pooled, Dot, make_dot, value, cleanup}

-- `DotResp`: the header and status that a template has set.
pub record DotResp : Type 0 where
  pub header : Header
  pub status : ℕ

-- The fields of a dot value. In the program the field of a provider has the type of the values that
-- the provider made, so a cleanup is only given such a value; `other` is the field of a provider that
-- keeps no state here.
pub data Value : Type 0 where
  x_value req_value flush_value : Value
  resp_value : DotResp → Value
  db_value : DotDb → Value
  flags_value : List (Text × Text) → Value
  nats_value : Option ℕ → Option ℕ → Value
  other : ℕ → Value

-- A request under way: its Accept header, the response, whether the response writer is a
-- `http.Flusher`, and the database fields that were cleaned up, the last one first.
pub record World : Type 0 where
  pub request : Header
  pub response : Response
  pub can_flush : Bool
  pub closed : List DotDb

-- The methods of dot_resp.go that change the field; each returns an empty string.
pub add_header : Text → Text → DotResp → DotResp
add_header field val d = record d { header = header_add field val d.header }

pub set_header : Text → Text → DotResp → DotResp
set_header field val d = record d { header = header_set field val d.header }

pub del_header : Text → DotResp → DotResp
del_header field d = record d { header = header_del field d.header }

pub set_status : ℕ → DotResp → DotResp
set_status status d = record d { status = status }

pub return_status : ℕ → DotResp → DotResp × Error
return_status status d = (record d { status = status }, return_error)

-- `dotXProvider.Cleanup`: a `ReturnError` is a normal exit.
pub x_cleanup : Option Error → Option Error
unfolding as_return
x_cleanup none = none
x_cleanup (some e) = if as_return e then none else some e

unfoldable pub x_provider : DotConfig World Value
unfolding x_cleanup
x_provider = record {
  field_name = codes "X";
  value_ = λ w. (w, ok x_value);
  cleanup_ = some (λ v e w. (w, x_cleanup e));
}

unfoldable pub req_provider : DotConfig World Value
req_provider = record { field_name = codes "Req"; value_ = λ w. (w, ok req_value); cleanup_ = none }

write_status : Option ℕ → World → World
write_status none w = w
write_status (some n) w = record w { response = write_header n w.response }

send_header : DotResp → World → World
send_header d w = record w {
  response = write_header d.status (record w.response { header = copy w.response.header d.header });
}

-- `dotRespProvider.Cleanup`; the field's type is fixed by the struct, so the type assertion holds.
pub resp_cleanup : Value → Option Error → World → World × Option Error
unfolding write_status send_header
resp_cleanup (resp_value d) none w = (send_header d w, none)
resp_cleanup (resp_value d) (some e) w = (write_status (as_status e) w, some e)
resp_cleanup v e w = (w, e)

unfoldable pub resp_provider : DotConfig World Value
unfolding resp_cleanup
resp_provider = record {
  field_name = codes "Resp";
  value_ = λ w. (w, ok (resp_value (record { header = []; status = 200 })));
  cleanup_ = some resp_cleanup;
}

flush_cleanup : Value → Option Error → World → World × Option Error
flush_cleanup v none w = (record w { response = flush w.response }, none)
flush_cleanup v (some e) w = (w, some e)

unfoldable pub flush_provider : DotConfig World Value
unfolding flush_cleanup
flush_provider = record {
  field_name = codes "Flush";
  value_ = λ w. (
    w,
    (if w.can_flush
        then ok flush_value
        else err (errorf "response writer could not cast to http.Flusher" [])),
  );
  cleanup_ = some flush_cleanup;
}

-- The last clause is never reached: the struct has a `*DotDB` in this field.
db_cleanup : Driver → Value → Option Error → World → World × Option Error
db_cleanup sql (db_value d) e w =
    let r = Db.cleanup sql d e in (record w { closed = r.0 ∷ w.closed }, r.1)
db_cleanup sql v e w = (w, e)

-- The provider of a database: `Value` and `Cleanup` of dot_db_config.go
unfoldable pub db_provider : Text → Driver → DotConfig World Value
unfolding db_cleanup
db_provider name sql = record {
  field_name = name;
  value_ = λ w. (w, ok (db_value new_dot_db));
  cleanup_ = some (db_cleanup sql);
}

-- `bufferDot` and `flusherDot` of instance.go, around the configured providers.
unfoldable pub buffer_stack : List (DotConfig World Value) → List (DotConfig World Value)
buffer_stack dps = x_provider ∷ req_provider ∷ (dps ++ resp_provider ∷ [])

unfoldable pub flusher_stack : List (DotConfig World Value) → List (DotConfig World Value)
flusher_stack dps = x_provider ∷ req_provider ∷ (dps ++ flush_provider ∷ [])

-- What `tmpl.Execute` does: the fields and the state that the called methods leave, the output, and
-- the error. The template engine is a parameter of the handlers.
pub record Execution : Type 0 where
  pub fields : List Value
  pub world : World
  pub output : Text
  pub error : Option Error

respond_error : Text → ℕ → World → World
respond_error msg code w = record w { response = http_error msg code w.response }

after_world : (World → World) → Pooled World → Pooled World
after_world f p = record p { world = f p.world }

-- The last lines of the handlers; `none` is a panic.
pub finish_buffering : Text → Option (Pooled World × Option Error) → Option (Pooled World)
unfolding respond_error after_world
finish_buffering out none = none
finish_buffering out (some (p, some e)) =
    some (after_world (respond_error (codes "internal server error") 500) p)
finish_buffering out (some (p, none)) =
    some (after_world (λ w. record w { response = write out w.response }) p)

finish_flushing : Option (Pooled World × Option Error) → Option (Pooled World)
unfolding respond_error after_world
finish_flushing none = none
finish_flushing (some (p, some e)) =
    some (after_world (respond_error (codes "internal server error") 500) p)
finish_flushing (some (p, none)) = some p

pub event_stream : World → World
event_stream w = record w {
  response = record w.response {
    header = header_set (codes "Connection") (codes "keep-alive") (
        header_set (codes "Cache-Control") (codes "no-cache")
          (header_set (codes "Content-Type") (codes "text/event-stream") w.response.header));
  };
}

pub get_header : List Text → Text
get_header [] = []
get_header (v ∷ vs) = v

write_output : Text → Response → Response
write_output [] w = w
write_output (c ∷ s) w = write (c ∷ s) w

module _ (execute : List Value → World → Execution) where
  run_buffering : Dot World Value → Pooled World × Result (List Value) → Option (Pooled World)
  unfolding finish_buffering respond_error after_world
  run_buffering d (p, err e) =
      some (after_world (respond_error (codes "internal server error") 500) p)
  run_buffering d (p, ok vs) =
      let x = execute vs p.world in
      finish_buffering x.output (cleanup d x.fields x.error (record p { world = x.world }))

  pub buffering_template_handler : Dot World Value → Pooled World → Option (Pooled World)
  unfolding run_buffering
  buffering_template_handler d p = run_buffering d (value d p)

  -- The template writes to the response itself; its output stands here behind what its methods did.
  run_flushing : Dot World Value → Pooled World × Result (List Value) → Option (Pooled World)
  unfolding finish_flushing respond_error after_world write_output
  run_flushing d (p, err e) =
      some (after_world (respond_error (codes "internal server error") 500) p)
  run_flushing d (p, ok vs) =
      let x = execute vs p.world in
      let w = record x.world { response = write_output x.output x.world.response } in
      finish_flushing (cleanup d x.fields x.error (record p { world = w }))

  pub flushing_template_handler : Dot World Value → Pooled World → Option (Pooled World)
  unfolding run_flushing event_stream get_header respond_error after_world
  flushing_template_handler d p =
      if text_eq (get_header (values (codes "Accept") p.world.request)) (codes "text/event-stream")
      then run_flushing d (value d (after_world event_stream p))
      else some (after_world (respond_error (codes "SSE endpoint") 406) p)
