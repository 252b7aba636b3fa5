-- ===== src/Handlers/Streams/Tests.antt =====
-- A stream of two messages with a database, and the theorem of Handlers/Streams at it.
use xtemplate.Prelude.{
  ◌≡◌, refl, arith, true, none, some, List, [], ◌∷◌, ◌++◌, Text, codes, text_eq,
}
use xtemplate.Prelude.Errors.{Result, ok, external}
use xtemplate.Http.{Header, no_response, values, write, flush}
use xtemplate.Db.{Driver}
use xtemplate.Dot.{Pooled, make_dot}
use xtemplate.Handlers.{
  Value, x_value, req_value, flush_value, db_value, World, Execution, flusher_stack,
  flushing_template_handler, event_stream,
}
use xtemplate.Handlers.Flushing.{accept}
use xtemplate.Handlers.Databases.{Used, providers, committed, rolled_back}
use xtemplate.Handlers.Streams.{stream_served}
use xtemplate.Handlers.Streams.Failures.{stream_failed, error_text}
use xtemplate.Sse.{Message, message_of}
use xtemplate.Sse.Stream.{read_stream}
use xtemplate.Sse.Sequences.{send_all, meant_all}

abbrev quiet_driver : Driver
quiet_driver = record {
  begin_tx = λ n. none;
  commit = λ n. none;
  rollback = λ n. none;
  exec = λ n k q. ok k;
  query = λ n k q. Result.err (external 0);
}

-- The template has begun a transaction.
abbrev log : Used
log = record {
  name = codes "Log";
  sql = quiet_driver;
  field = record { tx = some 0; begins = 1; trail = [] };
}

abbrev messages : List (List Text)
messages = (codes "tick" ∷ codes "1" ∷ []) ∷ ([] ∷ codes "2" ∷ codes "7" ∷ []) ∷ []

abbrev meanings : List Message
meanings =
    record { event = codes "tick"; content = codes "1"; id = []; retry = [] }
    ∷ record { event = []; content = codes "2"; id = codes "7"; retry = [] }
    ∷ []

abbrev ticker : List Value → World → Execution
ticker vs w = record {
  fields = x_value ∷ req_value ∷ db_value log.field ∷ flush_value ∷ [];
  world = record w { response = (send_all messages w.response).0 };
  output = [];
  error = none;
}

abbrev listener : Pooled World
listener = record {
  world = record {
    request = (codes "Accept", codes "text/event-stream" ∷ []) ∷ [];
    response = no_response;
    can_flush = true;
    closed = [];
  };
  taken = 0;
}

stream_served_example :
    (final : Pooled World) × (h : Header) × (t : Text) × (flushing_template_handler ticker
        (make_dot (flusher_stack (providers (log ∷ []))))
        listener
      ≡ some final)
    × (final.world.response.sent ≡ some (200, h))
    × (values (codes "Content-Type") h ≡ codes "text/event-stream" ∷ [])
    × (final.world.response.body ≡ t)
    × (read_stream t ≡ meant_all [] meanings)
    × (final.world.closed ≡ committed (log ∷ []) [])
    × (final.taken ≡ 0)
unfolding accept message_of text_eq xtemplate.Handlers.get_header values
    xtemplate.Handlers.event_stream
stream_served_example =
    stream_served ticker (log ∷ []) listener messages meanings refl refl refl refl refl refl refl
      refl (omega arith) (refl, tt)

-- The template ends with an error behind its messages.
abbrev failing_ticker : List Value → World → Execution
failing_ticker vs w = record (ticker vs w) { error = some (external 5) }

abbrev stream_header : Header
stream_header = (event_stream listener.world).response.header

stream_failed_example :
    (final : Pooled World) × (t : Text) × (flushing_template_handler failing_ticker
        (make_dot (flusher_stack (providers (log ∷ []))))
        listener
      ≡ some final)
    × (final.world.response.sent ≡ some (200, stream_header))
    × (final.world.response.body ≡ t ++ error_text)
    × (read_stream (t ++ error_text) ≡ meant_all [] meanings)
    × (final.world.closed ≡ rolled_back (log ∷ []) [])
    × (final.taken ≡ 0)
unfolding accept message_of text_eq xtemplate.Handlers.get_header values event_stream send_all
    xtemplate.Sse.send_sse write flush xtemplate.Prelude.Errors.as_return
stream_failed_example =
    stream_failed failing_ticker (log ∷ []) listener messages meanings (external 5)
      (200, stream_header) refl refl refl refl refl refl refl refl refl (omega arith)
