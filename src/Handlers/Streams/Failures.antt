-- ===== src/Handlers/Streams/Failures.antt =====
-- A request for an event stream whose template fails after events were sent.
use xtemplate.Prelude.{
  ℕ, ◌≡◌, refl, sym, ◌∙◌, ap, arith, true, none, some, List, [], ◌∷◌, ◌++◌, Text, codes, map, All,
  text_eq, append_assoc,
}
use xtemplate.Prelude.Errors.{Error}
use xtemplate.Http.{Header, Response, write, write_header, http_error}
use xtemplate.Dot.{Pooled, make_dot}
use xtemplate.Dot.Aligned.{clean_pairs}
use xtemplate.Handlers.{
  Value, x_value, req_value, flush_value, World, Execution, flush_cleanup, flusher_stack,
  flushing_template_handler, finish_flushing, event_stream, respond_error,
}
use xtemplate.Handlers.Buffering.{after_return}
use xtemplate.Handlers.Flushing.{accept}
use xtemplate.Handlers.Databases.{Used, providers, fields, rolled_back, databases_failed}
use xtemplate.Handlers.Streams.{ran, flushing_run, finished}
use xtemplate.Sse.{Message, message_of}
use xtemplate.Sse.Stream.{read_stream, read}
use xtemplate.Sse.RoundTrip.{MessageNoCr}
use xtemplate.Sse.Starts.{unsent-Started, send_all-Started, sent-Started}
use xtemplate.Sse.Sequences.{send_all, meant_all, IsIgnored, send_all_ignored}

-- The body of an error, which `http.Error` writes to the stream.
abbrev pub error_text : Text
error_text = codes "internal server error" ++ 10 ∷ []

error_text-IsIgnored : IsIgnored error_text
unfolding read xtemplate.Sse.Stream.end_line xtemplate.Sse.Stream.store
    xtemplate.Sse.Stream.split_field
error_text-IsIgnored = (omega arith, λ last. refl)

body-http_error :
    (msg : Text) (code : ℕ) (w : Response)
    → (http_error msg code w).body ≡ w.body ++ (msg ++ 10 ∷ [])
unfolding http_error write write_header
body-http_error msg code w = ground arith

sent-http_error :
    (msg : Text) (code : ℕ) (w : Response) (s : ℕ × Header)
    → w.sent ≡ some s
    → (http_error msg code w).sent ≡ some s
unfolding http_error write write_header
sent-http_error msg code w s sent = ground (arith, sent)

-- For an instance whose configured providers are databases: a request for an event stream, on a
-- response that was not sent and can be flushed, whose template calls `SendSSE`, which sends the
-- header, with one to four arguments without a CR each, writes nothing else, and then ends with an
-- error other than a `ReturnError`: the status stays 200; "internal server error" is written to
-- the stream, behind the messages, but a client reads the events that the calls stand for and no
-- more; the cleanup rolls every database back and commits none; and the struct of the dot value is
-- back in the pool.
pub stream_failed :
    (execute : List Value → World → Execution) (us : List Used) (p : Pooled World)
    (calls : List (List Text)) (ms : List Message) (e : Error) (s : ℕ × Header)
    → text_eq (accept p.world) (codes "text/event-stream") ≡ true
    → p.world.can_flush ≡ true
    → p.world.response.sent ≡ none
    → (ran execute us p).fields ≡ x_value ∷ req_value ∷ (fields us ++ flush_value ∷ [])
    → (ran execute us p).output ≡ []
    → after_return (ran execute us p).error ≡ some e
    → (ran execute us p).world.response ≡ (send_all calls (event_stream p.world).response).0
    → (ran execute us p).world.response.sent ≡ some s
    → map message_of calls ≡ map some ms
    → All MessageNoCr ms
    → (final : Pooled World) × (t : Text) × (flushing_template_handler execute
          (make_dot (flusher_stack (providers us)))
          p
        ≡ some final)
      × (final.world.response.sent ≡ some (200, (event_stream p.world).response.header))
      × (final.world.response.body ≡ p.world.response.body ++ (t ++ error_text))
      × (read_stream (t ++ error_text) ≡ meant_all [] ms)
      × (final.world.closed ≡ rolled_back us (ran execute us p).world.closed)
      × (final.taken ≡ p.taken)
unfolding finished flush_cleanup finish_flushing event_stream respond_error
stream_failed execute us p calls ms e s asked can unsent left silent ended sent_all begun are
      clean =
    let x = ran execute us p in
    let start = (event_stream p.world).response in
    let (f, failed, status) = databases_failed us x.world e in
    let (t, body, reads) =
      send_all_ignored calls ms start error_text are clean error_text-IsIgnored in
    let started = send_all-Started start.header calls start (unsent-Started start unsent) in
    let sent =
      ap (λ r. r.sent) sent_all
      ∙ sent-Started start.header (send_all calls start).0 s started
          (ap (λ r. r.sent) (sym sent_all) ∙ begun) in
    (
      record {
        world = record x.world {
          response = http_error (codes "internal server error") 500 x.world.response;
          closed = rolled_back us x.world.closed;
        };
        taken = p.taken;
      },
      t,
      flushing_run execute us p asked can left silent
          ∙ ap (finished execute us p)
              (ap (λ o. clean_pairs (providers us) (fields us) (x.world, o)) ended ∙ failed),
      sent-http_error (codes "internal server error") 500 x.world.response _ sent,
      body-http_error (codes "internal server error") 500 x.world.response
          ∙ ap (λ r. r.body ++ error_text) sent_all
          ∙ ap (λ b. b ++ error_text) body
          ∙ append_assoc p.world.response.body t error_text,
      reads,
      refl,
      refl,
    )
