-- ===== src/Handlers/Streams.antt =====
-- A request for an event stream of an instance whose configured providers are databases: the flushing
-- handler of handlers.go with dot.go, the database field and `SendSSE` of dot_flush.go.
mod Tests
pub mod Failures
use xtemplate.Prelude.{
  ◌+◌, ◌≡◌, inl, inr, refl, ◌∙◌, ap, arith, true, Option, none, some, List, [], ◌∷◌, ◌++◌, Text,
  codes, map, length, length-append, All, text_eq, text_eq_refl, text_eq_iff, false, Bool-cases,
}
use xtemplate.Prelude.Errors.{Error, ok}
use xtemplate.Http.{Header, values, put, flush, header_set}
use xtemplate.Db.{new_dot_db}
use xtemplate.Db.Transactions.{commit_error}
use xtemplate.Dot.{Pooled, make_dot, value, value_loop, next_value, cons_value, put_back}
use xtemplate.Dot.Aligned.{clean_pairs, clean_field, cleanup_aligned, clean_pairs-append}
use xtemplate.Handlers.{
  Value, x_value, req_value, flush_value, db_value, World, Execution, x_provider, req_provider,
  flush_provider, flush_cleanup, db_provider, flusher_stack, flushing_template_handler,
  run_flushing, finish_flushing, after_world, event_stream, write_output, x_cleanup,
}
use xtemplate.Handlers.Buffering.{after_return, x_cleanup-after_return}
use xtemplate.Handlers.Flushing.{accept}
use xtemplate.Handlers.Databases.{Used, providers, fields, committed, databases_succeeded}
use xtemplate.Handlers.Requests.{length-providers}
use xtemplate.Sse.Laws.{body-flush}
use xtemplate.Sse.Starts.{unsent-Started, flush-Started, send_all-Started}
use xtemplate.Sse.{Message, message_of}
use xtemplate.Sse.Stream.{read_stream}
use xtemplate.Sse.RoundTrip.{MessageNoCr}
use xtemplate.Sse.Sequences.{send_all, meant_all, send_all_read}

-- The fields that a flushing template of an instance with these databases gets.
unfoldable pub flushed : List Used → List Value
flushed [] = flush_value ∷ []
flushed (u ∷ us) = db_value new_dot_db ∷ flushed us

value_loop-flushed :
    (us : List Used) (w : World)
    → w.can_flush ≡ true
    → value_loop (providers us ++ flush_provider ∷ []) w ≡ (w, ok (flushed us))
unfolding flushed value_loop next_value cons_value flush_provider db_provider
value_loop-flushed [] w can = rw can refl
value_loop-flushed (u ∷ us) w can =
    ap (cons_value (db_value new_dot_db)) (value_loop-flushed us w can)

value-flushed :
    (us : List Used) (p : Pooled World)
    → p.world.can_flush ≡ true
    → value (make_dot (flusher_stack (providers us))) p
      ≡ (record { world = p.world; taken = p.taken + 1 }, ok (x_value ∷ req_value ∷ flushed us))
unfolding value make_dot flusher_stack value_loop next_value cons_value put_back x_provider
    req_provider
value-flushed us p can =
    ap (λ r. put_back p.taken (cons_value x_value (cons_value req_value r)))
      (value_loop-flushed us p.world can)

length-flushed : (us : List Used) → length (flushed us) ≡ length (fields us) + 1
unfolding flushed
length-flushed [] = refl
length-flushed (u ∷ us) = omega (arith, length-flushed us)

clean_pairs-flusher :
    (us : List Used) (w : World) (e : Option Error)
    → clean_pairs
        (flusher_stack (providers us))
        (x_value ∷ req_value ∷ (fields us ++ flush_value ∷ []))
        (w, e)
      ≡ flush_cleanup flush_value
          (clean_pairs (providers us) (fields us) (w, after_return e)).1
          (clean_pairs (providers us) (fields us) (w, after_return e)).0
unfolding flusher_stack clean_pairs clean_field x_provider req_provider flush_provider
clean_pairs-flusher us w e =
    clean_pairs-append (providers us) (flush_provider ∷ []) (fields us) (flush_value ∷ [])
      (w, x_cleanup e) (length-providers us)
    ∙ rw (x_cleanup-after_return e) refl

values-put : (k : Text) (v : List Text) (h : Header) → values k (put k v h) ≡ v
unfolding put values
values-put k v [] = rw (text_eq_refl k) refl
values-put k v ((j, w) ∷ h) = elim (Bool-cases (text_eq j k)) [
  | inl same ↦ rw (put, same) (rw (text_eq_refl k) refl)
  | inr other ↦ rw (put, other) (rw other (values-put k v h))
]

values-put_other :
    (k j : Text) (v : List Text) (h : Header)
    → text_eq j k ≡ false
    → values k (put j v h) ≡ values k h
unfolding put values
values-put_other k j v [] different = rw different refl
values-put_other k j v ((i, w) ∷ h) different = elim (Bool-cases (text_eq i j)) [
  | inl same ↦
      let is : i ≡ j = (text_eq_iff i j).0 same in
      let other : text_eq i k ≡ false = ap (λ t. text_eq t k) is ∙ different in
      rw (put, same) (rw different (rw other refl))
  | inr not_j ↦
      rw (put, not_j)
        (elim (Bool-cases (text_eq i k)) [
          | inl here ↦ rw here refl
          | inr on ↦ rw on (values-put_other k j v h different)
        ])
]

-- The header of an event stream.
content_type-event_stream :
    (w : World)
    → values (codes "Content-Type") (event_stream w).response.header
      ≡ codes "text/event-stream" ∷ []
unfolding event_stream header_set
content_type-event_stream w =
    let k = codes "Content-Type" in
    let h = w.response.header in
    let typed = put k (codes "text/event-stream" ∷ []) h in
    values-put_other k (codes "Connection") (codes "keep-alive" ∷ [])
      (put (codes "Cache-Control") (codes "no-cache" ∷ []) typed) refl
    ∙ values-put_other k (codes "Cache-Control") (codes "no-cache" ∷ []) typed refl
    ∙ values-put k (codes "text/event-stream" ∷ []) h

module _ (execute : List Value → World → Execution) (us : List Used) (p : Pooled World) where
  -- What the template did, on a response with the header of an event stream.
  abbrev pub ran : Execution
  ran = execute (x_value ∷ req_value ∷ flushed us) (event_stream p.world)

  length-left :
      ran.fields ≡ x_value ∷ req_value ∷ (fields us ++ flush_value ∷ [])
      → length ran.fields ≡ length (x_value ∷ req_value ∷ flushed us)
  length-left left =
      ap length left
      ∙ omega (arith, length-flushed us, length-append (fields us) (flush_value ∷ []))

  -- What the cleanups of the databases leave, after that of `X`.
  abbrev pub cleaned : World × Option Error
  cleaned = clean_pairs (providers us) (fields us) (ran.world, after_return ran.error)

  flushing_run :
      text_eq (accept p.world) (codes "text/event-stream") ≡ true
      → p.world.can_flush ≡ true
      → ran.fields ≡ x_value ∷ req_value ∷ (fields us ++ flush_value ∷ [])
      → ran.output ≡ []
      → flushing_template_handler execute (make_dot (flusher_stack (providers us))) p ≡ (
          let m = flush_cleanup flush_value cleaned.1 cleaned.0 in
          finish_flushing (some (record { world = m.0; taken = p.taken }, m.1)))
  unfolding flushing_template_handler accept run_flushing event_stream write_output
  flushing_run asked can left silent =
      let stack = flusher_stack (providers us) in
      let start = after_world event_stream p in
      let written : World = record ran.world {
        response = write_output ran.output ran.world.response;
      } in
      let same : written ≡ ran.world =
        ap (λ out. record ran.world { response = write_output out ran.world.response }) silent in
      let cleans : clean_pairs stack ran.fields (written, ran.error)
          ≡ flush_cleanup flush_value cleaned.1 cleaned.0 =
        ap (λ fs. clean_pairs stack fs (written, ran.error)) left
        ∙ clean_pairs-flusher us written ran.error
        ∙ ap
            (λ u.
              let r = clean_pairs (providers us) (fields us) (u, after_return ran.error) in
              flush_cleanup flush_value r.1 r.0)
            same in
      let made = value-flushed us start can in
      let aligned =
        cleanup_aligned stack start _ _ ran.fields written ran.error made (length-left left) in
      rw asked (
        ap (run_flushing execute (make_dot stack)) made
        ∙ ap finish_flushing (
            aligned
            ∙ ap (λ (r : World × Option Error). some (record { world = r.0; taken = p.taken }, r.1))
                cleans))

  finished : World × Option Error → Option (Pooled World)
  unfolding flush_cleanup finish_flushing
  finished r =
      let m = flush_cleanup flush_value r.1 r.0 in
      finish_flushing (some (record { world = m.0; taken = p.taken }, m.1))

  -- For an instance whose configured providers are databases: a request for an event stream, on a
  -- response that was not sent and can be flushed, whose template makes any calls of `SendSSE`,
  -- each with one to four arguments without a CR, writes nothing else, and ends without an error
  -- or with a `ReturnError`: the answer has the status 200 and the content type of an event
  -- stream; a client reads its body as the events that the calls stand for; the cleanup commits
  -- every database, if every open transaction can be committed; and the struct of the dot value is
  -- back in the pool.
  pub stream_served :
      (calls : List (List Text)) (ms : List Message)
      → text_eq (accept p.world) (codes "text/event-stream") ≡ true
      → p.world.can_flush ≡ true
      → p.world.response.sent ≡ none
      → ran.fields ≡ x_value ∷ req_value ∷ (fields us ++ flush_value ∷ [])
      → ran.output ≡ []
      → after_return ran.error ≡ none
      → ran.world.response ≡ (send_all calls (event_stream p.world).response).0
      → map message_of calls ≡ map some ms
      → All MessageNoCr ms
      → All (λ u. commit_error u.sql u.field.tx ≡ none) us
      → (final : Pooled World) × (h : Header) × (t : Text) × (flushing_template_handler execute
            (make_dot (flusher_stack (providers us)))
            p
          ≡ some final)
        × (final.world.response.sent ≡ some (200, h))
        × (values (codes "Content-Type") h ≡ codes "text/event-stream" ∷ [])
        × (final.world.response.body ≡ p.world.response.body ++ t)
        × (read_stream t ≡ meant_all [] ms)
        × (final.world.closed ≡ committed us ran.world.closed)
        × (final.taken ≡ p.taken)
  unfolding event_stream finished flush_cleanup finish_flushing
  stream_served calls ms asked can unsent left silent ended sent_all are clean fine =
      let start = (event_stream p.world).response in
      let (t, no_error, body, reads) = send_all_read calls ms start are clean in
      let begun = send_all-Started start.header calls start (unsent-Started start unsent) in
      let sent = (flush-Started start.header (send_all calls start).0 begun).1 in
      (
        record {
          world = record ran.world {
            response = flush ran.world.response;
            closed = committed us ran.world.closed;
          };
          taken = p.taken;
        },
        start.header,
        t,
        flushing_run asked can left silent
            ∙ ap finished (
                ap (λ o. clean_pairs (providers us) (fields us) (ran.world, o)) ended
                ∙ databases_succeeded us ran.world fine),
        ap (λ r. (flush r).sent) sent_all ∙ sent,
        content_type-event_stream p.world,
        ap (λ r. (flush r).body) sent_all ∙ body-flush (send_all calls start).0 ∙ body,
        reads,
        refl,
        refl,
      )
