-- ===== src/Handlers/Typed/Total.antt =====
-- The two template handlers of handlers.go answer every request.
use xtemplate.Prelude.{
  Text, ◌≡◌, refl, ◌∙◌, ap, Option, none, some, List, length, codes, text_eq, Bool-cases, inl, inr,
}
use xtemplate.Prelude.Errors.{Error, Result, ok, err}
use xtemplate.Dot.{DotConfig, Pooled, make_dot, value}
use xtemplate.Dot.Aligned.{clean_pairs, cleanup_aligned, value_failed}
use xtemplate.Handlers.{
  Value, World, Execution, run_buffering, run_flushing, finish_buffering, finish_flushing,
  after_world, respond_error, buffering_template_handler, flushing_template_handler, write_output,
  event_stream,
}
use xtemplate.Handlers.Flushing.{accept}

finish_buffering-some :
    (out : Text) (p : Pooled World) (e : Option Error)
    → (final : Pooled World) × (finish_buffering out (some (p, e)) ≡ some final)
      × (final.taken ≡ p.taken)
unfolding finish_buffering
finish_buffering-some out p none = (_, refl, refl)
finish_buffering-some out p (some e) = (_, refl, refl)

finish_flushing-some :
    (p : Pooled World) (e : Option Error)
    → (final : Pooled World) × (finish_flushing (some (p, e)) ≡ some final)
      × (final.taken ≡ p.taken)
unfolding finish_flushing
finish_flushing-some p none = (p, refl, refl)
finish_flushing-some p (some e) = (_, refl, refl)

module _ (execute : List Value → World → Execution) (dps : List (DotConfig World Value))
    (keeps : (vs : List Value) (w : World) → length (execute vs w).fields ≡ length vs) where
  run_buffering-value :
      (p : Pooled World) (r : Pooled World × Result (List Value))
      → value (make_dot dps) p ≡ r
      → (final : Pooled World) × (run_buffering execute (make_dot dps) r ≡ some final)
        × (final.taken ≡ p.taken)
  unfolding run_buffering
  run_buffering-value p (q, err e) h = (
    after_world (respond_error (codes "internal server error") 500) q,
    refl,
    value_failed dps p q e h,
  )
  run_buffering-value p (q, ok vs) h =
      let x = execute vs q.world in
      let clean = cleanup_aligned dps p q vs x.fields x.world x.error h (keeps vs q.world) in
      let (final, is, same) =
        finish_buffering-some x.output
          (record { world = (clean_pairs dps x.fields (x.world, x.error)).0; taken = p.taken })
          (clean_pairs dps x.fields (x.world, x.error)).1 in
      (final, ap (finish_buffering x.output) clean ∙ is, same)

  -- A buffering handler answers each request without a panic and returns the struct of the dot value
  -- to the pool, if the template keeps the number of the fields: whatever the providers do.
  pub buffering_answers :
      (p : Pooled World)
      → (final : Pooled World) × (buffering_template_handler execute (make_dot dps) p ≡ some final)
        × (final.taken ≡ p.taken)
  unfolding buffering_template_handler
  buffering_answers p = run_buffering-value p (value (make_dot dps) p) refl

  run_flushing-value :
      (p u : Pooled World) (r : Pooled World × Result (List Value))
      → value (make_dot dps) p ≡ r
      → p.taken ≡ u.taken
      → (final : Pooled World) × (run_flushing execute (make_dot dps) r ≡ some final)
        × (final.taken ≡ u.taken)
  unfolding run_flushing
  run_flushing-value p u (q, err e) h taken = (
    after_world (respond_error (codes "internal server error") 500) q,
    refl,
    value_failed dps p q e h ∙ taken,
  )
  run_flushing-value p u (q, ok vs) h taken =
      let x = execute vs q.world in
      let w = record x.world { response = write_output x.output x.world.response } in
      let clean = cleanup_aligned dps p q vs x.fields w x.error h (keeps vs q.world) in
      let (final, is, same) =
        finish_flushing-some
          (record { world = (clean_pairs dps x.fields (w, x.error)).0; taken = p.taken })
          (clean_pairs dps x.fields (w, x.error)).1 in
      (final, ap finish_flushing clean ∙ is, same ∙ taken)

  -- A flushing handler answers each request without a panic and returns the struct of the dot value
  -- to the pool, if the template keeps the number of the fields: whatever the providers do.
  pub flushing_answers :
      (p : Pooled World)
      → (final : Pooled World) × (flushing_template_handler execute (make_dot dps) p ≡ some final)
        × (final.taken ≡ p.taken)
  unfolding flushing_template_handler accept
  flushing_answers p = elim (Bool-cases (text_eq (accept p.world) (codes "text/event-stream"))) [
    | inl stream ↦
        let start = after_world event_stream p in
        let (final, is, same) = run_flushing-value start p (value (make_dot dps) start) refl refl in
        (final, rw stream is, same)
    | inr other ↦ (after_world (respond_error (codes "SSE endpoint") 406) p, rw other refl, refl)
  ]
