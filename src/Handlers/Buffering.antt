-- ===== src/Handlers/Buffering.antt =====
-- What a buffering template handler of handlers.go answers, with any configured providers.
use xtemplate.Prelude.{
  ℕ, ◌≡◌, refl, ◌∙◌, ap, arith, Option, none, some, Option-cases, inl, inr, List, [], ◌∷◌, ◌++◌,
  codes, length, length-append, if◌then◌else◌,
}
use xtemplate.Prelude.Errors.{Error, ok, as_status, as_return}
use xtemplate.Http.{Header, copy, write_header, write, http_error, error_header}
use xtemplate.Dot.{DotConfig, Pooled, make_dot, value}
use xtemplate.Dot.Aligned.{
  clean_pairs, clean_field, cleanup_aligned, length-value, clean_pairs-append,
}
use xtemplate.Handlers.{
  DotResp, Value, x_value, req_value, resp_value, World, Execution, x_cleanup, resp_cleanup,
  x_provider, req_provider, resp_provider, buffer_stack, buffering_template_handler, run_buffering,
  finish_buffering, send_header, write_status, respond_error, after_world,
}

-- The status of the answer to an error.
abbrev pub status_or_500 : Option ℕ → ℕ
status_or_500 none = 500
status_or_500 (some n) = n

-- The header goes out with `WriteHeader` of the status, or with `http.Error`.
abbrev pub error_sent_header : Option ℕ → Header → Header
error_sent_header none h = error_header h
error_sent_header (some n) h = h

abbrev pub error_code : Error → ℕ
error_code e = status_or_500 (as_status e)

-- The error of a template, where a `ReturnError` is a normal exit.
abbrev pub after_return : Option Error → Option Error
after_return none = none
after_return (some e) = if as_return e then none else some e

pub x_cleanup-after_return : (e : Option Error) → x_cleanup e ≡ after_return e
unfolding x_cleanup
x_cleanup-after_return none = refl
x_cleanup-after_return (some e) = refl

module _ (execute : List Value → World → Execution) (mids : List (DotConfig World Value))
    (p q : Pooled World) (vs us : List Value) (r : DotResp)
    (made : value (make_dot (buffer_stack mids)) p ≡ (q, ok vs))
    (fields : (execute vs q.world).fields ≡ x_value ∷ req_value ∷ (us ++ resp_value r ∷ []))
    (fits : length us ≡ length mids) where
  -- What the cleanups of the configured providers leave, after that of `X`.
  abbrev pub cleaned : World × Option Error
  cleaned =
      clean_pairs mids us ((execute vs q.world).world, after_return (execute vs q.world).error)

  clean_pairs-stack :
      (w : World) (e : Option Error)
      → clean_pairs (buffer_stack mids) (x_value ∷ req_value ∷ (us ++ resp_value r ∷ [])) (w, e)
        ≡ resp_cleanup
            (resp_value r)
            (clean_pairs mids us (w, after_return e)).1
            (clean_pairs mids us (w, after_return e)).0
  unfolding buffer_stack clean_pairs clean_field x_provider req_provider resp_provider
  clean_pairs-stack w e =
      clean_pairs-append mids (resp_provider ∷ []) us (resp_value r ∷ []) (w, x_cleanup e) fits
      ∙ rw (x_cleanup-after_return e)

  length-fields : length (execute vs q.world).fields ≡ length vs
  unfolding buffer_stack
  length-fields = rw fields (
      omega (
        arith,
        fits,
        length-value (buffer_stack mids) p made,
        length-append us (resp_value r ∷ []),
        length-append mids (resp_provider ∷ []),
      ))

  -- The handler's answer in terms of what the cleanups leave.
  pub buffering_finish : buffering_template_handler execute (make_dot (buffer_stack mids)) p ≡ (
      let m = resp_cleanup (resp_value r) cleaned.1 cleaned.0 in
      finish_buffering
        (execute vs q.world).output
        (some (record { world = m.0; taken = p.taken }, m.1)))
  unfolding buffering_template_handler run_buffering
  buffering_finish =
      let x = execute vs q.world in
      rw made (
        ap (finish_buffering x.output)
          {y = some (
            record { world = (resp_cleanup (resp_value r) cleaned.1 cleaned.0).0; taken = p.taken },
            (resp_cleanup (resp_value r) cleaned.1 cleaned.0).1,
          )}
          (cleanup_aligned (buffer_stack mids) p q vs x.fields x.world x.error made length-fields
            ∙ rw fields (rw (clean_pairs-stack x.world x.error))))

  -- If the template and the cleanups of the configured providers end without an error (a
  -- `ReturnError` of the template is none), and none of them has sent a header, the answer has the
  -- status and the header that the template set, its output is the body, nothing more happens to
  -- the databases, and the struct of the dot value is back in the pool.
  pub buffering_ok :
      (w : World)
      → cleaned ≡ (w, none)
      → w.response.sent ≡ none
      → (final : Pooled World) × (buffering_template_handler execute
            (make_dot (buffer_stack mids))
            p
          ≡ some final)
        × (final.world.response.sent ≡ some (r.status, copy w.response.header r.header))
        × (final.world.response.body ≡ w.response.body ++ (execute vs q.world).output)
        × (final.world.closed ≡ w.closed)
        × (final.taken ≡ p.taken)
  unfolding finish_buffering resp_cleanup write write_header
  buffering_ok w clean fresh = (
    after_world (λ u. record u { response = write (execute vs q.world).output u.response })
        (record { world = send_header r w; taken = p.taken }),
    buffering_finish ∙ rw clean refl,
    ground (arith, fresh),
    ground (arith, fresh),
    refl,
    refl,
  )

  -- If the template or a cleanup of a configured provider ends with an error other than a
  -- `ReturnError` of the template, and none of them has sent a header, the status is that of the
  -- `ErrorStatus` in the error, or 500; the body is "internal server error" and nothing of the
  -- template's output, nothing more happens to the databases, and the struct is back in the pool.
  pub buffering_error :
      (w : World) (e : Error)
      → cleaned ≡ (w, some e)
      → w.response.sent ≡ none
      → (final : Pooled World) × (buffering_template_handler execute
            (make_dot (buffer_stack mids))
            p
          ≡ some final)
        × (final.world.response.sent
            ≡ some (error_code e, error_sent_header (as_status e) w.response.header))
        × (final.world.response.body
            ≡ w.response.body ++ (codes "internal server error" ++ 10 ∷ []))
        × (final.world.closed ≡ w.closed)
        × (final.taken ≡ p.taken)
  unfolding finish_buffering resp_cleanup write write_header http_error
  buffering_error w e clean fresh = elim (Option-cases (as_status e)) [
    | inl plain ↦ (
      after_world (respond_error (codes "internal server error") 500)
          (record { world = write_status (as_status e) w; taken = p.taken }),
      buffering_finish ∙ rw clean refl,
      ground (arith, fresh, plain),
      ground (arith, fresh, plain),
      ground (arith, plain),
      refl,
    )
    | inr (n, status) ↦ (
      after_world (respond_error (codes "internal server error") 500)
          (record { world = write_status (as_status e) w; taken = p.taken }),
      buffering_finish ∙ rw clean refl,
      ground (arith, fresh, status),
      ground (arith, fresh, status),
      ground (arith, status),
      refl,
    )
  ]
