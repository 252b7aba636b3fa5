-- ===== src/Handlers/Requests.antt =====
-- A request for a template of an instance whose configured providers are databases, from the making of
-- the dot value to the answer: the handler of handlers.go, dot.go and dot_db.go together.
mod Tests
use xtemplate.Prelude.{
  ◌+◌, ◌≡◌, refl, ◌∙◌, ap, arith, none, some, List, [], ◌∷◌, ◌++◌, codes, length,
}
use xtemplate.Prelude.Errors.{Error, ok, as_status, first_some}
use xtemplate.Db.{new_dot_db}
use xtemplate.Dot.{Pooled, make_dot, value, value_loop, next_value, cons_value, put_back}
use xtemplate.Dot.Aligned.{clean_pairs}
use xtemplate.Handlers.{
  DotResp, Value, x_value, req_value, resp_value, db_value, World, Execution, x_provider,
  req_provider, resp_provider, db_provider, buffer_stack, buffering_template_handler,
}
use xtemplate.Handlers.Buffering.{status_or_500, error_sent_header, after_return, buffering_error}
use xtemplate.Handlers.Databases.{
  Used, providers, fields, rollback_status, rolled_back, databases_failed,
}

abbrev fresh_resp : Value
fresh_resp = resp_value (record { header = []; status = 200 })

-- The fields that a template of an instance with these databases gets.
unfoldable pub fresh : List Used → List Value
fresh [] = fresh_resp ∷ []
fresh (u ∷ us) = db_value new_dot_db ∷ fresh us

value_loop-providers :
    (us : List Used) (w : World)
    → value_loop (providers us ++ resp_provider ∷ []) w ≡ (w, ok (fresh us))
unfolding fresh value_loop next_value cons_value resp_provider db_provider
value_loop-providers [] w = refl
value_loop-providers (u ∷ us) w = ap (cons_value (db_value new_dot_db)) (value_loop-providers us w)

-- No provider fails: the dot value is made.
pub value-providers :
    (us : List Used) (p : Pooled World)
    → value (make_dot (buffer_stack (providers us))) p
      ≡ (record { world = p.world; taken = p.taken + 1 }, ok (x_value ∷ req_value ∷ fresh us))
unfolding value make_dot buffer_stack value_loop next_value cons_value put_back x_provider
    req_provider
value-providers us p =
    ap (λ r. put_back p.taken (cons_value x_value (cons_value req_value r)))
      (value_loop-providers us p.world)

pub length-providers : (us : List Used) → length (fields us) ≡ length (providers us)
length-providers [] = refl
length-providers (u ∷ us) = omega (arith, length-providers us)

module _ (execute : List Value → World → Execution) (us : List Used) (p : Pooled World)
    (r : DotResp)
    (left : (execute (x_value ∷ req_value ∷ fresh us) p.world).fields
      ≡ x_value ∷ req_value ∷ (fields us ++ resp_value r ∷ [])) where
  -- What the template did.
  abbrev ran : Execution
  ran = execute (x_value ∷ req_value ∷ fresh us) p.world

  -- For an instance whose configured providers are databases: the run of a template that ends with an
  -- error other than a `ReturnError`, none of whose methods has sent a header, is answered with the
  -- status of the first `ErrorStatus` in the error, or else in the errors of the rollbacks, or else 500,
  -- and with none of its output; the cleanup rolls every database back, whatever the template did with
  -- it, and commits none; and the struct of the dot value is back in the pool.
  pub request_failed :
      (e : Error)
      → after_return ran.error ≡ some e
      → ran.world.response.sent ≡ none
      → (final : Pooled World) × (buffering_template_handler execute
            (make_dot (buffer_stack (providers us)))
            p
          ≡ some final)
        × (final.world.response.sent
            ≡ some (
              status_or_500 (first_some (as_status e) (rollback_status us)),
              error_sent_header
                  (first_some (as_status e) (rollback_status us))
                  ran.world.response.header,
            ))
        × (final.world.response.body
            ≡ ran.world.response.body ++ (codes "internal server error" ++ 10 ∷ []))
        × (final.world.closed ≡ rolled_back us ran.world.closed)
        × (final.taken ≡ p.taken)
  request_failed e ended unsent =
      let (f, failed, status) = databases_failed us ran.world e in
      let (final, answer, sent, body, closed, taken) =
        buffering_error execute (providers us) p _ _ (fields us) r (value-providers us p) left
          (length-providers us) _ f
          (ap (λ o. clean_pairs (providers us) (fields us) (ran.world, o)) ended ∙ failed) unsent in
      (
        final,
        answer,
        sent
            ∙ ap (λ o. some (status_or_500 o, error_sent_header o ran.world.response.header))
                status,
        body,
        closed,
        taken,
      )
