-- ===== src/Instance/Answers.antt =====
-- The template handlers of an instance that `Config.Instance` returns: instance.go, dot.go and
-- handlers.go together.
mod Tests
use mathlib.Core.Path.{subst}
use xtemplate.Prelude.{
  ℕ, ◌≡◌, ◌⊎◌, refl, sym, ◌∙◌, ap, Option, none, some, List, [], ◌∷◌, ◌++◌, map, length, codes, All,
}
use xtemplate.Prelude.Errors.{Error, ok, as_status, first_some}
use xtemplate.Config.{Config, ConfigOption, DotDbConfig}
use xtemplate.Db.{DotDb}
use xtemplate.Dot.{DotConfig, Pooled, make_dot}
use xtemplate.Handlers.{
  DotResp, Value, x_value, req_value, resp_value, World, Execution, buffer_stack, db_provider,
  buffering_template_handler, flushing_template_handler,
}
use xtemplate.Handlers.Buffering.{status_or_500, error_sent_header, after_return}
use xtemplate.Handlers.Databases.{Used, providers, fields, rollback_status, rolled_back}
use xtemplate.Handlers.Requests.{fresh, request_failed}
use xtemplate.Handlers.Typed.Total.{buffering_answers, flushing_answers}
use xtemplate.Providers.{Provider, database, field_name}
use xtemplate.Providers.Names.{IsOrder}
use xtemplate.Instance.{Surroundings, Instance, returned, instance_, dot_config}
use xtemplate.Instance.Initializers.{IsListing}
use xtemplate.Instance.Laws.{IsMade, instance_-IsMade}

module _ {W : Type 0} (s : Surroundings W)
    (named : (p : Provider) → (s.as_dot p).field_name ≡ field_name s.outside p)
    (listed : IsListing s.templates_order) (ordered : IsOrder s.names_order)
    (opts : List ConfigOption) (c : Config) (n : ℕ) (w w' : W) (p : Pooled World) (i : Instance)
    (built : instance_ s opts c n w ≡ returned w' p (ok i)) where
  -- Every request for a template of an instance that `Config.Instance` returned is answered, by a
  -- buffering handler and by a flushing one, without an index of a cleanup out of range, if the
  -- template keeps the number of the fields; and the struct of the dot value is back in its pool. It
  -- is assumed that going through a Go map meets each entry of the map once and no others, and that
  -- the dot field of a provider has the provider's name.
  pub instance_-answers :
      (execute : List Value → World → Execution) (q : Pooled World)
      → ((vs : List Value) (u : World) → length (execute vs u).fields ≡ length vs)
      → ((a : Pooled World) × (buffering_template_handler execute i.buffer_dot q ≡ some a)
          × (a.taken ≡ q.taken))
        × ((b : Pooled World) × (flushing_template_handler execute i.flusher_dot q ≡ some b)
            × (b.taken ≡ q.taken))
  instance_-answers execute q keeps =
      let made = (instance_-IsMade s named listed opts c n w w' p i ordered built).formed in
      (
        subst
            (λ d.
              (a : Pooled World) × (buffering_template_handler execute d q ≡ some a)
              × (a.taken ≡ q.taken))
            (sym made.made_buffer_dot) (buffering_answers execute _ keeps q),
        subst
            (λ d.
              (b : Pooled World) × (flushing_template_handler execute d q ≡ some b)
              × (b.taken ≡ q.taken))
            (sym made.made_flusher_dot) (flushing_answers execute _ keeps q),
      )

  -- The databases of an instance, with their drivers and with the fields that a template leaves.
  abbrev database_uses : List (DotDbConfig × DotDb) → List Used
  database_uses = map (λ x. record { name = x.0.name; sql = s.driver x.0.db; field = x.1 })

  map-database_uses :
      (ds : List (DotDbConfig × DotDb))
      → map (dot_config s) (map (λ x. database x.0) ds) ≡ providers (database_uses ds)
  unfolding dot_config
  map-database_uses [] = refl
  map-database_uses (d ∷ ds) =
      ap (λ l. db_provider d.0.name (s.driver d.0.db) ∷ l) (map-database_uses ds)

  buffer_dot-databases :
      (ds : List (DotDbConfig × DotDb))
      → i.providers ≡ map (λ x. database x.0) ds
      → i.buffer_dot ≡ make_dot (buffer_stack (providers (database_uses ds)))
  buffer_dot-databases ds only =
      (instance_-IsMade s named listed opts c n w w' p i ordered built).formed.made_buffer_dot
      ∙ ap (λ l. make_dot (buffer_stack l)) (ap (map (dot_config s)) only ∙ map-database_uses ds)

  module _ (execute : List Value → World → Execution) (q : Pooled World)
      (ds : List (DotDbConfig × DotDb)) (only : i.providers ≡ map (λ x. database x.0) ds) where
    abbrev ran : Execution
    ran = execute (x_value ∷ req_value ∷ fresh (database_uses ds)) q.world

    -- For an instance that `Config.Instance` returned, whose providers are databases: if the run of a
    -- template ends with an error other than a `ReturnError`, and none of its methods has sent a
    -- header, the answer has the status of the first `ErrorStatus` in the error, or else in the errors
    -- of the rollbacks, or else 500, and none of the output; and the cleanup rolls every database back
    -- and commits none. It is assumed that going through a Go map meets each entry of the map once and
    -- no others, and that the dot field of a provider has the provider's name.
    pub instance_-request_failed :
        (r : DotResp) (e : Error)
        → ran.fields ≡ x_value ∷ req_value ∷ (fields (database_uses ds) ++ resp_value r ∷ [])
        → after_return ran.error ≡ some e
        → ran.world.response.sent ≡ none
        → (final : Pooled World) × (buffering_template_handler execute i.buffer_dot q ≡ some final)
          × (final.world.response.sent
              ≡ some (
                status_or_500 (first_some (as_status e) (rollback_status (database_uses ds))),
                error_sent_header
                    (first_some (as_status e) (rollback_status (database_uses ds)))
                    ran.world.response.header,
              ))
          × (final.world.response.body
              ≡ ran.world.response.body ++ (codes "internal server error" ++ 10 ∷ []))
          × (final.world.closed ≡ rolled_back (database_uses ds) ran.world.closed)
          × (final.taken ≡ q.taken)
    instance_-request_failed r e left ended unsent =
        let (final, answer, sent, body, closed, taken) =
          request_failed execute (database_uses ds) q r left e ended unsent in
        (
          final,
          ap (λ d. buffering_template_handler execute d q) (buffer_dot-databases ds only) ∙ answer,
          sent,
          body,
          closed,
          taken,
        )
