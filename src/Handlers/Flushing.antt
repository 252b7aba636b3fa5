-- ===== src/Handlers/Flushing.antt =====
-- What a flushing template handler of handlers.go answers before a template runs.
use xtemplate.Prelude.{
  ◌≡◌, refl, arith, false, none, some, List, [], ◌∷◌, ◌++◌, Text, codes, text_eq,
}
use xtemplate.Http.{values, write_header, write, http_error, error_header}
use xtemplate.Dot.{Dot, Pooled}
use xtemplate.Handlers.{
  Value, World, Execution, get_header, flushing_template_handler, after_world, respond_error,
}

-- The value of the Accept header that the handler reads.
unfoldable pub accept : World → Text
accept w = get_header (values (codes "Accept") w.request)

-- A request that does not ask for an event stream is answered 406 "SSE endpoint": no provider makes
-- a field, no template runs, and the header of an event stream is not set.
flushing_refused :
    (execute : List Value → World → Execution) (d : Dot World Value) (p : Pooled World)
    → text_eq (accept p.world) (codes "text/event-stream") ≡ false
    → p.world.response.sent ≡ none
    → (final : Pooled World) × (flushing_template_handler execute d p ≡ some final)
      × (final.world.response.sent ≡ some (406, error_header p.world.response.header))
      × (final.world.response.body ≡ p.world.response.body ++ (codes "SSE endpoint" ++ 10 ∷ []))
      × (final.world.closed ≡ p.world.closed)
      × (final.taken ≡ p.taken)
unfolding accept flushing_template_handler http_error write write_header
flushing_refused execute d p other fresh = (
  after_world (respond_error (codes "SSE endpoint") 406) p,
  rw other refl,
  ground (arith, fresh),
  ground (arith, fresh),
  refl,
  refl,
)
