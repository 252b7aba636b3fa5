-- ===== src/Handlers/Typed.antt =====
-- dot.go over the providers of Handlers: what they give for the mock request of makeDot, and the types
-- of the fields that they make.
pub mod Assertions
pub mod Total
mod Tests
use xtemplate.Prelude.{ℕ, ◌+◌, Bool, false, Option, none, some, List, [], ◌∷◌, ◌++◌}
use xtemplate.Prelude.Errors.{Result, ok, err}
use xtemplate.Http.{no_response}
use xtemplate.Dot.{DotConfig}
use xtemplate.Dot.Typed.{Probed}
use xtemplate.Handlers.{
  Value, x_value, req_value, flush_value, resp_value, db_value, flags_value, nats_value, other,
  World, x_provider, req_provider, resp_provider, flush_provider,
}

-- `mockHttpRequest` with `mockResponseWriter`, whose methods are those of a `http.ResponseWriter` and no
-- more: it is not a `http.Flusher`, and its header is empty.
unfoldable pub mock_world : World
mock_world = record { request = []; response = no_response; can_flush = false; closed = [] }

-- `a, _ := dp.Value(mockRequest)`, where `beside` is what `Value` returns with an error.
first_result : Option Value → World × Result Value → Option Value
first_result beside (w, ok v) = some v
first_result beside (w, err e) = beside

unfoldable pub probed : DotConfig World Value → Option Value → Probed World Value
unfolding mock_world first_result
probed dp beside = record { config = dp; mock = first_result beside (dp.value_ mock_world) }

-- The type of a field's value, where `other_type` gives those of the providers that are not of this
-- repository.
unfoldable pub type_of : (ℕ → ℕ) → Value → ℕ
type_of other_type x_value = 0
type_of other_type req_value = 1
type_of other_type flush_value = 2
type_of other_type (resp_value d) = 3
type_of other_type (db_value d) = 4
type_of other_type (flags_value values) = 5
type_of other_type (nats_value conn js) = 6
type_of other_type (other n) = 7 + other_type n

-- `dotFlushProvider.Value` returns `&DotFlush{}` beside its error.
unfoldable pub buffer_probes : List (Probed World Value) → List (Probed World Value)
unfolding probed
buffer_probes dps =
    probed x_provider none ∷ probed req_provider none ∷ (dps ++ probed resp_provider none ∷ [])

unfoldable pub flusher_probes : List (Probed World Value) → List (Probed World Value)
unfolding probed
flusher_probes dps =
    probed x_provider none
    ∷ probed req_provider none
    ∷ (dps ++ probed flush_provider (some flush_value) ∷ [])
