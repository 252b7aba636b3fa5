-- ===== src/Requests/Tests.antt =====
-- Requests to an instance, and the theorem of Requests/Laws at one.
use xtemplate.Prelude.{ℕ, ◌+◌, ◌≡◌, arith, true, false, some, [], ◌∷◌, Text, codes, length}
use xtemplate.Http.{no_response}
use xtemplate.Requests.{
  Key, string_key, vars, Context, context_value, get_request_id, get_logger, serve_request, routed,
}
use xtemplate.Requests.Laws.{is_foreign, request_identified}

-- Caddy has given the request an id.
abbrev from_caddy : Context
from_caddy = (string_key (codes "vars"), vars ((codes "uuid", some (codes "c1")) ∷ [])) ∷ []

abbrev with_id : ℕ → Text → ℕ
with_id log id = log + length id

request_identified_example :
    (inner : Context) × (outer : Context) × (serve_request with_id false
        (codes "u1")
        10
        no_response
        from_caddy
      ≡ routed inner)
    × (get_request_id inner ≡ codes "c1")
    × (get_logger 0 inner ≡ with_id 10 (get_request_id inner))
    × ((key : Key) → is_foreign key ≡ true → context_value key inner ≡ context_value key from_caddy)
    × (serve_request with_id false (codes "u2") 20 no_response inner ≡ routed outer)
    × (get_request_id outer ≡ get_request_id inner)
unfolding get_request_id context_value
request_identified_example =
    request_identified with_id (codes "u1") (codes "u2") 10 20 0 no_response no_response from_caddy
      (λ e. absurd (ground (arith, e)))
