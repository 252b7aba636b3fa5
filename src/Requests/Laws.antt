-- ===== src/Requests/Laws.antt =====
-- What handlers and templates read of the context of a request.
use xtemplate.Prelude.{ℕ, ◌≡◌, ◌≢◌, refl, sym, ◌∙◌, ap, arith, Bool, true, false, [], ◌∷◌, Text}
use xtemplate.Http.{Response}
use xtemplate.Requests.{
  Key, request_id_key, logger_key, string_key, other_key, logger, Context, key_eq, context_value,
  with_value, get_request_id, get_logger, own_request_id, logger_or, routed, with_request_id,
  request_id_of, serve_request,
}

-- The keys of other packages.
abbrev pub is_foreign : Key → Bool
is_foreign request_id_key = false
is_foreign logger_key = false
is_foreign _ = true

with_request_id-id :
    (uuid rid : Text) (ctx : Context)
    → get_request_id ctx ≡ rid
    → get_request_id (with_request_id uuid rid ctx) ≡ request_id_of uuid rid
unfolding with_request_id with_value get_request_id context_value key_eq own_request_id
with_request_id-id uuid [] ctx is = refl
with_request_id-id uuid (c ∷ s) ctx is = is

with_request_id-foreign :
    (key : Key) (uuid rid : Text) (ctx : Context)
    → is_foreign key ≡ true
    → context_value key (with_request_id uuid rid ctx) ≡ context_value key ctx
unfolding with_request_id with_value context_value key_eq
with_request_id-foreign key uuid (c ∷ s) ctx h = refl
with_request_id-foreign request_id_key uuid [] ctx h = absurd (ground (arith, h))
with_request_id-foreign logger_key uuid [] ctx h = absurd (ground (arith, h))
with_request_id-foreign (string_key n) uuid [] ctx h = refl
with_request_id-foreign (other_key n) uuid [] ctx h = refl

logger-id :
    (l : ℕ) (ctx : Context)
    → get_request_id (with_value logger_key (logger l) ctx) ≡ get_request_id ctx
unfolding with_value get_request_id context_value key_eq
logger-id l ctx = refl

logger-foreign :
    (key : Key) (l : ℕ) (ctx : Context)
    → is_foreign key ≡ true
    → context_value key (with_value logger_key (logger l) ctx) ≡ context_value key ctx
unfolding with_value context_value key_eq
logger-foreign request_id_key l ctx h = absurd (ground (arith, h))
logger-foreign logger_key l ctx h = absurd (ground (arith, h))
logger-foreign (string_key n) l ctx h = refl
logger-foreign (other_key n) l ctx h = refl

request_id_of-kept :
    (uuid other_uuid rid : Text)
    → uuid ≢ []
    → request_id_of other_uuid (request_id_of uuid rid) ≡ request_id_of uuid rid
request_id_of-kept [] other_uuid [] h = absurd (h refl)
request_id_of-kept (c ∷ s) other_uuid [] h = refl
request_id_of-kept uuid other_uuid (c ∷ s) h = refl

-- A request that reaches an instance that is not stopped is routed with a context in which the request
-- id is the one that came with it, of this package or of Caddy, or the fresh one if there is none; the
-- logger is the instance's with this id; what other packages put into the context is as it was; and an
-- instance that a handler passes the request on to keeps the id. The fresh id is not empty.
pub request_identified :
    (logger_with : ℕ → Text → ℕ) (uuid other_uuid : Text) (log other_log default_ : ℕ)
    (w v : Response) (ctx : Context)
    → uuid ≢ []
    → (inner : Context) × (outer : Context) × (serve_request logger_with false uuid log w ctx
        ≡ routed inner)
      × (get_request_id inner ≡ request_id_of uuid (get_request_id ctx))
      × (get_logger default_ inner ≡ logger_with log (get_request_id inner))
      × ((key : Key) → is_foreign key ≡ true → context_value key inner ≡ context_value key ctx)
      × (serve_request logger_with false other_uuid other_log v inner ≡ routed outer)
      × (get_request_id outer ≡ get_request_id inner)
unfolding serve_request with_value get_logger context_value key_eq logger_or
request_identified logger_with uuid other_uuid log other_log default_ w v ctx h =
    let rid = get_request_id ctx in
    let id = request_id_of uuid rid in
    let base = with_request_id uuid rid ctx in
    let inner = with_value logger_key (logger (logger_with log id)) base in
    let found : get_request_id inner ≡ id =
      logger-id (logger_with log id) base ∙ with_request_id-id uuid rid ctx refl in
    let next_id = request_id_of other_uuid (get_request_id inner) in
    let next_base = with_request_id other_uuid (get_request_id inner) inner in
    let outer = with_value logger_key (logger (logger_with other_log next_id)) next_base in
    (
      inner,
      outer,
      refl,
      found,
      ap (logger_with log) (sym found),
      (λ key foreign.
          logger-foreign key (logger_with log id) base foreign
          ∙ with_request_id-foreign key uuid rid ctx foreign),
      refl,
      logger-id (logger_with other_log next_id) next_base
          ∙ with_request_id-id other_uuid (get_request_id inner) inner refl
          ∙ ap (request_id_of other_uuid) found
          ∙ request_id_of-kept uuid other_uuid rid h
          ∙ sym found,
    )
