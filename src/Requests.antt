-- ===== src/Requests.antt =====
-- instance.go: the context that `Instance.ServeHTTP` gives to a request, and what `GetRequestId` and
-- `GetLogger` read of it.
pub mod Laws
mod Tests
use xtemplate.Prelude.{
  ℕ, Bool, true, false, Option, none, some, List, [], ◌∷◌, Text, codes, text_eq, ◌==◌,
  if◌then◌else◌,
}
use xtemplate.Http.{Response, http_error}

-- A key of a context: `requestIdKey` and `loggerKey`, which only this package has, a string, and a key
-- of another type.
pub data Key : Type 0 where
  request_id_key logger_key : Key
  string_key : Text → Key
  other_key : ℕ → Key

-- A value: a string, a `*slog.Logger`, a `map[string]any`, in which the values that are strings matter,
-- or something else. A value that is nil counts as absent.
pub data ContextValue : Type 0 where
  string : Text → ContextValue
  logger : ℕ → ContextValue
  vars : List (Text × Option Text) → ContextValue
  other : ℕ → ContextValue

-- A context with the values that `context.WithValue` put around each other, the last one first.
abbrev pub Context : Type 0
Context = List (Key × ContextValue)

pub key_eq : Key → Key → Bool
unfolding text_eq
key_eq request_id_key request_id_key = true
key_eq logger_key logger_key = true
key_eq (string_key s) (string_key t) = text_eq s t
key_eq (other_key a) (other_key b) = a == b
key_eq _ _ = false

-- `ctx.Value(key)`; nil is `none`.
pub context_value : Key → Context → Option ContextValue
unfolding key_eq
context_value key [] = none
context_value key ((k, v) ∷ ctx) =
    let rest = context_value key ctx in if key_eq key k then some v else rest

pub with_value : Key → ContextValue → Context → Context
with_value key v ctx = (key, v) ∷ ctx

-- `mv["uuid"]`, if it is a string
entry : Text → List (Text × Option Text) → Option Text
unfolding text_eq
entry key [] = none
entry key ((k, v) ∷ m) = let rest = entry key m in if text_eq k key then v else rest

or_empty : Option Text → Text
or_empty none = []
or_empty (some t) = t

-- The request id that Caddy puts into its variables.
caddy_request_id : Option ContextValue → Text
unfolding entry or_empty
caddy_request_id (some (vars m)) = or_empty (entry (codes "uuid") m)
caddy_request_id _ = []

own_request_id : Text → Option ContextValue → Text
own_request_id other_id (some (string s)) = s
own_request_id other_id _ = other_id

pub get_request_id : Context → Text
unfolding context_value caddy_request_id own_request_id
get_request_id ctx =
    own_request_id (caddy_request_id (context_value (string_key (codes "vars")) ctx))
      (context_value request_id_key ctx)

logger_or : ℕ → Option ContextValue → ℕ
logger_or default_ (some (logger l)) = l
logger_or default_ _ = default_

-- `default_` is `slog.Default()`.
pub get_logger : ℕ → Context → ℕ
unfolding context_value logger_or
get_logger default_ ctx = logger_or default_ (context_value logger_key ctx)

-- What becomes of a request: an answer, or the router with a context.
pub data Served : Type 0 where
  answered : Response → Served
  routed : Context → Served

-- `if rid == "" { … }`
with_request_id : Text → Text → Context → Context
unfolding with_value
with_request_id uuid [] ctx = with_value request_id_key (string uuid) ctx
with_request_id uuid (c ∷ s) ctx = ctx

abbrev pub request_id_of : Text → Text → Text
request_id_of uuid [] = uuid
request_id_of uuid (c ∷ s) = c ∷ s

-- `Instance.ServeHTTP` up to the call of the router. `stopped` tells whether the instance's context is
-- done, `uuid` is the fresh one, and `logger_with l id` is the instance's logger with a request id.
pub serve_request : (ℕ → Text → ℕ) → Bool → Text → ℕ → Response → Context → Served
unfolding with_request_id with_value get_request_id
serve_request logger_with stopped uuid log w ctx =
    let rid = get_request_id ctx in
    if stopped
    then answered (http_error (codes "server stopped") 500 w)
    else routed (
        with_value logger_key (logger (logger_with log (request_id_of uuid rid)))
          (with_request_id uuid rid ctx))
