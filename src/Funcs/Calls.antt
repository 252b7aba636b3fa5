-- ===== src/Funcs/Calls.antt =====
-- `FuncTry` of funcs.go.
pub mod Try
use xtemplate.Prelude.{
  ℕ, ◌+◌, Bool, true, false, ◌||◌, Option, none, some, List, [], ◌∷◌, ltb, ◌==◌, if◌then◌else◌,
}
use xtemplate.Prelude.Errors.{Error, errorf, int}
use xtemplate.Funcs.{AnyValue, nil, string, function, object, Called, Libraries}

-- How `FuncTry` ends: with a panic, an error, or a result, its value and error, with the state that the
-- function left.
pub data Tried (W : Type 0) : Type 0 where
  panicked : Tried W
  failed_try : Error → Tried W
  result : W → Option AnyValue → Option Error → Tried W

module _ {W : Type 0} (o : Libraries W) where
  cons_argument : AnyValue → Option (List AnyValue) → Option (List AnyValue)
  cons_argument a none = none
  cons_argument a (some args) = some (a ∷ args)

  next_argument : Option AnyValue → Option (List AnyValue) → Option (List AnyValue)
  unfolding cons_argument
  next_argument none rest = none
  next_argument (some a) rest = cons_argument a rest

  argument : ℕ → ℕ → AnyValue → Option AnyValue
  argument f i nil = o.zero_argument f i
  argument f i (string s) = some (string s)
  argument f i (function g) = some (function g)
  argument f i (object x) = some (object x)

  -- `reflectArgs`, from the argument `i` on
  pub reflect_args : ℕ → ℕ → List AnyValue → Option (List AnyValue)
  unfolding next_argument argument
  reflect_args f i [] = some []
  reflect_args f i (a ∷ args) = next_argument (argument f i a) (reflect_args f (i + 1) args)

  called : ℕ → Option (Called W) → Tried W
  called n none = panicked
  called n (some c) = result c.world (if ltb 1 n then c.output else none) c.error

  with_args : ℕ → Option (List AnyValue) → W → Tried W
  unfolding called
  with_args f none w = panicked
  with_args f (some args) w = called (o.outputs f) (o.call f args w)

  -- From `n := fnv.Type().NumOut()` on
  pub try_call : ℕ → List AnyValue → W → Tried W
  unfolding with_args reflect_args
  try_call f args w =
      if o.outputs f == 1 || o.outputs f == 2
      then (if o.last_is_error f
          then with_args f (reflect_args f 0 args) w
          else failed_try (errorf "cannot call func whose last arg is not error" []))
      else failed_try (errorf "cannot call func that has %d outputs" (int (o.outputs f) ∷ []))

  found_method : Option ℕ → List AnyValue → W → Tried W
  unfolding try_call
  found_method none args w = failed_try (errorf "not callable (method not found)" [])
  found_method (some f) args w = try_call f args w

  pub try_method : AnyValue → List AnyValue → W → Tried W
  unfolding found_method
  try_method v [] w = failed_try (errorf "not callable (no method name provided)" [])
  try_method v (string name ∷ args) w = found_method (o.method_by_name v name) args w
  try_method v (a ∷ args) w = failed_try (errorf "not callable (non-string method name)" [])

  pub func_try : AnyValue → List AnyValue → W → Tried W
  unfolding try_call try_method
  func_try nil args w = failed_try (errorf "nil func" [])
  func_try (function f) args w = try_call f args w
  func_try (string s) args w = try_method (string s) args w
  func_try (object x) args w = try_method (object x) args w

-- `result.OK`
result_ok : Option Error → Bool
result_ok none = true
result_ok (some e) = false
