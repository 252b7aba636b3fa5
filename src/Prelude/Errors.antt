-- ===== src/Prelude/Errors.antt =====
-- Go's `error` values, as far as the program makes and inspects them.
use Prim.Native.Nat.{ℕ}
use Prim.Native.String.{String}
use mathlib.Core.Option.{Option, none, some}
use mathlib.Core.Bool.{Bool, true, false, ◌||◌}
use mathlib.Core.List.{List}
use xtemplate.Prelude.Texts.{Text}

-- An argument of `fmt.Errorf`.
pub data Arg : Type 0 where
  text : Text → Arg
  int : ℕ → Arg

-- `errorf` and `wrapf` are `fmt.Errorf` without and with `%w`: the format and its other arguments,
-- which determine the message. `external` is an error that code outside the repository returned.
pub data Error : Type 0 where
  return_error : Error
  error_status : ℕ → Error
  errorf : String → List Arg → Error
  wrapf : String → List Arg → Error → Error
  join : Error → Error → Error
  external : ℕ → Error

-- The Go results `(A, error)` of which the value is not used beside an error.
pub data Result {ℓ} (A : Type ℓ) : Type ℓ where
  ok : A → Result A
  err : Error → Result A

infixl 5 ◌>>=◌
abbrev pub ◌>>=◌ {ℓ κ} : {A : Type ℓ} {B : Type κ} → Result A → (A → Result B) → Result B
ok a >>= f = f a
err e >>= f = err e

abbrev pub first_some : Option ℕ → Option ℕ → Option ℕ
first_some none b = b
first_some (some a) b = some a

-- `errors.As(err, &errSt)` with `errSt` of type ErrorStatus: the first in the tree, in pre-order.
unfoldable pub as_status : Error → Option ℕ
as_status (error_status n) = some n
as_status (wrapf f a e) = as_status e
as_status (join e f) = first_some (as_status e) (as_status f)
as_status _ = none

-- `errors.As(err, &ReturnError{})`
unfoldable pub as_return : Error → Bool
as_return return_error = true
as_return (wrapf f a e) = as_return e
as_return (join e f) = as_return e || as_return f
as_return _ = false

-- `errors.Join(a, b)`: nil errors are discarded, and the result is nil if both are.
unfoldable pub errors_join : Option Error → Option Error → Option Error
errors_join none b = b
errors_join (some a) none = some a
errors_join (some a) (some b) = some (join a b)
