-- ===== src/Funcs/Calls/Try.antt =====
-- `FuncTry`: a method by its name and a function value are called alike.
use xtemplate.Prelude.{
  ℕ, ◌+◌, ◌≡◌, refl, arith, Bool, true, false, ◌||◌, none, some, List, [], ◌∷◌, Text, ltb, ◌==◌,
  All, if◌then◌else◌,
}
use xtemplate.Funcs.{AnyValue, nil, string, function, object, Called, Libraries}
use xtemplate.Funcs.Calls.{
  cons_argument, next_argument, argument, reflect_args, result, called, with_args, try_call,
  found_method, try_method, func_try,
}

abbrev pub not_nil : AnyValue → Bool
not_nil nil = false
not_nil _ = true

-- The values that `FuncTry` takes methods of.
abbrev pub has_methods : AnyValue → Bool
has_methods nil = false
has_methods (function f) = false
has_methods _ = true

module _ {W : Type 0} (o : Libraries W) where
  argument-not_nil : (f i : ℕ) (a : AnyValue) → not_nil a ≡ true → argument o f i a ≡ some a
  unfolding argument
  argument-not_nil f i nil h = absurd (ground (arith, h))
  argument-not_nil f i (string s) h = refl
  argument-not_nil f i (function g) h = refl
  argument-not_nil f i (object x) h = refl

  -- Arguments other than nil are passed on as they are.
  reflect_args-not_nil :
      (f i : ℕ) (args : List AnyValue)
      → All (λ a. not_nil a ≡ true) args
      → reflect_args o f i args ≡ some args
  unfolding reflect_args next_argument cons_argument
  reflect_args-not_nil f i [] h = refl
  reflect_args-not_nil f i (a ∷ args) (h, hs) =
      rw (argument-not_nil f i a h) (rw (reflect_args-not_nil f (i + 1) args hs) refl)

  try_call-returns :
      (f : ℕ) (args : List AnyValue) (w : W) (c : Called W)
      → (o.outputs f == 1 || o.outputs f == 2) ≡ true
      → o.last_is_error f ≡ true
      → All (λ a. not_nil a ≡ true) args
      → o.call f args w ≡ some c
      → try_call o f args w
        ≡ result c.world (if ltb 1 (o.outputs f) then c.output else none) c.error
  unfolding try_call with_args called
  try_call-returns f args w c shape fails plain returns =
      rw shape (rw fails (rw (reflect_args-not_nil f 0 args plain) (rw returns refl)))

  try_method-finds :
      (v : AnyValue) (name : Text) (f : ℕ) (args : List AnyValue) (w : W)
      → has_methods v ≡ true
      → o.method_by_name v name ≡ some f
      → func_try o v (string name ∷ args) w ≡ try_call o f args w
  unfolding func_try try_method found_method
  try_method-finds nil name f args w h found = absurd (ground (arith, h))
  try_method-finds (function g) name f args w h found = absurd (ground (arith, h))
  try_method-finds (string s) name f args w h found = rw found refl
  try_method-finds (object x) name f args w h found = rw found refl

  -- For a function of one or two outputs, the last an error, that returns on arguments none of which is
  -- nil: `try` on the function, and `try` on a value that has it as a method, with the name first, both
  -- call it once with these arguments, and give what it leaves, its first output if it has two, and its
  -- error, which does not become an error of `try`.
  pub try_either :
      (v : AnyValue) (name : Text) (f : ℕ) (args : List AnyValue) (w : W) (c : Called W)
      → has_methods v ≡ true
      → o.method_by_name v name ≡ some f
      → (o.outputs f == 1 || o.outputs f == 2) ≡ true
      → o.last_is_error f ≡ true
      → All (λ a. not_nil a ≡ true) args
      → o.call f args w ≡ some c
      → (func_try o (function f) args w
          ≡ result c.world (if ltb 1 (o.outputs f) then c.output else none) c.error)
        × (func_try o v (string name ∷ args) w ≡ func_try o (function f) args w)
  unfolding func_try
  try_either v name f args w c methods found shape fails plain returns = (
    try_call-returns f args w c shape fails plain returns,
    try_method-finds v name f args w methods found,
  )
