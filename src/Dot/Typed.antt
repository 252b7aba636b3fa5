-- ===== src/Dot/Typed.antt =====
-- dot.go: the types of the fields, which makeDot takes from the values for a mock request, and where
-- `dot.value` sets a field. A `reflect.Type` is a number.
pub mod Safety
use xtemplate.Prelude.{ℕ, ◌+◌, Option, none, some, List, [], ◌∷◌, text_eq, ◌==◌, if◌then◌else◌, map}
use xtemplate.Prelude.Errors.{Error, Result, ok, err, wrapf, text}
use xtemplate.Dot.{DotConfig, Pooled, Dot, make_dot, cons_value, put_back}

-- A `DotConfig`, and the first result of its `Value` for the mock request, which `makeDot` uses also
-- if there is an error; `none` is nil.
pub record Probed (W V : Type 0) : Type 0 where
  pub config : DotConfig W V
  pub mock : Option V

abbrev pub configs : {W V : Type 0} → List (Probed W V) → List (DotConfig W V)
configs = map (λ dp. dp.config)

-- The dot value with the types of the struct's fields.
pub record TypedDot (W V : Type 0) : Type 0 where
  pub dot : Dot W V
  pub types : List ℕ

cons_type : ℕ → Option (List ℕ) → Option (List ℕ)
cons_type t none = none
cons_type t (some ts) = some (t ∷ ts)

module _ {W V : Type 0} where
  struct_made : Dot W V → Option (List ℕ) → Option (TypedDot W V)
  struct_made d none = none
  struct_made d (some ts) = some (record { dot = d; types = ts })

  cons_set : V → Option (W × Result (List V)) → Option (W × Result (List V))
  unfolding cons_value
  cons_set v none = none
  cons_set v (some r) = some (cons_value v r)

  put_typed : ℕ → Option (W × Result (List V)) → Option (Pooled W × Result (List V))
  unfolding put_back
  put_typed n none = none
  put_typed n (some r) = some (put_back n r)

module _ {W V : Type 0} (type_of : V → ℕ) where
  -- `none`: `t.Kind()` of the nil type panics. `reflect.TypeOf` returns no interface type, so that
  -- the field's type is always that of the value.
  field_types : List (Probed W V) → Option (List ℕ)
  unfolding cons_type
  field_types [] = some []
  field_types (dp ∷ dps) =
      let rest = field_types dps in
      elim dp.mock [ none ↦ none | some a ↦ cons_type (type_of a) rest ]

  pub make_typed_dot : List (Probed W V) → Option (TypedDot W V)
  unfolding field_types struct_made make_dot
  make_typed_dot dps = struct_made (make_dot (configs dps)) (field_types dps)

  -- `val.Field(i).Set(reflect.ValueOf(a))`, which panics if the field is of another type.
  next_field :
      DotConfig W V
      → ℕ
      → (W → Option (W × Result (List V)))
      → W × Result V
      → Option (W × Result (List V))
  unfolding cons_set
  next_field dp t rest (w, ok v) = if type_of v == t then cons_set v (rest w) else none
  next_field dp t rest (w, err e) =
      some
        (w, err (wrapf "failed to construct dot value for %s (%v): %w" (text dp.field_name ∷ []) e))

  field_loop : List (DotConfig W V) → List ℕ → W → Option (W × Result (List V))
  unfolding next_field
  field_loop [] ts w = some (w, ok [])
  field_loop (dp ∷ dps) [] w = none
  field_loop (dp ∷ dps) (t ∷ ts) w = next_field dp t (field_loop dps ts) (dp.value_ w)

  -- `dot.value`; `none` is a panic.
  pub typed_value : TypedDot W V → Pooled W → Option (Pooled W × Result (List V))
  unfolding field_loop put_typed
  typed_value d p = put_typed p.taken (field_loop d.dot.dps d.types p.world)
