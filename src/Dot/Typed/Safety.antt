-- ===== src/Dot/Typed/Safety.antt =====
-- When a dot value can be set without a panic, and the types of its fields.
use xtemplate.Prelude.{ℕ, ◌≡◌, refl, ap, arith, ==_refl, Option, some, List, [], ◌∷◌, map}
use xtemplate.Prelude.Errors.{Result, ok, err}
use xtemplate.Dot.{DotConfig, Pooled, make_dot, value, value_loop, next_value}
use xtemplate.Dot.Typed.{
  Probed, configs, TypedDot, cons_type, struct_made, cons_set, put_typed, field_types,
  make_typed_dot, next_field, field_loop, typed_value,
}
use xtemplate.Dot.Aligned.{next_value-ok, put_back-ok}

module _ {W V : Type 0} (type_of : V → ℕ) where
  -- The provider has a value of the type `t` for the mock request, and its values for other requests
  -- are of this type.
  unfoldable pub HasType : ℕ → Probed W V → Type 0
  HasType t dp =
      ((a : V) × (dp.mock ≡ some a) × (type_of a ≡ t))
      × ((w u : W) (v : V) → dp.config.value_ w ≡ (u, ok v) → type_of v ≡ t)

  -- `HasType` of each provider, with its type.
  unfoldable pub HaveTypes : List ℕ → List (Probed W V) → Type 0
  HaveTypes [] [] = Unit
  HaveTypes [] (dp ∷ dps) = ⊥
  HaveTypes (t ∷ ts) [] = ⊥
  HaveTypes (t ∷ ts) (dp ∷ dps) = HasType t dp × HaveTypes ts dps

  field_types-HaveTypes :
      (ts : List ℕ) (dps : List (Probed W V)) → HaveTypes ts dps → field_types type_of dps ≡ some ts
  unfolding HaveTypes HasType field_types cons_type
  field_types-HaveTypes [] [] h = refl
  field_types-HaveTypes [] (dp ∷ dps) h = absurd h
  field_types-HaveTypes (t ∷ ts) [] h = absurd h
  field_types-HaveTypes (t ∷ ts) (dp ∷ dps) (((a, is, same), always), hs) =
      rw (is, same, field_types-HaveTypes ts dps hs) refl

  next_field-HasType :
      (t : ℕ) (dp : DotConfig W V) (rest : W → Option (W × Result (List V)))
      (total : W → W × Result (List V)) (r : W × Result V)
      → ((w : W) → rest w ≡ some (total w))
      → ((w : W) (v : V) → r ≡ (w, ok v) → type_of v ≡ t)
      → next_field type_of dp t rest r ≡ some (next_value dp total r)
  unfolding next_field next_value cons_set
  next_field-HasType t dp rest total (w, ok v) ih h = rw (h w v refl, ==_refl t, ih w) refl
  next_field-HasType t dp rest total (w, err e) ih h = refl

  field_loop-HaveTypes :
      (ts : List ℕ) (dps : List (Probed W V)) (w : W)
      → HaveTypes ts dps
      → field_loop type_of (configs dps) ts w ≡ some (value_loop (configs dps) w)
  unfolding HaveTypes HasType field_loop value_loop
  field_loop-HaveTypes [] [] w h = refl
  field_loop-HaveTypes [] (dp ∷ dps) w h = absurd h
  field_loop-HaveTypes (t ∷ ts) [] w h = absurd h
  field_loop-HaveTypes (t ∷ ts) (dp ∷ dps) w ((probe, always), hs) =
      next_field-HasType t dp.config (field_loop type_of (configs dps) ts)
        (value_loop (configs dps)) (dp.config.value_ w) (λ u. field_loop-HaveTypes ts dps u hs)
        (always w)

  value_loop-types :
      (ts : List ℕ) (dps : List (Probed W V)) (w : W) {u : W} {vs : List V}
      → HaveTypes ts dps
      → value_loop (configs dps) w ≡ (u, ok vs)
      → map type_of vs ≡ ts
  unfolding HaveTypes HasType value_loop
  value_loop-types [] [] w {vs = vs} h e =
      let same : [] ≡ vs = ground (arith, e) in rw (← same) refl
  value_loop-types [] (dp ∷ dps) w h e = absurd h
  value_loop-types (t ∷ ts) [] w h e = absurd h
  value_loop-types (t ∷ ts) (dp ∷ dps) w ((probe, always), hs) e =
      let (v, us, u, r, p, q) = next_value-ok dp.config (configs dps) (dp.config.value_ w) e in
      rw (q, always w u v r, value_loop-types ts dps u hs p) refl

  -- If each provider has a value for the mock request and always gives values of this value's type,
  -- then `makeDot` does not panic, the struct has these types in the order of the providers, no field
  -- is ever set to a value of another type, and the values of a request's fields have these types.
  pub typed_value_lem :
      (ts : List ℕ) (dps : List (Probed W V)) (p : Pooled W) {q : Pooled W} {vs : List V}
      → HaveTypes ts dps
      → value (make_dot (configs dps)) p ≡ (q, ok vs)
      → (d : TypedDot W V) × (make_typed_dot type_of dps ≡ some d)
        × (typed_value type_of d p ≡ some (q, ok vs))
        × (d.dot ≡ make_dot (configs dps))
        × (d.types ≡ ts)
        × (map type_of vs ≡ ts)
  unfolding make_typed_dot struct_made typed_value value put_typed make_dot
  typed_value_lem ts dps p h e =
      let (u, loop, taken) = put_back-ok p.taken (value_loop (configs dps) p.world) e in
      (
        record { dot = make_dot (configs dps); types = ts },
        rw (field_types-HaveTypes ts dps h) refl,
        rw (field_loop-HaveTypes ts dps p.world h) (ap some e),
        refl,
        refl,
        value_loop-types ts dps p.world h loop,
      )

  -- If each provider has a value for the mock request and always gives values of this value's type,
  -- then neither `makeDot` nor `value` panics, whichever providers fail.
  typed_value_total :
      (ts : List ℕ) (dps : List (Probed W V)) (p : Pooled W)
      → HaveTypes ts dps
      → (d : TypedDot W V) × (make_typed_dot type_of dps ≡ some d)
        × (typed_value type_of d p ≡ some (value (make_dot (configs dps)) p))
  unfolding make_typed_dot struct_made typed_value value put_typed make_dot
  typed_value_total ts dps p h = (
    record { dot = make_dot (configs dps); types = ts },
    rw (field_types-HaveTypes ts dps h) refl,
    rw (field_loop-HaveTypes ts dps p.world h) refl,
  )
