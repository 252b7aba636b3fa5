-- ===== src/Dot.antt =====
-- dot.go: the dot value of a template, a struct with a field for each provider, and its cleanups.
pub mod Aligned
pub mod Typed
mod Tests
use xtemplate.Prelude.{
  ℕ, zero, suc, ◌+◌, ◌-◌, Option, none, some, List, [], ◌∷◌, Text, get_elem?, map,
}
use xtemplate.Prelude.Errors.{Error, Result, ok, err, wrapf, text}

-- The effects of a call of `Value` or `Cleanup` are on a state `W`, which holds the request; a field
-- of the dot value is a `V`.
abbrev pub Cleanup : Type 0 → Type 0 → Type 0
Cleanup W V = V → Option Error → W → W × Option Error

-- A `DotConfig`; `cleanup_` is there if it is a `CleanupDotProvider`.
pub record DotConfig (W V : Type 0) : Type 0 where
  pub field_name : Text
  pub value_ : W → W × Result V
  pub cleanup_ : Option (Cleanup W V)

-- The struct values that are taken from the pool and not returned are counted.
pub record Pooled (W : Type 0) : Type 0 where
  pub world : W
  pub taken : ℕ

pub record Dot (W V : Type 0) : Type 0 where
  pub dps : List (DotConfig W V)
  pub cleanups : List (ℕ × Cleanup W V)
  pub fields : List Text

put_struct : {W : Type 0} → ℕ → Option (W × Option Error) → Option (Pooled W × Option Error)
put_struct n none = none
put_struct n (some (w, e)) = some (record { world = w; taken = n - 1 }, e)

module _ {W V : Type 0} where
  add_cleanup : ℕ → Option (Cleanup W V) → List (ℕ × Cleanup W V) → List (ℕ × Cleanup W V)
  add_cleanup i none cs = cs
  add_cleanup i (some c) cs = (i, c) ∷ cs

  cleanups_from : ℕ → List (DotConfig W V) → List (ℕ × Cleanup W V)
  unfolding add_cleanup
  cleanups_from i [] = []
  cleanups_from i (dp ∷ dps) = add_cleanup i dp.cleanup_ (cleanups_from (suc i) dps)

  -- `makeDot`; the types of the fields are not modelled.
  unfoldable pub make_dot : List (DotConfig W V) → Dot W V
  unfolding cleanups_from
  make_dot dps = record {
    dps = dps;
    cleanups = cleanups_from 0 dps;
    fields = map (λ dp. dp.field_name) dps;
  }

  unfoldable pub cons_value : V → W × Result (List V) → W × Result (List V)
  cons_value v (w, ok vs) = (w, ok (v ∷ vs))
  cons_value v (w, err e) = (w, err e)

  unfoldable pub next_value :
      DotConfig W V → (W → W × Result (List V)) → W × Result V → W × Result (List V)
  unfolding cons_value
  next_value dp rest (w, ok v) = cons_value v (rest w)
  next_value dp rest (w, err e) =
      (w, err (wrapf "failed to construct dot value for %s (%v): %w" (text dp.field_name ∷ []) e))

  -- `Field(i).Set` of a value with the type of the field; Dot.Typed has the types.
  unfoldable pub value_loop : List (DotConfig W V) → W → W × Result (List V)
  unfolding next_value
  value_loop [] w = (w, ok [])
  value_loop (dp ∷ dps) w = next_value dp (value_loop dps) (dp.value_ w)

  -- On an error the struct is zeroed and put back, and no value is returned.
  unfoldable pub put_back : ℕ → W × Result (List V) → Pooled W × Result (List V)
  put_back n (w, ok vs) = (record { world = w; taken = n + 1 }, ok vs)
  put_back n (w, err e) = (record { world = w; taken = n + 1 - 1 }, err e)

  unfoldable pub value : Dot W V → Pooled W → Pooled W × Result (List V)
  unfolding value_loop put_back
  value d p = put_back p.taken (value_loop d.dps p.world)

  -- `none`: `v.Field(idx)` is out of range, which panics.
  pub cleanup_loop : List (ℕ × Cleanup W V) → List V → W × Option Error → Option (W × Option Error)
  cleanup_loop [] vs (w, e) = some (w, e)
  cleanup_loop ((i, c) ∷ cs) vs (w, e) =
      let rest = λ (v : V). cleanup_loop cs vs (c v e w) in
      elim (get_elem? vs i) [ none ↦ none | some v ↦ rest v ]

  unfoldable pub cleanup :
      Dot W V → List V → Option Error → Pooled W → Option (Pooled W × Option Error)
  unfolding cleanup_loop put_struct
  cleanup d vs e p = put_struct p.taken (cleanup_loop d.cleanups vs (p.world, e))
