-- ===== src/Dot/Aligned.antt =====
-- The cleanups of dot.go find the fields by index; here they are paired with the fields.
use xtemplate.Prelude.{
  ℕ, suc, ◌+◌, ◌≡◌, refl, ◌∙◌, ap, arith, Option, none, some, List, [], ◌∷◌, ◌++◌, get_elem?,
  length, append_assoc, length-append,
}
use xtemplate.Prelude.Errors.{Error, Result, ok, err}
use xtemplate.Dot.{
  Cleanup, DotConfig, Pooled, add_cleanup, cleanups_from, make_dot, cons_value, next_value,
  value_loop, put_back, value, cleanup_loop, put_struct, cleanup,
}

module _ {W V : Type 0} where
  unfoldable pub clean_field : Option (Cleanup W V) → V → W × Option Error → W × Option Error
  clean_field none v s = s
  clean_field (some c) v (w, e) = c v e w

  -- Each provider that has a cleanup is given its own field, in the order of the fields.
  unfoldable pub clean_pairs : List (DotConfig W V) → List V → W × Option Error → W × Option Error
  unfolding clean_field
  clean_pairs [] vs s = s
  clean_pairs (dp ∷ dps) [] s = s
  clean_pairs (dp ∷ dps) (v ∷ vs) s = clean_pairs dps vs (clean_field dp.cleanup_ v s)

get_elem?-append_middle {ℓ} :
    {A : Type ℓ} (us : List A) (v : A) (vs : List A) → get_elem? (us ++ v ∷ vs) (length us) ≡ some v
get_elem?-append_middle [] v vs = refl
get_elem?-append_middle (u ∷ us) v vs = get_elem?-append_middle us v vs

module _ {W V : Type 0} where
  add_cleanup-loop :
      (i : ℕ) (c : Option (Cleanup W V)) (cs : List (ℕ × Cleanup W V)) (vs : List V) (v : V)
      (s : W × Option Error)
      → get_elem? vs i ≡ some v
      → cleanup_loop (add_cleanup i c cs) vs s ≡ cleanup_loop cs vs (clean_field c v s)
  unfolding add_cleanup cleanup_loop clean_field
  add_cleanup-loop i none cs vs v s h = refl
  add_cleanup-loop i (some c) cs vs v (w, e) h = rw (cleanup_loop, h)

  cleanup_loop-aligned :
      (dps : List (DotConfig W V)) (us vs : List V) (s : W × Option Error)
      → length vs ≡ length dps
      → cleanup_loop (cleanups_from (length us) dps) (us ++ vs) s ≡ some (clean_pairs dps vs s)
  unfolding cleanups_from clean_pairs
  cleanup_loop-aligned [] us vs s h = unfold cleanup_loop in refl
  cleanup_loop-aligned (dp ∷ dps) us [] s h = absurd (omega arith)
  cleanup_loop-aligned (dp ∷ dps) us (v ∷ vs) s h =
      let s' : W × Option Error = clean_field dp.cleanup_ v s in
      let ih = cleanup_loop-aligned dps (us ++ v ∷ []) vs s' (omega arith) in
      let next : length (us ++ v ∷ []) ≡ suc (length us) =
        omega (arith, length-append us (v ∷ [])) in
      add_cleanup-loop (length us) dp.cleanup_ (cleanups_from (suc (length us)) dps) (us ++ v ∷ vs)
        v s (get_elem?-append_middle us v vs)
      ∙ (rw (next, append_assoc us (v ∷ []) vs) at ih)

  cons_value-ok :
      (v : V) (r : W × Result (List V)) {w : W} {vs : List V}
      → cons_value v r ≡ (w, ok vs)
      → (us : List V) × (r ≡ (w, ok us)) × (vs ≡ v ∷ us)
  unfolding cons_value
  cons_value-ok v (w, ok us) h = (us, ground (arith, h), ground (arith, h))
  cons_value-ok v (w, err e) h = absurd (ground (arith, h))

  pub next_value-ok :
      (dp : DotConfig W V) (dps : List (DotConfig W V)) (r : W × Result V) {w : W} {vs : List V}
      → next_value dp (value_loop dps) r ≡ (w, ok vs)
      → (v : V) × (us : List V) × (u : W) × (r ≡ (u, ok v))
        × (value_loop dps u ≡ (w, ok us))
        × (vs ≡ v ∷ us)
  unfolding next_value
  next_value-ok dp dps (u, ok v) h =
      let (us, p, q) = cons_value-ok v (value_loop dps u) h in (v, us, u, refl, p, q)
  next_value-ok dp dps (u, err e) h = absurd (ground (arith, h))

  length-value_loop :
      (dps : List (DotConfig W V)) (w : W) {w' : W} {vs : List V}
      → value_loop dps w ≡ (w', ok vs)
      → length vs ≡ length dps
  unfolding value_loop
  length-value_loop [] w {vs = vs} h = let same : [] ≡ vs = ground (arith, h) in rw (← same)
  length-value_loop (dp ∷ dps) w h =
      let (v, us, u, r, p, q) = next_value-ok dp dps (dp.value_ w) h in
      rw q (ap suc (length-value_loop dps u p))

  pub put_back-ok :
      (n : ℕ) (r : W × Result (List V)) {q : Pooled W} {vs : List V}
      → put_back n r ≡ (q, ok vs)
      → (w : W) × (r ≡ (w, ok vs)) × (q.taken ≡ n + 1)
  unfolding put_back
  put_back-ok n (w, ok us) h = (w, ground (arith, h), ground (arith, h))
  put_back-ok n (w, err e) h = absurd (ground (arith, h))

  -- The fields of a dot value are as many as the providers.
  pub length-value :
      (dps : List (DotConfig W V)) (p : Pooled W) {q : Pooled W} {vs : List V}
      → value (make_dot dps) p ≡ (q, ok vs)
      → length vs ≡ length dps
  unfolding value make_dot
  length-value dps p h =
      let (u, loop, taken) = put_back-ok p.taken (value_loop dps p.world) h in
      length-value_loop dps p.world loop

  pub clean_pairs-append :
      (ds es : List (DotConfig W V)) (us vs : List V) (s : W × Option Error)
      → length us ≡ length ds
      → clean_pairs (ds ++ es) (us ++ vs) s ≡ clean_pairs es vs (clean_pairs ds us s)
  unfolding clean_pairs
  clean_pairs-append [] es [] vs s h = refl
  clean_pairs-append [] es (u ∷ us) vs s h = absurd (omega arith)
  clean_pairs-append (d ∷ ds) es [] vs s h = absurd (omega arith)
  clean_pairs-append (d ∷ ds) es (u ∷ us) vs s h =
      clean_pairs-append ds es us vs (clean_field d.cleanup_ u s) (omega arith)

  put_back-err :
      (n : ℕ) (r : W × Result (List V)) {q : Pooled W} {e : Error}
      → put_back n r ≡ (q, err e)
      → q.taken ≡ n
  unfolding put_back
  put_back-err n (w, ok us) h = absurd (ground (arith, h))
  put_back-err n (w, err e) h = ground (arith, h)

  -- A dot value has a field for each provider. Whatever the template made of the fields and the
  -- state, `cleanup` of it does not panic: it gives each provider that has a cleanup its own field,
  -- in the order of the fields, passes the error on from one to the next, and returns the struct
  -- to the pool, which is as full as before `value`.
  pub cleanup_aligned :
      (dps : List (DotConfig W V)) (p q : Pooled W) (vs us : List V) (w : W) (e : Option Error)
      → value (make_dot dps) p ≡ (q, ok vs)
      → length us ≡ length vs
      → cleanup (make_dot dps) us e (record { world = w; taken = q.taken })
        ≡ some (
          record { world = (clean_pairs dps us (w, e)).0; taken = p.taken },
          (clean_pairs dps us (w, e)).1,
        )
  unfolding value cleanup make_dot
  cleanup_aligned dps p q vs us w e h same =
      let (u, loop, taken) = put_back-ok p.taken (value_loop dps p.world) h in
      let fits : length us ≡ length dps = same ∙ length-value_loop dps p.world loop in
      rw (cleanup_loop-aligned dps [] us (w, e) fits, taken) (unfold put_struct in ground arith)

  -- If a provider fails, the struct is back in the pool and no field value is returned.
  pub value_failed :
      (dps : List (DotConfig W V)) (p q : Pooled W) (e : Error)
      → value (make_dot dps) p ≡ (q, err e)
      → q.taken ≡ p.taken
  unfolding value make_dot
  value_failed dps p q e h = put_back-err p.taken (value_loop dps p.world) h
