-- ===== src/Handlers/Typed/Assertions.antt =====
-- The fields of the two dot values of an instance have the types that the cleanups assert.
use xtemplate.Prelude.{ℕ, ◌≡◌, refl, ◌∙◌, ap, arith, none, some, List, [], ◌∷◌, ◌++◌, map}
use mathlib.Core.List.{map-append}
use xtemplate.Prelude.Errors.{ok}
use xtemplate.Dot.{Pooled, make_dot, value}
use xtemplate.Dot.Typed.{Probed, configs, TypedDot, make_typed_dot, typed_value}
use xtemplate.Dot.Typed.Safety.{HasType, HaveTypes, typed_value_lem}
use xtemplate.Handlers.{
  DotResp, Value, x_value, req_value, flush_value, resp_value, World, x_provider, req_provider,
  resp_provider, flush_provider, buffer_stack, flusher_stack,
}
use xtemplate.Handlers.Typed.{
  mock_world, first_result, probed, type_of, buffer_probes, flusher_probes,
}

configs-buffer_probes :
    (dps : List (Probed World Value)) → configs (buffer_probes dps) ≡ buffer_stack (configs dps)
unfolding buffer_probes buffer_stack probed
configs-buffer_probes dps =
    ap (λ l. x_provider ∷ req_provider ∷ l)
      (map-append (λ dp. dp.config) dps (probed resp_provider none ∷ []))

configs-flusher_probes :
    (dps : List (Probed World Value)) → configs (flusher_probes dps) ≡ flusher_stack (configs dps)
unfolding flusher_probes flusher_stack probed
configs-flusher_probes dps =
    ap (λ l. x_provider ∷ req_provider ∷ l)
      (map-append (λ dp. dp.config) dps (probed flush_provider (some flush_value) ∷ []))

module _ (other_type : ℕ → ℕ) where
  HaveTypes-append :
      (ts : List ℕ) (t : ℕ) (dps : List (Probed World Value)) (dp : Probed World Value)
      → HaveTypes (type_of other_type) ts dps
      → HasType (type_of other_type) t dp
      → HaveTypes (type_of other_type) (ts ++ t ∷ []) (dps ++ dp ∷ [])
  unfolding HaveTypes
  HaveTypes-append [] t [] dp h last = (last, tt)
  HaveTypes-append [] t (d ∷ dps) dp h last = absurd h
  HaveTypes-append (u ∷ ts) t [] dp h last = absurd h
  HaveTypes-append (u ∷ ts) t (d ∷ dps) dp (first, h) last =
      (first, HaveTypes-append ts t dps dp h last)

  x-HasType : HasType (type_of other_type) 0 (probed x_provider none)
  unfolding HasType probed first_result mock_world x_provider type_of
  x-HasType = ((x_value, refl, refl), λ w u v e. ground (arith, e))

  flush-HasType : HasType (type_of other_type) 2 (probed flush_provider (some flush_value))
  unfolding HasType probed first_result mock_world flush_provider type_of
  flush-HasType = ((flush_value, refl, refl), λ w u v e. ground (arith, e))

  req-HasType : HasType (type_of other_type) 1 (probed req_provider none)
  unfolding HasType probed first_result mock_world req_provider type_of
  req-HasType = ((req_value, refl, refl), λ w u v e. ground (arith, e))

  resp-HasType : HasType (type_of other_type) 3 (probed resp_provider none)
  unfolding HasType probed first_result mock_world resp_provider type_of
  resp-HasType = (
    (resp_value (record { header = []; status = 200 }), refl, refl),
    λ w u v e. ground (arith, e),
  )

  -- A value is known by its type.
  x_value-type : (v : Value) → type_of other_type v ≡ 0 → v ≡ x_value
  unfolding type_of
  x_value-type x_value h = refl
  x_value-type v h = ground (arith, h)

  req_value-type : (v : Value) → type_of other_type v ≡ 1 → v ≡ req_value
  unfolding type_of
  req_value-type req_value h = refl
  req_value-type v h = ground (arith, h)

  flush_value-type : (v : Value) → type_of other_type v ≡ 2 → v ≡ flush_value
  unfolding type_of
  flush_value-type flush_value h = refl
  flush_value-type v h = ground (arith, h)

  resp_value-type : (v : Value) → type_of other_type v ≡ 3 → (d : DotResp) × (v ≡ resp_value d)
  unfolding type_of
  resp_value-type (resp_value d) h = (d, refl)
  resp_value-type v h = absurd (ground (arith, h))

  HaveTypes-buffer :
      (ts : List ℕ) (dps : List (Probed World Value))
      → HaveTypes (type_of other_type) ts dps
      → HaveTypes (type_of other_type) (0 ∷ 1 ∷ (ts ++ 3 ∷ [])) (buffer_probes dps)
  unfolding HaveTypes buffer_probes
  HaveTypes-buffer ts dps h = (
    x-HasType,
    (req-HasType, HaveTypes-append ts 3 dps (probed resp_provider none) h resp-HasType),
  )

  HaveTypes-flusher :
      (ts : List ℕ) (dps : List (Probed World Value))
      → HaveTypes (type_of other_type) ts dps
      → HaveTypes (type_of other_type) (0 ∷ 1 ∷ (ts ++ 2 ∷ [])) (flusher_probes dps)
  unfolding HaveTypes flusher_probes
  HaveTypes-flusher ts dps h = (
    x-HasType,
    (
      req-HasType,
      HaveTypes-append ts 2 dps (probed flush_provider (some flush_value)) h flush-HasType,
    ),
  )

  types-append :
      (ts : List ℕ) (t : ℕ) (vs : List Value)
      → map (type_of other_type) vs ≡ ts ++ t ∷ []
      → (us : List Value) × (v : Value) × (vs ≡ us ++ v ∷ [])
        × (map (type_of other_type) us ≡ ts)
        × (type_of other_type v ≡ t)
  types-append [] t [] h = absurd (ground (arith, h))
  types-append [] t (v ∷ []) h = ([], v, refl, refl, ground (arith, h))
  types-append [] t (v ∷ w ∷ vs) h = absurd (ground (arith, h))
  types-append (u ∷ ts) t [] h = absurd (ground (arith, h))
  types-append (u ∷ ts) t (v ∷ vs) h =
      let (us, last, is, types, end) = types-append ts t vs (ground (arith, h)) in
      let head : type_of other_type v ≡ u = ground (arith, h) in
      (v ∷ us, last, ap (λ l. v ∷ l) is, rw (head, types) refl, end)

  -- Fields of the types that `X`, `Req` and others have.
  stack-types :
      (ts : List ℕ) (t : ℕ) (vs : List Value)
      → map (type_of other_type) vs ≡ 0 ∷ 1 ∷ (ts ++ t ∷ [])
      → (us : List Value) × (v : Value) × (vs ≡ x_value ∷ req_value ∷ (us ++ v ∷ []))
        × (map (type_of other_type) us ≡ ts)
        × (type_of other_type v ≡ t)
  stack-types ts t [] h = absurd (ground (arith, h))
  stack-types ts t (v ∷ []) h = absurd (ground (arith, h))
  stack-types ts t (v ∷ w ∷ vs) h =
      let (us, last, is, types, end) = types-append ts t vs (ground (arith, h)) in
      (
        us,
        last,
        rw (x_value-type v (ground (arith, h)), req_value-type w (ground (arith, h)))
            (ap (λ l. x_value ∷ req_value ∷ l) is),
        types,
        end,
      )

  -- If the configured providers keep the types of their fields, then for each request the fields of a
  -- buffering template's dot value can be set without a panic, and in whatever way the template
  -- changes them within their types, `X` comes first, then `Req`, the configured ones and `Resp`, so
  -- that the type assertions of the cleanups hold.
  pub buffer_fields :
      (ts : List ℕ) (dps : List (Probed World Value)) (p : Pooled World) {q : Pooled World}
      {vs : List Value} (us : List Value)
      → HaveTypes (type_of other_type) ts dps
      → value (make_dot (buffer_stack (configs dps))) p ≡ (q, ok vs)
      → map (type_of other_type) us ≡ map (type_of other_type) vs
      → (d : TypedDot World Value) × (make_typed_dot (type_of other_type) (buffer_probes dps)
          ≡ some d)
        × (typed_value (type_of other_type) d p ≡ some (q, ok vs))
        × (mids : List Value) × (r : DotResp) × (us
            ≡ x_value ∷ req_value ∷ (mids ++ resp_value r ∷ []))
        × (map (type_of other_type) mids ≡ ts)
  buffer_fields ts dps p us h made same =
      let (d, typed, set, is, types, given) =
        typed_value_lem (type_of other_type) (0 ∷ 1 ∷ (ts ++ 3 ∷ [])) (buffer_probes dps) p
          (HaveTypes-buffer ts dps h) (rw (configs-buffer_probes dps) made) in
      let (mids, last, all, kept, end) = stack-types ts 3 us (same ∙ given) in
      let (r, last_is) = resp_value-type last end in
      (d, typed, set, mids, r, all ∙ ap (λ v. x_value ∷ req_value ∷ (mids ++ v ∷ [])) last_is, kept)

  -- The same for a flushing template, with `Flush` as the last field.
  flusher_fields :
      (ts : List ℕ) (dps : List (Probed World Value)) (p : Pooled World) {q : Pooled World}
      {vs : List Value} (us : List Value)
      → HaveTypes (type_of other_type) ts dps
      → value (make_dot (flusher_stack (configs dps))) p ≡ (q, ok vs)
      → map (type_of other_type) us ≡ map (type_of other_type) vs
      → (d : TypedDot World Value) × (make_typed_dot (type_of other_type) (flusher_probes dps)
          ≡ some d)
        × (typed_value (type_of other_type) d p ≡ some (q, ok vs))
        × (mids : List Value) × (us ≡ x_value ∷ req_value ∷ (mids ++ flush_value ∷ []))
        × (map (type_of other_type) mids ≡ ts)
  flusher_fields ts dps p us h made same =
      let (d, typed, set, is, types, given) =
        typed_value_lem (type_of other_type) (0 ∷ 1 ∷ (ts ++ 2 ∷ [])) (flusher_probes dps) p
          (HaveTypes-flusher ts dps h) (rw (configs-flusher_probes dps) made) in
      let (mids, last, all, kept, end) = stack-types ts 2 us (same ∙ given) in
      (
        d,
        typed,
        set,
        mids,
        all ∙ ap (λ v. x_value ∷ req_value ∷ (mids ++ v ∷ [])) (flush_value-type last end),
        kept,
      )
