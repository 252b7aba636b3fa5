-- ===== src/Instance/Laws/Clashes.antt =====
-- When `Config.Instance` refuses the names of the dot fields, or panics on them.
use mathlib.Core.Path.{subst}
use xtemplate.Prelude.{
  ℕ, ◌+◌, ◌≤◌, ◌<◌, ◌≡◌, refl, sym, ◌∙◌, ap, arith, false, ◌&&◌, inl, inr, Bool-cases, Option, none,
  ltb, ltb→lt, List, [], ◌∷◌, ◌++◌, Text, codes,
}
use xtemplate.Prelude.Errors.{Error, err, errorf, text, int}
use xtemplate.Config.{Config, ConfigOption, defaults, options}
use xtemplate.Dot.{make_dot}
use xtemplate.Handlers.{
  x_provider, req_provider, resp_provider, flush_provider, buffer_stack, flusher_stack,
}
use xtemplate.Builder.{Builder}
use xtemplate.Providers.{Provider, field_name}
use xtemplate.Providers.Fields.{configured}
use xtemplate.Instance.{
  Surroundings, Instance, names_error, init_loop, panicked, returned, no_world, scan, make_dots,
  with_providers, init_providers, ctx_of, new_instance, scanned, after_options, instance_,
}
use xtemplate.Providers.Names.{uses, IsOrder, check_names-clash, check_names-none}
use xtemplate.Instance.Loops.{names, init_loop-names}
use xtemplate.Instance.Laws.{dot_names}

uses-append : (name : Text) (ns ms : List Text) → uses name (ns ++ ms) ≡ uses name ns + uses name ms
uses-append name [] ms = omega arith
uses-append name (n ∷ ns) ms = omega (arith, uses-append name ns ms)

module _ {W : Type 0} (s : Surroundings W) where
  -- If the options succeed, every file is loaded and two of the configured providers have the same
  -- field name, `Config.Instance` returns an error with a name that is used more than once and how
  -- often it is used, and no provider has been initialised: the state of the libraries is as it was.
  -- It is assumed that going through a Go map meets the entries of the map and no others.
  pub instance_-name_clash :
      (opts : List ConfigOption) (c c' : Config) (n : ℕ) (w : W) (b : Builder) (name : Text)
      → IsOrder s.names_order
      → options opts (defaults s.ambient c) ≡ (c', none)
      → scan s (defaults s.ambient c) c' ≡ (b, none)
      → 1 < uses name (names s (configured c'))
      → (m : Text) × (1 < uses m (names s (configured c')))
        × (instance_ s opts c n w
            ≡ returned w no_world (
                err (
                  errorf "dot field name '%s' is used %d times"
                    (text m ∷ int (uses m (names s (configured c'))) ∷ []))))
  unfolding instance_ after_options scanned names_error init_providers
  instance_-name_clash opts c c' n w b name ordered opted loaded twice =
      let (m, more, reported) =
        check_names-clash s.names_order ordered (names s (configured c')) name twice in
      (m, more, rw opted (rw loaded (rw reported refl)))

  module _ (named : (p : Provider) → (s.as_dot p).field_name ≡ field_name s.outside p)
      (refuses : (ns : List Text) (name : Text) → 1 < uses name ns → s.struct_of ns ≡ false) where
    refused :
        (name : Text) (ns : List Text)
        → 0 < uses name (codes "X" ∷ codes "Req" ∷ codes "Resp" ∷ codes "Flush" ∷ [])
        → 0 < uses name ns
        → (s.struct_of (codes "X" ∷ codes "Req" ∷ (ns ++ codes "Resp" ∷ []))
            && s.struct_of (codes "X" ∷ codes "Req" ∷ (ns ++ codes "Flush" ∷ [])))
          ≡ false
    refused name ns builtin used =
        elim (Bool-cases
          (ltb 1 (uses name (codes "X" ∷ codes "Req" ∷ (ns ++ codes "Resp" ∷ []))))) [
            | inl twice ↦ ground (
              arith,
              refuses (codes "X" ∷ codes "Req" ∷ (ns ++ codes "Resp" ∷ [])) name (ltb→lt _ _ twice),
            )
            | inr once ↦
                let other = refuses (codes "X" ∷ codes "Req" ∷ (ns ++ codes "Flush" ∷ [])) name (
                  ground (
                    arith,
                    once,
                    builtin,
                    used,
                    uses-append name ns (codes "Flush" ∷ []),
                    uses-append name ns (codes "Resp" ∷ []),
                  )) in
                ground (arith, other)
          ]

    make_dots-panics :
        (i : Instance) (w : W) (name : Text)
        → 0 < uses name (codes "X" ∷ codes "Req" ∷ codes "Resp" ∷ codes "Flush" ∷ [])
        → 0 < uses name (names s i.providers)
        → make_dots s i w ≡ panicked
    unfolding make_dots make_dot buffer_stack flusher_stack x_provider req_provider resp_provider
        flush_provider
    make_dots-panics i w name builtin used =
        let buffer = codes "X" ∷ codes "Req" ∷ (names s i.providers ++ codes "Resp" ∷ []) in
        let flusher = codes "X" ∷ codes "Req" ∷ (names s i.providers ++ codes "Flush" ∷ []) in
        let h = refused name (names s i.providers) builtin used in
        rw (dot_names s named i.providers resp_provider) (
          rw (dot_names s named i.providers flush_provider)
            (elim (Bool-cases (s.struct_of buffer)) [
              | inr bad ↦ rw bad refl
              | inl good ↦
                  let bad : s.struct_of flusher ≡ false = ground (arith, h, good) in
                  rw good (rw bad refl)
            ]))

    -- If the options succeed, every file is loaded, the configured field names are used once each and
    -- every provider is initialised, but one of them has the name X, Req, Resp or Flush of a field that
    -- `Config.Instance` adds itself, then it panics instead of returning an error. It is assumed that
    -- `reflect.StructOf` panics where two fields have one name, that going through a Go map meets the
    -- entries of the map and no others, and that the dot field of a provider has the provider's name.
    pub instance_-builtin_clash :
        (opts : List ConfigOption) (c c' : Config) (n : ℕ) (w w' : W) (b : Builder)
        (ps : List Provider) (name : Text)
        → IsOrder s.names_order
        → options opts (defaults s.ambient c) ≡ (c', none)
        → scan s (defaults s.ambient c) c' ≡ (b, none)
        → ((m : Text) → uses m (names s (configured c')) ≤ 1)
        → init_loop s (ctx_of s c'.ctx) (configured c') w ≡ (w', ps, none)
        → 0 < uses name (codes "X" ∷ codes "Req" ∷ codes "Resp" ∷ codes "Flush" ∷ [])
        → 0 < uses name (names s (configured c'))
        → instance_ s opts c n w ≡ panicked
    unfolding instance_ after_options scanned names_error init_providers with_providers new_instance
    instance_-builtin_clash opts c c' n w w' b ps name ordered opted loaded once init_done builtin
          used =
        let passed = check_names-none s.names_order ordered (names s (configured c')) once in
        let same : names s ps ≡ names s (configured c') =
          sym (ap (λ (r : W × List Provider × Option Error). names s r.1) init_done)
          ∙ init_loop-names s (ctx_of s c'.ctx) (configured c') w
              (ap (λ (r : W × List Provider × Option Error). r.2) init_done) in
        let i = new_instance s (n + 1) c' b in
        let left : init_loop s (ctx_of s c'.ctx) (configured i.config) w ≡ (w', ps, none) =
          init_done in
        rw opted (
          rw loaded (
            rw passed (
              subst (λ r. with_providers s i r ≡ panicked) (sym left)
                (make_dots-panics (record i { providers = ps }) w' name builtin
                  (subst (λ ns. 0 < uses name ns) (sym same) used)))))
