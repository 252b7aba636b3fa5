-- ===== src/Instance/Laws.antt =====
-- What holds of an instance that `Config.Instance` returns.
pub mod Clashes
use mathlib.Core.Path.{subst}
use xtemplate.Prelude.{
  All, ℕ, ◌+◌, ◌≤◌, ◌<◌, ◌≡◌, refl, sym, ◌∙◌, ap, arith, Bool, true, false, ◌&&◌, inl, inr,
  Bool-cases, Option, none, some, ltb, ltb→lt, List, [], ◌∷◌, ◌++◌, map, Text, codes, if◌then◌else◌,
}
use xtemplate.Prelude.Errors.{Error, ok, err, errorf, text, int}
use xtemplate.Config.{Config, ConfigOption, defaults, options}
use xtemplate.Strings.{has_prefix}
use xtemplate.Dot.{DotConfig, Pooled, make_dot}
use xtemplate.Handlers.{
  Value, World, x_provider, req_provider, resp_provider, flush_provider, buffer_stack,
  flusher_stack,
}
use xtemplate.Handlers.{db_provider}
use xtemplate.Handlers.Configured.{flags_provider, nats_provider}
use xtemplate.Builder.{Builder}
use xtemplate.Providers.{Provider, database, flag, directory, nats_client, custom, field_name}
use xtemplate.Providers.Ready.{is_ready, init-is_ready}
use xtemplate.Providers.Laws.{init-field_name}
use xtemplate.Providers.Fields.{configured}
use xtemplate.Instance.{
  init_prefix, Surroundings, Instance, init_templates, names_error, next_init, init_loop, Outcome,
  panicked, returned, no_world, scan, initialized, make_dots, with_providers, init_providers,
  ctx_of, new_instance, dot_config, scanned, after_options, instance_,
}
use xtemplate.Instance.Initializers.{IsListing, initializers, init_templates-count}
use xtemplate.Providers.Names.{
  uses, IsOrder, check_names-clash, check_names-distinct, check_names-none,
}
use xtemplate.Instance.Loops.{names, AreReady, init_loop-names, init_loop-AreReady}

-- What holds of the instance, if one is returned.
abbrev Gives : {W : Type 0} → (Instance → Type 0) → Outcome W → Type 0
Gives P panicked = Unit
Gives P (returned w p (err e)) = Unit
Gives P (returned w p (ok i)) = P i

gives-returned :
    {W : Type 0} (P : Instance → Type 0) (out : Outcome W) (w : W) (p : Pooled World) (i : Instance)
    → Gives P out
    → out ≡ returned w p (ok i)
    → P i
gives-returned P out w p i h same = subst (Gives P) same h

Gives-if :
    {W : Type 0} (P : Instance → Type 0) (b : Bool) (out out' : Outcome W)
    → (b ≡ true → Gives P out)
    → Gives P out'
    → Gives P (if b then out else out')
Gives-if P true out out' h h' = h refl
Gives-if P false out out' h h' = h'

module _ {W : Type 0} (s : Surroundings W) where
  -- An instance that stands for its configuration: its fields are the configured ones.
  pub record IsFormed (n : ℕ) (i : Instance) : Type 0 where
    pub made_id : i.id ≡ n + 1
    pub made_names : names s i.providers ≡ names s (configured i.config)
    pub made_distinct : (name : Text) → uses name (names s i.providers) ≤ 1
    pub made_ready : AreReady i.providers
    pub made_buffer : s.struct_of (i.buffer_dot.fields) ≡ true
    pub made_flusher : s.struct_of (i.flusher_dot.fields) ≡ true
    pub made_buffer_dot : i.buffer_dot ≡ make_dot (buffer_stack (map (dot_config s) i.providers))
    pub made_flusher_dot : i.flusher_dot ≡ make_dot (flusher_stack (map (dot_config s) i.providers))
    pub made_buffer_fields :
        i.buffer_dot.fields ≡ codes "X" ∷ codes "Req" ∷ (names s i.providers ++ codes "Resp" ∷ [])
    pub made_flusher_fields :
        i.flusher_dot.fields ≡ codes "X" ∷ codes "Req" ∷ (names s i.providers ++ codes "Flush" ∷ [])

  pub record IsMade (n : ℕ) (i : Instance) : Type 0 where
    pub formed : IsFormed n i
    pub made_initializers : i.template_initializers ≡ initializers i.built.templates

  module _ (named : (p : Provider) → (s.as_dot p).field_name ≡ field_name s.outside p) where
    field_name-dot_config : (p : Provider) → (dot_config s p).field_name ≡ field_name s.outside p
    unfolding dot_config field_name db_provider flags_provider nats_provider
    field_name-dot_config (database d) = refl
    field_name-dot_config (flag d) = refl
    field_name-dot_config (nats_client d) = refl
    field_name-dot_config (directory d) = named (directory d)
    field_name-dot_config (custom d) = named (custom d)

    dot_names :
        (ps : List Provider) (last : DotConfig World Value)
        → map (λ (dp : DotConfig World Value). dp.field_name) (map (dot_config s) ps ++ last ∷ [])
          ≡ names s ps ++ last.field_name ∷ []
    dot_names [] last = refl
    dot_names (p ∷ ps) last = cc (field_name-dot_config p, dot_names ps last)

  module _ (named : (p : Provider) → (s.as_dot p).field_name ≡ field_name s.outside p)
      (listed : IsListing s.templates_order) where
    initialized-IsMade :
        (n : ℕ) (i : Instance) (w : W) (r : Option (Pooled World × ℕ × Option Error))
        → IsFormed n i
        → ((q : Pooled World) (k : ℕ) → r ≡ some (q, k, none) → k ≡ initializers i.built.templates)
        → Gives (IsMade n) (initialized s i w r)
    unfolding initialized
    initialized-IsMade n i w none h counted = tt
    initialized-IsMade n i w (some (q, k, some e)) h counted = tt
    initialized-IsMade n i w (some (q, k, none)) h counted = record {
      formed = record {
        made_id = h.made_id;
        made_names = h.made_names;
        made_distinct = h.made_distinct;
        made_ready = h.made_ready;
        made_buffer = h.made_buffer;
        made_flusher = h.made_flusher;
        made_buffer_dot = h.made_buffer_dot;
        made_flusher_dot = h.made_flusher_dot;
        made_buffer_fields = h.made_buffer_fields;
        made_flusher_fields = h.made_flusher_fields;
      };
      made_initializers = counted q k refl;
    }

    make_dots-IsMade :
        (n : ℕ) (i : Instance) (w : W)
        → i.id ≡ n + 1
        → names s i.providers ≡ names s (configured i.config)
        → ((name : Text) → uses name (names s i.providers) ≤ 1)
        → AreReady i.providers
        → Gives (IsMade n) (make_dots s i w)
    unfolding make_dots make_dot buffer_stack flusher_stack x_provider req_provider resp_provider
        flush_provider
    make_dots-IsMade n i w id same distinct ready =
        let dots = map (dot_config s) i.providers in
        let templates = s.templates_order i.built.templates in
        let j : Instance = record i {
          buffer_dot = make_dot (buffer_stack dots);
          flusher_dot = make_dot (flusher_stack dots);
        } in
        Gives-if _ _ _ _
          (λ buffer.
            Gives-if _ _ _ _
              (λ flusher.
                initialized-IsMade n j w (init_templates s j.buffer_dot templates no_world)
                  (record {
                    made_id = id;
                    made_names = same;
                    made_distinct = distinct;
                    made_ready = ready;
                    made_buffer = buffer;
                    made_flusher = flusher;
                    made_buffer_dot = refl;
                    made_flusher_dot = refl;
                    made_buffer_fields =
                        ap (λ ns. codes "X" ∷ codes "Req" ∷ ns)
                          (dot_names named i.providers resp_provider);
                    made_flusher_fields =
                        ap (λ ns. codes "X" ∷ codes "Req" ∷ ns)
                          (dot_names named i.providers flush_provider);
                  })
                  (λ q k ran.
                    init_templates-count s j.buffer_dot templates no_world q k ran
                    ∙ listed (λ t. has_prefix t.0 init_prefix) i.built.templates))
              tt)
          tt

    with_providers-IsMade :
        (n : ℕ) (i : Instance) (r : W × List Provider × Option Error)
        → i.id ≡ n + 1
        → (r.2 ≡ none → names s r.1 ≡ names s (configured i.config))
        → ((name : Text) → uses name (names s (configured i.config)) ≤ 1)
        → (r.2 ≡ none → AreReady r.1)
        → Gives (IsMade n) (with_providers s i r)
    unfolding with_providers
    with_providers-IsMade n i (w, ps, some e) id same distinct ready = tt
    with_providers-IsMade n i (w, ps, none) id same distinct ready =
        make_dots-IsMade n (record i { providers = ps }) w id (same refl)
          (λ name. subst (λ ns. uses name ns ≤ 1) (sym (same refl)) (distinct name)) (ready refl)

    init_providers-IsMade :
        (ctx n : ℕ) (i : Instance) (e : Option Error) (w : W)
        → i.id ≡ n + 1
        → (e ≡ none → (name : Text) → uses name (names s (configured i.config)) ≤ 1)
        → Gives (IsMade n) (init_providers s ctx i e w)
    unfolding init_providers
    init_providers-IsMade ctx n i (some e) w id distinct = tt
    init_providers-IsMade ctx n i none w id distinct =
        with_providers-IsMade n i _ id (init_loop-names s ctx (configured i.config) w)
          (distinct refl) (init_loop-AreReady s ctx (configured i.config) w)

    scanned-IsMade :
        (n : ℕ) (c : Config) (r : Builder × Option Error) (w : W)
        → IsOrder s.names_order
        → Gives (IsMade n) (scanned s (n + 1) c r w)
    unfolding scanned names_error new_instance
    scanned-IsMade n c (b, some e) w ordered = tt
    scanned-IsMade n c (b, none) w ordered =
        init_providers-IsMade (ctx_of s c.ctx) n (new_instance s (n + 1) c b) _ w refl
          (check_names-distinct s.names_order ordered (names s (configured c)))

    after_options-IsMade :
        (n : ℕ) (before : Config) (r : Config × Option Error) (w : W)
        → IsOrder s.names_order
        → Gives (IsMade n) (after_options s (n + 1) before r w)
    unfolding after_options
    after_options-IsMade n before (c, some e) w ordered = tt
    after_options-IsMade n before (c, none) w ordered = scanned-IsMade n c _ w ordered

    -- Whatever the libraries do, an instance that `Config.Instance` returns has the identity after the
    -- one before, the field names of its providers are those that its configuration gives, each of
    -- them is used once, every provider of this repository has what its field needs (a database its
    -- pool, a directory its file system, a NATS field its connection and JetStream), and the two dot
    -- values have the fields X and Req, then these, then Resp or Flush, which `reflect.StructOf`
    -- accepted; and as many initialization templates were run as its builder has templates whose name
    -- starts with "INIT ". It is assumed that going through a Go map meets each entry of the map once
    -- and no others, and that the dot field of a provider has the provider's name.
    pub instance_-IsMade :
        (opts : List ConfigOption) (c : Config) (n : ℕ) (w w' : W) (p : Pooled World) (i : Instance)
        → IsOrder s.names_order
        → instance_ s opts c n w ≡ returned w' p (ok i)
        → IsMade n i
    unfolding instance_
    instance_-IsMade opts c n w w' p i ordered done =
        gives-returned (IsMade n) (instance_ s opts c n w) w' p i
          (after_options-IsMade n (defaults s.ambient c) (options opts (defaults s.ambient c)) w
            ordered)
          done
