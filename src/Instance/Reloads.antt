-- ===== src/Instance/Reloads.antt =====
-- `Reload` of server.go with the instance that `Config.Instance` builds in it.
use xtemplate.Prelude.{ℕ, ◌<◌, ◌≡◌, sym, ◌∙◌, ap, Bool, false, none, some, List, [], ◌∷◌, Text}
use xtemplate.Prelude.Errors.{ok, err, errorf, text, int}
use xtemplate.Config.{Config, ConfigOption, defaults, options}
use xtemplate.Dot.{Pooled}
use xtemplate.Handlers.{World}
use xtemplate.Builder.{Builder}
use xtemplate.Providers.{Provider, field_name}
use xtemplate.Providers.Fields.{configured}
use xtemplate.Providers.Names.{uses, IsOrder}
use xtemplate.Server
use xtemplate.Server.{start, idle, handle, routed, Build, failed, loaded, Return, returns, reload}
use xtemplate.Server.Steps.{Reach}
use xtemplate.Server.Laws.{reload_succeeded, reload_failed}
use xtemplate.Instance.{
  Surroundings, Instance, Outcome, panicked, returned, scan, instance_, ctx_of,
}
use xtemplate.Instance.Initializers.{IsListing}
use xtemplate.Instance.Loops.{names}
use xtemplate.Instance.Laws.{IsMade, instance_-IsMade}
use xtemplate.Instance.Laws.Clashes.{instance_-name_clash}

-- What `Reload` and later requests see of the end of `config.Instance`: an instance keeps the context
-- that is in its configuration after the options.
pub build_of : {W : Type 0} → Surroundings W → Outcome W → Build
unfolding ctx_of
build_of s panicked = Server.panicked
build_of s (returned w p (ok i)) = loaded (ctx_of s i.config.ctx)
build_of s (returned w p (err e)) = failed e

-- `Reload` from the configuration with a new context.
pub reload_with :
    {W : Type 0}
    → Surroundings W
    → List ConfigOption
    → Config
    → W
    → Server.World
    → Server.World × Return
unfolding build_of
reload_with s opts c w server =
    reload
      (build_of s
        (instance_ s opts (record c { ctx = some server.contexts.fresh }) server.next_identity w))
      server

module _ {W : Type 0} (s : Surroundings W) where
  reload_with-returned :
      (opts : List ConfigOption) (c : Config) (w w' : W) (p : Pooled World) (i : Instance)
      (server : Server.World)
      → instance_ s opts (record c { ctx = some server.contexts.fresh }) server.next_identity w
        ≡ returned w' p (ok i)
      → i.config.ctx ≡ some server.contexts.fresh
      → reload_with s opts c w server ≡ reload (loaded server.contexts.fresh) server
  unfolding reload_with build_of ctx_of
  reload_with-returned opts c w w' p i server built same =
      ap (λ b. reload b server) (ap (build_of s) built ∙ ap (λ o. loaded (ctx_of s o)) same)

  -- When a `Reload` of a server at rest, whose configured context is alive, builds an instance with the
  -- context that it made (no option has set another one), it returns no error, the next request, if no
  -- other step comes before its test of the context, is routed to this instance, and the instance stands
  -- for its configuration: its identity is the next one, its dot fields are the configured ones without a
  -- repetition, between the built-in ones, its providers are initialised, and as many initialization
  -- templates were run as its builder has templates whose name starts with "INIT ". It is assumed that
  -- going through a Go map meets each entry of the map once and no others, and that the dot field of a
  -- provider has the provider's name.
  pub reload_with-IsMade :
      (opts : List ConfigOption) (c : Config) (w w' : W) (p : Pooled World) (i : Instance)
      (identity : ℕ) (root_done : Bool) (server : Server.World)
      → ((p : Provider) → (s.as_dot p).field_name ≡ field_name s.outside p)
      → IsListing s.templates_order
      → IsOrder s.names_order
      → Reach (start identity root_done) server
      → server.phase ≡ idle
      → server.contexts.root_done ≡ false
      → instance_ s opts (record c { ctx = some server.contexts.fresh }) server.next_identity w
        ≡ returned w' p (ok i)
      → i.config.ctx ≡ some server.contexts.fresh
      → (after : Server.World) × (reload_with s opts c w server ≡ (after, returns none))
        × (handle after after ≡ routed i.id)
        × IsMade s server.next_identity i
  reload_with-IsMade opts c w w' p i identity root_done server named listed ordered reached rests
        alive built same =
      let made =
        instance_-IsMade s named listed opts (record c { ctx = some server.contexts.fresh })
          server.next_identity w w' p i ordered built in
      let (returned_none, routes) = reload_succeeded reached rests alive in
      (
        (reload (loaded server.contexts.fresh) server).0,
        reload_with-returned opts c w w' p i server built same
            ∙ ap (λ e. ((reload (loaded server.contexts.fresh) server).0, e)) returned_none,
        routes ∙ ap routed (sym made.formed.made_id),
        made,
      )

  -- A `Reload` in which two of the configured providers have the same field name, the options and the
  -- files being fine, returns an error with a name that is used more than once, and the server goes on
  -- with the instance that it had. It is assumed that going through a Go map meets the entries of the
  -- map and no others.
  pub reload_with-name_clash :
      (opts : List ConfigOption) (c c' : Config) (w : W) (b : Builder) (name : Text)
      (server : Server.World)
      → IsOrder s.names_order
      → options opts (defaults s.ambient (record c { ctx = some server.contexts.fresh }))
        ≡ (c', none)
      → scan s (defaults s.ambient (record c { ctx = some server.contexts.fresh })) c' ≡ (b, none)
      → 1 < uses name (names s (configured c'))
      → (m : Text) × (after : Server.World) × (1 < uses m (names s (configured c')))
        × (reload_with s opts c w server ≡ (
          after,
          returns (
              some (
                errorf "dot field name '%s' is used %d times"
                  (text m ∷ int (uses m (names s (configured c'))) ∷ []))),
        ))
        × (after.server ≡ server.server)
  unfolding reload_with build_of
  reload_with-name_clash opts c c' w b name server ordered opted scans twice =
      let (m, more, refused) =
        instance_-name_clash s opts (record c { ctx = some server.contexts.fresh }) c'
          server.next_identity w b name ordered opted scans twice in
      let e =
        errorf "dot field name '%s' is used %d times"
          (text m ∷ int (uses m (names s (configured c'))) ∷ []) in
      let (returned_e, kept, others) = reload_failed server e 0 in
      (
        m,
        (reload (failed e) server).0,
        more,
        rw (reload_with, refused) (ap (λ f. ((reload (failed e) server).0, f)) returned_e),
        kept,
      )
