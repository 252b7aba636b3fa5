-- ===== src/Instance/Tests.antt =====
-- Constructions of an instance, and the theorems of Instance/Laws at them.
pub mod Around
use mathlib.Core.Path.{subst}
use xtemplate.Prelude.{
  ℕ, ◌+◌, ◌≤◌, ◌<◌, ◌≡◌, refl, ap, arith, Bool, true, false, ◌&&◌, inl, inr, Bool-cases, none, some,
  List, [], ◌∷◌, Text, codes, text_eq, text_eq_iff, ◌==◌,
}
use xtemplate.Prelude.Errors.{Result, ok, err, errorf, text, int, external}
use xtemplate.Config.{DotDbConfig, DotFlagsConfig, Config, zero_config, defaults, options}
use xtemplate.Db.{Driver}
use xtemplate.Dot.{Pooled, make_dot, value, cleanup}
use xtemplate.Handlers.{
  World, other, buffer_stack, flusher_stack, x_provider, req_provider, resp_provider,
  flush_provider,
}
use xtemplate.Builder.Templates.{walk}
use xtemplate.Builder.{Sources, new_builder}
use xtemplate.Providers.{database, flag, Outside, field_name, init}
use xtemplate.Providers.Fields.{configured, check_names, count_names, add_name}
use xtemplate.Instance.{
  Surroundings, dot_config, Outcome, Instance, init_loop, returned, panicked, no_world, scan,
  new_instance, instance_, names_error, after_options, scanned, init_providers, with_providers,
  make_dots, initialized, init_templates, next_init, next_template, init_template, init_valued,
  init_cleaned, init_prefix,
}
use xtemplate.Providers.Names.{uses, IsOrder}
use xtemplate.Server
use xtemplate.Server.{start, handle, routed}
use xtemplate.Server.Steps.{here}
use xtemplate.Instance.Reloads.{reload_with, reload_with-IsMade, reload_with-name_clash}
use xtemplate.Instance.Laws.{IsMade, instance_-IsMade}
use xtemplate.Instance.Laws.Clashes.{instance_-builtin_clash}
use xtemplate.Db
use xtemplate.Prelude.Errors.{errors_join}
use xtemplate.Instance.Tests.Around.{
  outside, distinct, distinct-refuses, around, sources, db_config, identity-IsOrder, instance_of,
  left_by,
}

abbrev flags_named : Text → DotFlagsConfig
flags_named name = record { name = name; values = (codes "a", codes "1") ∷ [] }

abbrev with_flags_named : Text → Config
with_flags_named name = record zero_config {
  databases = db_config ∷ [];
  flags = flags_named name ∷ [];
}

-- A name that is used twice, and a name of a built-in field.
abbrev ambient_config : Text → Config
ambient_config name = defaults around.ambient (with_flags_named name)

-- A directory with one template file, which defines an initializer.
abbrev initializing : Surroundings ℕ
initializing = record around {
  listing = λ fs. (codes "db.html" ∷ [], none);
  sources = λ fs. record sources {
    read_file = λ path. ok (codes "{{define}}");
    parse = λ name content. ok ((codes "INIT db", 5) ∷ []);
    add_parse_tree = λ name tree. ok tree;
  };
}

abbrev begun : Text → Outcome ℕ
begun name = instance_ initializing [] (with_flags_named name) 4 0

begun_returns :
    begun (codes "Flags")
    ≡ returned 1 (left_by (begun (codes "Flags"))) (ok (instance_of (begun (codes "Flags"))))
unfolding instance_of left_by instance_ after_options options scanned scan walk init_providers
    configured names_error check_names count_names add_name init_loop next_init init field_name
    with_providers make_dots initialized make_dot buffer_stack flusher_stack distinct init_templates
    x_provider req_provider resp_provider flush_provider value cleanup next_template init_template
    init_valued init_cleaned init_prefix dot_config Db.cleanup errors_join
begun_returns = refl

-- The initializer is among the templates, and was run.
begun_once : ((instance_of (begun (codes "Flags"))).template_initializers ≡ 1)
unfolding instance_of left_by instance_ after_options options scanned scan walk init_providers
    configured names_error check_names count_names add_name init_loop next_init init field_name
    with_providers make_dots initialized make_dot buffer_stack flusher_stack distinct init_templates
    x_provider req_provider resp_provider flush_provider value cleanup next_template init_template
    init_valued init_cleaned init_prefix dot_config Db.cleanup errors_join
begun_once = refl

abbrev run : Text → Outcome ℕ
run name = instance_ around [] (with_flags_named name) 4 0

instance_-IsMade_example : IsMade initializing 4 (instance_of (begun (codes "Flags")))
instance_-IsMade_example =
    instance_-IsMade initializing (λ p. refl) (λ p m. refl) [] (with_flags_named (codes "Flags")) 4
      0 1 (left_by (begun (codes "Flags"))) (instance_of (begun (codes "Flags"))) identity-IsOrder
      begun_returns

once_each : (m : Text) → uses m (codes "DB" ∷ codes "X" ∷ []) ≤ 1
unfolding text_eq
once_each m = elim (Bool-cases (text_eq (codes "DB") m)) [
  | inr different ↦ ground (arith, different)
  | inl same ↦
      subst (λ m. uses m (codes "DB" ∷ codes "X" ∷ []) ≤ 1) ((text_eq_iff (codes "DB") m).0 same)
        (omega arith)
]

instance_-builtin_clash_example : run (codes "X") ≡ panicked
unfolding configured field_name init_loop next_init init options scan defaults
instance_-builtin_clash_example =
    instance_-builtin_clash around (λ p. refl) distinct-refuses [] (with_flags_named (codes "X"))
      (ambient_config (codes "X")) 4 0 1 new_builder
      (database (record db_config { db = some 7 }) ∷ flag (flags_named (codes "X")) ∷ [])
      (codes "X") identity-IsOrder refl refl once_each refl (omega arith) (omega arith)

-- The first `Reload` of a server, which gives its instance the context 0.
abbrev served : Text → Config
served name = record (with_flags_named name) { ctx = some 0 }

abbrev build : Text → Outcome ℕ
build name = instance_ initializing [] (served name) 4 0

build_returns :
    build (codes "Flags")
    ≡ returned 1 (left_by (build (codes "Flags"))) (ok (instance_of (build (codes "Flags"))))
unfolding instance_of left_by instance_ after_options options scanned scan walk init_providers
    configured names_error check_names count_names add_name init_loop next_init init field_name
    with_providers make_dots initialized make_dot buffer_stack flusher_stack distinct init_templates
    x_provider req_provider resp_provider flush_provider value cleanup next_template init_template
    init_valued init_cleaned init_prefix dot_config Db.cleanup errors_join
build_returns = refl

reload_with-IsMade_example :
    (after : Server.World) × (reload_with initializing []
        (with_flags_named (codes "Flags"))
        0
        (start 4 false)
      ≡ (after, Server.returns none))
    × (handle after after ≡ routed (instance_of (build (codes "Flags"))).id)
    × IsMade initializing 4 (instance_of (build (codes "Flags")))
unfolding instance_of instance_ distinct req_provider x_provider dot_config resp_provider
    flush_provider value cleanup Db.cleanup errors_join
reload_with-IsMade_example =
    reload_with-IsMade initializing [] (with_flags_named (codes "Flags")) 0 1
      (left_by (build (codes "Flags"))) (instance_of (build (codes "Flags"))) 4 false
      (start 4 false) (λ p. refl) (λ p m. refl) identity-IsOrder here refl refl build_returns refl

-- A `Reload` in which a database and the flags have the same name.
abbrev clashing : Config
clashing = defaults initializing.ambient (served (codes "DB"))

reload_with-name_clash_example :
    (m : Text) × (after : Server.World) × (1 < uses m (codes "DB" ∷ codes "DB" ∷ []))
    × (reload_with around [] (with_flags_named (codes "DB")) 0 (start 4 false) ≡ (
      after,
      Server.returns (
          some (
            errorf "dot field name '%s' is used %d times"
              (text m ∷ int (uses m (codes "DB" ∷ codes "DB" ∷ [])) ∷ []))),
    ))
    × (after.server ≡ (start 4 false).server)
unfolding configured field_name options scan defaults walk
reload_with-name_clash_example =
    reload_with-name_clash around [] (with_flags_named (codes "DB")) clashing 0 new_builder
      (codes "DB") (start 4 false) identity-IsOrder refl refl (omega arith)
