-- ===== src/Config.antt =====
-- config.go, and the With… options and configuration records of dot_db_config.go, dot_flags.go,
-- dot_fs_config.go and dot_nats_config.go. A pointer or interface value from outside the repository
-- is a number (its address), and `none` if it is nil.
pub mod Laws
mod Tests
use xtemplate.Prelude.{
  ℕ, Bool, true, false, Option, none, some, List, [], ◌∷◌, ◌++◌, Text, codes, text_eq,
  if◌then◌else◌,
}
use xtemplate.Prelude.Errors.{Error, errorf, wrapf, text}

pub record DotDbConfig : Type 0 where
  pub db : Option ℕ
  pub tx_options : Option ℕ
  pub name : Text
  pub driver : Text
  pub connstr : Text
  pub max_open_conns : ℕ

pub record DotFlagsConfig : Type 0 where
  pub name : Text
  pub values : List (Text × Text)

pub record DotDirConfig : Type 0 where
  pub name : Text
  pub fs : Option ℕ
  pub path : Text

pub record NatsConfig : Type 0 where
  pub in_process_server_options : Option ℕ
  pub conn_options : Option ℕ
  pub jet_stream_options : List ℕ

pub record DotNatsConfig : Type 0 where
  pub name : Text
  pub nats_config : Option NatsConfig
  pub conn : Option ℕ
  pub server : Option ℕ
  pub js : Option ℕ

pub record Config : Type 0 where
  pub templates_dir : Text
  pub templates_fs : Option ℕ
  pub template_extension : Text
  pub minify : Bool
  pub databases : List DotDbConfig
  pub flags : List DotFlagsConfig
  pub directories : List DotDirConfig
  pub nats : List DotNatsConfig
  pub custom_providers : List ℕ
  pub ldelim : Text
  pub rdelim : Text
  pub func_maps : List ℕ
  pub ctx : Option ℕ
  pub logger : Option ℕ

-- `&Config{}`
abbrev pub zero_config : Config
zero_config = record {
  templates_dir = [];
  templates_fs = none;
  template_extension = [];
  minify = false;
  databases = [];
  flags = [];
  directories = [];
  nats = [];
  custom_providers = [];
  ldelim = [];
  rdelim = [];
  func_maps = [];
  ctx = none;
  logger = none;
}

-- `if s == "" { s = d }`, and `if p == nil { p = d }`
default_text : Text → Text → Text
default_text [] d = d
default_text (c ∷ s) d = c ∷ s

default_pointer : Option ℕ → ℕ → Option ℕ
default_pointer none d = some d
default_pointer (some p) d = some p

-- What `slog.Default()` and `context.Background()` return.
pub record Ambient : Type 0 where
  pub default_logger : ℕ
  pub background : ℕ

unfoldable pub defaults : Ambient → Config → Config
unfolding default_text default_pointer
defaults a c = record c {
  templates_dir = default_text c.templates_dir (codes "templates");
  template_extension = default_text c.template_extension (codes ".html");
  ldelim = default_text c.ldelim (codes "{{");
  rdelim = default_text c.rdelim (codes "}}");
  logger = default_pointer c.logger a.default_logger;
  ctx = default_pointer c.ctx a.background;
}

pub new : Ambient → Config
unfolding defaults
new a = defaults a zero_config

-- `type Option func(*Config) error`: the configuration as it is left, and the error.
abbrev pub ConfigOption : Type 0
ConfigOption = Config → Config × Option Error

after_option : (Config → Config × Option Error) → Config × Option Error → Config × Option Error
after_option rest (c, none) = rest c
after_option rest (c, some e) = (c, some (wrapf "failed to apply xtemplate config option: %w" [] e))

unfoldable pub options : List ConfigOption → Config → Config × Option Error
unfolding after_option
options [] c = (c, none)
options (o ∷ os) c = after_option (options os) (o c)

unfoldable pub with_template_fs : Option ℕ → ConfigOption
with_template_fs none c = (c, some (errorf "nil fs" []))
with_template_fs (some fs) c = (record c { templates_fs = some fs }, none)

pub with_logger : Option ℕ → ConfigOption
with_logger none c = (c, some (errorf "nil logger" []))
with_logger (some l) c = (record c { logger = some l }, none)

pub with_func_maps : List ℕ → ConfigOption
with_func_maps fm c = (record c { func_maps = c.func_maps ++ fm }, none)

pub with_provider : ℕ → ConfigOption
with_provider p c = (record c { custom_providers = c.custom_providers ++ p ∷ [] }, none)

pub with_db : Text → Option ℕ → Option ℕ → ConfigOption
with_db name none opt c =
    (c, some (errorf "cannot create database provider with nil sql.DB. name: %s" (text name ∷ [])))
with_db name (some db) opt c =
    let d : DotDbConfig = record {
      db = some db;
      tx_options = opt;
      name = name;
      driver = [];
      connstr = [];
      max_open_conns = 0;
    } in
    (record c { databases = c.databases ++ d ∷ [] }, none)

-- A nil map is `none`.
pub with_flags : Text → Option (List (Text × Text)) → ConfigOption
with_flags name none c =
    (c, some (errorf "cannot create DotKVProvider with null map with name %s" (text name ∷ [])))
with_flags name (some flags) c =
    let d : DotFlagsConfig = record { name = name; values = flags } in
    (record c { flags = c.flags ++ d ∷ [] }, none)

pub with_dir : Text → Option ℕ → ConfigOption
with_dir name none c =
    (c, some (errorf "cannot create DotFSProvider with null FS with name %s" (text name ∷ [])))
with_dir name (some fs) c =
    let d : DotDirConfig = record { name = name; fs = some fs; path = [] } in
    (record c { directories = c.directories ++ d ∷ [] }, none)

pub with_nats : Text → Option ℕ → Option ℕ → List ℕ → ConfigOption
with_nats name server_opts conn_opts js_opts c =
    let n : NatsConfig = record {
      in_process_server_options = server_opts;
      conn_options = conn_opts;
      jet_stream_options = js_opts;
    } in
    let d : DotNatsConfig = record {
      name = name;
      nats_config = some n;
      conn = none;
      server = none;
      js = none;
    } in
    (record c { nats = c.nats ++ d ∷ [] }, none)
