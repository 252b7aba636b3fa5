-- ===== src/Instance/Tests/Around.antt =====
-- Libraries and systems for the tests of Instance, over which every database opens.
use xtemplate.Prelude.{
  ℕ, ◌+◌, ◌<◌, ◌≡◌, refl, ap, arith, Bool, true, false, ◌&&◌, inl, inr, Bool-cases, none, List, [],
  ◌∷◌, Text, codes, text_eq, text_eq_iff, ◌==◌,
}
use xtemplate.Prelude.Errors.{Result, ok, err, external}
use xtemplate.Config.{DotDbConfig, zero_config}
use xtemplate.Db.{Driver}
use xtemplate.Dot.{Pooled}
use xtemplate.Handlers.{World, other}
use xtemplate.Builder.{Sources, new_builder}
use xtemplate.Providers.{Outside, field_name}
use xtemplate.Instance.{Surroundings, Outcome, Instance, returned, panicked, no_world, new_instance}
use xtemplate.Providers.Names.{uses, IsOrder}

-- Every database opens, and the pings are counted.
abbrev pub outside : Outside ℕ
outside = record {
  sql_open = λ driver connstr w. (w, ok 7);
  set_max_open_conns = λ n db w. w;
  ping = λ db w. (w + 1, none);
  dir_fs = λ path. 0;
  stat_fs = λ fs w. (w, none);
  default_options = 0;
  new_server = λ opts w. (w, ok 3);
  start = λ server w. w;
  has_done = λ ctx. true;
  shutdown_when_done = λ server ctx w. w;
  connect = λ opts server w. (w, ok 4);
  new_jet_stream = λ conn opts w. (w, ok 5);
  custom_name = λ d. codes "Custom";
  custom_init = λ d ctx w. (w, none);
}

abbrev pub sources : Sources
sources = record {
  open_ = λ path. err (external 1);
  stat = λ h. err (external 1);
  gzip_reader = λ h. err (external 1);
  zstd_reader = λ h. err (external 1);
  brotli_reader = λ h. h;
  hash_reader = λ h. err (external 1);
  detect = λ h. err (external 1);
  sort_by_size = λ es. es;
  handle_func = λ router pattern. none;
  template_extension = codes ".html";
  read_file = λ path. err (external 1);
  minify = none;
  parse = λ name content. err (external 1);
  add_parse_tree = λ name tree. ok 0;
}

unfoldable pub distinct : List Text → Bool
distinct [] = true
distinct (n ∷ ns) = (uses n ns == 0) && distinct ns

pub distinct-refuses : (ns : List Text) (name : Text) → 1 < uses name ns → distinct ns ≡ false
unfolding distinct
distinct-refuses [] name h = absurd (omega arith)
distinct-refuses (n ∷ ns) name h = elim (Bool-cases (text_eq n name)) [
  | inl same ↦
      let is : uses n ns ≡ uses name ns = ap (λ t. uses t ns) ((text_eq_iff n name).0 same) in
      ground (arith, h, same, is)
  | inr different ↦ ground (arith, h, different, distinct-refuses ns name)
]

abbrev pub store : Driver
store = record {
  begin_tx = λ n. none;
  commit = λ n. none;
  rollback = λ n. none;
  exec = λ n k q. ok k;
  query = λ n k q. Result.err (external 0);
}

-- An empty directory.
abbrev pub around : Surroundings ℕ
around = record {
  ambient = record { default_logger = 1; background = 2 };
  outside = outside;
  dir_fs = λ path. 0;
  sources = λ fs. sources;
  minifier = λ l r t. ok t;
  listing = λ fs. ([], none);
  sprig_funcs = (codes "trim", 2) ∷ [];
  func_map = λ m. [];
  names_order = λ m. m;
  templates_order = λ m. m;
  driver = λ pool. store;
  as_dot = λ p. record {
    field_name = field_name outside p;
    value_ = λ w. (w, ok (other 0));
    cleanup_ = none;
  };
  execute = λ tmpl vs w. record { fields = vs; world = w; output = []; error = none };
  struct_of = distinct;
}

abbrev pub db_config : DotDbConfig
db_config = record {
  db = none;
  tx_options = none;
  name = codes "DB";
  driver = codes "sqlite3";
  connstr = codes "file:test.db";
  max_open_conns = 0;
}

pub identity-IsOrder : IsOrder around.names_order
identity-IsOrder p m = refl

unfoldable pub instance_of : {W : Type 0} → Outcome W → Instance
instance_of panicked = new_instance around 0 zero_config new_builder
instance_of (returned w p (err e)) = new_instance around 0 zero_config new_builder
instance_of (returned w p (ok i)) = i

unfoldable pub left_by : {W : Type 0} → Outcome W → Pooled World
left_by panicked = no_world
left_by (returned w p r) = p
