-- ===== src/Providers.antt =====
-- The configured providers of dot fields: `Init` of dot_db_config.go, dot_flags.go, dot_fs_config.go and
-- dot_nats_config.go, and what instance.go does with them before it makes the dot values.
pub mod Fields
pub mod Names
pub mod Ready
pub mod Laws
mod Tests
use xtemplate.Prelude.{
  ℕ, ◌+◌, Bool, true, false, Option, none, some, List, [], ◌∷◌, ◌++◌, Text, text_eq, ltb, map,
  if◌then◌else◌,
}
use xtemplate.Prelude.Errors.{Error, Result, ok, err, errorf, wrapf, text, int}
use xtemplate.Config.{DotDbConfig, DotFlagsConfig, DotDirConfig, DotNatsConfig, Config, NatsConfig}

-- The libraries and systems that `Init` calls, on a state `W` of theirs. A database, a file system, a
-- NATS server, a connection, a JetStream and options are numbers. `shutdown_when_done` starts the
-- goroutine that shuts a server down once the context is done; `has_done` tells whether `ctx.Done()`
-- is not nil. The last two are the methods of a provider that is not of this repository.
pub record Outside (W : Type 0) : Type 0 where
  pub sql_open : Text → Text → W → W × Result ℕ
  pub set_max_open_conns : ℕ → ℕ → W → W
  pub ping : ℕ → W → W × Option Error
  pub dir_fs : Text → ℕ
  pub stat_fs : ℕ → W → W × Option Error
  pub default_options : ℕ
  pub new_server : ℕ → W → W × Result ℕ
  pub start : ℕ → W → W
  pub has_done : ℕ → Bool
  pub shutdown_when_done : ℕ → ℕ → W → W
  pub connect : ℕ → Option ℕ → W → W × Result ℕ
  pub new_jet_stream : ℕ → List ℕ → W → W × Result ℕ
  pub custom_name : ℕ → Text
  pub custom_init : ℕ → ℕ → W → W × Option Error

-- A `DotConfig` in the order of the loops in instance.go.
pub data Provider : Type 0 where
  database : DotDbConfig → Provider
  flag : DotFlagsConfig → Provider
  directory : DotDirConfig → Provider
  nats_client : DotNatsConfig → Provider
  custom : ℕ → Provider

module _ {W : Type 0} (o : Outside W) where
  unfoldable pub field_name : Provider → Text
  field_name (database d) = d.name
  field_name (flag d) = d.name
  field_name (directory d) = d.name
  field_name (nats_client d) = d.name
  field_name (custom d) = o.custom_name d

  -- What is left of `DotDBConfig.Init` once the database is opened.
  db_pinged : DotDbConfig → ℕ → W × Option Error → W × DotDbConfig × Option Error
  db_pinged d db (w, some e) = (w, d, some (wrapf "failed to ping database on open: %w" [] e))
  db_pinged d db (w, none) = (w, record d { db = some db }, none)

  db_opened : DotDbConfig → W × Result ℕ → W × DotDbConfig × Option Error
  unfolding db_pinged
  db_opened d (w, err e) = (
    w,
    d,
    some (wrapf "failed to open database with driver name '%s': %w" (text d.driver ∷ []) e),
  )
  db_opened d (w, ok db) = db_pinged d db (o.ping db (o.set_max_open_conns db d.max_open_conns w))

  pub db_init : DotDbConfig → W → W × DotDbConfig × Option Error
  unfolding db_opened
  db_init d w = elim d.db [
    | some db ↦ (w, d, none)
    | none ↦ db_opened d (o.sql_open d.driver d.connstr w)
  ]

  dir_stated : DotDirConfig → ℕ → W × Option Error → W × DotDirConfig × Option Error
  dir_stated d fs (w, some e) =
      (w, d, some (wrapf "failed to stat fs current directory '%s': %w" (text d.path ∷ []) e))
  dir_stated d fs (w, none) = (w, record d { fs = some fs }, none)

  pub dir_init : DotDirConfig → W → W × DotDirConfig × Option Error
  unfolding dir_stated
  dir_init d w = elim d.fs [
    | some fs ↦ (w, d, none)
    | none ↦ dir_stated d (o.dir_fs d.path) (o.stat_fs (o.dir_fs d.path) w)
  ]

  -- `d.js, err = jetstream.New(…)`, and the return of the error
  jet_stream_made : DotNatsConfig → W × Result ℕ → W × DotNatsConfig × Option Error
  jet_stream_made d (w, err e) = (w, record d { js = none }, some e)
  jet_stream_made d (w, ok js) = (w, record d { js = some js }, none)

  jet_stream_options : Option NatsConfig → List ℕ
  jet_stream_options none = []
  jet_stream_options (some n) = n.jet_stream_options

  connected : DotNatsConfig → NatsConfig → W × Result ℕ → W × DotNatsConfig × Option Error
  unfolding jet_stream_made
  connected d n (w, err e) =
      (w, record d { conn = none }, some (wrapf "failed to connect to in-process server: %w" [] e))
  connected d n (w, ok conn) =
      jet_stream_made (record d { conn = some conn }) (o.new_jet_stream conn n.jet_stream_options w)

  conn_options : Option ℕ → ℕ
  conn_options none = o.default_options
  conn_options (some opts) = opts

  -- `connOpt.Connect()`, within the process if a server was started for it
  nats_connect : DotNatsConfig → NatsConfig → Option ℕ → W → W × DotNatsConfig × Option Error
  unfolding connected conn_options
  nats_connect d n server w = connected d n (o.connect (conn_options n.conn_options) server w)

  -- The goroutine is started only if the context can be done.
  watched : ℕ → ℕ → W → W
  watched ctx server w = if o.has_done ctx then o.shutdown_when_done server ctx w else w

  server_made : ℕ → DotNatsConfig → NatsConfig → W × Result ℕ → W × DotNatsConfig × Option Error
  unfolding nats_connect watched
  server_made ctx d n (w, err e) = (
    w,
    record d { server = none },
    some (wrapf "failed to start in-process nats server: %w" [] e),
  )
  server_made ctx d n (w, ok s) =
      nats_connect (record d { server = some s }) n (some s) (watched ctx s (o.start s w))

  nats_configured : ℕ → DotNatsConfig → NatsConfig → W → W × DotNatsConfig × Option Error
  unfolding server_made nats_connect
  nats_configured ctx d n w = elim n.in_process_server_options [
    | none ↦ nats_connect d n none w
    | some opts ↦ server_made ctx d n (o.new_server opts w)
  ]

  no_client : DotNatsConfig → W → W × DotNatsConfig × Option Error
  no_client d w =
      (w, d, some (errorf "no nats client and no config provided to initialzie nats client" []))

  -- With a connection that is given.
  nats_given : DotNatsConfig → ℕ → W → W × DotNatsConfig × Option Error
  unfolding jet_stream_made jet_stream_options
  nats_given d conn w = elim d.js [
    | some js ↦ (w, d, none)
    | none ↦ jet_stream_made d (o.new_jet_stream conn (jet_stream_options d.nats_config) w)
  ]

  pub nats_init : ℕ → DotNatsConfig → W → W × DotNatsConfig × Option Error
  unfolding nats_given nats_configured no_client
  nats_init ctx d w = elim d.conn [
    | some conn ↦ nats_given d conn w
    | none ↦ elim d.nats_config [ none ↦ no_client d w | some n ↦ nats_configured ctx d n w ]
  ]

  unfoldable pub init : ℕ → Provider → W → W × Provider × Option Error
  unfolding db_init dir_init nats_init
  init ctx (database d) w = let (w', d', e) = db_init d w in (w', database d', e)
  init ctx (flag d) w = (w, flag d, none)
  init ctx (directory d) w = let (w', d', e) = dir_init d w in (w', directory d', e)
  init ctx (nats_client d) w = let (w', d', e) = nats_init ctx d w in (w', nats_client d', e)
  init ctx (custom d) w = let (w', e) = o.custom_init d ctx w in (w', custom d, e)

-- `DotFlags.Value`; a missing key has the empty string.
flag_value : Text → List (Text × Text) → Text
unfolding text_eq
flag_value key [] = []
flag_value key ((k, v) ∷ m) = let rest = flag_value key m in if text_eq k key then v else rest
