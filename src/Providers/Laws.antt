-- ===== src/Providers/Laws.antt =====
-- `Init` keeps the name of a provider.
use xtemplate.Prelude.{ℕ, ◌≡◌, refl, Option, none, some, Option-cases, inl, inr}
use xtemplate.Prelude.Errors.{Error, Result, ok, err}
use xtemplate.Config.{DotDbConfig, DotDirConfig, DotNatsConfig, NatsConfig}
use xtemplate.Providers.{
  Outside, Provider, database, flag, directory, nats_client, custom, field_name, db_pinged,
  db_opened, db_init, dir_stated, dir_init, jet_stream_made, connected, nats_connect, server_made,
  nats_configured, no_client, nats_given, nats_init, init,
}

module _ {W : Type 0} (o : Outside W) where
  db_pinged-name :
      (d : DotDbConfig) (db : ℕ) (r : W × Option Error) → (db_pinged o d db r).1.name ≡ d.name
  unfolding db_pinged
  db_pinged-name d db (w, some e) = refl
  db_pinged-name d db (w, none) = refl

  db_opened-name : (d : DotDbConfig) (r : W × Result ℕ) → (db_opened o d r).1.name ≡ d.name
  unfolding db_opened
  db_opened-name d (w, err e) = refl
  db_opened-name d (w, ok db) = db_pinged-name d db _

  db_init-name : (d : DotDbConfig) (w : W) → (db_init o d w).1.name ≡ d.name
  unfolding db_init
  db_init-name d w = elim (Option-cases d.db) [
    | inl closed ↦ rw (db_init, closed) (db_opened-name d _)
    | inr (db, open_) ↦ rw (db_init, open_) refl
  ]

  dir_stated-name :
      (d : DotDirConfig) (fs : ℕ) (r : W × Option Error) → (dir_stated o d fs r).1.name ≡ d.name
  unfolding dir_stated
  dir_stated-name d fs (w, some e) = refl
  dir_stated-name d fs (w, none) = refl

  dir_init-name : (d : DotDirConfig) (w : W) → (dir_init o d w).1.name ≡ d.name
  unfolding dir_init
  dir_init-name d w = elim (Option-cases d.fs) [
    | inl missing ↦ rw (dir_init, missing) (dir_stated-name d _ _)
    | inr (fs, given) ↦ rw (dir_init, given) refl
  ]

  jet_stream_made-name :
      (d : DotNatsConfig) (r : W × Result ℕ) → (jet_stream_made o d r).1.name ≡ d.name
  unfolding jet_stream_made
  jet_stream_made-name d (w, err e) = refl
  jet_stream_made-name d (w, ok js) = refl

  connected-name :
      (d : DotNatsConfig) (n : NatsConfig) (r : W × Result ℕ) → (connected o d n r).1.name ≡ d.name
  unfolding connected
  connected-name d n (w, err e) = refl
  connected-name d n (w, ok conn) = jet_stream_made-name (record d { conn = some conn }) _

  server_made-name :
      (ctx : ℕ) (d : DotNatsConfig) (n : NatsConfig) (r : W × Result ℕ)
      → (server_made o ctx d n r).1.name ≡ d.name
  unfolding server_made nats_connect
  server_made-name ctx d n (w, err e) = refl
  server_made-name ctx d n (w, ok s) = connected-name (record d { server = some s }) n _

  nats_init-name : (ctx : ℕ) (d : DotNatsConfig) (w : W) → (nats_init o ctx d w).1.name ≡ d.name
  unfolding nats_init nats_given nats_configured no_client nats_connect
  nats_init-name ctx d w = elim (Option-cases d.conn) [
    | inr (conn, given) ↦ elim (Option-cases d.js) [
      | inr (js, there) ↦ rw (nats_init, given) (rw (nats_given, there) refl)
      | inl missing ↦ rw (nats_init, given) (rw (nats_given, missing) (jet_stream_made-name d _))
    ]
    | inl none_given ↦ elim (Option-cases d.nats_config) [
      | inl missing ↦ rw (nats_init, none_given) (rw missing refl)
      | inr (n, there) ↦ elim (Option-cases n.in_process_server_options) [
        | inl outside ↦
            rw (nats_init, none_given)
              (rw there (rw (nats_configured, outside) (connected-name d n _)))
        | inr (opts, inside) ↦
            rw (nats_init, none_given)
              (rw there (rw (nats_configured, inside) (server_made-name ctx d n _)))
      ]
    ]
  ]

  pub init-field_name :
      (ctx : ℕ) (p : Provider) (w : W) → field_name o (init o ctx p w).1 ≡ field_name o p
  unfolding init field_name
  init-field_name ctx (database d) w = db_init-name d w
  init-field_name ctx (flag d) w = refl
  init-field_name ctx (directory d) w = dir_init-name d w
  init-field_name ctx (nats_client d) w = nats_init-name ctx d w
  init-field_name ctx (custom d) w = refl
