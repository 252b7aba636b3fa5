-- ===== src/Providers/Ready.antt =====
-- `Init` leaves a provider with what its field needs.
use xtemplate.Prelude.{
  ℕ, ◌≡◌, refl, ap, arith, Bool, true, false, ◌&&◌, Option, none, some, Option-cases, inl, inr,
}
use xtemplate.Prelude.Errors.{Error, Result, ok, err}
use xtemplate.Config.{DotDbConfig, DotDirConfig, DotNatsConfig, NatsConfig}
use xtemplate.Providers.{
  Outside, Provider, database, flag, directory, nats_client, custom, db_pinged, db_opened, db_init,
  dir_stated, dir_init, jet_stream_made, connected, nats_connect, server_made, nats_configured,
  no_client, nats_given, nats_init, init,
}

abbrev is_given : Option ℕ → Bool
is_given none = false
is_given (some x) = true

-- A database has its pool, a directory its file system, a NATS field its connection and its JetStream.
abbrev pub is_ready : Provider → Bool
is_ready (database d) = is_given d.db
is_ready (flag d) = true
is_ready (directory d) = is_given d.fs
is_ready (nats_client d) = is_given d.conn && is_given d.js
is_ready (custom d) = true

abbrev Ready : {W : Type 0} → W × DotNatsConfig × Option Error → Type 0
Ready r = r.2 ≡ none → (is_given r.1.conn && is_given r.1.js) ≡ true

module _ {W : Type 0} (o : Outside W) where
  db_pinged-is_ready :
      (d : DotDbConfig) (db : ℕ) (r : W × Option Error)
      → (db_pinged o d db r).2 ≡ none
      → is_given (db_pinged o d db r).1.db ≡ true
  unfolding db_pinged
  db_pinged-is_ready d db (w, some e) h = absurd (ground (arith, h))
  db_pinged-is_ready d db (w, none) h = refl

  db_opened-is_ready :
      (d : DotDbConfig) (r : W × Result ℕ)
      → (db_opened o d r).2 ≡ none
      → is_given (db_opened o d r).1.db ≡ true
  unfolding db_opened
  db_opened-is_ready d (w, err e) h = absurd (ground (arith, h))
  db_opened-is_ready d (w, ok db) h = db_pinged-is_ready d db _ h

  db_init-is_ready :
      (d : DotDbConfig) (w : W) → (db_init o d w).2 ≡ none → is_given (db_init o d w).1.db ≡ true
  unfolding db_init
  db_init-is_ready d w h = elim (Option-cases d.db) [
    | inl closed ↦ rw (db_init, closed) (db_opened-is_ready d _ (rw (db_init, closed) at h))
    | inr (db, open_) ↦ rw (db_init, open_) (ap is_given open_)
  ]

  dir_stated-is_ready :
      (d : DotDirConfig) (fs : ℕ) (r : W × Option Error)
      → (dir_stated o d fs r).2 ≡ none
      → is_given (dir_stated o d fs r).1.fs ≡ true
  unfolding dir_stated
  dir_stated-is_ready d fs (w, some e) h = absurd (ground (arith, h))
  dir_stated-is_ready d fs (w, none) h = refl

  dir_init-is_ready :
      (d : DotDirConfig) (w : W) → (dir_init o d w).2 ≡ none → is_given (dir_init o d w).1.fs ≡ true
  unfolding dir_init
  dir_init-is_ready d w h = elim (Option-cases d.fs) [
    | inl missing ↦ rw (dir_init, missing) (dir_stated-is_ready d _ _ (rw (dir_init, missing) at h))
    | inr (fs, given) ↦ rw (dir_init, given) (ap is_given given)
  ]

  jet_stream_made-Ready :
      (d : DotNatsConfig) (r : W × Result ℕ)
      → is_given d.conn ≡ true
      → Ready (jet_stream_made o d r)
  unfolding jet_stream_made
  jet_stream_made-Ready d (w, err e) given h = absurd (ground (arith, h))
  jet_stream_made-Ready d (w, ok js) given h = ground (arith, given)

  connected-Ready :
      (d : DotNatsConfig) (n : NatsConfig) (r : W × Result ℕ) → Ready (connected o d n r)
  unfolding connected
  connected-Ready d n (w, err e) h = absurd (ground (arith, h))
  connected-Ready d n (w, ok conn) h =
      jet_stream_made-Ready (record d { conn = some conn }) _ refl h

  server_made-Ready :
      (ctx : ℕ) (d : DotNatsConfig) (n : NatsConfig) (r : W × Result ℕ)
      → Ready (server_made o ctx d n r)
  unfolding server_made nats_connect
  server_made-Ready ctx d n (w, err e) h = absurd (ground (arith, h))
  server_made-Ready ctx d n (w, ok s) h = connected-Ready (record d { server = some s }) n _ h

  nats_configured-Ready :
      (ctx : ℕ) (d : DotNatsConfig) (n : NatsConfig) (w : W) → Ready (nats_configured o ctx d n w)
  unfolding nats_configured nats_connect
  nats_configured-Ready ctx d n w h = elim (Option-cases n.in_process_server_options) [
    | inl outside ↦
        rw (nats_configured, outside) (connected-Ready d n _ (rw (nats_configured, outside) at h))
    | inr (opts, inside) ↦
        rw (nats_configured, inside)
          (server_made-Ready ctx d n _ (rw (nats_configured, inside) at h))
  ]

  nats_given-Ready :
      (d : DotNatsConfig) (conn : ℕ) (w : W) → d.conn ≡ some conn → Ready (nats_given o d conn w)
  unfolding nats_given
  nats_given-Ready d conn w given h = elim (Option-cases d.js) [
    | inr (js, there) ↦ rw (nats_given, there) (ground (arith, given, there))
    | inl missing ↦
        rw (nats_given, missing)
          (jet_stream_made-Ready d _ (ap is_given given) (rw (nats_given, missing) at h))
  ]

  nats_init-Ready : (ctx : ℕ) (d : DotNatsConfig) (w : W) → Ready (nats_init o ctx d w)
  unfolding nats_init no_client
  nats_init-Ready ctx d w h = elim (Option-cases d.conn) [
    | inr (conn, given) ↦
        rw (nats_init, given) (nats_given-Ready d conn w given (rw (nats_init, given) at h))
    | inl none_given ↦ elim (Option-cases d.nats_config) [
      | inl missing ↦ absurd (ground (arith, rw (nats_init, none_given, missing) at h))
      | inr (n, there) ↦
          rw (nats_init, none_given, there)
            (nats_configured-Ready ctx d n w (rw (nats_init, none_given, there) at h))
    ]
  ]

  pub init-is_ready :
      (ctx : ℕ) (p : Provider) (w : W)
      → (init o ctx p w).2 ≡ none
      → is_ready (init o ctx p w).1 ≡ true
  unfolding init
  init-is_ready ctx (database d) w h = db_init-is_ready d w h
  init-is_ready ctx (flag d) w h = refl
  init-is_ready ctx (directory d) w h = dir_init-is_ready d w h
  init-is_ready ctx (nats_client d) w h = nats_init-Ready ctx d w h
  init-is_ready ctx (custom d) w h = refl
