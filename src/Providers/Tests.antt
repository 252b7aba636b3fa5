-- ===== src/Providers/Tests.antt =====
-- Runs of `Init`.
use xtemplate.Prelude.{ℕ, ◌+◌, ◌≡◌, refl, false, none, some, [], codes}
use xtemplate.Prelude.Errors.{err, ok, wrapf, external}
use xtemplate.Config.{DotNatsConfig}
use xtemplate.Providers.{Outside, nats_init, server_made, watched, nats_connect, connected}

-- Servers start and are counted, no connection is made, and contexts are never done.
abbrev offline : Outside ℕ
offline = record {
  sql_open = λ driver connstr running. (running, ok 7);
  set_max_open_conns = λ n db running. running;
  ping = λ db running. (running, none);
  dir_fs = λ path. 0;
  stat_fs = λ fs running. (running, none);
  default_options = 0;
  new_server = λ opts running. (running, ok 3);
  start = λ server running. running + 1;
  has_done = λ ctx. false;
  shutdown_when_done = λ server ctx running. running;
  connect = λ opts server running. (running, err (external 1));
  new_jet_stream = λ conn opts running. (running, ok 5);
  custom_name = λ d. codes "Custom";
  custom_init = λ d ctx running. (running, none);
}

abbrev in_process : DotNatsConfig
in_process = record {
  name = codes "Nats";
  nats_config =
      some (record {
        in_process_server_options = some 1;
        conn_options = none;
        jet_stream_options = [];
      });
  conn = none;
  server = none;
  js = none;
}

-- The server that `Init` started runs on when the connection to it fails.
server_left_running : nats_init offline 0 in_process 0 ≡ (
  1,
  record in_process { server = some 3 },
  some (wrapf "failed to connect to in-process server: %w" [] (external 1)),
)
unfolding nats_init server_made watched nats_connect connected
server_left_running = refl
