-- ===== src/Tests/Service.antt =====
-- A service that starts, serves until it is told to stop, and shuts down.
use bipa_coding_challenge.Common.{refl, Bool, true, false, Text, codes, ok, err}
use bipa_coding_challenge.Storage.Connect.{Sqlx}
use bipa_coding_challenge.Config.{Config}
use bipa_coding_challenge.App.Service.{Runtime}
use bipa_coding_challenge.App.Shutdown.{RuntimeLaws}
use bipa_coding_challenge.Telemetry.{Tracing}
use bipa_coding_challenge.Tests.Outside.{text_net, scripted_reqwest}

-- What has become of the token, the importer and the pool.
record Stage : Type 0 where
  pub cancelled : Bool
  pub idle : Bool
  pub closed_idle : Bool

abbrev start : Stage
start = record { cancelled = false; idle = true; closed_idle = false }

abbrev phase_sqlx : Sqlx
phase_sqlx = record {
  World = Stage;
  Pool = Text;
  open_pool = λ connections timeout url w. (ok url, w);
  run_migrations = λ pool w. (ok tt, w);
  close = λ pool w. record w { closed_idle = w.idle };
}

-- Nothing else installs a subscriber.
abbrev pub quiet_tracing : {World : Type 0} → Tracing World
quiet_tracing = record {
  EnvFilter = Text;
  try_from_default_env = λ w. err (codes "environment variable not found");
  env_filter = λ directives. directives;
  is_terminal = λ w. false;
  try_init = λ filter ansi w. (ok tt, w);
}

abbrev phase_runtime : Runtime text_net scripted_reqwest phase_sqlx
phase_runtime = record {
  as_url = λ u. u.1;
  Listener = Text;
  tracing = quiet_tracing;
  bind = λ addr w. (ok addr, w);
  spawn_importer = λ client pool interval w. record w { idle = false };
  serve_http = λ listener pool w. (ok tt, w);
  cancel = λ w. record w { cancelled = true };
  join_importer = λ w. (ok tt, record w { idle = w.cancelled });
}

abbrev phase_laws : RuntimeLaws phase_runtime
phase_laws = record {
  cancelled = λ w. w.cancelled;
  idle = λ w. w.idle;
  closed_idle = λ p w. w.closed_idle;
  cancel-cancelled = λ w. refl;
  join-idle = λ w h. h;
  join-cancelled = λ w h. h;
  close-closed = λ p w h. h;
  close-cancelled = λ p w h. h;
}

abbrev pub config : Config text_net
config = record {
  database_url = codes "postgres://localhost/bipa";
  bind_addr = codes "0.0.0.0:3000";
  mempool_url =
      (codes "https", codes "//mempool.space/api/v1/lightning/nodes/rankings/connectivity");
  import_interval = 60;
  http_client_timeout = 10;
}
