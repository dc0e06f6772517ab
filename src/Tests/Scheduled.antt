-- ===== src/Tests/Scheduled.antt =====
-- A process whose service imports once, answers a request and stops by a signal.
use mathlib.Core.List.Perm
use bipa_coding_challenge.Common.{
  ◌≡◌, refl, true, false, Text, List, [], ◌∷◌, codes, Result, ok, err, Option, text_eq,
  if◌then◌else◌,
}
use bipa_coding_challenge.Common.Int.{ℤ}
use bipa_coding_challenge.Domain.{Node}
use bipa_coding_challenge.Source.Mempool.{MempoolClient, user_agent, new}
use bipa_coding_challenge.Storage.Postgres.Encode.{rows_from}
use bipa_coding_challenge.Storage.Postgres.Repository.{Holds, ℤ-discrete}
use bipa_coding_challenge.App.Service.{AppError, ExitCode, Runtime, run, serve, main}
use bipa_coding_challenge.App.{Round, ended, connect_with_retry}
use bipa_coding_challenge.Config.{
  from_env, from_lookup, load_database_url, load_bind_addr, load_mempool_url, load_import_interval,
  load_http_client_timeout,
}
use bipa_coding_challenge.Telemetry.{init}
use bipa_coding_challenge.EndToEnd.Running.Process.{EndsIn, main_serves}
use bipa_coding_challenge.EndToEnd.History.{Explained}
use bipa_coding_challenge.EndToEnd.Running.{
  Stage, returned_with, Label, ended, State, spawned, Steps,
}
use bipa_coding_challenge.EndToEnd.Running.Explains.{events_of, answers_of}
use bipa_coding_challenge.EndToEnd.Running.Complete.{IsWhole}
use bipa_coding_challenge.EndToEnd.Running.Serve.{Schedules}
use bipa_coding_challenge.EndToEnd.Running.Serve.Refines.{serve_refines}
use bipa_coding_challenge.Tests.Keeper.{
  Service, service_sqlx, service_runtime, task_of, state, service_schedules,
}
use bipa_coding_challenge.Tests.Outside.{
  seconds_chrono, bytes_json, scripted_reqwest, text_net, table_axum, plain_tower,
}
use bipa_coding_challenge.Tests.Database.{memory, memory_laws}
use bipa_coding_challenge.Tests.Fetches.{good}
use bipa_coding_challenge.Tests.Nodes.{river, river_db}
use bipa_coding_challenge.Tests.Service.{config}

abbrev client : MempoolClient scripted_reqwest
client = record { http = (user_agent, 10); url = config.mempool_url.1 }

abbrev Kept : Type 0
Kept =
    Service seconds_chrono bytes_json scripted_reqwest memory client table_axum plain_tower text_net
      (λ u. u.1)

abbrev runtime : Runtime text_net scripted_reqwest (
    service_sqlx seconds_chrono bytes_json scripted_reqwest memory client table_axum plain_tower
      text_net
      (λ u. u.1))
runtime =
    service_runtime seconds_chrono bytes_json scripted_reqwest memory client table_axum plain_tower
      text_net (λ u. u.1)

abbrev schedules :
    Schedules seconds_chrono bytes_json scripted_reqwest memory client table_axum plain_tower
      runtime
schedules =
    service_schedules seconds_chrono bytes_json scripted_reqwest memory client table_axum
      plain_tower text_net (λ u. u.1)

abbrev state_at : Stage → Kept → State seconds_chrono bytes_json scripted_reqwest memory client
state_at =
    state seconds_chrono bytes_json scripted_reqwest memory client table_axum plain_tower text_net
      (λ u. u.1)

abbrev start : Kept
start = (false, false, record { upstream = ok good ∷ []; store = river_db })

abbrev done : Result (Unit {0}) AppError × Kept
done = serve runtime config (codes "pool") (codes "0.0.0.0:3000") start

serve_refines_example :
    (labels : List Label) × Steps seconds_chrono bytes_json scripted_reqwest memory client
      table_axum plain_tower
      (spawned seconds_chrono bytes_json scripted_reqwest memory client start.2)
      labels
      (state_at (returned_with done.0) done.1)
    × Explained seconds_chrono bytes_json scripted_reqwest memory client
        (river ∷ [])
        (events_of labels)
        (answers_of labels)
    × (done.1.1 ≡ true)
    × (task_of seconds_chrono bytes_json scripted_reqwest memory client table_axum plain_tower
          text_net
          (λ u. u.1)
          done.1.0
        ≡ ended)
    × ((snapshot : List (Node ℤ)) × IsWhole seconds_chrono bytes_json scripted_reqwest memory client
          table_axum plain_tower ℤ-discrete memory_laws
          (river ∷ [])
          snapshot
        × Holds ℤ-discrete memory memory_laws done.1.2.store snapshot)
unfolding new
serve_refines_example =
    serve_refines seconds_chrono bytes_json scripted_reqwest memory client table_axum plain_tower
      ℤ-discrete memory_laws runtime schedules config (codes "pool") (codes "0.0.0.0:3000") start
      (river ∷ []) refl (Perm.refl (rows_from 0 (river ∷ [])))

abbrev env_var : Text → Result Text (Unit {0})
env_var name =
    if text_eq name (codes "DATABASE_URL") then ok (codes "postgres://localhost/bipa") else err tt

abbrev once : List (Round Kept)
once = ended false ∷ []

abbrev exited : Option ExitCode × Kept
exited = main runtime env_var once once start

abbrev bound : Result Text Text
bound = ok (codes "0.0.0.0:3000")

main_serves_example :
    (listener : Text) × (bound ≡ ok listener)
    × EndsIn seconds_chrono bytes_json scripted_reqwest memory client table_axum plain_tower runtime
        schedules config once once start exited.1
unfolding new main from_env from_lookup init run connect_with_retry load_database_url load_bind_addr
    load_mempool_url load_import_interval load_http_client_timeout
main_serves_example =
    main_serves seconds_chrono bytes_json scripted_reqwest memory client table_axum plain_tower
      runtime schedules env_var config once once start refl refl refl
