-- ===== src/Tests/Running.antt =====
-- The service from the spawn of its importer to its end, on the database in memory.
use mathlib.Core.List.Perm
use bipa_coding_challenge.Common.{◌≡◌, refl, ◌⊎◌, ◌≤◌, true, List, [], ◌∷◌, ok}
use bipa_coding_challenge.Domain.{Node}
use bipa_coding_challenge.Common.Int.{ℤ}
use bipa_coding_challenge.Storage.Postgres.Encode.{rows_from}
use bipa_coding_challenge.Source.Dto.{try_from, parse_record, parse_records}
use bipa_coding_challenge.Source.Mempool.{fetch_nodes}
use bipa_coding_challenge.Http.Router.{respond}
use bipa_coding_challenge.Source.Dto.Records.{accepted}
use bipa_coding_challenge.Storage.Postgres.{unnest, collect_columns, list_nodes}
use bipa_coding_challenge.Storage.Postgres.Repository.{Holds, ℤ-discrete}
use bipa_coding_challenge.EndToEnd.{Outside, answer}
use bipa_coding_challenge.EndToEnd.History.{Explained}
use bipa_coding_challenge.EndToEnd.Served.{get_nodes}
use bipa_coding_challenge.EndToEnd.Task.{idle, System, take_turn}
use bipa_coding_challenge.EndToEnd.Running.{
  serving, closing, returned_with, Label, import_turn, quiet, signalled, server_ended,
  request_label, ended, running, State, at, spawned, tick, turn, stop, signal, serve_request,
  drained, joined, closed, Steps, here, go,
}
use bipa_coding_challenge.EndToEnd.Running.Ends.{works, IsReturned, CanWork, serve-ends}
use bipa_coding_challenge.EndToEnd.Running.Explains.{events_of, answers_of, serve-Explained}
use bipa_coding_challenge.EndToEnd.Running.Complete.{ServedBy, Closes, IsWhole, serve-Closes}
use bipa_coding_challenge.Tests.Outside.{
  seconds_chrono, bytes_json, scripted_reqwest, table_axum, plain_tower,
}
use bipa_coding_challenge.Tests.Database.{memory, memory_laws}
use bipa_coding_challenge.Tests.Fetches.{client, good}
use bipa_coding_challenge.Tests.Nodes.{river, river_db}

abbrev World : Type 0
World = Outside seconds_chrono bytes_json scripted_reqwest memory client

abbrev Service : Type 0
Service = State seconds_chrono bytes_json scripted_reqwest memory client

abbrev Way : Service → List Label → Service → Type 0
Way = Steps seconds_chrono bytes_json scripted_reqwest memory client table_axum plain_tower

abbrev start : World
start = record { upstream = ok good ∷ []; store = river_db }

abbrev now : World → System seconds_chrono bytes_json scripted_reqwest memory client
now = take_turn seconds_chrono bytes_json scripted_reqwest memory client idle

abbrev next :
    System seconds_chrono bytes_json scripted_reqwest memory client
    → System seconds_chrono bytes_json scripted_reqwest memory client
next t = take_turn seconds_chrono bytes_json scripted_reqwest memory client t.importing t.outside

abbrev s1 : System seconds_chrono bytes_json scripted_reqwest memory client
s1 = now start

abbrev s2 : System seconds_chrono bytes_json scripted_reqwest memory client
s2 = next s1

abbrev s3 : System seconds_chrono bytes_json scripted_reqwest memory client
s3 = next s2

abbrev s4 : System seconds_chrono bytes_json scripted_reqwest memory client
s4 = next s3

abbrev s5 : System seconds_chrono bytes_json scripted_reqwest memory client
s5 = next s4

abbrev s6 : System seconds_chrono bytes_json scripted_reqwest memory client
s6 = next s5

abbrev s7 : System seconds_chrono bytes_json scripted_reqwest memory client
s7 = next s6

abbrev spawned_now : Service
spawned_now = spawned seconds_chrono bytes_json scripted_reqwest memory client start

abbrev asked : Label
asked = request_label get_nodes 1 (
    answer seconds_chrono bytes_json scripted_reqwest memory client table_axum plain_tower get_nodes
      1 start)

-- The rest of an import of which the fetch is done, after the token is cancelled, and the end.
abbrev last_labels : List Label
last_labels =
    import_turn
    ∷ import_turn
    ∷ server_ended (ok tt)
    ∷ import_turn
    ∷ import_turn
    ∷ import_turn
    ∷ import_turn
    ∷ quiet
    ∷ quiet
    ∷ []

abbrev cancelled_now : Service
cancelled_now =
    at seconds_chrono bytes_json scripted_reqwest memory client (running s1.importing) serving true
      s1.outside

abbrev closing_now : Service
closing_now =
    at seconds_chrono bytes_json scripted_reqwest memory client ended (closing (ok tt)) true
      s7.outside

abbrev returned_now : Service
returned_now =
    at seconds_chrono bytes_json scripted_reqwest memory client ended (returned_with (ok tt)) true
      s7.outside

last_steps : Way cancelled_now last_labels closing_now
unfolding take_turn fetch_nodes parse_records parse_record accepted try_from collect_columns unnest
last_steps = go (turn {w = s1.outside} s1.importing) (
    go (turn {w = s2.outside} s2.importing) (
      go (drained {w = s3.outside}) (
        go (turn {w = s3.outside} s3.importing) (
          go (turn {w = s4.outside} s4.importing) (
            go (turn {w = s5.outside} s5.importing)
              (go (turn {w = s6.outside} s6.importing) (go stop (go joined here))))))))

-- A request, a tick, the fetch, and the signal.
all_steps : Way spawned_now (asked ∷ quiet ∷ import_turn ∷ signalled ∷ last_labels) closing_now
unfolding take_turn fetch_nodes parse_records parse_record accepted try_from collect_columns unnest
    respond list_nodes
all_steps =
    go (serve_request {w = start} get_nodes 1)
      (go (tick {w = start}) (go (turn {w = start} idle) (go (signal {w = s1.outside}) last_steps)))

serve-ends_example :
    (works last_labels ≤ 11)
    × (IsReturned closing_now.stage
        ⊎ CanWork seconds_chrono bytes_json scripted_reqwest memory client table_axum plain_tower
            closing_now)
serve-ends_example =
    serve-ends seconds_chrono bytes_json scripted_reqwest memory client table_axum plain_tower
      cancelled_now closing_now last_labels refl last_steps

serve-Closes_example :
    (closing_now.cancelled ≡ true)
    × ServedBy (ok tt) (asked ∷ quiet ∷ import_turn ∷ signalled ∷ last_labels) serving
    × Closes seconds_chrono bytes_json scripted_reqwest memory client table_axum plain_tower
        (ok tt)
        returned_now
    × (returned_now.outside ≡ closing_now.outside)
    × ((snapshot : List (Node ℤ)) × IsWhole seconds_chrono bytes_json scripted_reqwest memory client
          table_axum plain_tower ℤ-discrete memory_laws
          (river ∷ [])
          snapshot
        × Holds ℤ-discrete memory memory_laws returned_now.outside.store snapshot)
serve-Closes_example =
    serve-Closes seconds_chrono bytes_json scripted_reqwest memory client table_axum plain_tower
      ℤ-discrete memory_laws (river ∷ []) start (ok tt) closing_now returned_now
      (asked ∷ quiet ∷ import_turn ∷ signalled ∷ last_labels) (quiet ∷ [])
      (Perm.refl (rows_from 0 (river ∷ []))) all_steps refl (go closed here)

serve-Explained_example :
    Explained seconds_chrono bytes_json scripted_reqwest memory client
      (river ∷ [])
      (events_of (asked ∷ quiet ∷ import_turn ∷ signalled ∷ last_labels))
      (answers_of (asked ∷ quiet ∷ import_turn ∷ signalled ∷ last_labels))
serve-Explained_example =
    serve-Explained seconds_chrono bytes_json scripted_reqwest memory client table_axum plain_tower
      ℤ-discrete memory_laws (river ∷ []) start closing_now
      (asked ∷ quiet ∷ import_turn ∷ signalled ∷ last_labels) (Perm.refl (rows_from 0 (river ∷ [])))
      all_steps
