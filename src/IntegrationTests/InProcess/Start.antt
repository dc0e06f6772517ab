-- ===== src/IntegrationTests/InProcess/Start.antt =====
-- The service in the process, over the database in memory: its imports and its end.
use Prim.Native.String.{String}
use bipa_coding_challenge.Common.{◌++◌, refl, false, Text, codes}
use bipa_coding_challenge.Domain.Time.{Chrono}
use bipa_coding_challenge.Source.Dto.{SerdeJson}
use bipa_coding_challenge.Source.Mempool.{Reqwest, MempoolClient, user_agent}
use bipa_coding_challenge.Storage.Postgres.{Postgres}
use bipa_coding_challenge.Http.Json.{SerdeWriter}
use bipa_coding_challenge.Http.Router.{Request, Axum, TowerHttp, get}
use bipa_coding_challenge.EndToEnd.{Outside, import_once}
use bipa_coding_challenge.EndToEnd.Running.{
  serving, waiting, State, at, after_request, stop, signal, drained, joined, closed, here, go,
}
use bipa_coding_challenge.EndToEnd.Running.Imports.{serve-import_once}
use bipa_coding_challenge.UnitTests.Calendar.{calendar}
use bipa_coding_challenge.Tests.Database.{memory}
use bipa_coding_challenge.Tests.Nodes.{empty_db}
use bipa_coding_challenge.Tests.Writer.{compact_writer}
use bipa_coding_challenge.Tests.Outside.{table_axum, plain_tower}
use bipa_coding_challenge.IntegrationTests.Reader.{text_json}
use bipa_coding_challenge.IntegrationTests.Fixture.{fixture}
use bipa_coding_challenge.IntegrationTests.Servers.{
  Template, json_body, template, mounted, rankings_path, uri, wiremock_reqwest,
}
use bipa_coding_challenge.IntegrationTests.InProcess.{Reaches, Stops}

module _ (c : Chrono) (s : SerdeJson) (r : Reqwest) (p : Postgres c.Instant) (axum : Axum)
    (tower : TowerHttp) (json : SerdeWriter) (parse : Text → r.Url) (base : Text)
    (respond : Template → r.Network) (fresh : p.Db) (client : MempoolClient r) where
  pub stops :
      (w : Outside c s r p client)
      → Stops c s r p axum tower json parse base respond fresh client
          (at c s r p client waiting serving false w)
  stops w = (_, _, signal, (_, go drained (go stop (go joined (go closed here)))), refl)

  pub imports :
      (w : Outside c s r p client)
      → Reaches c s r p axum tower json parse base respond fresh client
          (at c s r p client waiting serving false w)
          (at c s r p client waiting serving false (import_once c s r p client w).1)
  imports w =
      let (labels, _, steps) = serve-import_once c s r p client axum tower serving w in
      (labels, steps)

abbrev pub client : MempoolClient wiremock_reqwest
client = record { http = (user_agent, 2); url = uri ++ rankings_path }

abbrev pub World : Type 0
World = Outside calendar text_json wiremock_reqwest memory client

abbrev pub world : Template → memory.Db → World
world template db = record { upstream = mounted template; store = db }

abbrev pub get_request : String → Request
get_request path = record { method = get; path = codes path }

abbrev pub asked : String → World → World
asked path w =
    after_request calendar text_json wiremock_reqwest memory client table_axum plain_tower
      (get_request path) 0 w

abbrev pub imported : World → World
imported w = (import_once calendar text_json wiremock_reqwest memory client w).1

abbrev pub start : World
start = world (json_body fixture) empty_db

abbrev pub idle_at : World → State calendar text_json wiremock_reqwest memory client
idle_at w = at calendar text_json wiremock_reqwest memory client waiting serving false w

abbrev pub goes :
    (w : World)
    → Reaches calendar text_json wiremock_reqwest memory table_axum plain_tower compact_writer
        (λ t. t)
        uri
        (λ t. mounted t)
        empty_db
        client
        (idle_at w)
        (idle_at (imported w))
goes =
    imports calendar text_json wiremock_reqwest memory table_axum plain_tower compact_writer
      (λ t. t) uri (λ t. mounted t) empty_db client

abbrev pub ends :
    (w : World)
    → Stops calendar text_json wiremock_reqwest memory table_axum plain_tower compact_writer
        (λ t. t)
        uri
        (λ t. mounted t)
        empty_db
        client
        (idle_at w)
ends =
    stops calendar text_json wiremock_reqwest memory table_axum plain_tower compact_writer (λ t. t)
      uri (λ t. mounted t) empty_db client
