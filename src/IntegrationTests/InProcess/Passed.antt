-- ===== src/IntegrationTests/InProcess/Passed.antt =====
-- The service passes the tests: an import where a test waits for one, and then the steps of the shutdown.
use bipa_coding_challenge.Common.{refl, Text, codes, arith}
use bipa_coding_challenge.Domain.Format.{format_btc}
use bipa_coding_challenge.Domain.Time.{Chrono, format_timestamp}
use bipa_coding_challenge.Source.Dto.{SerdeJson, try_from, parse_record, parse_records}
use bipa_coding_challenge.Source.Mempool.{Reqwest, new, fetch_nodes}
use bipa_coding_challenge.Storage.Postgres.{
  Postgres, unnest, collect_columns, write_columns, replace_all, collect_nodes, list_nodes,
}
use bipa_coding_challenge.Importer.{run_once}
use bipa_coding_challenge.Http.Response.{from_node}
use bipa_coding_challenge.Http.Json.{SerdeWriter, body_text}
use bipa_coding_challenge.Http.Router.{Axum, TowerHttp, respond}
use bipa_coding_challenge.EndToEnd.Task.{idle, take_turn}
use bipa_coding_challenge.EndToEnd.Running.{tick, turn, serve_request, here, go}
use bipa_coding_challenge.UnitTests.Calendar.{calendar, print}
use bipa_coding_challenge.UnitTests.Dto.Trees.{dto_from_value}
use bipa_coding_challenge.Tests.Database.{memory}
use bipa_coding_challenge.Tests.Nodes.{empty_db}
use bipa_coding_challenge.Tests.Writer.{compact_writer}
use bipa_coding_challenge.Tests.Outside.{table_axum, plain_tower}
use bipa_coding_challenge.IntegrationTests.Reader.{read_array, text_json}
use bipa_coding_challenge.IntegrationTests.Servers.{
  Template, json_body, template, mounted, uri, wiremock_reqwest,
}
use bipa_coding_challenge.IntegrationTests.InProcess.{
  new_ranking, ServesImportedNodes, KeepsServingLastSnapshotDuringUpstreamOutage,
  ReflectsRankingChanges, ShutsDownGracefully,
}
use bipa_coding_challenge.IntegrationTests.InProcess.Start.{
  client, World, world, get_request, asked, imported, start, idle_at, goes, ends,
}

abbrev Passes :
    ((c : Chrono)
      → SerdeJson
      → (r : Reqwest) → (p : Postgres c.Instant) → Axum
      → TowerHttp
      → SerdeWriter
      → (Text → r.Url)
      → Text
      → (Template → r.Network)
      → p.Db
      → Type 0)
    → Type 0
Passes test =
    test calendar text_json wiremock_reqwest memory table_axum plain_tower compact_writer (λ t. t)
      uri (λ t. mounted t) empty_db

shutdown_passes : Passes ShutsDownGracefully
unfolding new respond body_text
shutdown_passes = (
  client,
  refl,
  (
    idle_at (asked "/health" start),
    _,
    _,
    (_, serve_request {w = start} (get_request "/health") 0, refl, refl),
    ends (asked "/health" start),
  ),
)

abbrev served : World
served = imported (asked "/health" start)

serving_passes : Passes ServesImportedNodes
unfolding new fetch_nodes read_array parse_records parse_record try_from dto_from_value run_once
    replace_all collect_columns write_columns unnest list_nodes collect_nodes
    bipa_coding_challenge.Storage.Postgres.try_from respond from_node format_btc format_timestamp
    print body_text
serving_passes = (
  client,
  refl,
  (
    idle_at (asked "/health" start),
    idle_at served,
    idle_at (asked "/nodes" served),
    idle_at (asked "/nodes" (asked "/nodes" served)),
    _,
    (_, serve_request {w = start} (get_request "/health") 0, refl, refl),
    goes (asked "/health" start),
    (_, (_, serve_request {w = served} (get_request "/nodes") 0, refl, refl), refl),
    refl,
    (
      _,
      (
        _,
        (_, serve_request {w = asked "/nodes" served} (get_request "/nodes") 0, refl, refl),
        refl,
      ),
      refl,
    ),
    ends (asked "/nodes" (asked "/nodes" served)),
  ),
)

abbrev broken : World
broken = world (template 500 (codes "")) (asked "/nodes" (imported start)).store

outage_passes : Passes KeepsServingLastSnapshotDuringUpstreamOutage
unfolding new fetch_nodes read_array parse_records parse_record try_from dto_from_value run_once
    replace_all collect_columns write_columns unnest list_nodes collect_nodes
    bipa_coding_challenge.Storage.Postgres.try_from respond from_node format_btc format_timestamp
    print body_text take_turn
outage_passes = (
  client,
  refl,
  (
    idle_at (imported start),
    idle_at (asked "/nodes" (imported start)),
    idle_at broken,
    idle_at (asked "/nodes" broken),
    goes start,
    (
      _,
      (_, (_, serve_request {w = imported start} (get_request "/nodes") 0, refl, refl), refl),
      refl,
    ),
    (
      _,
      go (tick {w = broken}) (
          go (turn {w = broken} idle) (
            go (tick {w = broken}) (
              go (turn {w = broken} idle)
                (go (tick {w = broken}) (go (turn {w = broken} idle) here))))),
      omega arith,
    ),
    (_, (_, (_, serve_request {w = broken} (get_request "/nodes") 0, refl, refl), refl), refl),
    ends (asked "/nodes" broken),
  ),
)

abbrev before_change : World
before_change = world (json_body new_ranking) (asked "/nodes" (imported start)).store

abbrev changed : World
changed = imported before_change

changes_pass : Passes ReflectsRankingChanges
unfolding new fetch_nodes read_array parse_records parse_record try_from dto_from_value run_once
    replace_all collect_columns write_columns unnest list_nodes collect_nodes
    bipa_coding_challenge.Storage.Postgres.try_from respond from_node format_btc format_timestamp
    print body_text
changes_pass = (
  client,
  refl,
  (
    idle_at (imported start),
    idle_at (asked "/nodes" (imported start)),
    idle_at changed,
    idle_at (asked "/nodes" changed),
    idle_at (asked "/nodes" (asked "/nodes" changed)),
    _,
    _,
    goes start,
    (
      _,
      (_, (_, serve_request {w = imported start} (get_request "/nodes") 0, refl, refl), refl),
      refl,
    ),
    goes before_change,
    (_, (_, (_, serve_request {w = changed} (get_request "/nodes") 0, refl, refl), refl), refl),
    (_, (_, serve_request {w = asked "/nodes" changed} (get_request "/nodes") 0, refl, refl), refl),
    refl,
    refl,
    ends (asked "/nodes" (asked "/nodes" changed)),
  ),
)
