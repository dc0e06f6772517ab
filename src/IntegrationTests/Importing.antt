-- ===== src/IntegrationTests/Importing.antt =====
-- The integration tests of tests/importer.rs: imports from a server into a database whose table is fresh.
use bipa_coding_challenge.Common.{
  ℕ, ◌++◌, ◌≡◌, refl, Text, List, [], ◌∷◌, map, codes, Result, ok, err, Call, returned,
}
use bipa_coding_challenge.Domain.{Node}
use bipa_coding_challenge.Domain.Time.{Chrono}
use bipa_coding_challenge.Source.{status}
use bipa_coding_challenge.Source.Dto.{SerdeJson, try_from, parse_record, parse_records}
use bipa_coding_challenge.Source.Mempool.{Reqwest, MempoolClient, new, fetch_nodes}
use bipa_coding_challenge.Storage.Postgres.{
  Postgres, unnest, collect_columns, write_columns, replace_all, collect_nodes, list_nodes,
}
use bipa_coding_challenge.Importer.{ImportOutcome, ImportError, source, empty_source, run_once}
use bipa_coding_challenge.EndToEnd.{Outside, import_once}
use bipa_coding_challenge.UnitTests.Calendar.{calendar}
use bipa_coding_challenge.UnitTests.Dto.Trees.{dto_from_value}
use bipa_coding_challenge.Tests.Database.{memory}
use bipa_coding_challenge.Tests.Nodes.{empty_db}
use bipa_coding_challenge.IntegrationTests.Reader.{read_array, text_json}
use bipa_coding_challenge.IntegrationTests.Fixture.{fixture, fixture_aliases}
use bipa_coding_challenge.IntegrationTests.Servers.{
  Template, json_body, template, mounted, rankings_path, uri, wiremock_reqwest,
}

module _ (c : Chrono) (s : SerdeJson) (r : Reqwest) (p : Postgres c.Instant) (parse : Text → r.Url)
    (base : Text) (respond : Template → r.Network) (fresh : p.Db) where
  -- `Harness::new(pool)`: what is asserted of the importer of a client.
  abbrev WithHarness : (MempoolClient r → Type 0) → Type 0
  WithHarness P =
      (client : MempoolClient r) × (new r (parse (base ++ rankings_path)) 5 ≡ ok client) × P client

  module _ (client : MempoolClient r) where
    -- `harness.respond_with(template)`, and then one import
    abbrev imported :
        Template → p.Db → Call (Result ImportOutcome ImportError) × Outside c s r p client
    imported template db =
        import_once c s r p client (record { upstream = respond template; store = db })

    -- The database after the fixture is imported with success.
    abbrev after_fixture : p.Db
    after_fixture = (imported (json_body fixture) fresh).1.store

    abbrev Imports : Template → p.Db → ℕ → Type 0
    Imports template db n = (imported template db).0 ≡ returned (ok (record { imported = n }))

    -- `harness.stored_aliases()`
    abbrev StoredAliases : p.Db → List Text → Type 0
    StoredAliases db aliases =
        (nodes : List (Node c.Instant)) × ((list_nodes p db).0 ≡ ok nodes)
        × (map (λ n. n.alias) nodes ≡ aliases)

    -- An import after that of the fixture fails, and the aliases stay.
    abbrev KeepsSnapshot : Template → ImportError → Type 0
    KeepsSnapshot template e =
        (n : ℕ) × (before : List Text) × Imports (json_body fixture) fresh n
        × StoredAliases after_fixture before
        × ((imported template after_fixture).0 ≡ returned (err e))
        × StoredAliases (imported template after_fixture).1.store before

  abbrev ImportsFixtureIntoDatabase : Type 0
  ImportsFixtureIntoDatabase = WithHarness λ client.
      Imports client (json_body fixture) fresh 5
      × StoredAliases client (after_fixture client) fixture_aliases

  abbrev UpstreamFailureKeepsPreviousSnapshot : Type 0
  UpstreamFailureKeepsPreviousSnapshot =
      WithHarness λ client. KeepsSnapshot client (template 500 (codes "")) (source (status 500))

  abbrev EmptyUpstreamResponseKeepsPreviousSnapshot : Type 0
  EmptyUpstreamResponseKeepsPreviousSnapshot =
      WithHarness λ client. KeepsSnapshot client (json_body (codes "[]")) empty_source

  abbrev new_ranking : Text
  new_ranking =
      codes
        "[\n        {\"publicKey\": \"02new\", \"alias\": \"Newcomer\", \"capacity\": 10, \"firstSeen\": 1700000000},\n"
      ++ (codes
            "        {\"publicKey\": \"03864ef025fde8fb587d989186ce6a4a186895ee44a926bfc370e2c366597a3f8f\",\n"
          ++ codes
              "         \"alias\": \"ACINQ\", \"capacity\": 36101511053, \"firstSeen\": 1522941222}\n    ]")

  abbrev RankingChangeReplacesStoredRanking : Type 0
  RankingChangeReplacesStoredRanking = WithHarness λ client.
      (n : ℕ) × (m : ℕ) × Imports client (json_body fixture) fresh n
      × Imports client (json_body new_ranking) (after_fixture client) m
      × StoredAliases client
          (imported client (json_body new_ranking) (after_fixture client)).1.store
          (codes "Newcomer" ∷ codes "ACINQ" ∷ [])

abbrev Passes :
    ((c : Chrono)
      → SerdeJson
      → (r : Reqwest) → (p : Postgres c.Instant) → (Text → r.Url)
      → Text
      → (Template → r.Network)
      → p.Db
      → Type 0)
    → Type 0
Passes test = test calendar text_json wiremock_reqwest memory (λ t. t) uri (λ t. mounted t) empty_db

imports_pass : Passes ImportsFixtureIntoDatabase × Passes RankingChangeReplacesStoredRanking
unfolding new fetch_nodes read_array parse_records parse_record try_from dto_from_value run_once
    replace_all collect_columns write_columns unnest list_nodes collect_nodes
    bipa_coding_challenge.Storage.Postgres.try_from
imports_pass = ((_, refl, (refl, (_, refl, refl))), (_, refl, (_, _, refl, refl, (_, refl, refl))))

failures_pass :
    Passes UpstreamFailureKeepsPreviousSnapshot × Passes EmptyUpstreamResponseKeepsPreviousSnapshot
unfolding new fetch_nodes read_array parse_records parse_record try_from dto_from_value run_once
    replace_all collect_columns write_columns unnest list_nodes collect_nodes
    bipa_coding_challenge.Storage.Postgres.try_from
failures_pass = (
  (_, refl, (_, _, refl, (_, refl, refl), refl, (_, refl, refl))),
  (_, refl, (_, _, refl, (_, refl, refl), refl, (_, refl, refl))),
)
