-- ===== src/IntegrationTests/Api.antt =====
-- The integration tests of tests/api.rs: the router over the repository of a database whose table is fresh.
use Prim.Native.String.{String}
use bipa_coding_challenge.Common.{
  ℕ, ◌≡◌, refl, Option, none, some, Text, List, [], ◌∷◌, codes, ok, Call, returned, panicked,
}
use bipa_coding_challenge.Common.Int.{ℤ, pos}
use bipa_coding_challenge.Domain.{Node}
use bipa_coding_challenge.Domain.Format.{format_btc}
use bipa_coding_challenge.Domain.Time.{Chrono, format_timestamp}
use bipa_coding_challenge.Storage.Postgres.{
  Postgres, unnest, collect_columns, write_columns, replace_all, try_from, collect_nodes,
  list_nodes, pg_repository,
}
use bipa_coding_challenge.Http.Response.{HttpResponse, from_node}
use bipa_coding_challenge.Http.Json.{Object, array, SerdeWriter, body_text}
use bipa_coding_challenge.Http.Router.{Axum, TowerHttp, get, respond}
use bipa_coding_challenge.TestSupport.{node}
use bipa_coding_challenge.Tests.Database.{memory}
use bipa_coding_challenge.Tests.Nodes.{empty_db}
use bipa_coding_challenge.Tests.Writer.{compact_writer}
use bipa_coding_challenge.Tests.Outside.{table_axum, plain_tower}
use bipa_coding_challenge.UnitTests.Calendar.{calendar, print}
use bipa_coding_challenge.IntegrationTests.Pool.{close, fresh_pool, pooled}

abbrev pub public_object : String → String → String → String → Object
public_object key alias capacity first_seen =
    (codes "public_key", codes key)
    ∷ (codes "alias", codes alias)
    ∷ (codes "capacity", codes capacity)
    ∷ (codes "first_seen", codes first_seen)
    ∷ []

module _ (axum : Axum) (tower : TowerHttp) (c : Chrono) (s : SerdeWriter)
    (unwrapped : ℤ → c.Instant) (p : Postgres c.Instant) (fresh : p.Db) where
  abbrev parts : Call HttpResponse → Option (ℕ × Text)
  parts (returned r) = some (r.status, body_text s r)
  parts (panicked m) = none

  -- `get(app, uri)`: the status and the body
  abbrev get_from : p.Db → String → Option (ℕ × Text)
  get_from db uri =
      parts
        (respond axum tower c (pg_repository p) (record { method = get; path = codes uri }) 0 db).0

  abbrev sample : String → String → ℕ → ℤ → Node c.Instant
  sample key alias = node c.Instant unwrapped (codes key) (codes alias)

  abbrev two_nodes : List (Node c.Instant)
  two_nodes =
      sample "03864ef025fde8fb587d989186ce6a4a186895ee44a926bfc370e2c366597a3f8f" "ACINQ"
        36_010_516_297 (pos 1_522_941_222)
      ∷ sample "035e4ff418fc8b5554c5d9eea66396c227bd429a3251c8cbc711002ba215bfc226"
          "WalletOfSatoshi.com" 15_464_503_162 (pos 1_601_429_940)
      ∷ []

  abbrev NodesReturnsChallengeExampleFromDatabase : Type 0
  NodesReturnsChallengeExampleFromDatabase =
      (n : ℕ) × (body : Text) × ((replace_all p two_nodes fresh).0 ≡ ok n)
      × (get_from (replace_all p two_nodes fresh).1 "/nodes" ≡ some (200, body))
      × (s.read body
          ≡ some (
              array (
                public_object "03864ef025fde8fb587d989186ce6a4a186895ee44a926bfc370e2c366597a3f8f"
                  "ACINQ" "360.10516297" "2018-04-05T15:13:42Z"
                ∷ public_object "035e4ff418fc8b5554c5d9eea66396c227bd429a3251c8cbc711002ba215bfc226"
                    "WalletOfSatoshi.com" "154.64503162" "2020-09-30T01:39:00Z"
                ∷ [])))

  abbrev NodesIsEmptyOnFreshDatabase : Type 0
  NodesIsEmptyOnFreshDatabase = get_from fresh "/nodes" ≡ some (200, codes "[]")

-- Over a pool in front of the database, which is closed.
module _ (axum : Axum) (tower : TowerHttp) (c : Chrono) (s : SerdeWriter) (p : Postgres c.Instant)
    (fresh : p.Db) where
  abbrev DatabaseUnavailableReturns500WithoutPanicking : Type 0
  DatabaseUnavailableReturns500WithoutPanicking =
      let closed = close p (fresh_pool p fresh) in
      let asked =
        respond axum tower c (pg_repository (pooled p))
          (record { method = get; path = codes "/nodes" }) 0 closed in
      let checked =
        respond axum tower c (pg_repository (pooled p))
          (record { method = get; path = codes "/health" }) 0 asked.1 in
      (failure answer : HttpResponse) × (asked.0 ≡ returned failure)
      × (failure.status ≡ 500)
      × (body_text s failure ≡ codes "{\"error\":\"internal server error\"}")
      × (checked.0 ≡ returned answer)
      × (answer.status ≡ 200)

listings_pass :
    NodesReturnsChallengeExampleFromDatabase table_axum plain_tower calendar compact_writer
      (λ t. t)
      memory
      empty_db
    × NodesIsEmptyOnFreshDatabase table_axum plain_tower calendar compact_writer
        (λ t. t)
        memory
        empty_db
unfolding respond replace_all collect_columns write_columns unnest list_nodes collect_nodes try_from
    from_node format_btc format_timestamp print body_text
listings_pass = ((_, _, refl, refl, refl), refl)

unavailable_passes :
    DatabaseUnavailableReturns500WithoutPanicking table_axum plain_tower calendar compact_writer
      memory empty_db
unfolding respond list_nodes body_text
unavailable_passes = (_, _, refl, refl, refl, refl, refl)
