-- ===== src/IntegrationTests/InProcess.antt =====
-- The tests of tests/end_to_end.rs that run the service in the process, over the steps of `serve`. What a
-- test waits for is a state that the service can reach. Not stated: the time limits, and that the port is
-- free in the end.
pub mod Start
mod Passed
use Prim.Native.String.{String}
use bipa_coding_challenge.Common.{
  ℕ, ◌+◌, ◌≤◌, ◌++◌, ◌≡◌, some, Text, List, [], ◌∷◌, length, map, codes, ok, returned,
}
use bipa_coding_challenge.Domain.Time.{Chrono}
use bipa_coding_challenge.Source.Dto.{SerdeJson}
use bipa_coding_challenge.Source.Mempool.{Reqwest, MempoolClient, new}
use bipa_coding_challenge.Storage.Postgres.{Postgres}
use bipa_coding_challenge.Http.Response.{HttpResponse}
use bipa_coding_challenge.Http.Json.{Object, array, SerdeWriter, body_text}
use bipa_coding_challenge.Http.Router.{Axum, TowerHttp, get}
use bipa_coding_challenge.EndToEnd.Running.{
  returned_with, Label, import_turn, quiet, signalled, server_ended, request_label, State, spawned,
  Step, Steps,
}
use bipa_coding_challenge.UnitTests.Router.{value_of}
use bipa_coding_challenge.IntegrationTests.Api.{public_object}
use bipa_coding_challenge.IntegrationTests.Fixture.{fixture, fixture_aliases}
use bipa_coding_challenge.IntegrationTests.Servers.{Template, json_body, template, rankings_path}

abbrev pub acinq_object : Object
acinq_object =
    public_object "03864ef025fde8fb587d989186ce6a4a186895ee44a926bfc370e2c366597a3f8f" "ACINQ"
      "361.01511053" "2018-04-05T15:13:42Z"

abbrev pub new_ranking : Text
new_ranking =
    codes
      "[\n        {\"publicKey\": \"02aa\", \"alias\": \"Newcomer\", \"capacity\": 100000000, \"firstSeen\": 1700000000},\n"
    ++ codes
        "        {\"publicKey\": \"02bb\", \"alias\": \"Runner-up\", \"capacity\": 550000, \"firstSeen\": 1600000000}\n    ]"

abbrev pub turns_in : List Label → ℕ
turns_in [] = 0
turns_in (import_turn ∷ labels) = turns_in labels + 1
turns_in (quiet ∷ labels) = turns_in labels
turns_in (signalled ∷ labels) = turns_in labels
turns_in (server_ended _ ∷ labels) = turns_in labels
turns_in (request_label _ _ _ ∷ labels) = turns_in labels

module _ (c : Chrono) (s : SerdeJson) (r : Reqwest) (p : Postgres c.Instant) (axum : Axum)
    (tower : TowerHttp) (json : SerdeWriter) (parse : Text → r.Url) (base : Text)
    (respond : Template → r.Network) (fresh : p.Db) where
  module _ (client : MempoolClient r) where
    abbrev pub Reaches : State c s r p client → State c s r p client → Type 0
    Reaches t u = (labels : List Label) × Steps c s r p client axum tower t labels u

    -- At least so many turns of imports are taken, each with a fetch where every fetch fails.
    abbrev pub Imports : ℕ → State c s r p client → State c s r p client → Type 0
    Imports n t u =
        (labels : List Label) × Steps c s r p client axum tower t labels u × (n ≤ turns_in labels)

    -- `respond_with(&mempool, template)`
    abbrev pub respond_with : Template → State c s r p client → State c s r p client
    respond_with template t = record t {
      outside = record t.outside { upstream = respond template };
    }

    -- A request of a path, with the status and the body of its answer.
    abbrev pub Gets : State c s r p client → String → ℕ → Text → State c s r p client → Type 0
    Gets t path status body u =
        (response : HttpResponse) × Step c s r p client axum tower t
          (request_label (record { method = get; path = codes path }) 0 (returned response)) u
        × (response.status ≡ status)
        × (body_text json response ≡ body)

    -- `GET /nodes` is 200 with an array of these objects.
    abbrev pub GetsNodes : State c s r p client → List Object → State c s r p client → Type 0
    GetsNodes t objects u =
        (body : Text) × Gets t "/nodes" 200 body u × (json.read body ≡ some (array objects))

    -- `aliases(addr)`
    abbrev pub GetsAliases : State c s r p client → List Text → State c s r p client → Type 0
    GetsAliases t aliases u =
        (objects : List Object) × GetsNodes t objects u
        × (map (value_of (codes "alias")) objects ≡ map (λ alias. some alias) aliases)

    -- `service.token.cancel(); service.handle.await.unwrap().unwrap();`
    abbrev pub Stops : State c s r p client → Type 0
    Stops t =
        (u v : State c s r p client) × Step c s r p client axum tower t signalled u
        × Reaches u v
        × (v.stage ≡ returned_with (ok tt))

  -- `start_service(pool, &mempool)` while the server has a response.
  abbrev pub WithService :
      Template → ((client : MempoolClient r) → State c s r p client → Type 0) → Type 0
  WithService template P =
      (client : MempoolClient r) × (new r (parse (base ++ rankings_path)) 2 ≡ ok client)
      × P client (spawned c s r p client (record { upstream = respond template; store = fresh }))

  abbrev pub ServesImportedNodes : Type 0
  ServesImportedNodes = WithService (json_body fixture) λ client start.
      (checked imported shown last : State c s r p client) × (more : List Object) × Gets client
        start "/health" 200 (codes "{\"status\":\"ok\"}") checked
      × Reaches client checked imported
      × GetsNodes client imported (acinq_object ∷ more) shown
      × (length more ≡ 4)
      × GetsAliases client shown fixture_aliases last
      × Stops client last

  abbrev pub KeepsServingLastSnapshotDuringUpstreamOutage : Type 0
  KeepsServingLastSnapshotDuringUpstreamOutage = WithService (json_body fixture) λ client start.
      (imported shown failed last : State c s r p client) × Reaches client start imported
      × GetsAliases client imported fixture_aliases shown
      × Imports client 3 (respond_with client (template 500 (codes "")) shown) failed
      × GetsAliases client failed fixture_aliases last
      × Stops client last

  abbrev pub ReflectsRankingChanges : Type 0
  ReflectsRankingChanges = WithService (json_body fixture) λ client start.
      (imported shown updated again last : State c s r p client) × (first second : Object) × Reaches
        client start imported
      × GetsAliases client imported fixture_aliases shown
      × Reaches client (respond_with client (json_body new_ranking) shown) updated
      × GetsAliases client updated (codes "Newcomer" ∷ codes "Runner-up" ∷ []) again
      × GetsNodes client again (first ∷ second ∷ []) last
      × (value_of (codes "capacity") first ≡ some (codes "1.00000000"))
      × (value_of (codes "capacity") second ≡ some (codes "0.00550000"))
      × Stops client last

  abbrev pub ShutsDownGracefully : Type 0
  ShutsDownGracefully = WithService (json_body fixture) λ client start.
      (checked : State c s r p client) × (status : ℕ) × (body : Text) × Gets client start "/health"
        status body checked
      × Stops client checked
