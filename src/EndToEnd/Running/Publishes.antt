-- ===== src/EndToEnd/Running/Publishes.antt =====
-- What the running service makes of the records that the network delivers.
use bipa_coding_challenge.Common.{
  ℕ, ◌^◌, ◌≤◌, ◌<◌, ◌≡◌, ◌≢◌, subst, ◌⊎◌, false, List, [], length, map, filter_map, returned,
}
use bipa_coding_challenge.Domain.Time.{Chrono}
use bipa_coding_challenge.Source.Dto.{SerdeJson, SerdeJsonLaws}
use bipa_coding_challenge.Source.Dto.Records.{accepted}
use bipa_coding_challenge.Source.Mempool.{Reqwest, MempoolClient}
use bipa_coding_challenge.Source.Mempool.Fetch.{Delivers}
use bipa_coding_challenge.Storage.Postgres.{Postgres, PostgresLaws}
use bipa_coding_challenge.Storage.Postgres.Encode.{rows_from, columns_of}
use bipa_coding_challenge.Storage.Postgres.Progress.{Runs}
use bipa_coding_challenge.Storage.Postgres.Repository.{Holds, pg_repository-laws}
use bipa_coding_challenge.Importer.RunOnce.{run_once-ok}
use bipa_coding_challenge.Http.Response.{internal_error_response, from_node}
use bipa_coding_challenge.Http.Router.{Axum, TowerHttp, request_timeout}
use bipa_coding_challenge.Http.Router.Safety.{respond-nodes}
use bipa_coding_challenge.EndToEnd.{node_source, node_repository, Outside, import_once, answer}
use bipa_coding_challenge.EndToEnd.Import.{fetched_of, import_once-total}
use bipa_coding_challenge.EndToEnd.Served.{get_nodes, nodes_response}
use bipa_coding_challenge.EndToEnd.Running.{serving, waiting, at}
use bipa_coding_challenge.EndToEnd.Running.Imports.{Goes, serve-import_once}

module _ (c : Chrono) (s : SerdeJson) (r : Reqwest) (p : Postgres c.Instant)
    (client : MempoolClient r) where
  module _ (axum : Axum) (tower : TowerHttp) (eq : Discrete c.Instant) (laws : PostgresLaws p) where
    import_once-Holds :
        (json : SerdeJsonLaws s) (w : Outside c s r p client) (records : List s.Value)
        → Delivers r c s client w.upstream records
        → filter_map (accepted c s) records ≢ []
        → length (filter_map (accepted c s) records) ≤ 2 ^ 31
        → Runs p (columns_of (rows_from 0 (filter_map (accepted c s) records))) w.store
        → Holds eq p laws (import_once c s r p client w).1.store (filter_map (accepted c s) records)
    import_once-Holds json w records d some_node few runs =
        let done = import_once-total c s r p client json w records d some_node few runs in
        let (nodes, fetched, _, held, _) =
          run_once-ok (node_source c s r p client) (node_repository c s r p client)
            (Holds eq p laws) (pg_repository-laws eq p laws) w _ done in
        let given = fetched_of c s r p client w.upstream records d in
        let same : nodes ≡ filter_map (accepted c s) records = cc in
        subst (Holds eq p laws (import_once c s r p client w).1.store) same held

    -- From any state in which the importer waits, the server runs and the token is not cancelled: if the
    -- network delivers records, of which at least one is acceptable and no more than INTEGER has places,
    -- and the database runs the four statements with their rows, then the importer's own steps take the
    -- service to a state in which the table holds exactly the acceptable records, and there within the
    -- time limit `GET /nodes` lists exactly these or answers the generic 500.
    pub serve_publishes :
        (json : SerdeJsonLaws s) (w : Outside c s r p client) (records : List s.Value) (seconds : ℕ)
        → Delivers r c s client w.upstream records
        → filter_map (accepted c s) records ≢ []
        → length (filter_map (accepted c s) records) ≤ 2 ^ 31
        → Runs p (columns_of (rows_from 0 (filter_map (accepted c s) records))) w.store
        → seconds < request_timeout
        → (later : Outside c s r p client) × Goes c s r p client axum tower
            (at c s r p client waiting serving false w)
            (at c s r p client waiting serving false later)
          × Holds eq p laws later.store (filter_map (accepted c s) records)
          × ((answer c s r p client axum tower get_nodes seconds later
                ≡ returned (nodes_response (map (from_node c) (filter_map (accepted c s) records))))
              ⊎ (answer c s r p client axum tower get_nodes seconds later
                  ≡ returned internal_error_response))
    serve_publishes json w records seconds d some_node few runs early =
        let held = import_once-Holds json w records d some_node few runs in
        let later = (import_once c s r p client w).1 in
        (
          later,
          serve-import_once c s r p client axum tower serving w,
          held,
          respond-nodes axum tower c (node_repository c s r p client) (Holds eq p laws)
              (pg_repository-laws eq p laws) seconds later.store (filter_map (accepted c s) records)
              early held,
        )
