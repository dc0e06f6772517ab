-- ===== src/EndToEnd.antt =====
-- The service as src/app.rs puts it together: the importer over the mempool.space client and the
-- PostgreSQL repository, and the router over the same repository.
pub mod Served
pub mod History
pub mod Task
pub mod Underway
pub mod Concurrent
pub mod Running
pub mod Import
use bipa_coding_challenge.Common.{ℕ, Call, List, Result}
use bipa_coding_challenge.Domain.Time.{Chrono}
use bipa_coding_challenge.Source.{NodeSource}
use bipa_coding_challenge.Source.Dto.{SerdeJson}
use bipa_coding_challenge.Source.Mempool.{Reqwest, MempoolClient, mempool_source}
use bipa_coding_challenge.Storage.{NodeRepository}
use bipa_coding_challenge.Storage.Postgres.{Postgres, pg_repository}
use bipa_coding_challenge.Importer.{ImportOutcome, ImportError, Wake, World, Looped, run_once, run}
use bipa_coding_challenge.Http.Response.{HttpResponse}
use bipa_coding_challenge.Http.Router.{Request, Axum, TowerHttp, respond}

module _ (c : Chrono) (s : SerdeJson) (r : Reqwest) (p : Postgres c.Instant)
    (client : MempoolClient r) where
  -- `Arc::new(MempoolClient::new(…))` and `Arc::new(PgNodeRepository::new(pool))`
  abbrev pub node_source : NodeSource c.Instant
  node_source = mempool_source r c s client

  abbrev pub node_repository : NodeRepository c.Instant
  node_repository = pg_repository p

  -- The network and the database.
  abbrev pub Outside : Type 0
  Outside = World node_source node_repository

  -- `Importer::new(source, repo)`, one import of it and its loop
  abbrev pub import_once : Outside → Call (Result ImportOutcome ImportError) × Outside
  import_once = run_once node_source node_repository

  abbrev pub import_loop : ℕ → List Wake → Outside → Looped node_source node_repository
  import_loop = run node_source node_repository

  -- `http::router(repo)`
  abbrev pub answer : Axum → TowerHttp → Request → ℕ → Outside → Call HttpResponse
  answer axum tower request seconds w =
      (respond axum tower c node_repository request seconds w.store).0
