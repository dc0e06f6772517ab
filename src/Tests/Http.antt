-- ===== src/Tests/Http.antt =====
-- Requests to the service over the database in memory.
use mathlib.Core.List.Perm
use bipa_coding_challenge.Common.{◌≡◌, refl, ◌⊎◌, [], ◌∷◌, map, codes, returned, panicked, arith}
use bipa_coding_challenge.Common.Int.{ℤ}
use bipa_coding_challenge.Storage.{NodeRepository}
use bipa_coding_challenge.Storage.Postgres.Encode.{rows_from}
use bipa_coding_challenge.Http.Response.{node_list, internal_error_response, from_node}
use bipa_coding_challenge.Http.Router.{get, Request, respond}
use bipa_coding_challenge.Http.Router.Safety.{respond-nodes}
use bipa_coding_challenge.Tests.Outside.{seconds_chrono, table_axum, plain_tower}
use bipa_coding_challenge.Tests.Nodes.{
  river, river_db, memory_repository, memory_repository-laws, Stores,
}

abbrev get_nodes : Request
get_nodes = record { method = get; path = codes "/nodes" }

abbrev get_lost : Request
get_lost = record { method = get; path = codes "/lost" }

river_held : Stores river_db (river ∷ [])
river_held = Perm.refl (rows_from 0 (river ∷ []))

respond-nodes_example :
    ((respond table_axum plain_tower seconds_chrono memory_repository get_nodes 1 river_db).0
      ≡ returned
          (record { status = 200; body = node_list (map (from_node seconds_chrono) (river ∷ [])) }))
    ⊎ ((respond table_axum plain_tower seconds_chrono memory_repository get_nodes 1 river_db).0
        ≡ returned internal_error_response)
respond-nodes_example =
    respond-nodes table_axum plain_tower seconds_chrono memory_repository Stores
      memory_repository-laws 1 river_db (river ∷ []) (omega arith) river_held

-- A repository that panics.
abbrev broken_repository : NodeRepository ℤ
broken_repository = record {
  State = Unit {0};
  replace_all = λ nodes s. (panicked (codes "boom"), s);
  list_nodes = λ s. (panicked (codes "boom"), s);
}
