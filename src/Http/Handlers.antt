-- ===== src/Http/Handlers.antt =====
-- src/http/handlers.rs: the three handlers. A handler gives a response or panics, and logs.
use bipa_coding_challenge.Common.{List, map, codes, Result, ok, err, Call, returned, panicked}
use bipa_coding_challenge.Domain.{Node}
use bipa_coding_challenge.Domain.Time.{Chrono}
use bipa_coding_challenge.Storage.{StorageError, NodeRepository}
use bipa_coding_challenge.Http.Response.{
  node_list, health_ok, error_body, HttpResponse, storage, into_response, from_node,
}

-- `GET /health`
abbrev pub health : HttpResponse
health = record { status = 200; body = health_ok }

-- the fallback
abbrev pub not_found : HttpResponse
not_found = record { status = 404; body = error_body (record { error = codes "not found" }) }

module _ (c : Chrono) (repo : NodeRepository c.Instant) where
  -- The nodes as JSON, or the API error that `?` makes of a storage error.
  unfoldable pub listed_response : Result (List (Node c.Instant)) StorageError → HttpResponse
  unfolding into_response
  listed_response (ok nodes) = record { status = 200; body = node_list (map (from_node c) nodes) }
  listed_response (err e) = (into_response (storage e)).0

  abbrev pub answered :
      Call (Result (List (Node c.Instant)) StorageError) × repo.State
      → Call HttpResponse × repo.State
  answered (returned result, state) = (returned (listed_response result), state)
  answered (panicked m, state) = (panicked m, state)

  -- `GET /nodes`
  unfoldable pub list_nodes : repo.State → Call HttpResponse × repo.State
  unfolding listed_response
  list_nodes state = answered (repo.list_nodes state)
