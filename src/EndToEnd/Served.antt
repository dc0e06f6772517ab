-- ===== src/EndToEnd/Served.antt =====
-- What clients of the API see of the imports.
use bipa_coding_challenge.Common.{
  ℕ, ◌^◌, ◌<◌, ◌≡◌, ◌≢◌, sym, subst, ◌⊎◌, inl, inr, some, List, [], ◌∷◌, codes, map, filter_map,
  All, ok, returned,
}
use bipa_coding_challenge.Domain.{Node}
use bipa_coding_challenge.Domain.Format.RoundTrip.{read_btc, read_btc-format_btc}
use bipa_coding_challenge.Domain.Time.{Chrono}
use bipa_coding_challenge.Source.Dto.{SerdeJson, SerdeJsonLaws}
use bipa_coding_challenge.Source.Dto.Records.{accepted, IsStorable}
use bipa_coding_challenge.Source.Mempool.{Reqwest, MempoolClient}
use bipa_coding_challenge.Source.Mempool.Fetch.{Delivers}
use bipa_coding_challenge.Storage.Postgres.{Postgres, PostgresLaws}
use bipa_coding_challenge.Storage.Postgres.Repository.{Holds, pg_repository-laws}
use bipa_coding_challenge.Importer.{ImportOutcome, Wake}
use bipa_coding_challenge.Importer.RunOnce.{run_once-ok}
use bipa_coding_challenge.Importer.Loop.{run-HoldsGood}
use bipa_coding_challenge.Http.Response.{
  NodeResponse, HttpResponse, node_list, internal_error_response, from_node,
}
use bipa_coding_challenge.Http.Router.{get, Request, Axum, TowerHttp, request_timeout}
use bipa_coding_challenge.Http.Router.Safety.{respond-nodes}
use bipa_coding_challenge.EndToEnd.{
  node_source, node_repository, Outside, import_once, import_loop, answer,
}
use bipa_coding_challenge.EndToEnd.Import.{fetched_records, accepted-IsStorable}

abbrev pub get_nodes : Request
get_nodes = record { method = get; path = codes "/nodes" }

abbrev pub nodes_response : List NodeResponse → HttpResponse
nodes_response shown = record { status = 200; body = node_list shown }

-- What a client may rely on of each node: a key, and a BTC amount of fewer than 2 ^ 63 satoshis.
abbrev pub IsPublic : NodeResponse → Type 0
IsPublic n = (n.public_key ≢ []) × (sats : ℕ) × (read_btc n.capacity ≡ some sats) × (sats < 2 ^ 63)

module _ (c : Chrono) (s : SerdeJson) (r : Reqwest) (p : Postgres c.Instant)
    (client : MempoolClient r) (eq : Discrete c.Instant) (laws : PostgresLaws p) (axum : Axum)
    (tower : TowerHttp) where
  -- After an import that succeeds, within the time limit `GET /nodes` answers the generic 500, or 200
  -- with the public form of exactly the acceptable records of a delivered array, in their order.
  pub answer-import_once :
      (w : Outside c s r p client) (outcome : ImportOutcome) (seconds : ℕ)
      → seconds < request_timeout
      → (import_once c s r p client w).0 ≡ returned (ok outcome)
      → (records : List s.Value) × Delivers r c s client w.upstream records
        × ((answer c s r p client axum tower get_nodes seconds (import_once c s r p client w).1
              ≡ returned (nodes_response (map (from_node c) (filter_map (accepted c s) records))))
            ⊎ (answer c s r p client axum tower get_nodes seconds (import_once c s r p client w).1
                ≡ returned internal_error_response))
  answer-import_once w outcome seconds early done =
      let contract = pg_repository-laws eq p laws in
      let source = node_source c s r p client in
      let repo = node_repository c s r p client in
      let (nodes, fetched, _, held, _) =
        run_once-ok source repo (Holds eq p laws) contract w outcome done in
      let (records, delivers, same) = fetched_records c s r p client w.upstream nodes fetched in
      let store = (import_once c s r p client w).1.store in
      (
        records,
        delivers,
        respond-nodes axum tower c repo (Holds eq p laws) contract seconds store
            (filter_map (accepted c s) records) early (subst (Holds eq p laws store) same held),
      )

  from_node-IsPublic :
      (nodes : List (Node c.Instant))
      → All (IsStorable c s) nodes
      → All IsPublic (map (from_node c) nodes)
  unfolding from_node
  from_node-IsPublic [] h = tt
  from_node-IsPublic (node ∷ nodes) ((key, fits), h) = (
    (key, node.capacity_sats, read_btc-format_btc node.capacity_sats, fits),
    from_node-IsPublic nodes h,
  )

  -- However many imports have run, failed or panicked, within the time limit `GET /nodes` answers the
  -- generic 500, or 200 with nodes that each have a key and a BTC amount below 2 ^ 63 satoshis, if that
  -- was so of the snapshot at the start.
  pub answer-IsPublic :
      (json : SerdeJsonLaws s) (interval : ℕ) (wakes : List Wake) (w : Outside c s r p client)
      (old : List (Node c.Instant)) (seconds : ℕ)
      → Holds eq p laws w.store old
      → All (IsStorable c s) old
      → seconds < request_timeout
      → let later = (import_loop c s r p client interval wakes w).world in
        ((shown : List NodeResponse) × All IsPublic shown
          × (answer c s r p client axum tower get_nodes seconds later
              ≡ returned (nodes_response shown)))
        ⊎ (answer c s r p client axum tower get_nodes seconds later
            ≡ returned internal_error_response)
  answer-IsPublic json interval wakes w old seconds held good early =
      let contract = pg_repository-laws eq p laws in
      let source = node_source c s r p client in
      let repo = node_repository c s r p client in
      let (nodes, holds, storable) =
        run-HoldsGood source repo (Holds eq p laws) contract (All (IsStorable c s)) interval wakes w
          (λ upstream given fetched _.
            let (records, _, same) = fetched_records c s r p client upstream given fetched in
            subst (All (IsStorable c s)) (sym same)
              (accepted-IsStorable c s r p client json records))
          (old, held, good) in
      elim (respond-nodes axum tower c repo (Holds eq p laws) contract seconds _ nodes early
        holds) [
          | inl e ↦ inl (map (from_node c) nodes, from_node-IsPublic nodes storable, e)
          | inr e ↦ inr e
        ]
