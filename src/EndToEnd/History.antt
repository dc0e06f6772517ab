-- ===== src/EndToEnd/History.antt =====
-- The service as a register that holds one snapshot: what a list of imports and requests shows to the
-- clients, and the abstract register that explains it.
use bipa_coding_challenge.Common.{
  ℕ, ◌≤◌, lt_or_le, arith, refl, sym, subst, ◌∙◌, ◌≡◌, ◌≢◌, ap, ◌⊎◌, inl, inr, List, [], ◌∷◌, codes,
  map, filter_map, Call, returned,
}
use bipa_coding_challenge.Domain.{Node}
use bipa_coding_challenge.Domain.Time.{Chrono}
use bipa_coding_challenge.Source.Dto.{SerdeJson}
use bipa_coding_challenge.Source.Dto.Records.{accepted}
use bipa_coding_challenge.Source.Mempool.{Reqwest, MempoolClient}
use bipa_coding_challenge.Source.Mempool.Fetch.{Delivers}
use bipa_coding_challenge.Storage.Postgres.{Postgres, PostgresLaws, pg_repository}
use bipa_coding_challenge.Storage.Postgres.Repository.{Holds, pg_repository-laws}
use bipa_coding_challenge.Importer.RunOnce.{run_once-Holds}
use bipa_coding_challenge.Http.Response.{HttpResponse, no_body, internal_error_response, from_node}
use bipa_coding_challenge.Http.Handlers.{health, not_found, list_nodes}
use bipa_coding_challenge.Http.Router.{
  get, head, Request, nodes_endpoint, health_endpoint, routes, Dispatch, matched, no_route,
  wrong_method, Axum, TowerHttp, request_timeout, handle, respond,
}
use bipa_coding_challenge.Http.Router.Layers.{caught, timeout_response}
use bipa_coding_challenge.Http.Router.Sent.{
  Sendable, sent-cases, made-Sendable, timeout-Sendable, respond-either, respond-in_time,
}
use bipa_coding_challenge.Http.Router.Safety.{answered-Holds, respond-read_only}
use bipa_coding_challenge.EndToEnd.{node_source, node_repository, Outside, import_once, answer}
use bipa_coding_challenge.EndToEnd.Import.{fetched_records}
use bipa_coding_challenge.EndToEnd.Served.{get_nodes, nodes_response}

abbrev pub get_health : Request
get_health = record { method = get; path = codes "/health" }

-- An import of the loop, or a request whose handler takes so many seconds.
pub data Event : Type 0 where
  import_event : Event
  request_event : Request → ℕ → Event

module _ (c : Chrono) (s : SerdeJson) (r : Reqwest) (p : Postgres c.Instant)
    (client : MempoolClient r) where
  -- The public form of the acceptable records of an array that the network delivers, at least one.
  abbrev pub IsDelivered : List (Node c.Instant) → Type 0
  IsDelivered nodes =
      (nodes ≢ [])
      × (network : r.Network) × (records : List s.Value) × Delivers r c s client network records
      × (nodes ≡ filter_map (accepted c s) records)

  -- What the answer to a request has to do with the snapshot: it lists exactly the snapshot, or is the
  -- generic 500; or the handler was too slow; or the request was none for the nodes, and the answer
  -- is that of `GET /health` or no 200. The answer to HEAD is such a one without its body.
  pub data Fits (snapshot : List (Node c.Instant)) (request : Request) (seconds : ℕ)
      : Call HttpResponse → Type 0 where
    listed :
        {given : Call HttpResponse}
        → given ≡ returned (nodes_response (map (from_node c) snapshot))
        → Fits snapshot request seconds given
    failed :
        {given : Call HttpResponse}
        → given ≡ returned internal_error_response
        → Fits snapshot request seconds given
    late :
        {given : Call HttpResponse}
        → request_timeout ≤ seconds
        → given ≡ returned timeout_response
        → Fits snapshot request seconds given
    elsewhere :
        {given : Call HttpResponse} (response : HttpResponse)
        → request ≢ get_nodes
        → given ≡ returned response
        → (response ≡ health) ⊎ (response.status ≢ 200)
        → Fits snapshot request seconds given
    bodyless :
        {given : Call HttpResponse} (full : HttpResponse)
        → request.method ≡ head
        → Fits snapshot request seconds (returned full)
        → given ≡ returned (record full { body = no_body })
        → Fits snapshot request seconds given

  -- The register: an import keeps the snapshot or puts a delivered one in its place, a request only
  -- reads it.
  pub data Explained : List (Node c.Instant) → List Event → List (Call HttpResponse) → Type 0 where
    over : {snapshot : List (Node c.Instant)} → Explained snapshot [] []
    kept :
        {snapshot : List (Node c.Instant)} {events : List Event} {given : List (Call HttpResponse)}
        → Explained snapshot events given
        → Explained snapshot (import_event ∷ events) given
    imported :
        {snapshot : List (Node c.Instant)} {events : List Event} {given : List (Call HttpResponse)}
        (nodes : List (Node c.Instant))
        → IsDelivered nodes
        → Explained nodes events given
        → Explained snapshot (import_event ∷ events) given
    answered :
        {snapshot : List (Node c.Instant)} {events : List Event} {given : List (Call HttpResponse)}
        (request : Request) (seconds : ℕ) (a : Call HttpResponse)
        → Fits snapshot request seconds a
        → Explained snapshot events given
        → Explained snapshot (request_event request seconds ∷ events) (a ∷ given)

  module _ (axum : Axum) (tower : TowerHttp) where
    -- The responses to the requests among the events.
    unfoldable pub responses : List Event → Outside c s r p client → List (Call HttpResponse)
    responses [] w = []
    responses (import_event ∷ events) w = responses events (import_once c s r p client w).1
    responses (request_event request seconds ∷ events) w =
        answer c s r p client axum tower request seconds w
        ∷ responses events (record w {
          store = (respond axum tower c (node_repository c s r p client) request seconds w.store).1;
        })

    module _ (eq : Discrete c.Instant) (laws : PostgresLaws p) where
      not_get_nodes :
          (request : Request) (d : Dispatch)
          → axum.dispatch routes request.method request.path ≡ d
          → d ≢ matched nodes_endpoint
          → request ≢ get_nodes
      not_get_nodes request d e other same = other (
          sym e
          ∙ ap (λ q. axum.dispatch routes q.method q.path) same
          ∙ axum.dispatch-get routes (codes "/nodes") nodes_endpoint refl)

      handle-Fits :
          (request : Request) (seconds : ℕ) (db : p.Db) (snapshot : List (Node c.Instant))
          (d : Dispatch)
          → axum.dispatch routes request.method request.path ≡ d
          → Holds eq p laws db snapshot
          → Fits snapshot request seconds
              (returned (caught (handle axum tower c (pg_repository p) d db).0))
      unfolding handle list_nodes
      handle-Fits request seconds db snapshot (matched nodes_endpoint) e held =
          elim (answered-Holds axum tower c (pg_repository p) (Holds eq p laws)
            (pg_repository-laws eq p laws) db snapshot held) [
              | inl same ↦ listed (ap returned same)
              | inr same ↦ failed (ap returned same)
            ]
      handle-Fits request seconds db snapshot (matched health_endpoint) e held =
          elsewhere health (not_get_nodes request _ e (λ same. cc)) refl (inl refl)
      handle-Fits request seconds db snapshot no_route e held =
          elsewhere not_found (not_get_nodes request _ e (λ same. cc)) refl
            (inr (λ same. omega arith))
      handle-Fits request seconds db snapshot wrong_method e held =
          elsewhere axum.wrong_method_response (not_get_nodes request _ e (λ same. cc)) refl
            (inr (λ same. omega (arith, axum.wrong_method_status)))

      sent-Fits :
          (request : Request) (seconds : ℕ) (snapshot : List (Node c.Instant)) (full : HttpResponse)
          → Sendable request.method full
          → Fits snapshot request seconds (returned full)
          → Fits snapshot request seconds (returned (axum.sent request.method full))
      sent-Fits request seconds snapshot full sendable fits =
          elim (sent-cases axum request.method full sendable) [
            | inl same ↦ subst (λ x. Fits snapshot request seconds (returned x)) (sym same) fits
            | inr (of_head, same) ↦ bodyless full of_head fits (ap returned same)
          ]

      pub answer-Fits :
          (request : Request) (seconds : ℕ) (w : Outside c s r p client)
          (snapshot : List (Node c.Instant))
          → Holds eq p laws w.store snapshot
          → Fits snapshot request seconds (answer c s r p client axum tower request seconds w)
      answer-Fits request seconds w snapshot held =
          let repo = pg_repository p in
          let d = axum.dispatch routes request.method request.path in
          let handled =
            sent-Fits request seconds snapshot _
              (made-Sendable axum tower c repo w.store request.method request.path)
              (handle-Fits request seconds w.store snapshot d refl held) in
          elim (lt_or_le seconds request_timeout) [
            | inl early ↦
                subst (Fits snapshot request seconds)
                  (sym (respond-in_time axum tower c repo request seconds w.store early)) handled
            | inr slow ↦ elim (respond-either axum tower c repo request seconds w.store) [
              | inl same ↦ subst (Fits snapshot request seconds) (sym same) handled
              | inr same ↦ subst (Fits snapshot request seconds) (sym same) (
                  sent-Fits request seconds snapshot timeout_response
                    (timeout-Sendable request.method) (late slow refl))
            ]
          ]

      -- From a table that holds a snapshot, the responses of any history of imports and requests are
      -- explained by a register that holds one snapshot: every request is answered, and
      -- `GET /nodes` in time by the snapshot of its time or the generic 500; an import keeps the snapshot or replaces it
      -- by the acceptable records, at least one, of an array that the network delivered.
      pub responses-Explained :
          (events : List Event) (w : Outside c s r p client) (snapshot : List (Node c.Instant))
          → Holds eq p laws w.store snapshot
          → Explained snapshot events (responses events w)
      unfolding responses
      responses-Explained [] w snapshot held = over
      responses-Explained (import_event ∷ events) w snapshot held =
          let contract = pg_repository-laws eq p laws in
          let source = node_source c s r p client in
          let later = (import_once c s r p client w).1 in
          elim (run_once-Holds source (node_repository c s r p client) (Holds eq p laws) contract w
            snapshot held) [
              | inl same ↦ kept (responses-Explained events later snapshot same)
              | inr (nodes, fetched, some_node, new) ↦
                  let (records, delivers, e) =
                    fetched_records c s r p client w.upstream nodes fetched in
                  imported nodes (some_node, w.upstream, records, delivers, e)
                    (responses-Explained events later nodes new)
            ]
      responses-Explained (request_event request seconds ∷ events) w snapshot held =
          answered request seconds _ (answer-Fits request seconds w snapshot held) (
            responses-Explained events _ snapshot (
              respond-read_only axum tower c (node_repository c s r p client) (Holds eq p laws)
                (pg_repository-laws eq p laws) request seconds w.store snapshot held))
