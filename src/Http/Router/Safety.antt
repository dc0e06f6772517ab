-- ===== src/Http/Router/Safety.antt =====
-- What clients can rely on: every request is answered, failures say nothing of their cause, and
-- reading never changes the stored ranking.
use bipa_coding_challenge.Common.{
  ℕ, ◌<◌, ◌≡◌, refl, sym, ap, ◌∙◌, subst, ◌⊎◌, inl, inr, Text, List, codes, map, none, some, Result,
  Call, Call-cases, returned, panicked, arith,
}
use bipa_coding_challenge.Domain.{Node}
use bipa_coding_challenge.Domain.Time.{Chrono}
use bipa_coding_challenge.Storage.{StorageError, NodeRepository, RepositoryLaws}
use bipa_coding_challenge.Http.Response.{
  HttpResponse, node_list, internal_error_response, from_node,
}
use bipa_coding_challenge.Http.Handlers.{health, not_found, listed_response, answered, list_nodes}
use bipa_coding_challenge.Http.Router.Layers.{caught}
use bipa_coding_challenge.Http.Router.Sent.{respond-either, respond-in_time}
use bipa_coding_challenge.Http.Router.{
  get, other, Request, Endpoint, nodes_endpoint, health_endpoint, routes, find_route, Dispatch,
  matched, no_route, wrong_method, Axum, TowerHttp, request_timeout, handle, respond,
}

module _ (axum : Axum) (tower : TowerHttp) (c : Chrono) (repo : NodeRepository c.Instant) where
  -- Every request is answered, whatever the repository does and however long it takes: no error and no
  -- panic of a handler is without a response.
  pub respond-returns :
      (request : Request) (seconds : ℕ) (state : repo.State)
      → (response : HttpResponse) × ((respond axum tower c repo request seconds state).0
          ≡ returned response)
  respond-returns request seconds state =
      elim (respond-either axum tower c repo request seconds state) [
        | inl e ↦ (_, e)
        | inr e ↦ (_, e)
      ]

  -- A request whose handler answers within the limit gets the handler's response, or the generic 500
  -- where the handler panics, as it is sent for the request's method.
  respond-early :
      (request : Request) (seconds : ℕ) (state : repo.State) (d : Dispatch)
      → seconds < request_timeout
      → axum.dispatch routes request.method request.path ≡ d
      → respond axum tower c repo request seconds state ≡ (
        returned (axum.sent request.method (caught (handle axum tower c repo d state).0)),
        (handle axum tower c repo d state).1,
      )
  unfolding respond
  respond-early request seconds state d h e =
      rw e (ground (arith, respond-in_time axum tower c repo request seconds state h))

  -- `GET /health` answers 200 in the same way whatever the repository's state, and leaves it alone.
  pub respond-health :
      (seconds : ℕ) (state : repo.State)
      → seconds < request_timeout
      → respond axum tower c repo (record { method = get; path = codes "/health" }) seconds state
        ≡ (returned health, state)
  unfolding handle
  respond-health seconds state h =
      respond-early _ seconds state (matched health_endpoint) h
        (axum.dispatch-get routes (codes "/health") health_endpoint refl)
      ∙ ap (λ r. (returned r, state)) (axum.sent-get health)

  -- Within the time limit a path that is not in the table is answered 404 with the JSON error, for
  -- every method (without the body for HEAD), and the repository is not touched.
  pub respond-not_found :
      (request : Request) (seconds : ℕ) (state : repo.State)
      → seconds < request_timeout
      → find_route request.path routes ≡ none
      → respond axum tower c repo request seconds state
        ≡ (returned (axum.sent request.method not_found), state)
  unfolding handle
  respond-not_found request seconds state h missing =
      respond-early request seconds state no_route h
        (axum.dispatch-missing routes request.method request.path missing)

  -- Within the time limit another method than GET or HEAD on a path of the table is answered 405, and
  -- the repository is not touched.
  pub respond-wrong_method :
      (path verb : Text) (e : Endpoint) (seconds : ℕ) (state : repo.State)
      → seconds < request_timeout
      → find_route path routes ≡ some e
      → (response : HttpResponse) × (response.status ≡ 405)
        × (respond axum tower c repo (record { method = other verb; path = path }) seconds state
            ≡ (returned response, state))
  unfolding handle
  respond-wrong_method path verb e seconds state h found = (
    axum.wrong_method_response,
    axum.wrong_method_status,
    respond-early _ seconds state wrong_method h (axum.dispatch-other routes verb path e found)
        ∙ ap (λ r. (returned r, state))
            (axum.sent-other verb axum.wrong_method_response
              (omega (arith, axum.wrong_method_status))),
  )

  module _ (Holds : repo.State → List (Node c.Instant) → Type 0)
      {Lost : List (Node c.Instant) → repo.State → Type 0}
      (laws : RepositoryLaws repo Holds Lost) where
    pub answered-Holds :
        (state : repo.State) (nodes : List (Node c.Instant))
        → Holds state nodes
        → (caught (answered c repo (repo.list_nodes state)).0
            ≡ record { status = 200; body = node_list (map (from_node c) nodes) })
          ⊎ (caught (answered c repo (repo.list_nodes state)).0 ≡ internal_error_response)
    unfolding listed_response
    answered-Holds state nodes held = elim (Call-cases (repo.list_nodes state).0) [
      | inl (listed, e) ↦ inl (
          rw e (
            ap (λ ns. record { status = 200; body = node_list (map (from_node c) ns) })
              (laws.listed nodes listed state held e)))
      | inr (inl (e, failed)) ↦ inr (rw failed)
      | inr (inr (m, panic)) ↦ inr (rw panic)
    ]

    answered-store :
        (x : Call (Result (List (Node c.Instant)) StorageError) × repo.State)
        → (answered c repo x).1 ≡ x.1
    answered-store (returned r, later) = refl
    answered-store (panicked m, later) = refl

    handle-Holds :
        (d : Dispatch) (state : repo.State) (nodes : List (Node c.Instant))
        → Holds state nodes
        → Holds (handle axum tower c repo d state).1 nodes
    unfolding handle list_nodes
    handle-Holds (matched nodes_endpoint) state nodes held =
        subst (λ t. Holds t nodes) (sym (answered-store (repo.list_nodes state)))
          (laws.read_only nodes state held)
    handle-Holds (matched health_endpoint) state nodes held = held
    handle-Holds no_route state nodes held = held
    handle-Holds wrong_method state nodes held = held

    -- While the store holds a ranking, `GET /nodes` within the time limit answers either 200 with the
    -- public form of exactly the ranking's nodes, in ranking order, or the generic 500.
    pub respond-nodes :
        (seconds : ℕ) (state : repo.State) (nodes : List (Node c.Instant))
        → seconds < request_timeout
        → Holds state nodes
        → let answer =
            (respond axum tower c repo
              (record { method = get; path = codes "/nodes" })
              seconds
              state).0 in
          (answer ≡ returned (record { status = 200; body = node_list (map (from_node c) nodes) }))
          ⊎ (answer ≡ returned internal_error_response)
    unfolding handle list_nodes
    respond-nodes seconds state nodes h held =
        let early =
          respond-early (record { method = get; path = codes "/nodes" }) seconds state
            (matched nodes_endpoint) h
            (axum.dispatch-get routes (codes "/nodes") nodes_endpoint refl) in
        elim (answered-Holds state nodes held) [
          | inl e ↦ inl (ap (λ x. x.0) early ∙ ap returned (axum.sent-get _ ∙ e))
          | inr e ↦ inr (ap (λ x. x.0) early ∙ ap returned (axum.sent-get _ ∙ e))
        ]

    -- No request of any kind changes the ranking that the store holds.
    pub respond-read_only :
        (request : Request) (seconds : ℕ) (state : repo.State) (nodes : List (Node c.Instant))
        → Holds state nodes
        → Holds (respond axum tower c repo request seconds state).1 nodes
    unfolding respond
    respond-read_only request seconds state nodes held =
        handle-Holds (axum.dispatch routes request.method request.path) state nodes held
