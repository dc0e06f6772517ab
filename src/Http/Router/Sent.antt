-- ===== src/Http/Router/Sent.antt =====
-- What a client is sent: the response of the layers, without its body where the request was HEAD.
use bipa_coding_challenge.Common.{
  ℕ, ◌≤◌, ◌<◌, ◌≡◌, refl, ap, ◌⊎◌, inl, inr, Text, Option-cases, returned, arith,
}
use bipa_coding_challenge.Domain.Time.{Chrono}
use bipa_coding_challenge.Storage.{NodeRepository}
use bipa_coding_challenge.Http.Response.{HttpResponse, no_body}
use bipa_coding_challenge.Http.Router.Layers.{
  caught, timeout_response, layered-early, layered-either,
}
use bipa_coding_challenge.Http.Router.{
  Method, get, head, other, Request, routes, find_route, Axum, TowerHttp, request_timeout, sent_as,
  handle, respond,
}

-- The request is not one whose success axum may send otherwise.
abbrev pub Sendable : Method → HttpResponse → Type 0
Sendable get r = Unit
Sendable head r = Unit
Sendable (other verb) r = 300 ≤ r.status

module _ (axum : Axum) where
  -- A response is sent whole, or without its body to a HEAD request.
  pub sent-cases :
      (m : Method) (r : HttpResponse)
      → Sendable m r
      → (axum.sent m r ≡ r) ⊎ ((m ≡ head) × (axum.sent m r ≡ record r { body = no_body }))
  sent-cases get r fits = inl (axum.sent-get r)
  sent-cases head r fits = inr (refl, axum.sent-head r)
  sent-cases (other verb) r fits = inl (axum.sent-other verb r fits)

module _ (axum : Axum) (tower : TowerHttp) (c : Chrono) (repo : NodeRepository c.Instant)
    (request : Request) (seconds : ℕ) (state : repo.State) where
  -- The response of the handler, or the generic 500 where it panicked.
  abbrev pub made : HttpResponse
  made =
      caught (handle axum tower c repo (axum.dispatch routes request.method request.path) state).0

  -- A client is sent the handler's response, or the timeout's.
  pub respond-either :
      let response = (respond axum tower c repo request seconds state).0 in
      (response ≡ returned (axum.sent request.method made))
      ⊎ (response ≡ returned (axum.sent request.method timeout_response))
  unfolding respond
  respond-either = elim (layered-either tower (handle axum tower c repo _ state).0 seconds) [
    | inl e ↦ inl (ap (sent_as axum request.method) e)
    | inr e ↦ inr (ap (sent_as axum request.method) e)
  ]

  pub respond-in_time :
      seconds < request_timeout
      → (respond axum tower c repo request seconds state).0
        ≡ returned (axum.sent request.method made)
  unfolding respond
  respond-in_time h =
      ap (sent_as axum request.method)
        (layered-early tower (handle axum tower c repo _ state).0 seconds h)

module _ (axum : Axum) (tower : TowerHttp) (c : Chrono) (repo : NodeRepository c.Instant)
    (state : repo.State) where
  other_refused :
      (verb path : Text)
      → 300
        ≤ (caught
            (handle axum tower c repo (axum.dispatch routes (other verb) path) state).0).status
  unfolding handle
  other_refused verb path = elim (Option-cases (find_route path routes)) [
    | inr (e, found) ↦
        rw (axum.dispatch-other routes verb path e found) (omega (arith, axum.wrong_method_status))
    | inl missing ↦ rw (axum.dispatch-missing routes (other verb) path missing) (omega arith)
  ]

  -- Of other methods than GET and HEAD no request succeeds.
  pub made-Sendable :
      (method : Method) (path : Text)
      → Sendable method
          (caught (handle axum tower c repo (axum.dispatch routes method path) state).0)
  made-Sendable get path = tt
  made-Sendable head path = tt
  made-Sendable (other verb) path = other_refused verb path

pub timeout-Sendable : (method : Method) → Sendable method timeout_response
timeout-Sendable get = tt
timeout-Sendable head = tt
timeout-Sendable (other verb) = omega arith
