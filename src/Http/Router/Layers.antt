-- ===== src/Http/Router/Layers.antt =====
-- What the layers of the router make of a handler's outcome.
use bipa_coding_challenge.Common.{ℕ, ◌<◌, ◌≡◌, ◌⊎◌, inl, inr, Call, returned, panicked}
use bipa_coding_challenge.Http.Response.{HttpResponse, no_body, internal_error_response}
use bipa_coding_challenge.Http.Router.{TowerHttp, request_timeout, on_panic, layered}

abbrev pub timeout_response : HttpResponse
timeout_response = record { status = 408; body = no_body }

-- The response that the layers make of a handler's outcome.
abbrev pub caught : Call HttpResponse → HttpResponse
caught (returned r) = r
caught (panicked m) = internal_error_response

module _ (tower : TowerHttp) where
  pub layered-early :
      (call : Call HttpResponse) (t : ℕ)
      → t < request_timeout
      → (layered tower (call, t)).0 ≡ returned (caught call)
  unfolding layered
  layered-early (returned r) t h = rw (
    tower.catch_panic-returned on_panic r t,
    tower.timeout-early 408 request_timeout t (returned r) h,
    tower.trace-same (returned r, t),
    layered,
  )
  layered-early (panicked m) t h = rw (
    tower.catch_panic-panicked on_panic m t,
    tower.timeout-early 408 request_timeout t (returned (on_panic m)) h,
    tower.trace-same (returned (on_panic m), t),
    layered,
  )

  timed :
      (t : ℕ) (r : HttpResponse)
      → ((tower.trace (tower.timeout 408 request_timeout (returned r, t))).0 ≡ returned r)
        ⊎ ((tower.trace (tower.timeout 408 request_timeout (returned r, t))).0
            ≡ returned timeout_response)
  timed t r = elim (tower.timeout-either 408 request_timeout t (returned r)) [
    | inl e ↦ inl (rw (e, tower.trace-same (returned r, t)))
    | inr e ↦ inr (rw (e, tower.trace-same (returned timeout_response, request_timeout)))
  ]

  pub layered-either :
      (call : Call HttpResponse) (t : ℕ)
      → ((layered tower (call, t)).0 ≡ returned (caught call))
        ⊎ ((layered tower (call, t)).0 ≡ returned timeout_response)
  unfolding layered
  layered-either (returned r) t = rw (tower.catch_panic-returned on_panic r t, layered) (timed t r)
  layered-either (panicked m) t =
      rw (tower.catch_panic-panicked on_panic m t, layered) (timed t internal_error_response)
