-- ===== src/Http/Router.antt =====
-- src/http/mod.rs: the routing table, the layers and their order, and the response to a request.
pub mod Layers
pub mod Sent
pub mod Safety
use bipa_coding_challenge.Common.{
  ℕ, ◌≤◌, ◌<◌, ◌≡◌, ◌⊎◌, Text, List, [], ◌∷◌, codes, text_eq, if◌then◌else◌, Option, none, some,
  Call, returned, panicked,
}
use bipa_coding_challenge.Domain.Time.{Chrono}
use bipa_coding_challenge.Storage.{NodeRepository}
use bipa_coding_challenge.Http.Response.{HttpResponse, no_body, internal_error_response}
use bipa_coding_challenge.Http.Handlers.{health, not_found, list_nodes}

pub data Method : Type 0 where
  get head : Method
  other : Text → Method

pub record Request : Type 0 where
  pub method : Method
  pub path : Text

pub data Endpoint : Type 0 where
  nodes_endpoint health_endpoint : Endpoint

-- `.route("/nodes", get(…)).route("/health", get(…))`
abbrev pub routes : List (Text × Endpoint)
routes = (codes "/nodes", nodes_endpoint) ∷ (codes "/health", health_endpoint) ∷ []

abbrev pub find_route : Text → List (Text × Endpoint) → Option Endpoint
find_route path [] = none
find_route path ((p, e) ∷ table) = if text_eq p path then some e else find_route path table

pub data Dispatch : Type 0 where
  matched : Endpoint → Dispatch
  no_route wrong_method : Dispatch

-- How axum chooses, for a table of plain paths with a `get` handler each.
pub record Axum : Type 0 where
  pub dispatch : List (Text × Endpoint) → Method → Text → Dispatch
  pub wrong_method_response : HttpResponse
  pub dispatch-get :
      (table : List (Text × Endpoint)) (path : Text) (e : Endpoint)
      → find_route path table ≡ some e
      → dispatch table get path ≡ matched e
  pub dispatch-missing :
      (table : List (Text × Endpoint)) (m : Method) (path : Text)
      → find_route path table ≡ none
      → dispatch table m path ≡ no_route
  pub dispatch-other :
      (table : List (Text × Endpoint)) (verb path : Text) (e : Endpoint)
      → find_route path table ≡ some e
      → dispatch table (other verb) path ≡ wrong_method
  pub wrong_method_status : wrong_method_response.status ≡ 405
  -- What is sent of a response to a request of the method: the answer to a HEAD request loses its body;
  -- of other methods than GET only a success, as of CONNECT, may be sent otherwise.
  pub sent : Method → HttpResponse → HttpResponse
  pub sent-get : (r : HttpResponse) → sent get r ≡ r
  pub sent-head : (r : HttpResponse) → sent head r ≡ record r { body = no_body }
  pub sent-other : (verb : Text) (r : HttpResponse) → 300 ≤ r.status → sent (other verb) r ≡ r

-- What a service comes to, and after how many seconds.
abbrev pub Served : Type 0
Served = Call HttpResponse × ℕ

-- tower-http's layers.
pub record TowerHttp : Type 0 where
  -- `CatchPanicLayer::custom(f)`, `f` given the panic's message
  pub catch_panic : (Text → HttpResponse) → Served → Served
  -- `TimeoutLayer::with_status_code(code, limit)`
  pub timeout : ℕ → ℕ → Served → Served
  -- `TraceLayer::new_for_http()`
  pub trace : Served → Served
  pub catch_panic-returned :
      (f : Text → HttpResponse) (r : HttpResponse) (t : ℕ)
      → catch_panic f (returned r, t) ≡ (returned r, t)
  pub catch_panic-panicked :
      (f : Text → HttpResponse) (m : Text) (t : ℕ)
      → catch_panic f (panicked m, t) ≡ (returned (f m), t)
  pub timeout-early :
      (code limit t : ℕ) (r : Call HttpResponse) → t < limit → timeout code limit (r, t) ≡ (r, t)
  pub timeout-late :
      (code limit t : ℕ) (r : Call HttpResponse)
      → limit < t
      → timeout code limit (r, t) ≡ (returned (record { status = code; body = no_body }), limit)
  -- an answer just at the limit may be let through or not
  pub timeout-either :
      (code limit t : ℕ) (r : Call HttpResponse)
      → (timeout code limit (r, t) ≡ (r, t))
        ⊎ (timeout code limit (r, t) ≡ (returned (record { status = code; body = no_body }), limit))
  pub trace-same : (s : Served) → trace s ≡ s

-- in seconds
abbrev pub request_timeout : ℕ
request_timeout = 10

-- What a panic carries.
pub data Panic : Type 0 where
  string str : Text → Panic
  any : Panic

-- `panic_response`: the message that is logged, and the response.
unfoldable pub panic_message : Panic → Text
panic_message (string m) = m
panic_message (str m) = m
panic_message any = codes "unknown panic"

unfoldable pub panic_response : Panic → Text × HttpResponse
unfolding panic_message
panic_response panic = (panic_message panic, internal_error_response)

unfoldable pub on_panic : Text → HttpResponse
unfolding panic_response
on_panic m = (panic_response (string m)).1

-- The layers, the first one innermost.
unfoldable pub layered : TowerHttp → Served → Served
unfolding on_panic
layered tower served =
    tower.trace (tower.timeout 408 request_timeout (tower.catch_panic on_panic served))

-- What comes to the client of a service's outcome.
abbrev pub sent_as : Axum → Method → Call HttpResponse → Call HttpResponse
sent_as axum m (returned r) = returned (axum.sent m r)
sent_as axum m (panicked text) = panicked text

module _ (axum : Axum) (tower : TowerHttp) (c : Chrono) (repo : NodeRepository c.Instant) where
  -- The handler that a request is dispatched to. Its answer to HEAD loses its body only when it is sent.
  unfoldable pub handle : Dispatch → repo.State → Call HttpResponse × repo.State
  unfolding list_nodes
  handle (matched nodes_endpoint) state = list_nodes c repo state
  handle (matched health_endpoint) state = (returned health, state)
  handle no_route state = (returned not_found, state)
  handle wrong_method state = (returned axum.wrong_method_response, state)

  -- The response to a request, whose handler takes `seconds`, as it is sent.
  unfoldable pub respond : Request → ℕ → repo.State → Call HttpResponse × repo.State
  unfolding handle layered
  respond request seconds state =
      let handled = handle (axum.dispatch routes request.method request.path) state in
      (sent_as axum request.method (layered tower (handled.0, seconds)).0, handled.1)
