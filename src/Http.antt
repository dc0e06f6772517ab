-- ===== src/Http.antt =====
-- src/http: the router of `GET /nodes` and `GET /health`, its handlers and layers. axum's dispatch
-- and tower-http's layers are parameters, with what they document.
pub mod Response
pub mod Json
pub mod Handlers
pub mod Router
