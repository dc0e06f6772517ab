-- ===== src/Http/Json.antt =====
-- src/http/response.rs and src/http/handlers.rs, the JSON of the bodies: the names that
-- `derive(Serialize)` gives to the fields. Every value in a body of this API is a string, so an object
-- is a list of names and strings. serde_json's writer is a parameter.
pub mod Client
pub mod Schema
use bipa_coding_challenge.Common.{◌≡◌, Option, none, some, Text, List, [], ◌∷◌, codes, map}
use bipa_coding_challenge.Http.Response.{
  NodeResponse, ErrorBody, Body, node_list, health_ok, error_body, no_body, HttpResponse,
}

abbrev pub Object : Type 0
Object = List (Text × Text)

pub data Json : Type 0 where
  object : Object → Json
  array : List Object → Json

unfoldable pub node_object : NodeResponse → Object
node_object n =
    (codes "public_key", n.public_key)
    ∷ (codes "alias", n.alias)
    ∷ (codes "capacity", n.capacity)
    ∷ (codes "first_seen", n.first_seen)
    ∷ []

unfoldable pub error_object : ErrorBody → Object
error_object e = (codes "error", e.error) ∷ []

-- json!({ "status": "ok" })
abbrev pub health_object : Object
health_object = (codes "status", codes "ok") ∷ []

unfoldable pub to_json : Body → Option Json
unfolding node_object error_object
to_json (node_list nodes) = some (array (map node_object nodes))
to_json health_ok = some (object health_object)
to_json (error_body e) = some (object (error_object e))
to_json no_body = none

-- `serde_json::to_vec` and `serde_json::from_slice`, which reads back what was written.
pub record SerdeWriter : Type 0 where
  pub write : Json → Text
  pub read : Text → Option Json
  pub read-write : (json : Json) → read (write json) ≡ some json

-- The text of a response's body.
unfoldable pub body_text : SerdeWriter → HttpResponse → Text
unfolding to_json
body_text s response = elim (to_json response.body) [ some json ↦ s.write json | none ↦ [] ]

-- `Content-Type`: what axum's `Json` sets, on the bodies that are JSON.
unfoldable pub content_type : Text → HttpResponse → Option Text
unfolding to_json
content_type json_type response = elim (to_json response.body) [
  | some json ↦ some json_type
  | none ↦ none
]
