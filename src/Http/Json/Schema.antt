-- ===== src/Http/Json/Schema.antt =====
-- The schema of the API: which statuses a response can have, and the names in its JSON.
use bipa_coding_challenge.Common.{◌≤◌, ◌≡◌, some, none, Text, List, [], ◌∷◌, codes, map, All}
use bipa_coding_challenge.Http.Response.{HttpResponse}
use bipa_coding_challenge.Http.Router.{Method, get, head, other}
use bipa_coding_challenge.Http.Json.{Object, object, array, health_object, to_json}

abbrev pub names : Object → List Text
names o = map (λ m. m.0) o

abbrev pub node_names : List Text
node_names = codes "public_key" ∷ codes "alias" ∷ codes "capacity" ∷ codes "first_seen" ∷ []

-- The responses that the API has, before one to HEAD loses its body; the body of a 405 is axum's.
pub data IsFullResponse (r : HttpResponse) : Type 0 where
  nodes :
      (objects : List Object)
      → r.status ≡ 200
      → to_json r.body ≡ some (array objects)
      → All (λ o. names o ≡ node_names) objects
      → IsFullResponse r
  healthy : r.status ≡ 200 → to_json r.body ≡ some (object health_object) → IsFullResponse r
  missing :
      (message : Text)
      → r.status ≡ 404
      → to_json r.body ≡ some (object ((codes "error", message) ∷ []))
      → IsFullResponse r
  failed :
      r.status ≡ 500
      → to_json r.body ≡ some (object ((codes "error", codes "internal server error") ∷ []))
      → IsFullResponse r
  refused : r.status ≡ 405 → IsFullResponse r
  late : r.status ≡ 408 → to_json r.body ≡ none → IsFullResponse r

-- The responses that the API gives to a request of a method.
abbrev pub IsApiResponse : Method → HttpResponse → Type 0
IsApiResponse get r = IsFullResponse r
IsApiResponse head r =
    (full : HttpResponse) × IsFullResponse full × (r.status ≡ full.status) × (to_json r.body ≡ none)
IsApiResponse (other verb) r = IsFullResponse r × 300 ≤ r.status
