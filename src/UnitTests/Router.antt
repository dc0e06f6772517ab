-- ===== src/UnitTests/Router.antt =====
-- The unit tests of src/http/mod.rs, over the fake repository. The responses come within the limit.
use Prim.Native.String.{String}
use bipa_coding_challenge.Common.{
  ℕ, ◌≡◌, refl, ltb, ◌==◌, Bool, true, false, Option, none, some, Text, List, [], ◌∷◌, ◌++◌, All,
  map, codes, text_eq, if◌then◌else◌, Call, returned, panicked,
}
use bipa_coding_challenge.Common.Int.{ℤ, pos}
use bipa_coding_challenge.Domain.{Node}
use bipa_coding_challenge.Domain.Format.{format_btc}
use bipa_coding_challenge.Domain.Time.{Chrono, format_timestamp}
use bipa_coding_challenge.Http.Response.{HttpResponse, from_node}
use bipa_coding_challenge.Http.Json.{Object, array, SerdeWriter, body_text, content_type}
use bipa_coding_challenge.Http.Router.{Method, get, other, Request, Axum, TowerHttp, respond}
use bipa_coding_challenge.TestSupport.{
  node, FakeRepository, with_nodes, set_failing, set_panic_on_list, fake_list_nodes,
  fake_repository,
}
use bipa_coding_challenge.Tests.Writer.{compact_writer}
use bipa_coding_challenge.Tests.Outside.{table_axum, plain_tower}
use bipa_coding_challenge.UnitTests.Calendar.{calendar, print}

abbrev challenge_response : Text
challenge_response =
    codes "[{\"public_key\":\"03864ef025fde8fb587d989186ce6a4a186895ee44a926bfc370e2c366597a3f8f\","
    ++ (codes
          "\"alias\":\"ACINQ\",\"capacity\":\"360.10516297\",\"first_seen\":\"2018-04-05T15:13:42Z\"},"
        ++ (codes
              "{\"public_key\":\"035e4ff418fc8b5554c5d9eea66396c227bd429a3251c8cbc711002ba215bfc226\","
            ++ (codes "\"alias\":\"WalletOfSatoshi.com\",\"capacity\":\"154.64503162\","
                ++ codes "\"first_seen\":\"2020-09-30T01:39:00Z\"}]")))

abbrev internal_server_error : Text
internal_server_error = codes "{\"error\":\"internal server error\"}"

abbrev odd_alias : String
odd_alias = "DiamondHands💎🙌 \"quoted\" \\ | torq.co"

-- `object[name]`
abbrev pub value_of : Text → Object → Option Text
value_of name [] = none
value_of name ((key, value) ∷ members) =
    let rest = value_of name members in if text_eq key name then some value else rest

-- The keys of an object after `sort_unstable`.
abbrev text_ltb : Text → Text → Bool
text_ltb s [] = false
text_ltb [] (_ ∷ _) = true
text_ltb (c ∷ s) (d ∷ t) = let later = text_ltb s t in if c == d then later else ltb c d

abbrev insert : Text → List Text → List Text
insert key [] = key ∷ []
insert key (k ∷ keys) =
    let later = insert key keys in if text_ltb k key then k ∷ later else key ∷ k ∷ keys

abbrev sorted_keys : Object → List Text
sorted_keys [] = []
sorted_keys ((key, _) ∷ members) = insert key (sorted_keys members)

-- `json_type` is the content type that axum's `Json` sets.
module _ (axum : Axum) (tower : TowerHttp) (c : Chrono) (s : SerdeWriter) (json_type : Text)
    (unwrapped : ℤ → c.Instant) where
  -- The status, the content type and the body; `none` where no response is returned.
  abbrev parts : Call HttpResponse → Option (ℕ × Option Text × Text)
  parts (returned r) = some (r.status, content_type json_type r, body_text s r)
  parts (panicked m) = none

  abbrev request : Method → String → Request
  request method uri = record { method = method; path = codes uri }

  abbrev send : FakeRepository c.Instant → Method → String → Option (ℕ × Option Text × Text)
  send repo method uri =
      parts (respond axum tower c (fake_repository c.Instant) (request method uri) 0 repo).0

  -- The body is the text of an array of objects of which something holds.
  abbrev Lists : FakeRepository c.Instant → (List Object → Type 0) → Type 0
  Lists repo P =
      (status : ℕ) × (type : Option Text) × (body : Text) × (objects : List Object) × (send repo get
          "/nodes"
        ≡ some (status, type, body))
      × (s.read body ≡ some (array objects))
      × P objects

  abbrev sample : String → String → ℕ → ℤ → Node c.Instant
  sample key alias = node c.Instant unwrapped (codes key) (codes alias)

  abbrev challenge_nodes : List (Node c.Instant)
  challenge_nodes =
      sample "03864ef025fde8fb587d989186ce6a4a186895ee44a926bfc370e2c366597a3f8f" "ACINQ"
        36_010_516_297 (pos 1_522_941_222)
      ∷ sample "035e4ff418fc8b5554c5d9eea66396c227bd429a3251c8cbc711002ba215bfc226"
          "WalletOfSatoshi.com" 15_464_503_162 (pos 1_601_429_940)
      ∷ []

  abbrev default_repository : FakeRepository c.Instant
  default_repository = with_nodes c.Instant []

  abbrev challenge_repository : FakeRepository c.Instant
  challenge_repository = with_nodes c.Instant challenge_nodes

  abbrev failing_repository : FakeRepository c.Instant
  failing_repository = set_failing c.Instant true default_repository

  abbrev NodesReturnsChallengeExample : Type 0
  NodesReturnsChallengeExample =
      send challenge_repository get "/nodes"
      ≡ some (200, some (codes "application/json"), challenge_response)

  abbrev NodesIsEmptyArrayBeforeFirstImport : Type 0
  NodesIsEmptyArrayBeforeFirstImport =
      (type : Option Text) × (send default_repository get "/nodes" ≡ some (200, type, codes "[]"))

  abbrev NodesObjectsHaveExactlyThePublicFields : Type 0
  NodesObjectsHaveExactlyThePublicFields = Lists challenge_repository (
      All λ o.
        sorted_keys o
        ≡ codes "alias" ∷ codes "capacity" ∷ codes "first_seen" ∷ codes "public_key" ∷ [])

  abbrev NodesPreservesRepositoryOrder : Type 0
  NodesPreservesRepositoryOrder =
      Lists
        (with_nodes c.Instant
          (sample "z" "Z" 1 (pos 0) ∷ sample "a" "A" 2 (pos 0) ∷ sample "m" "M" 3 (pos 0) ∷ []))
        λ objects.
          map (value_of (codes "public_key")) objects
          ≡ some (codes "z") ∷ some (codes "a") ∷ some (codes "m") ∷ []

  abbrev NodesEscapesButKeepsAliasUnchanged : Type 0
  NodesEscapesButKeepsAliasUnchanged =
      Lists (with_nodes c.Instant (sample "k" odd_alias 1 (pos 0) ∷ []))
        λ objects. map (value_of (codes "alias")) objects ≡ some (codes odd_alias) ∷ []

  abbrev NodesDatabaseFailureIsGeneric500 : Type 0
  NodesDatabaseFailureIsGeneric500 =
      send failing_repository get "/nodes"
      ≡ some (500, some (codes "application/json"), internal_server_error)

  -- The second request finds the repository as the first one left it.
  abbrev PanicInHandlerIs500AndServerKeepsServing : Type 0
  PanicInHandlerIs500AndServerKeepsServing =
      let panicking = set_panic_on_list c.Instant true challenge_repository in
      let later =
        (respond axum tower c (fake_repository c.Instant) (request get "/nodes") 0 panicking).1 in
      (type : Option Text) × (again : Option Text) × (send panicking get "/nodes"
        ≡ some (500, type, internal_server_error))
      × (send (set_panic_on_list c.Instant false later) get "/nodes"
          ≡ some (200, again, challenge_response))

  abbrev HealthIsOkWithoutTouchingTheDatabase : Type 0
  HealthIsOkWithoutTouchingTheDatabase =
      (type : Option Text) × (send failing_repository get "/health"
        ≡ some (200, type, codes "{\"status\":\"ok\"}"))

  abbrev UnknownRouteIsJson404 : Type 0
  UnknownRouteIsJson404 =
      send default_repository get "/does-not-exist"
      ≡ some (404, some (codes "application/json"), codes "{\"error\":\"not found\"}")

  abbrev WrongMethodIs405 : Type 0
  WrongMethodIs405 =
      (type : Option Text) × (body : Text) × (send default_repository (other (codes "POST"))
          "/nodes"
        ≡ some (405, type, body))

-- The predicate of a test, at concrete functions for the code outside.
abbrev Passes :
    (Axum → TowerHttp → (c : Chrono) → SerdeWriter → Text → (ℤ → c.Instant) → Type 0) → Type 0
Passes test = test table_axum plain_tower calendar compact_writer (codes "application/json") λ t. t

nodes_pass :
    Passes NodesReturnsChallengeExample
    × Passes NodesIsEmptyArrayBeforeFirstImport
    × Passes NodesObjectsHaveExactlyThePublicFields
    × Passes NodesPreservesRepositoryOrder
    × Passes NodesEscapesButKeepsAliasUnchanged
unfolding respond fake_list_nodes from_node format_btc format_timestamp print body_text content_type
nodes_pass = (
  refl,
  (_, refl),
  (_, _, _, _, refl, refl, (refl, (refl, tt))),
  (_, _, _, _, refl, refl, refl),
  (_, _, _, _, refl, refl, refl),
)

errors_pass :
    Passes NodesDatabaseFailureIsGeneric500
    × Passes PanicInHandlerIs500AndServerKeepsServing
    × Passes HealthIsOkWithoutTouchingTheDatabase
    × Passes UnknownRouteIsJson404
    × Passes WrongMethodIs405
unfolding respond fake_list_nodes from_node format_btc format_timestamp print body_text content_type
errors_pass = (refl, (_, _, refl, refl), (_, refl), refl, (_, _, refl))
