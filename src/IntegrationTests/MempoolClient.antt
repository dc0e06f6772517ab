-- ===== src/IntegrationTests/MempoolClient.antt =====
-- The integration tests of tests/mempool_client.rs. Not stated: that the timeout comes within three
-- seconds, and the test against the real mempool.space, which is ignored by default.
use bipa_coding_challenge.Common.{
  ℕ, ◌++◌, ◌≡◌, refl, Bool, true, Text, List, [], ◌∷◌, map, codes, text_eq, Result, ok, err,
}
use bipa_coding_challenge.Common.Int.{ℤ, pos}
use bipa_coding_challenge.Domain.{Node}
use bipa_coding_challenge.Domain.Time.{Chrono}
use bipa_coding_challenge.Source.{SourceError, request, status, decode}
use bipa_coding_challenge.Source.Dto.{SerdeJson, try_from, parse_record, parse_records}
use bipa_coding_challenge.Source.Mempool.{Reqwest, MempoolClient, new, nodes_of, fetch_nodes}
use bipa_coding_challenge.UnitTests.Calendar.{calendar}
use bipa_coding_challenge.UnitTests.Dto.Trees.{dto_from_value}
use bipa_coding_challenge.IntegrationTests.Reader.{read_array, text_json}
use bipa_coding_challenge.IntegrationTests.Fixture.{fixture, fixture_aliases, acinq_key}
use bipa_coding_challenge.IntegrationTests.Servers.{
  Template, json_body, template, mounted, nobody, rankings_path, uri, timed_out, wiremock_reqwest,
}

-- `respond` is the network in which the server at `base` answers with a template, `silent` that in which
-- nothing listens there.
module _ (c : Chrono) (s : SerdeJson) (r : Reqwest) (parse : Text → r.Url) (base : Text)
    (respond : Template → r.Network) (silent : r.Network) (timestamp : c.Instant → ℤ)
    (is_timeout : Text → Bool) where
  -- What is asserted of `client_for(base, timeout).fetch_nodes().await`.
  abbrev Fetches : ℕ → r.Network → (Result (List (Node c.Instant)) SourceError → Type 0) → Type 0
  Fetches timeout network P =
      (client : MempoolClient r) × (new r (parse (base ++ rankings_path)) timeout ≡ ok client)
      × P (nodes_of r c s (fetch_nodes r c s client network).0)

  abbrev FetchesAndValidatesFixtureInOrder : Type 0
  FetchesAndValidatesFixtureInOrder = Fetches 5 (respond (json_body fixture)) λ fetched.
      (acinq : Node c.Instant) × (more : List (Node c.Instant)) × (fetched ≡ ok (acinq ∷ more))
      × (map (λ n. n.alias) (acinq ∷ more) ≡ fixture_aliases)
      × (acinq.public_key ≡ acinq_key)
      × (acinq.capacity_sats ≡ 36_101_511_053)
      × (timestamp acinq.first_seen ≡ pos 1_522_941_222)

  abbrev EmptyArrayIsOkAndEmpty : Type 0
  EmptyArrayIsOkAndEmpty = Fetches 5 (respond (json_body (codes "[]"))) λ fetched. fetched ≡ ok []

  abbrev three_records : Text
  three_records =
      codes "[\n    {\"publicKey\": \"a\", \"alias\": \"ok\", \"capacity\": 1, \"firstSeen\": 0},\n"
      ++ (codes
            "    {\"publicKey\": \"b\", \"alias\": \"negative\", \"capacity\": -1, \"firstSeen\": 0},\n"
          ++ codes "    {\"publicKey\": \"c\", \"alias\": \"missing\"}\n]")

  abbrev InvalidRecordsAreSkipped : Type 0
  InvalidRecordsAreSkipped =
      Fetches 5 (respond (json_body three_records))
        λ fetched. (node : Node c.Instant) × (fetched ≡ ok (node ∷ [])) × (node.alias ≡ codes "ok")

  abbrev ServerErrorIsReportedAsStatus : Type 0
  ServerErrorIsReportedAsStatus =
      Fetches 5 (respond (template 500 (codes "<html>oops</html>")))
        λ fetched. fetched ≡ err (status 500)

  abbrev RateLimitIsReportedAsStatus : Type 0
  RateLimitIsReportedAsStatus =
      Fetches 5 (respond (template 429 (codes ""))) λ fetched. fetched ≡ err (status 429)

  abbrev SlowResponseTimesOut : Type 0
  SlowResponseTimesOut =
      Fetches 1 (respond (record { code = 200; body = fixture; delay = 10 }))
        λ fetched. (m : Text) × (fetched ≡ err (request m)) × (is_timeout m ≡ true)

  abbrev NonArrayJsonIsADecodeError : Type 0
  NonArrayJsonIsADecodeError =
      Fetches 5 (respond (json_body (codes "{\"not\": \"an array\"}")))
        λ fetched. (m : Text) × (fetched ≡ err (decode m))

  abbrev GarbageBodyIsADecodeError : Type 0
  GarbageBodyIsADecodeError =
      Fetches 5 (respond (json_body (codes "garbage")))
        λ fetched. (m : Text) × (fetched ≡ err (decode m))

  abbrev UnreachableServerIsARequestError : Type 0
  UnreachableServerIsARequestError =
      Fetches 5 silent λ fetched. (m : Text) × (fetched ≡ err (request m))

abbrev Passes :
    ((c : Chrono)
      → SerdeJson
      → (r : Reqwest) → (Text → r.Url)
      → Text
      → (Template → r.Network)
      → r.Network
      → (c.Instant → ℤ)
      → (Text → Bool)
      → Type 0)
    → Type 0
Passes test =
    test calendar text_json wiremock_reqwest (λ t. t) uri (λ t. mounted t) nobody (λ t. t)
      (λ m. text_eq m timed_out)

nodes_pass :
    Passes FetchesAndValidatesFixtureInOrder
    × Passes EmptyArrayIsOkAndEmpty
    × Passes InvalidRecordsAreSkipped
unfolding new fetch_nodes read_array parse_records parse_record try_from dto_from_value
nodes_pass =
    ((_, refl, (_, _, refl, refl, refl, refl, refl)), (_, refl, refl), (_, refl, (_, refl, refl)))

errors_pass :
    Passes ServerErrorIsReportedAsStatus
    × Passes RateLimitIsReportedAsStatus
    × Passes SlowResponseTimesOut
    × Passes NonArrayJsonIsADecodeError
    × Passes GarbageBodyIsADecodeError
    × Passes UnreachableServerIsARequestError
unfolding new fetch_nodes read_array
errors_pass = (
  (_, refl, refl),
  (_, refl, refl),
  (_, refl, (_, refl, refl)),
  (_, refl, (_, refl)),
  (_, refl, (_, refl)),
  (_, refl, (_, refl)),
)
