-- ===== src/UnitTests/Response.antt =====
-- The unit tests of src/http/response.rs and src/http/error.rs.
use bipa_coding_challenge.Common.{◌≡◌, refl, Text, [], ◌∷◌, codes}
use bipa_coding_challenge.Common.Int.{ℤ, pos}
use bipa_coding_challenge.Domain.Format.{format_btc}
use bipa_coding_challenge.Domain.Time.{Chrono, format_timestamp}
use bipa_coding_challenge.Storage.{database, other}
use bipa_coding_challenge.Http.Response.{storage, into_response, from_node}
use bipa_coding_challenge.Http.Json.{SerdeWriter, node_object, body_text}
use bipa_coding_challenge.TestSupport.{node}
use bipa_coding_challenge.Tests.Writer.{compact_writer}
use bipa_coding_challenge.UnitTests.Calendar.{calendar, print}

abbrev acinq_key : Text
acinq_key = codes "03864ef025fde8fb587d989186ce6a4a186895ee44a926bfc370e2c366597a3f8f"

module _ (c : Chrono) (unwrapped : ℤ → c.Instant) where
  abbrev FormatsChallengeExampleAcinq : Type 0
  FormatsChallengeExampleAcinq =
      let acinq =
        node c.Instant unwrapped acinq_key (codes "ACINQ") 36_010_516_297 (pos 1_522_941_222) in
      from_node c acinq ≡ (record {
        public_key = acinq_key;
        alias = codes "ACINQ";
        capacity = codes "360.10516297";
        first_seen = codes "2018-04-05T15:13:42Z";
      })

  abbrev FormatsChallengeExampleWalletOfSatoshi : Type 0
  FormatsChallengeExampleWalletOfSatoshi =
      let wos =
        node c.Instant unwrapped (codes "035e") (codes "WalletOfSatoshi.com") 15_464_503_162
          (pos 1_601_429_940) in
      ((from_node c wos).capacity ≡ codes "154.64503162")
      × ((from_node c wos).first_seen ≡ codes "2020-09-30T01:39:00Z")

  abbrev SerializesWithSnakeCaseFieldNames : Type 0
  SerializesWithSnakeCaseFieldNames =
      node_object (from_node c (node c.Instant unwrapped (codes "k") (codes "a") 1 (pos 0)))
      ≡ (codes "public_key", codes "k")
        ∷ (codes "alias", codes "a")
        ∷ (codes "capacity", codes "0.00000001")
        ∷ (codes "first_seen", codes "1970-01-01T00:00:00Z")
        ∷ []

nodes_pass :
    FormatsChallengeExampleAcinq calendar (λ t. t)
    × FormatsChallengeExampleWalletOfSatoshi calendar (λ t. t)
    × SerializesWithSnakeCaseFieldNames calendar (λ t. t)
unfolding from_node format_btc format_timestamp print node_object
nodes_pass = (refl, (refl, refl), refl)

abbrev StorageErrorBecomesGeneric500 : SerdeWriter → Type 0
StorageErrorBecomesGeneric500 s =
    let response =
      (into_response (storage (database (other (codes "secret internal detail"))))).0 in
    (response.status ≡ 500) × (body_text s response ≡ codes "{\"error\":\"internal server error\"}")

errors_pass : StorageErrorBecomesGeneric500 compact_writer
unfolding into_response body_text
errors_pass = (refl, refl)
