-- ===== src/UnitTests/Dto.antt =====
-- The unit tests of src/source/dto.rs. `json` stands for the values that `json!` builds.
pub mod Trees
mod Samples
use bipa_coding_challenge.Common.{◌-◌, ◌^◌, ◌≡◌, refl, Text, [], ◌∷◌, map, codes, ok, err}
use bipa_coding_challenge.Common.Int.{ℤ, pos, negsuc}
use bipa_coding_challenge.Domain.Time.{Chrono}
use bipa_coding_challenge.Domain.{Node}
use bipa_coding_challenge.Source.Dto.{
  MempoolNodeDto, empty_public_key, negative_capacity, invalid_first_seen, SerdeJson, try_from,
  parse_record, parse_records,
}
use bipa_coding_challenge.UnitTests.Calendar.{calendar}
use bipa_coding_challenge.UnitTests.Dto.Samples.{
  acinq_key, wos_key, challenge_example, mixed_records,
}
use bipa_coding_challenge.UnitTests.Dto.Trees.{
  Tree, null, number, text, array, object, no_item, item, members, tree_json, dto_from_value,
}

abbrev dto : Text → ℤ → ℤ → MempoolNodeDto
dto public_key capacity first_seen = record {
  public_key = public_key;
  alias = codes "alias";
  capacity = capacity;
  first_seen = first_seen;
}

module _ (s : SerdeJson) (json : Tree → s.Value) where
  abbrev ParsesChallengeExampleDtos : Type 0
  ParsesChallengeExampleDtos =
      map (λ v. s.from_value (json v)) challenge_example
      ≡ ok (record {
        public_key = acinq_key;
        alias = codes "ACINQ";
        capacity = pos 36_010_516_297;
        first_seen = pos 1_522_941_222;
      })
        ∷ ok (record {
          public_key = wos_key;
          alias = codes "WalletOfSatoshi.com";
          capacity = pos 15_464_503_162;
          first_seen = pos 1_601_429_940;
        })
        ∷ []

  abbrev IgnoresUnknownAndNullFields : Type 0
  IgnoresUnknownAndNullFields =
      (parsed : MempoolNodeDto) × (s.from_value (
          json (
            object (
              members (
                (codes "publicKey", text (codes "02ab"))
                ∷ (codes "alias", text (codes "x"))
                ∷ (codes "capacity", number (pos 1))
                ∷ (codes "firstSeen", number (pos 0))
                ∷ (codes "city", null)
                ∷ (codes "country", null)
                ∷ (codes "iso_code", null)
                ∷ (
                  codes "brandNewField",
                  array (
                      item (number (pos 1))
                        (item (number (pos 2)) (item (number (pos 3)) no_item))),
                )
                ∷ []))))
        ≡ ok parsed)

  abbrev FailsOnMissingRequiredField : Type 0
  FailsOnMissingRequiredField =
      (m : Text) × (s.from_value (
          json (
            object (
              members (
                (codes "publicKey", text (codes "02ab"))
                ∷ (codes "alias", text (codes "x"))
                ∷ (codes "firstSeen", number (pos 0))
                ∷ []))))
        ≡ err m)

  abbrev FailsOnWrongFieldType : Type 0
  FailsOnWrongFieldType =
      (m : Text) × (s.from_value (
          json (
            object (
              members (
                (codes "publicKey", text (codes "02ab"))
                ∷ (codes "alias", text (codes "x"))
                ∷ (codes "capacity", text (codes "1"))
                ∷ (codes "firstSeen", number (pos 0))
                ∷ []))))
        ≡ err m)

dtos_pass :
    ParsesChallengeExampleDtos tree_json (λ v. v)
    × IgnoresUnknownAndNullFields tree_json (λ v. v)
    × FailsOnMissingRequiredField tree_json (λ v. v)
    × FailsOnWrongFieldType tree_json (λ v. v)
unfolding dto_from_value
dtos_pass = (refl, (_, refl), (_, refl), (_, refl))

module _ (c : Chrono) where
  -- `timestamp` is chrono's.
  abbrev ConvertsValidDtoIntoNode : (c.Instant → ℤ) → Type 0
  ConvertsValidDtoIntoNode timestamp =
      (node : Node c.Instant) × (try_from c (dto acinq_key (pos 36_010_516_297) (pos 1_522_941_222))
        ≡ ok node)
      × (node.public_key ≡ acinq_key)
      × (node.alias ≡ codes "alias")
      × (node.capacity_sats ≡ 36_010_516_297)
      × (timestamp node.first_seen ≡ pos 1_522_941_222)

  abbrev AcceptsZeroCapacity : Type 0
  AcceptsZeroCapacity =
      (node : Node c.Instant) × (try_from c (dto (codes "02ab") (pos 0) (pos 0)) ≡ ok node)
      × (node.capacity_sats ≡ 0)

  abbrev RejectsNegativeCapacity : Type 0
  RejectsNegativeCapacity =
      try_from c (dto (codes "02ab") (negsuc 4) (pos 0)) ≡ err (negative_capacity (negsuc 4))

  -- `pos (2 ^ 63 - 1)` is `i64::MAX`.
  abbrev RejectsOutOfRangeFirstSeen : Type 0
  RejectsOutOfRangeFirstSeen =
      try_from c (dto (codes "02ab") (pos 1) (pos (2 ^ 63 - 1)))
      ≡ err (invalid_first_seen (pos (2 ^ 63 - 1)))

  abbrev RejectsEmptyPublicKey : Type 0
  RejectsEmptyPublicKey = try_from c (dto [] (pos 1) (pos 0)) ≡ err empty_public_key

conversions_pass :
    ConvertsValidDtoIntoNode calendar (λ t. t)
    × AcceptsZeroCapacity calendar
    × RejectsNegativeCapacity calendar
    × RejectsOutOfRangeFirstSeen calendar
    × RejectsEmptyPublicKey calendar
unfolding try_from
conversions_pass = ((_, refl, refl, refl, refl, refl), (_, refl, refl), refl, refl, refl)

module _ (c : Chrono) (s : SerdeJson) (json : Tree → s.Value) where
  abbrev ParseRecordsKeepsValidRecordsInOrder : Type 0
  ParseRecordsKeepsValidRecordsInOrder =
      map (λ n. n.public_key) (parse_records c s (map json challenge_example)).0
      ≡ acinq_key ∷ wos_key ∷ []

  abbrev ParseRecordsSkipsInvalidAndMalformedRecords : Type 0
  ParseRecordsSkipsInvalidAndMalformedRecords =
      map (λ n. n.alias) (parse_records c s (map json mixed_records)).0
      ≡ codes "ok-1" ∷ codes "ok-2" ∷ codes "ok-3" ∷ []

  abbrev ParseRecordsOfEmptyInputIsEmpty : Type 0
  ParseRecordsOfEmptyInputIsEmpty = (parse_records c s []).0 ≡ []

records_pass :
    ParseRecordsKeepsValidRecordsInOrder calendar tree_json (λ v. v)
    × ParseRecordsSkipsInvalidAndMalformedRecords calendar tree_json (λ v. v)
    × ParseRecordsOfEmptyInputIsEmpty calendar tree_json (λ v. v)
unfolding parse_records parse_record try_from dto_from_value
records_pass = (refl, refl, refl)
