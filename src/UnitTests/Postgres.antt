-- ===== src/UnitTests/Postgres.antt =====
-- The unit tests of src/storage/postgres.rs.
use bipa_coding_challenge.Common.{◌-◌, ◌^◌, ◌≡◌, refl, Text, codes, ok, err}
use bipa_coding_challenge.Common.Int.{pos, negsuc}
use bipa_coding_challenge.Storage.{out_of_range}
use bipa_coding_challenge.Storage.Postgres.{
  capacity_to_db, capacity_from_db, rank_to_db, signed_decimal,
}
use bipa_coding_challenge.Std.Decimal.{decimal}

-- `pos (2 ^ 63 - 1)` is `i64::MAX`, and `2 ^ 64 - 1` is `u64::MAX` and `usize::MAX`.
abbrev CapacityToDbAcceptsValuesUpToI64Max : Type 0
CapacityToDbAcceptsValuesUpToI64Max =
    (capacity_to_db 0 ≡ ok (pos 0))
    × (capacity_to_db 36_010_516_297 ≡ ok (pos 36_010_516_297))
    × (capacity_to_db (2 ^ 63 - 1) ≡ ok (pos (2 ^ 63 - 1)))

abbrev CapacityToDbRejectsValuesAboveI64Max : Type 0
CapacityToDbRejectsValuesAboveI64Max =
    (value : Text) × (capacity_to_db (2 ^ 64 - 1)
      ≡ err (out_of_range (codes "capacity_sats") value))

abbrev CapacityFromDbAcceptsNonNegativeValues : Type 0
CapacityFromDbAcceptsNonNegativeValues =
    (capacity_from_db (pos 0) ≡ ok 0) × (capacity_from_db (pos (2 ^ 63 - 1)) ≡ ok (2 ^ 63 - 1))

abbrev CapacityFromDbRejectsNegativeValues : Type 0
CapacityFromDbRejectsNegativeValues =
    (value : Text) × (capacity_from_db (negsuc 0)
      ≡ err (out_of_range (codes "capacity_sats") value))

abbrev RankToDbConvertsAndRejectsOverflow : Type 0
RankToDbConvertsAndRejectsOverflow =
    (rank_to_db 0 ≡ ok 0)
    × (rank_to_db 99 ≡ ok 99)
    × (value : Text) × (rank_to_db (2 ^ 64 - 1) ≡ err (out_of_range (codes "rank") value))

conversions_pass :
    CapacityToDbAcceptsValuesUpToI64Max × CapacityToDbRejectsValuesAboveI64Max
    × CapacityFromDbAcceptsNonNegativeValues × CapacityFromDbRejectsNegativeValues
    × RankToDbConvertsAndRejectsOverflow
unfolding capacity_to_db capacity_from_db rank_to_db signed_decimal decimal
conversions_pass = (
  (refl, refl, refl),
  (codes "18446744073709551615", refl),
  (refl, refl),
  (codes "-1", refl),
  (refl, refl, codes "18446744073709551615", refl),
)
