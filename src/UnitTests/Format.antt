-- ===== src/UnitTests/Format.antt =====
-- The unit tests of src/domain/format.rs.
use bipa_coding_challenge.Common.{
  ℕ, ◌-◌, ◌^◌, ◌≡◌, refl, Option, some, Text, [], ◌∷◌, All, codes, ok, err,
}
use bipa_coding_challenge.Common.Int.{ℤ, pos, negsuc}
use bipa_coding_challenge.Domain.{invalid_timestamp}
use bipa_coding_challenge.Domain.Format.{format_btc}
use bipa_coding_challenge.Domain.Time.{Chrono, timestamp_from_unix, format_timestamp}
use bipa_coding_challenge.UnitTests.Calendar.{calendar, print, with_ymd_and_hms, parse}

abbrev ChallengeExampleAcinq : Type 0
ChallengeExampleAcinq = format_btc 36_010_516_297 ≡ codes "360.10516297"

abbrev ChallengeExampleWalletOfSatoshi : Type 0
ChallengeExampleWalletOfSatoshi = format_btc 15_464_503_162 ≡ codes "154.64503162"

abbrev RequirementTextExample : Type 0
RequirementTextExample = format_btc 550_000 ≡ codes "0.00550000"

abbrev Zero : Type 0
Zero = format_btc 0 ≡ codes "0.00000000"

abbrev OneSat : Type 0
OneSat = format_btc 1 ≡ codes "0.00000001"

abbrev OneSatBelowOneBitcoin : Type 0
OneSatBelowOneBitcoin = format_btc 99_999_999 ≡ codes "0.99999999"

abbrev ExactlyOneBitcoin : Type 0
ExactlyOneBitcoin = format_btc 100_000_000 ≡ codes "1.00000000"

abbrev TotalBitcoinSupply : Type 0
TotalBitcoinSupply = format_btc 2_100_000_000_000_000 ≡ codes "21000000.00000000"

abbrev MaxValueDoesNotOverflow : Type 0
MaxValueDoesNotOverflow = format_btc (2 ^ 64 - 1) ≡ codes "184467440737.09551615"

amounts_pass :
    ChallengeExampleAcinq × ChallengeExampleWalletOfSatoshi × RequirementTextExample × Zero × OneSat
    × OneSatBelowOneBitcoin × ExactlyOneBitcoin × TotalBitcoinSupply × MaxValueDoesNotOverflow
unfolding format_btc
amounts_pass = (refl, refl, refl, refl, refl, refl, refl, refl, refl)

module _ (c : Chrono) where
  -- `format_unix(secs)` is a text, its `unwrap` included.
  abbrev FormatUnix : ℤ → Text → Type 0
  FormatUnix seconds formatted =
      (t : c.Instant) × (timestamp_from_unix c seconds ≡ ok t) × (format_timestamp c t ≡ formatted)

  abbrev TimestampChallengeExampleAcinq : Type 0
  TimestampChallengeExampleAcinq = FormatUnix (pos 1_522_941_222) (codes "2018-04-05T15:13:42Z")

  abbrev TimestampChallengeExampleWalletOfSatoshi : Type 0
  TimestampChallengeExampleWalletOfSatoshi =
      FormatUnix (pos 1_601_429_940) (codes "2020-09-30T01:39:00Z")

  abbrev TimestampUnixEpoch : Type 0
  TimestampUnixEpoch = FormatUnix (pos 0) (codes "1970-01-01T00:00:00Z")

  abbrev TimestampLeapDay : Type 0
  TimestampLeapDay = FormatUnix (pos 1_709_164_800) (codes "2024-02-29T00:00:00Z")

  -- `with_ymd_and_hms(…)` is chrono's.
  module _ (with_ymd_and_hms : ℕ → ℕ → ℕ → ℕ → ℕ → ℕ → Option c.Instant) where
    abbrev ConvertsValidTimestamp : Type 0
    ConvertsValidTimestamp =
        (t : c.Instant) × (with_ymd_and_hms 2018 4 5 15 13 42 ≡ some t)
        × (timestamp_from_unix c (pos 1_522_941_222) ≡ ok t)

    abbrev ConvertsNegativeTimestamp : Type 0
    ConvertsNegativeTimestamp =
        (t : c.Instant) × (with_ymd_and_hms 1969 12 31 23 59 59 ≡ some t)
        × (timestamp_from_unix c (negsuc 0) ≡ ok t)

  -- `pos (2 ^ 63 - 1)` is `i64::MAX`, and `negsuc (2 ^ 63 - 1)` is `i64::MIN`.
  abbrev RejectsTimestampAboveRange : Type 0
  RejectsTimestampAboveRange =
      timestamp_from_unix c (pos (2 ^ 63 - 1)) ≡ err (invalid_timestamp (pos (2 ^ 63 - 1)))

  abbrev RejectsTimestampBelowRange : Type 0
  RejectsTimestampBelowRange =
      timestamp_from_unix c (negsuc (2 ^ 63 - 1)) ≡ err (invalid_timestamp (negsuc (2 ^ 63 - 1)))

  -- `parse_from_rfc3339` and `timestamp` are chrono's.
  abbrev FormattedTimestampRoundTrips : (Text → Option c.Instant) → (c.Instant → ℤ) → Type 0
  FormattedTimestampRoundTrips parse_from_rfc3339 timestamp =
      All
        (λ seconds.
          (formatted : Text) × FormatUnix seconds formatted
          × (parsed : c.Instant) × (parse_from_rfc3339 formatted ≡ some parsed)
          × (timestamp parsed ≡ seconds))
        (pos 0
          ∷ pos 1
          ∷ pos 1_522_941_222
          ∷ pos 1_601_429_940
          ∷ pos 1_709_164_800
          ∷ pos 4_102_444_800
          ∷ [])

timestamps_pass :
    TimestampChallengeExampleAcinq calendar
    × TimestampChallengeExampleWalletOfSatoshi calendar
    × TimestampUnixEpoch calendar
    × TimestampLeapDay calendar
unfolding timestamp_from_unix format_timestamp print
timestamps_pass = ((_, refl, refl), (_, refl, refl), (_, refl, refl), (_, refl, refl))

conversions_pass :
    ConvertsValidTimestamp calendar with_ymd_and_hms
    × ConvertsNegativeTimestamp calendar with_ymd_and_hms
    × RejectsTimestampAboveRange calendar
    × RejectsTimestampBelowRange calendar
unfolding timestamp_from_unix with_ymd_and_hms
conversions_pass = ((_, refl, refl), (_, refl, refl), refl, refl)

formatted_timestamps_pass : FormattedTimestampRoundTrips calendar parse (λ t. t)
unfolding timestamp_from_unix format_timestamp print parse
formatted_timestamps_pass = (
  (_, (_, refl, refl), _, refl, refl),
  (
    (_, (_, refl, refl), _, refl, refl),
    (
      (_, (_, refl, refl), _, refl, refl),
      (
        (_, (_, refl, refl), _, refl, refl),
        ((_, (_, refl, refl), _, refl, refl), ((_, (_, refl, refl), _, refl, refl), tt)),
      ),
    ),
  ),
)
