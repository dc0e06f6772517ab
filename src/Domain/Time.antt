-- ===== src/Domain/Time.antt =====
-- src/domain/format.rs, the instants. chrono is a parameter: `Chrono` has the operations that the
-- source calls, `ChronoLaws` what chrono documents of them.
use bipa_coding_challenge.Common.{
  ℕ, ◌<◌, ◌≡◌, Bool, true, Option, some, Text, Result, ok, ok_or, sym, ◌∙◌, arith,
}
use bipa_coding_challenge.Common.Int.{ℤ, pos, negsuc}
use bipa_coding_challenge.Domain.{DomainError, invalid_timestamp}

pub data SecondsFormat : Type 0 where
  secs millis micros nanos auto_si : SecondsFormat

pub record Chrono : Type 1 where
  pub Instant : Type 0
  -- `DateTime::from_timestamp(secs, nsecs)`
  pub from_timestamp : ℤ → ℕ → Option Instant
  -- `to_rfc3339_opts(secform, use_z)`
  pub to_rfc3339_opts : Instant → SecondsFormat → Bool → Text

-- 0000-01-01T00:00:00Z to 9999-12-31T23:59:59Z: the years that RFC 3339 can write.
abbrev pub InRfc3339Years : ℤ → Type 0
InRfc3339Years (pos n) = n < 253_402_300_800
InRfc3339Years (negsuc n) = n < 62_167_219_200

module _ (c : Chrono) where
  open c use {Instant, from_timestamp, to_rfc3339_opts}

  pub record ChronoLaws : Type 0 where
    -- `timestamp()`
    pub timestamp : Instant → ℤ
    -- `DateTime::parse_from_rfc3339(s)`, as an instant in UTC
    pub parse_from_rfc3339 : Text → Option Instant
    pub timestamp-from :
        (s : ℤ) (n : ℕ) (t : Instant) → from_timestamp s n ≡ some t → timestamp t ≡ s
    pub parse-print :
        (s : ℤ) (t : Instant)
        → InRfc3339Years s
        → from_timestamp s 0 ≡ some t
        → parse_from_rfc3339 (to_rfc3339_opts t secs true) ≡ some t

  unfoldable pub timestamp_from_unix : ℤ → Result Instant DomainError
  timestamp_from_unix s = ok_or (invalid_timestamp s) (from_timestamp s 0)

  unfoldable pub format_timestamp : Instant → Text
  format_timestamp instant = to_rfc3339_opts instant secs true

  module _ (laws : ChronoLaws) where
    open laws use {timestamp, parse_from_rfc3339, timestamp-from, parse-print}

    from-ok : (s : ℤ) (t : Instant) → timestamp_from_unix s ≡ ok t → from_timestamp s 0 ≡ some t
    unfolding timestamp_from_unix
    from-ok s t h = ground arith

    -- A unix time in the years 0 to 9999 that converts to an instant is read back from the formatted
    -- instant: RFC 3339 parsing gives the same instant, and that instant's unix time is the given one.
    pub parse-format_timestamp :
        (s : ℤ) (t : Instant)
        → InRfc3339Years s
        → timestamp_from_unix s ≡ ok t
        → (parse_from_rfc3339 (format_timestamp t) ≡ some t) × (timestamp t ≡ s)
    unfolding format_timestamp
    parse-format_timestamp s t years h =
        (parse-print s t years (from-ok s t h), timestamp-from s 0 t (from-ok s t h))

    -- Distinct unix times never convert to the same instant.
    pub timestamp_from_unix-injective :
        (a b : ℤ) (t : Instant)
        → timestamp_from_unix a ≡ ok t
        → timestamp_from_unix b ≡ ok t
        → a ≡ b
    timestamp_from_unix-injective a b t p q =
        sym (timestamp-from a 0 t (from-ok a t p)) ∙ timestamp-from b 0 t (from-ok b t q)
