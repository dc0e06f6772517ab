-- ===== src/Domain.antt =====
-- src/domain/mod.rs and src/domain/node.rs: the node as the service understands it, and the
-- error of the conversions. chrono's instants are a parameter, since chrono is not in the repository.
pub mod Format
pub mod Time
use bipa_coding_challenge.Common.{ℕ, Text}
use bipa_coding_challenge.Common.Int.{ℤ}

pub data DomainError : Type 0 where
  invalid_timestamp : ℤ → DomainError

-- `Instant` stands for `DateTime<Utc>`.
pub record Node (Instant : Type 0) : Type 0 where
  pub public_key : Text
  pub alias : Text
  pub capacity_sats : ℕ  -- u64
  pub first_seen : Instant
