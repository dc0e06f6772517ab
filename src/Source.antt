-- ===== src/Source.antt =====
-- src/source/mod.rs: where node data comes from, its errors, and the interface that the importer
-- takes. A call of the source may panic, as any code may.
pub mod Dto
pub mod Mempool
use bipa_coding_challenge.Common.{ℕ, Text, List, Result, Call}
use bipa_coding_challenge.Domain.{Node}

-- The errors of reqwest and serde_json are carried as their messages.
pub data SourceError : Type 0 where
  request : Text → SourceError
  status : ℕ → SourceError
  decode : Text → SourceError

-- The trait `NodeSource`. `State` is what lies behind a source and changes from call to call.
pub record NodeSource (Instant : Type 0) : Type 1 where
  pub State : Type 0
  pub fetch_nodes : State → Call (Result (List (Node Instant)) SourceError) × State
