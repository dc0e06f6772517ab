-- ===== src/Tests/Nodes.antt =====
-- Two nodes and the databases that hold them.
use bipa_coding_challenge.Common.{◌^◌, true, false, List, [], ◌∷◌, codes}
use bipa_coding_challenge.Common.Int.{ℤ, pos}
use bipa_coding_challenge.Domain.{Node}
use bipa_coding_challenge.Storage.{NodeRepository, RepositoryLaws}
use bipa_coding_challenge.Storage.Postgres.{pg_repository}
use bipa_coding_challenge.Storage.Postgres.Encode.{rows_from}
use bipa_coding_challenge.Storage.Postgres.Snapshot.{CommitFails}
use bipa_coding_challenge.Storage.Postgres.Repository.{ℤ-discrete, Holds, pg_repository-laws}
use bipa_coding_challenge.Tests.Database.{Db, memory, memory_laws}

abbrev pub acinq : Node ℤ
acinq = record {
  public_key = codes "03864e";
  alias = codes "ACINQ";
  capacity_sats = 36_010_516_297;
  first_seen = pos 1_522_941_222;
}

abbrev pub river : Node ℤ
river = record {
  public_key = codes "03037d";
  alias = codes "River";
  capacity_sats = 550_000;
  first_seen = pos 1_600_000_000;
}

-- A capacity that BIGINT does not hold.
abbrev pub giant : Node ℤ
giant = record { public_key = codes "02ff"; alias = []; capacity_sats = 2 ^ 63; first_seen = pos 1 }

abbrev pub ranking : List (Node ℤ)
ranking = acinq ∷ river ∷ []

abbrev pub empty_db : Db
empty_db = ([], false)

-- The table holds one node.
abbrev pub river_db : Db
river_db = (rows_from 0 (river ∷ []), false)

-- The next commit loses its answer.
abbrev pub losing_db : Db
losing_db = (rows_from 0 (river ∷ []), true)

abbrev pub memory_repository : NodeRepository ℤ
memory_repository = pg_repository memory

abbrev pub Stores : Db → List (Node ℤ) → Type 0
Stores = Holds ℤ-discrete memory memory_laws

pub memory_repository-laws :
    RepositoryLaws memory_repository Stores (CommitFails memory memory_laws)
memory_repository-laws = pg_repository-laws ℤ-discrete memory memory_laws
