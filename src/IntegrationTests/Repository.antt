-- ===== src/IntegrationTests/Repository.antt =====
-- The integration tests of tests/repository.rs, over any database whose table is fresh: `fresh` is what
-- `#[sqlx::test]` hands to a test.
use Prim.Native.String.{String}
use bipa_coding_challenge.Common.{ℕ, ◌-◌, ◌^◌, ◌≡◌, refl, Text, List, [], ◌∷◌, map, codes, ok, err}
use bipa_coding_challenge.Common.Int.{ℤ, pos, negsuc}
use bipa_coding_challenge.Domain.{Node}
use bipa_coding_challenge.Storage.{SqlxError, pool_closed, StorageError, database, out_of_range}
use bipa_coding_challenge.Storage.Postgres.{
  Postgres, unnest, collect_columns, write_columns, replace_all, try_from, collect_nodes,
  list_nodes,
}
use bipa_coding_challenge.TestSupport.{node}
use bipa_coding_challenge.Tests.Database.{memory}
use bipa_coding_challenge.Tests.Nodes.{empty_db}
use bipa_coding_challenge.IntegrationTests.Pool.{close, fresh_pool, pooled}

abbrev emoji_alias : String
emoji_alias = "DiamondHands💎🙌 \"quoted\" | torq.co"

module _ {Instant : Type 0} (p : Postgres Instant) (fresh : p.Db) (unwrapped : ℤ → Instant) where
  abbrev sample : String → String → ℕ → ℤ → Node Instant
  sample key alias = node Instant unwrapped (codes key) (codes alias)

  -- The database after a replacement.
  abbrev after : List (Node Instant) → p.Db → p.Db
  after nodes db = (replace_all p nodes db).1

  -- `repo.list_nodes().await.unwrap()` is these nodes.
  abbrev Lists : p.Db → List (Node Instant) → Type 0
  Lists db nodes = (list_nodes p db).0 ≡ ok nodes

  -- `repo.replace_all(&nodes).await.unwrap()` is this number.
  abbrev Replaces : List (Node Instant) → p.Db → ℕ → Type 0
  Replaces nodes db n = (replace_all p nodes db).0 ≡ ok n

  abbrev ListIsEmptyBeforeAnyImport : Type 0
  ListIsEmptyBeforeAnyImport = Lists fresh []

  abbrev FirstImportStoresNodesInOrder : Type 0
  FirstImportStoresNodesInOrder =
      let nodes =
        sample "c" "third-by-key" 3 (pos 30)
        ∷ sample "a" "first-by-key" 1 (pos 10)
        ∷ sample "b" "second-by-key" 2 (pos 20)
        ∷ [] in
      Replaces nodes fresh 3 × Lists (after nodes fresh) nodes

  abbrev SecondImportReplacesTheSnapshot : Type 0
  SecondImportReplacesTheSnapshot =
      let first =
        sample "a" "A" 1 (pos 0) ∷ sample "b" "B" 2 (pos 0) ∷ sample "c" "C" 3 (pos 0) ∷ [] in
      let updated = sample "c" "C renamed" 30 (pos 0) ∷ sample "d" "D" 4 (pos 0) ∷ [] in
      (n : ℕ) × (m : ℕ) × (stored : List (Node Instant)) × Replaces first fresh n
      × Replaces updated (after first fresh) m
      × Lists (after updated (after first fresh)) stored
      × (map (λ k. k.public_key) stored ≡ codes "c" ∷ codes "d" ∷ [])
      × (stored ≡ updated)

  abbrev original : List (Node Instant)
  original = sample "a" "A" 1 (pos 0) ∷ sample "b" "B" 2 (pos 0) ∷ []

  abbrev FailedImportKeepsPreviousSnapshot : Type 0
  FailedImportKeepsPreviousSnapshot =
      let doubled = sample "x" "X" 1 (pos 0) ∷ sample "x" "X again" 2 (pos 0) ∷ [] in
      let before = after original fresh in
      (n : ℕ) × (e : SqlxError) × Replaces original fresh n
      × ((replace_all p doubled before).0 ≡ err (database e))
      × Lists (after doubled before) original

  -- `pos (2 ^ 63 - 1)` is `i64::MAX`, and `negsuc 0` is -1.
  abbrev EdgeValuesRoundTripExactly : Type 0
  EdgeValuesRoundTripExactly =
      let nodes =
        sample "emoji" emoji_alias 1 (pos 1_617_669_406)
        ∷ sample "empty-alias" "" 0 (pos 0)
        ∷ sample "large" "large" (2 ^ 63 - 1) (pos 1_522_941_222)
        ∷ sample "pre-epoch" "pre-epoch" 42 (negsuc 0)
        ∷ [] in
      (n : ℕ) × Replaces nodes fresh n × Lists (after nodes fresh) nodes

  abbrev OutOfRangeCapacityIsRejectedBeforeWriting : Type 0
  OutOfRangeCapacityIsRejectedBeforeWriting =
      let one = sample "a" "A" 1 (pos 0) ∷ [] in
      let large = sample "b" "B" (2 ^ 64 - 1) (pos 0) ∷ [] in
      let before = after one fresh in
      (n : ℕ) × (value : Text) × Replaces one fresh n
      × ((replace_all p large before).0 ≡ err (out_of_range (codes "capacity_sats") value))
      × Lists (after large before) one

  abbrev EmptyReplaceClearsTheTable : Type 0
  EmptyReplaceClearsTheTable =
      let one = sample "a" "A" 1 (pos 0) ∷ [] in
      (n : ℕ) × Replaces one fresh n
      × Replaces [] (after one fresh) 0
      × Lists (after [] (after one fresh)) []

imports_pass :
    ListIsEmptyBeforeAnyImport memory empty_db (λ t. t)
    × FirstImportStoresNodesInOrder memory empty_db (λ t. t)
    × SecondImportReplacesTheSnapshot memory empty_db (λ t. t)
    × EdgeValuesRoundTripExactly memory empty_db (λ t. t)
    × EmptyReplaceClearsTheTable memory empty_db (λ t. t)
unfolding replace_all collect_columns write_columns unnest list_nodes collect_nodes try_from
imports_pass = (
  refl,
  (refl, refl),
  (_, _, _, refl, refl, refl, refl, refl),
  (_, refl, refl),
  (_, refl, refl, refl),
)

errors_pass :
    FailedImportKeepsPreviousSnapshot memory empty_db (λ t. t)
    × OutOfRangeCapacityIsRejectedBeforeWriting memory empty_db (λ t. t)
unfolding replace_all collect_columns write_columns unnest list_nodes collect_nodes try_from
errors_pass = ((_, _, refl, refl, refl), (_, _, refl, refl, refl))

module _ {Instant : Type 0} (p : Postgres Instant) (fresh : p.Db) (unwrapped : ℤ → Instant) where
  abbrev ClosedPoolReturnsErrorInsteadOfPanicking : Type 0
  ClosedPoolReturnsErrorInsteadOfPanicking =
      let one = node Instant unwrapped (codes "a") (codes "A") 1 (pos 0) ∷ [] in
      let listed = list_nodes (pooled p) (close p (fresh_pool p fresh)) in
      (e : StorageError) × (listed.0 ≡ err (database pool_closed))
      × ((replace_all (pooled p) one listed.1).0 ≡ err e)

closed_pool_passes : ClosedPoolReturnsErrorInsteadOfPanicking memory empty_db (λ t. t)
unfolding replace_all collect_columns write_columns list_nodes
closed_pool_passes = (_, refl, refl)
