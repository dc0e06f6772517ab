-- ===== src/Storage.antt =====
-- src/storage/mod.rs: the errors of storage, the interface `NodeRepository` that the importer and the
-- HTTP layer take, with the contract that its comments promise, and the connection of the pool.
pub mod Postgres
pub mod Connect
use bipa_coding_challenge.Common.{
  ℕ, ◌≡◌, Text, List, Result, ok, err, Call, returned, panicked, Call-cases, ◌⊎◌, inl, inr, length,
}
use bipa_coding_challenge.Domain.{Node}

-- `sqlx::Error`: the variants that the source names; `other` is any further one.
pub data SqlxError : Type 0 where
  configuration : Text → SqlxError
  io : Text → SqlxError
  pool_timed_out pool_closed : SqlxError
  other : Text → SqlxError

-- `sqlx::migrate::MigrateError`: `Execute`, which the source names, and any further one.
pub data MigrateError : Type 0 where
  execute : SqlxError → MigrateError
  inconsistent : Text → MigrateError

pub data StorageError : Type 0 where
  database : SqlxError → StorageError
  migration : MigrateError → StorageError
  -- the field and the value
  out_of_range : Text → Text → StorageError

-- The trait `NodeRepository`. `State` is the store behind a repository; a call may panic.
pub record NodeRepository (Instant : Type 0) : Type 1 where
  pub State : Type 0
  pub replace_all : List (Node Instant) → State → Call (Result ℕ StorageError) × State
  pub list_nodes : State → Call (Result (List (Node Instant)) StorageError) × State

-- The contract. `Holds s nodes` says that the snapshot in `s` is `nodes`, in ranking order. A
-- replacement that does not succeed leaves the previous snapshot, as the trait's comment promises, but
-- where `Lost nodes s`: the implementation says there what it can lose the outcome of (a commit that took
-- place and whose answer did not arrive), and only there an unsuccessful replacement may leave the new
-- snapshot; never a mixture.
pub record RepositoryLaws {Instant : Type 0} (repo : NodeRepository Instant)
    (Holds : repo.State → List (Node Instant) → Type 0)
    (Lost : List (Node Instant) → repo.State → Type 0) : Type 0 where
  pub replaced :
      (nodes : List (Node Instant)) (s : repo.State) (n : ℕ)
      → (repo.replace_all nodes s).0 ≡ returned (ok n)
      → Holds (repo.replace_all nodes s).1 nodes × (n ≡ length nodes)
  pub failed :
      (nodes old : List (Node Instant)) (s : repo.State) (e : StorageError)
      → Holds s old
      → (repo.replace_all nodes s).0 ≡ returned (err e)
      → Holds (repo.replace_all nodes s).1 old
        ⊎ (Lost nodes s × Holds (repo.replace_all nodes s).1 nodes)
  pub interrupted :
      (nodes old : List (Node Instant)) (s : repo.State) (m : Text)
      → Holds s old
      → (repo.replace_all nodes s).0 ≡ panicked m
      → Holds (repo.replace_all nodes s).1 old
        ⊎ (Lost nodes s × Holds (repo.replace_all nodes s).1 nodes)
  pub listed :
      (old nodes : List (Node Instant)) (s : repo.State)
      → Holds s old
      → (repo.list_nodes s).0 ≡ returned (ok nodes)
      → nodes ≡ old
  pub read_only :
      (old : List (Node Instant)) (s : repo.State) → Holds s old → Holds (repo.list_nodes s).1 old

module _ {Instant : Type 0} (repo : NodeRepository Instant)
    (Holds : repo.State → List (Node Instant) → Type 0)
    {Lost : List (Node Instant) → repo.State → Type 0} (laws : RepositoryLaws repo Holds Lost)
    (nodes old : List (Node Instant)) (s : repo.State) where
  old_or_new :
      Holds (repo.replace_all nodes s).1 old
        ⊎ (Lost nodes s × Holds (repo.replace_all nodes s).1 nodes)
      → Holds (repo.replace_all nodes s).1 old ⊎ Holds (repo.replace_all nodes s).1 nodes
  old_or_new (inl kept) = inl kept
  old_or_new (inr (lost, new)) = inr new

  -- Whatever comes of a replacement, the store holds the old snapshot or the new one.
  pub replace_all-Holds :
      Holds s old
      → Holds (repo.replace_all nodes s).1 old ⊎ Holds (repo.replace_all nodes s).1 nodes
  replace_all-Holds held = elim (Call-cases (repo.replace_all nodes s).0) [
    | inl (n, e) ↦ inr (laws.replaced nodes s n e).0
    | inr (inl (e, same)) ↦ old_or_new (laws.failed nodes old s e held same)
    | inr (inr (m, same)) ↦ old_or_new (laws.interrupted nodes old s m held same)
  ]
