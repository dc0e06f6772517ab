-- ===== src/TestSupport.antt =====
-- src/test_support.rs: the fakes with which the code is tested, as instances of the two interfaces.
-- What is behind a `Mutex` or an atomic is a field of the state.
use bipa_coding_challenge.Common.{
  ℕ, ◌+◌, ◌≡◌, Bool, false, Text, List, [], ◌∷◌, ◌++◌, codes, length, if◌then◌else◌, Result, ok,
  err, Call, returned, panicked, arith,
}
use bipa_coding_challenge.Common.Int.{ℤ}
use bipa_coding_challenge.Domain.{Node}
use bipa_coding_challenge.Source.{SourceError, status, NodeSource}
use bipa_coding_challenge.Storage.{
  StorageError, database, pool_timed_out, NodeRepository, RepositoryLaws,
}

module _ (Instant : Type 0) where
  -- `node(…)`; `unwrapped` is `timestamp_from_unix(first_seen).unwrap()`.
  abbrev pub node : (ℤ → Instant) → Text → Text → ℕ → ℤ → Node Instant
  node unwrapped public_key alias capacity_sats first_seen = record {
    public_key = public_key;
    alias = alias;
    capacity_sats = capacity_sats;
    first_seen = unwrapped first_seen;
  }

  pub data Step : Type 0 where
    nodes_step : List (Node Instant) → Step
    fail_step : ℕ → Step
    panic_step : Step

  pub record FakeSource : Type 0 where
    pub script : List Step
    pub calls : ℕ

  abbrev pub fake_source_new : List Step → FakeSource
  fake_source_new steps = record { script = steps; calls = 0 }

  abbrev pub play : Step → Call (Result (List (Node Instant)) SourceError)
  play (nodes_step nodes) = returned (ok nodes)
  play (fail_step code) = returned (err (status code))
  play panic_step = panicked (codes "scripted panic in FakeSource")

  abbrev pub next_step :
      List Step → ℕ → Call (Result (List (Node Instant)) SourceError) × FakeSource
  next_step [] calls = (returned (err (status 503)), record { script = []; calls = calls })
  next_step (step ∷ steps) calls = (play step, record { script = steps; calls = calls })

  abbrev pub fake_source : NodeSource Instant
  fake_source = record { State = FakeSource; fetch_nodes = λ f. next_step f.script (f.calls + 1) }

  pub record FakeRepository : Type 0 where
    pub nodes : List (Node Instant)
    pub replace_calls : List (List (Node Instant))
    pub fail : Bool
    pub panic_on_list : Bool

  abbrev pub with_nodes : List (Node Instant) → FakeRepository
  with_nodes nodes = record {
    nodes = nodes;
    replace_calls = [];
    fail = false;
    panic_on_list = false;
  }

  abbrev pub set_failing : Bool → FakeRepository → FakeRepository
  set_failing fail f = record f { fail = fail }

  abbrev pub set_panic_on_list : Bool → FakeRepository → FakeRepository
  set_panic_on_list panic f = record f { panic_on_list = panic }

  -- The call is counted before it can fail.
  unfoldable pub fake_replace_all :
      List (Node Instant) → FakeRepository → Call (Result ℕ StorageError) × FakeRepository
  fake_replace_all nodes f =
      let counted = record f { replace_calls = f.replace_calls ++ nodes ∷ [] } in
      if f.fail
      then (returned (err (database pool_timed_out)), counted)
      else (returned (ok (length nodes)), record counted { nodes = nodes })

  unfoldable pub fake_list_nodes :
      FakeRepository → Call (Result (List (Node Instant)) StorageError) × FakeRepository
  fake_list_nodes f =
      if f.panic_on_list
      then (panicked (codes "scripted panic in FakeRepository"), f)
      else if f.fail
      then (returned (err (database pool_timed_out)), f)
      else (returned (ok f.nodes), f)

  abbrev pub fake_repository : NodeRepository Instant
  fake_repository = record {
    State = FakeRepository;
    replace_all = fake_replace_all;
    list_nodes = fake_list_nodes;
  }

  -- The fake repository keeps the contract, whatever its switches, and loses no outcome: what
  -- is shown of the importer and of the HTTP layer over any repository holds over the fake.
  pub fake_repository-laws :
      RepositoryLaws fake_repository (λ f nodes. f.nodes ≡ nodes) (λ nodes f. ⊥)
  unfolding fake_replace_all fake_list_nodes
  fake_repository-laws = record {
    replaced = λ nodes f n h. ground arith;
    failed = λ nodes old f e held h. ground arith;
    interrupted = λ nodes old f m held h. ground arith;
    listed = λ old nodes f held h. ground arith;
    read_only = λ old f held. ground arith;
  }
