-- ===== src/Importer/RunOnce.antt =====
-- One import: when it succeeds, what it stores, and what each failure leaves behind.
use bipa_coding_challenge.Common.{
  ℕ, ◌≡◌, refl, ◌≢◌, sym, subst, ◌⊎◌, inl, inr, ◌↔◌, List, [], ◌∷◌, length, Result, ok, err, Call,
  Call-cases, returned, panicked, Text, arith,
}
use bipa_coding_challenge.Domain.{Node}
use bipa_coding_challenge.Source.{SourceError, NodeSource}
use bipa_coding_challenge.Storage.{StorageError, NodeRepository, RepositoryLaws, replace_all-Holds}
use bipa_coding_challenge.Importer.{
  ImportOutcome, ImportError, source, storage, empty_source, panicked_with, World, run_once,
}

module _ {Instant : Type 0} (s : NodeSource Instant) (r : NodeRepository Instant) where
  -- The ways in which the parts of an import can go, with its result and the world that it leaves.
  pub data Imported (w : World s r) (done : Call (Result ImportOutcome ImportError) × World s r)
      : Type 0 where
    fetch_panicked :
        (m : Text)
        → (s.fetch_nodes w.upstream).0 ≡ panicked m
        → done.0 ≡ panicked m
        → done.1.store ≡ w.store
        → Imported w done
    fetch_failed :
        (e : SourceError)
        → (s.fetch_nodes w.upstream).0 ≡ returned (err e)
        → done.0 ≡ returned (err (source e))
        → done.1.store ≡ w.store
        → Imported w done
    fetched_nothing :
        (s.fetch_nodes w.upstream).0 ≡ returned (ok [])
        → done.0 ≡ returned (err empty_source)
        → done.1.store ≡ w.store
        → Imported w done
    replaced :
        (nodes : List (Node Instant)) (n : ℕ)
        → (s.fetch_nodes w.upstream).0 ≡ returned (ok nodes)
        → nodes ≢ []
        → (r.replace_all nodes w.store).0 ≡ returned (ok n)
        → done.0 ≡ returned (ok (record { imported = n }))
        → done.1.store ≡ (r.replace_all nodes w.store).1
        → Imported w done
    replace_failed :
        (nodes : List (Node Instant)) (e : StorageError)
        → (s.fetch_nodes w.upstream).0 ≡ returned (ok nodes)
        → nodes ≢ []
        → (r.replace_all nodes w.store).0 ≡ returned (err e)
        → done.0 ≡ returned (err (storage e))
        → done.1.store ≡ (r.replace_all nodes w.store).1
        → Imported w done
    replace_panicked :
        (nodes : List (Node Instant)) (m : Text)
        → (s.fetch_nodes w.upstream).0 ≡ returned (ok nodes)
        → nodes ≢ []
        → (r.replace_all nodes w.store).0 ≡ panicked m
        → done.0 ≡ panicked m
        → done.1.store ≡ (r.replace_all nodes w.store).1
        → Imported w done

  run_once-replace :
      (w : World s r) (node : Node Instant) (nodes : List (Node Instant))
      → (s.fetch_nodes w.upstream).0 ≡ returned (ok (node ∷ nodes))
      → Imported w (run_once s r w)
  unfolding run_once
  run_once-replace w node nodes fetched =
      elim (Call-cases (r.replace_all (node ∷ nodes) w.store).0) [
        | inl (n, e) ↦ replaced (node ∷ nodes) n fetched (cc) e (rw (fetched, e)) (rw (fetched, e))
        | inr (inl (x, e)) ↦
            replace_failed (node ∷ nodes) x fetched (cc) e (rw (fetched, e)) (rw (fetched, e))
        | inr (inr (m, e)) ↦
            replace_panicked (node ∷ nodes) m fetched (cc) e (rw (fetched, e)) (rw (fetched, e))
      ]

  -- Storage is called with what was fetched, and its answer decides.
  pub run_once-stored :
      (w : World s r) (nodes : List (Node Instant)) (n : ℕ)
      → (s.fetch_nodes w.upstream).0 ≡ returned (ok nodes)
      → nodes ≢ []
      → (r.replace_all nodes w.store).0 ≡ returned (ok n)
      → (run_once s r w).0 ≡ returned (ok (record { imported = n }))
  unfolding run_once
  run_once-stored w [] n fetched some_node e = absurd (some_node refl)
  run_once-stored w (node ∷ nodes) n fetched some_node e = rw (fetched, e)

  pub run_once-storage_err :
      (w : World s r) (nodes : List (Node Instant)) (e : StorageError)
      → (s.fetch_nodes w.upstream).0 ≡ returned (ok nodes)
      → nodes ≢ []
      → (r.replace_all nodes w.store).0 ≡ returned (err e)
      → ((run_once s r w).0 ≡ returned (err (storage e)))
        × ((run_once s r w).1.store ≡ (r.replace_all nodes w.store).1)
  unfolding run_once
  run_once-storage_err w [] e fetched some_node failed = absurd (some_node refl)
  run_once-storage_err w (node ∷ nodes) e fetched some_node failed =
      (rw (fetched, failed), rw (fetched, failed))

  run_once-Imported : (w : World s r) → Imported w (run_once s r w)
  unfolding run_once
  run_once-Imported w = elim (Call-cases (s.fetch_nodes w.upstream).0) [
    | inl ([], e) ↦ fetched_nothing e (rw e) (rw e)
    | inl (node ∷ nodes, e) ↦ run_once-replace w node nodes e
    | inr (inl (x, e)) ↦ fetch_failed x e (rw e) (rw e)
    | inr (inr (m, e)) ↦ fetch_panicked m e (rw e) (rw e)
  ]

  -- Unless the fetch returns at least one node, the import does not touch the store.
  pub run_once-untouched :
      (w : World s r)
      → ((nodes : List (Node Instant))
          → (s.fetch_nodes w.upstream).0 ≡ returned (ok nodes)
          → nodes ≡ [])
      → (run_once s r w).1.store ≡ w.store
  run_once-untouched w nothing = elim (run_once-Imported w) [
    | fetch_panicked m f d same ↦ same
    | fetch_failed e f d same ↦ same
    | fetched_nothing f d same ↦ same
    | replaced nodes n f some_node p d same ↦ absurd (some_node (nothing nodes f))
    | replace_failed nodes e f some_node p d same ↦ absurd (some_node (nothing nodes f))
    | replace_panicked nodes m f some_node p d same ↦ absurd (some_node (nothing nodes f))
  ]

  -- An import reports a source error exactly when the fetch returns that error, an empty source exactly
  -- when the fetch returns no node, and never the error that the loop makes of a panic.
  pub run_once-errors :
      (w : World s r)
      → ((e : SourceError)
          → ((run_once s r w).0 ≡ returned (err (source e)))
            ↔ ((s.fetch_nodes w.upstream).0 ≡ returned (err e)))
        × (((run_once s r w).0 ≡ returned (err empty_source))
            ↔ ((s.fetch_nodes w.upstream).0 ≡ returned (ok [])))
        × ((m : Text) → (run_once s r w).0 ≢ returned (err (panicked_with m)))
  run_once-errors w = elim (run_once-Imported w) [
    | fetch_panicked m f d same ↦ (λ e. ground arith, ground arith, λ m. ground arith)
    | fetch_failed e f d same ↦ (λ e. ground arith, ground arith, λ m. ground arith)
    | fetched_nothing f d same ↦ (λ e. ground arith, ground arith, λ m. ground arith)
    | replaced nodes n f some_node p d same ↦ (λ e. ground arith, ground arith, λ m. ground arith)
    | replace_failed nodes e f some_node p d same ↦
        (λ e. ground arith, ground arith, λ m. ground arith)
    | replace_panicked nodes m f some_node p d same ↦
        (λ e. ground arith, ground arith, λ m. ground arith)
  ]

  module _ (Holds : r.State → List (Node Instant) → Type 0)
      {Lost : List (Node Instant) → r.State → Type 0} (laws : RepositoryLaws r Holds Lost) where
    -- An import that succeeds has fetched at least one node, stores exactly the fetched nodes, and
    -- reports how many they are.
    pub run_once-ok :
        (w : World s r) (outcome : ImportOutcome)
        → (run_once s r w).0 ≡ returned (ok outcome)
        → (nodes : List (Node Instant)) × ((s.fetch_nodes w.upstream).0 ≡ returned (ok nodes))
          × (nodes ≢ [])
          × Holds (run_once s r w).1.store nodes
          × (outcome.imported ≡ length nodes)
    run_once-ok w outcome h = elim (run_once-Imported w) [
      | fetch_panicked m f d same ↦ absurd (cc)
      | fetch_failed e f d same ↦ absurd (cc)
      | fetched_nothing f d same ↦ absurd (cc)
      | replaced nodes n f some_node p d same ↦
          let (held, counted) = laws.replaced nodes w.store n p in
          (nodes, f, some_node, subst (λ store. Holds store nodes) (sym same) held, ground arith)
      | replace_failed nodes e f some_node p d same ↦ absurd (cc)
      | replace_panicked nodes m f some_node p d same ↦ absurd (cc)
    ]

    -- Whatever happens in an import, failures and panics included, the store holds afterwards either the
    -- snapshot that it held before, or nodes that the source has just returned, and then at least one.
    pub run_once-Holds :
        (w : World s r) (old : List (Node Instant))
        → Holds w.store old
        → Holds (run_once s r w).1.store old
          ⊎ ((nodes : List (Node Instant)) × ((s.fetch_nodes w.upstream).0 ≡ returned (ok nodes))
              × (nodes ≢ [])
              × Holds (run_once s r w).1.store nodes)
    run_once-Holds w old held = elim (run_once-Imported w) [
      | fetch_panicked m f d same ↦ inl (subst (λ t. Holds t old) (sym same) held)
      | fetch_failed e f d same ↦ inl (subst (λ t. Holds t old) (sym same) held)
      | fetched_nothing f d same ↦ inl (subst (λ t. Holds t old) (sym same) held)
      | replaced nodes n f some_node p d same ↦ either nodes f some_node same
      | replace_failed nodes e f some_node p d same ↦ either nodes f some_node same
      | replace_panicked nodes m f some_node p d same ↦ either nodes f some_node same
    ]
      where
        either :
            (nodes : List (Node Instant))
            → (s.fetch_nodes w.upstream).0 ≡ returned (ok nodes)
            → nodes ≢ []
            → (run_once s r w).1.store ≡ (r.replace_all nodes w.store).1
            → Holds (run_once s r w).1.store old
              ⊎ ((nodes : List (Node Instant)) × ((s.fetch_nodes w.upstream).0
                    ≡ returned (ok nodes))
                  × (nodes ≢ [])
                  × Holds (run_once s r w).1.store nodes)
        either nodes f some_node same =
            elim (replace_all-Holds r Holds laws nodes old w.store held) [
              | inl kept ↦ inl (subst (λ t. Holds t old) (sym same) kept)
              | inr new ↦ inr (nodes, f, some_node, subst (λ t. Holds t nodes) (sym same) new)
            ]
