-- ===== src/Importer/Loop.antt =====
-- The loop: it ends only by cancellation, runs one import for each tick, and keeps a good snapshot.
use bipa_coding_challenge.Common.{
  ℕ, suc, ◌≡◌, ◌≢◌, refl, inl, inr, Bool, true, false, ◌||◌, List, [], ◌∷◌, ◌++◌, if◌then◌else◌,
  Result, ok, returned, Bool-cases, arith,
}
use bipa_coding_challenge.Domain.{Node}
use bipa_coding_challenge.Source.{NodeSource}
use bipa_coding_challenge.Storage.{NodeRepository, RepositoryLaws}
use bipa_coding_challenge.Importer.{
  ImportOutcome, LogLine, started, succeeded, failed, stopped, log_result, Wake, World, run_once,
  joined, run_loop, run,
}
use bipa_coding_challenge.Importer.RunOnce.{run_once-Holds, run_once-ok}

-- Whether the token is found cancelled at one of the wakes.
abbrev pub any_cancelled : List Wake → Bool
any_cancelled [] = false
any_cancelled (wake ∷ wakes) = wake.cancelled || any_cancelled wakes

-- The ticks that the loop finds before it finds the token cancelled.
abbrev pub ticks : List Wake → ℕ
ticks [] = 0
ticks (wake ∷ wakes) =
    if wake.cancelled then 0 else if wake.ticked then suc (ticks wakes) else ticks wakes

-- The lines of the log that report an import.
abbrev pub reports : List LogLine → ℕ
reports [] = 0
reports (started _ ∷ log) = reports log
reports (succeeded _ _ ∷ log) = suc (reports log)
reports (failed _ _ _ ∷ log) = suc (reports log)
reports (stopped ∷ log) = reports log

reports-log_result :
    (result : Result ImportOutcome _) (elapsed : ℕ) (log : List LogLine)
    → reports (log_result result elapsed ∷ log) ≡ suc (reports log)
unfolding log_result
reports-log_result result elapsed log = ground arith

module _ {Instant : Type 0} (s : NodeSource Instant) (r : NodeRepository Instant) where
  -- Whatever the imports come to, panics included, the loop ends exactly when it finds the token
  -- cancelled.
  pub run-ended :
      (interval : ℕ) (wakes : List Wake) (w : World s r)
      → (run s r interval wakes w).ended ≡ any_cancelled wakes
  unfolding run
  run-ended interval [] w = refl
  run-ended interval (wake ∷ wakes) w =
      ground (arith, run-ended interval wakes w, run-ended interval wakes (run_once s r w).1)

  -- Every tick that the loop finds before it is cancelled gives exactly one import, with one report in
  -- the log; after that it imports no more.
  pub run-reports :
      (interval : ℕ) (wakes : List Wake) (w : World s r)
      → reports (run s r interval wakes w).log ≡ ticks wakes
  unfolding run
  run-reports interval [] w = refl
  run-reports interval (wake ∷ wakes) w = ground (
    arith,
    run-reports interval wakes w,
    run-reports interval wakes (run_once s r w).1,
    reports-log_result (joined s r (run_once s r w).0) wake.elapsed
        (run_loop s r wakes (run_once s r w).1).log,
  )

  -- While the token is not cancelled, the loop over more wakes goes on where it stood.
  pub run_loop-append :
      (before wakes : List Wake) (w : World s r)
      → any_cancelled before ≡ false
      → (run_loop s r (before ++ wakes) w).world
        ≡ (run_loop s r wakes (run_loop s r before w).world).world
  unfolding run_loop
  run_loop-append [] wakes w h = refl
  run_loop-append (wake ∷ before) wakes w h =
      ground
        (arith, run_loop-append before wakes w, run_loop-append before wakes (run_once s r w).1)

  module _ (Holds : r.State → List (Node Instant) → Type 0)
      {Lost : List (Node Instant) → r.State → Type 0} (laws : RepositoryLaws r Holds Lost) where
    -- The store holds a snapshot that is good by `P`.
    abbrev pub HoldsGood : (List (Node Instant) → Type 0) → World s r → Type 0
    HoldsGood P w = (nodes : List (Node Instant)) × Holds w.store nodes × P nodes

    -- Whatever the source gives when it gives at least one node is good by `P`.
    abbrev pub GivesGood : (List (Node Instant) → Type 0) → Type 0
    GivesGood P =
        (upstream : s.State) (nodes : List (Node Instant))
        → (s.fetch_nodes upstream).0 ≡ returned (ok nodes)
        → nodes ≢ []
        → P nodes

    run_once-HoldsGood :
        (P : List (Node Instant) → Type 0) (w : World s r)
        → GivesGood P
        → HoldsGood P w
        → HoldsGood P (run_once s r w).1
    run_once-HoldsGood P w gives (old, held, good) =
        elim (run_once-Holds s r Holds laws w old held) [
          | inl kept ↦ (old, kept, good)
          | inr (nodes, f, some_node, new) ↦ (nodes, new, gives w.upstream nodes f some_node)
        ]

    run_loop-HoldsGood :
        (P : List (Node Instant) → Type 0) (wakes : List Wake) (w : World s r)
        → GivesGood P
        → HoldsGood P w
        → HoldsGood P (run_loop s r wakes w).world
    unfolding run_loop
    run_loop-HoldsGood P [] w gives good = good
    run_loop-HoldsGood P (wake ∷ wakes) w gives good = elim (Bool-cases wake.cancelled) [
      | inl c ↦ rw c good
      | inr c ↦ elim (Bool-cases wake.ticked) [
        | inl t ↦
            rw (c, t)
              (run_loop-HoldsGood P wakes (run_once s r w).1 gives
                (run_once-HoldsGood P w gives good))
        | inr t ↦ rw (c, t) (run_loop-HoldsGood P wakes w gives good)
      ]
    ]

    -- A property that the initial snapshot has, and every non-empty answer of the source, is a property
    -- of the snapshot after any number of wakes, whatever imports fail or panic between.
    pub run-HoldsGood :
        (P : List (Node Instant) → Type 0) (interval : ℕ) (wakes : List Wake) (w : World s r)
        → GivesGood P
        → HoldsGood P w
        → HoldsGood P (run s r interval wakes w).world
    unfolding run
    run-HoldsGood P interval wakes w gives good = run_loop-HoldsGood P wakes w gives good

    -- Once the store holds a snapshot with at least one node, it holds one with at least one node after
    -- any number of wakes: no failure, panic or empty answer of the source ever empties it.
    pub run-never_empty :
        (interval : ℕ) (wakes : List Wake) (w : World s r) (nodes : List (Node Instant))
        → Holds w.store nodes
        → nodes ≢ []
        → HoldsGood (λ held. held ≢ []) (run s r interval wakes w).world
    run-never_empty interval wakes w nodes held some_node =
        run-HoldsGood (λ held. held ≢ []) interval wakes w (λ upstream given f some. some)
          (nodes, held, some_node)

    run_loop-tick :
        (wake : Wake) (w : World s r)
        → wake.cancelled ≡ false
        → wake.ticked ≡ true
        → (run_loop s r (wake ∷ []) w).world ≡ (run_once s r w).1
    unfolding run_loop
    run_loop-tick wake w c t = rw (c, t)

    -- However many imports failed or panicked before, a tick at which the source gives nodes and the
    -- repository takes them leaves exactly those nodes in the store.
    pub run-recovers :
        (interval : ℕ) (before : List Wake) (wake : Wake) (w : World s r) (outcome : ImportOutcome)
        → any_cancelled before ≡ false
        → wake.cancelled ≡ false
        → wake.ticked ≡ true
        → (run_once s r (run_loop s r before w).world).0 ≡ returned (ok outcome)
        → (nodes : List (Node Instant)) × ((s.fetch_nodes (run_loop s r before w).world.upstream).0
            ≡ returned (ok nodes))
          × Holds (run s r interval (before ++ wake ∷ []) w).world.store nodes
    unfolding run
    run-recovers interval before wake w outcome b c t done =
        let (nodes, f, some_node, held, counted) =
          run_once-ok s r Holds laws (run_loop s r before w).world outcome done in
        (
          nodes,
          f,
          rw
              (
                run_loop-append before (wake ∷ []) w b,
                run_loop-tick wake (run_loop s r before w).world c t,
              )
              held,
        )
