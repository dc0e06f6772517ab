-- ===== src/App/Retry.antt =====
-- The laws of `retry`: what it can end with, and that it gets through transient failures.
use mathlib.Core.Path.{ap₂}
use bipa_coding_challenge.Common.{
  ℕ, zero, suc, ◌≡◌, ◌≢◌, refl, ◌∙◌, Bool, true, false, ◌||◌, ◌⊎◌, inl, inr, ◌≤◌, Option, none,
  some, Text, List, [], ◌∷◌, Result, ok, err, Result-cases, arith,
}
use bipa_coding_challenge.Storage.{
  configuration, io, pool_timed_out, pool_closed, StorageError, database, migration, execute,
  MigrateError,
}
use bipa_coding_challenge.Storage.Connect.{Sqlx, connect, migrate}
use bipa_coding_challenge.App.{
  Round, cancelled_before, cancelled_during, ended, Retried, retry_from, retry, next_attempt,
  backoff_delay, settle, after_delay, connect_with_retry, migrate_with_retry,
  is_transient_connect_error, is_connection_error, is_transient_migrate_error,
}
use bipa_coding_challenge.App.Backoff.{doubling, backoff_delay-doubling}

-- Whether one of the rounds cancels.
abbrev pub cancels : {World : Type 0} → List (Round World) → Bool
cancels [] = false
cancels (cancelled_before ∷ rounds) = true
cancels (cancelled_during _ ∷ rounds) = true
cancels (ended asleep ∷ rounds) = asleep || cancels rounds

-- `k` rounds in which nothing is cancelled.
abbrev pub calm : {World : Type 0} → ℕ → List (Round World)
calm zero = []
calm (suc k) = ended false ∷ calm k

-- The delays of `k` retries, from retry `n` on.
abbrev pub schedule : ℕ → ℕ → List ℕ
schedule n zero = []
schedule n (suc k) = doubling n ∷ schedule (suc n) k

-- The saturating counter may fall behind the number of failures, but only where the delay is constant.
abbrev Counts : ℕ → ℕ → Type 0
Counts attempt n = (attempt ≡ n) ⊎ ((5 ≤ attempt) × (5 ≤ n))

Counts-next : (attempt n : ℕ) → Counts attempt n → Counts (next_attempt attempt) (suc n)
Counts-next attempt n h = ground arith

Counts-doubling : (attempt n : ℕ) → Counts attempt n → backoff_delay attempt ≡ doubling n
Counts-doubling attempt n (inl same) = rw same (backoff_delay-doubling n)
Counts-doubling attempt n (inr (a, b)) = backoff_delay-doubling attempt ∙ (ground arith)

module _ {World T E : Type 0} (is_transient : E → Bool) (op : World → Result T E × World) where
  -- The operation fails `k` times in a row, each time with a transient error, and leads from one world
  -- to another.
  pub data Fails : ℕ → World → World → Type 0 where
    none_yet : (w : World) → Fails 0 w w
    once_more :
        (k : ℕ) (w w' : World) (e : E)
        → (op w).0 ≡ err e
        → is_transient e ≡ true
        → Fails k (op w).1 w'
        → Fails (suc k) w w'

  settled :
      (attempt : ℕ) (asleep : Bool) (done : Result T E × World) (rest : Retried World T E)
      (v : Result (Option T) E)
      → (settle is_transient op attempt asleep done rest).result ≡ some v
      → ((t : T) × (done.0 ≡ ok t) × (v ≡ ok (some t)))
        ⊎ ((e : E) × (done.0 ≡ err e) × (is_transient e ≡ false) × (v ≡ err e))
        ⊎ ((asleep ≡ true) × (v ≡ ok none))
        ⊎ (rest.result ≡ some v)
  settled attempt asleep done rest v h = ground arith

  settle-ok :
      (attempt : ℕ) (asleep : Bool) (done : Result T E × World) (rest : Retried World T E) (v : T)
      → done.0 ≡ ok v
      → settle is_transient op attempt asleep done rest
        ≡ (record { result = some (ok (some v)); delays = []; world = done.1 })
  settle-ok attempt asleep done rest v h = ground arith

  settle-transient :
      (attempt : ℕ) (done : Result T E × World) (rest : Retried World T E) (e : E)
      → done.0 ≡ err e
      → is_transient e ≡ true
      → settle is_transient op attempt false done rest ≡ after_delay (backoff_delay attempt) rest
  settle-transient attempt done rest e h t = ground arith

  retry_from-recovers :
      (k n attempt : ℕ) (w w' : World) (v : T)
      → Counts attempt n
      → Fails k w w'
      → (op w').0 ≡ ok v
      → retry_from is_transient op attempt (calm (suc k)) w
        ≡ (record { result = some (ok (some v)); delays = schedule n k; world = (op w').1 })
  unfolding retry_from
  retry_from-recovers _ n attempt _ _ v c (none_yet w) h = settle-ok attempt false (op w) _ v h
  retry_from-recovers _ n attempt _ _ v c (once_more k w w' e failed again f) h =
      settle-transient attempt (op w) _ e failed again
      ∙ ap₂ after_delay (Counts-doubling attempt n c) (
          retry_from-recovers k (suc n) (next_attempt attempt) (op w).1 w' v
            (Counts-next attempt n c) f h)

  retry_from-cases :
      (attempt : ℕ) (rounds : List (Round World)) (w : World) (v : Result (Option T) E)
      → (retry_from is_transient op attempt rounds w).result ≡ some v
      → ((w' : World) × (t : T) × ((op w').0 ≡ ok t) × (v ≡ ok (some t)))
        ⊎ ((w' : World) × (e : E) × ((op w').0 ≡ err e) × (is_transient e ≡ false) × (v ≡ err e))
        ⊎ ((cancels rounds ≡ true) × (v ≡ ok none))
  unfolding retry_from
  retry_from-cases attempt [] w v h = cc
  retry_from-cases attempt (cancelled_before ∷ rounds) w v h = inr (inr (refl, cc))
  retry_from-cases attempt (cancelled_during w' ∷ rounds) w v h = inr (inr (refl, cc))
  retry_from-cases attempt (ended asleep ∷ rounds) w v h =
      elim (settled attempt asleep (op w)
        (retry_from is_transient op (next_attempt attempt) rounds (op w).1) v h) [
          | inl (t, e, same) ↦ inl (w, t, e, same)
          | inr (inl (e, failed, final, same)) ↦ inr (inl (w, e, failed, final, same))
          | inr (inr (inl (asleep_is, same))) ↦ inr (inr (rw asleep_is refl, same))
          | inr (inr (inr later)) ↦
              elim (retry_from-cases (next_attempt attempt) rounds (op w).1 v later) [
                | inl found ↦ inl found
                | inr (inl failed) ↦ inr (inl failed)
                | inr (inr (c, same)) ↦ inr (inr (ground arith, same))
              ]
        ]

  -- A retry that ends, ends in one of three ways: with the value of a call of the operation that
  -- succeeded, with the error of a call that failed for good, or with `none`, and then one of its rounds
  -- was cancelled. It never gives up on a transient error.
  pub retry-cases :
      (rounds : List (Round World)) (w : World) (v : Result (Option T) E)
      → (retry is_transient op rounds w).result ≡ some v
      → ((w' : World) × (t : T) × ((op w').0 ≡ ok t) × (v ≡ ok (some t)))
        ⊎ ((w' : World) × (e : E) × ((op w').0 ≡ err e) × (is_transient e ≡ false) × (v ≡ err e))
        ⊎ ((cancels rounds ≡ true) × (v ≡ ok none))
  unfolding retry
  retry-cases rounds w v h = retry_from-cases 0 rounds w v h

  -- After `k` transient failures and a success, with no cancellation, the retry returns the value; it
  -- has slept `k` times, for 1, 2, 4, 8, 16 and then 30 seconds each, however large `k` is.
  pub retry-recovers :
      (k : ℕ) (w w' : World) (v : T)
      → Fails k w w'
      → (op w').0 ≡ ok v
      → retry is_transient op (calm (suc k)) w
        ≡ (record { result = some (ok (some v)); delays = schedule 0 k; world = (op w').1 })
  unfolding retry
  retry-recovers k w w' v f h = retry_from-recovers k 0 0 w w' v (inl refl) f h

permanent_connect :
    (e : StorageError)
    → is_transient_connect_error e ≡ false
    → (m : Text) × (e ≡ database (configuration m))
unfolding is_transient_connect_error
permanent_connect e h = ground arith

permanent_cause :
    (cause : MigrateError)
    → is_transient_migrate_error (migration cause) ≡ false
    → ((m : Text) → cause ≢ execute (io m))
      × (cause ≢ execute pool_timed_out)
      × (cause ≢ execute pool_closed)
unfolding is_transient_migrate_error is_connection_error
permanent_cause cause h = ground arith

module _ (x : Sqlx) where
  migrate-err :
      (pool : x.Pool) (w : x.World) (e : StorageError)
      → (migrate x pool w).0 ≡ err e
      → (cause : MigrateError) × (e ≡ migration cause)
  unfolding migrate
  migrate-err pool w e h = elim (Result-cases (x.run_migrations pool w).0) [
    | inl (done, ran) ↦ absurd (cc (rw ran at h))
    | inr (cause, stuck) ↦ (cause, cc (rw stuck at h))
  ]

  -- Connecting ends with an error only if sqlx refused the configuration, which is the error returned:
  -- any other failure is retried.
  pub connect_with_retry-err :
      (url : Text) (rounds : List (Round x.World)) (w : x.World) (e : StorageError)
      → (connect_with_retry x url rounds w).result ≡ some (err e)
      → (m : Text) × (e ≡ database (configuration m))
  unfolding connect_with_retry
  connect_with_retry-err url rounds w e h =
      elim (retry-cases is_transient_connect_error (connect x url) rounds w (err e) h) [
        | inl (w', t, found, same) ↦ absurd (cc)
        | inr (inl (w', e', failed, final, same)) ↦ permanent_connect e (cc)
        | inr (inr (cancelled, same)) ↦ absurd (cc)
      ]

  -- Migrating ends with an error only if a migration failed, and not for want of a connection.
  pub migrate_with_retry-err :
      (pool : x.Pool) (rounds : List (Round x.World)) (w : x.World) (e : StorageError)
      → (migrate_with_retry x pool rounds w).result ≡ some (err e)
      → (cause : MigrateError) × (e ≡ migration cause)
        × ((m : Text) → cause ≢ execute (io m))
        × (cause ≢ execute pool_timed_out)
        × (cause ≢ execute pool_closed)
  unfolding migrate_with_retry
  migrate_with_retry-err pool rounds w e h =
      elim (retry-cases is_transient_migrate_error (migrate x pool) rounds w (err e) h) [
        | inl (w', t, found, same) ↦ absurd (cc)
        | inr (inl (w', e', failed, final, same)) ↦
            let (cause, is_it) = migrate-err pool w' e (cc) in
            let (no_io, no_time_out, no_close) = permanent_cause cause (cc) in
            (cause, is_it, no_io, no_time_out, no_close)
        | inr (inr (cancelled, same)) ↦ absurd (cc)
      ]
