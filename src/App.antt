-- ===== src/App.antt =====
-- src/app.rs: the start of the service, where the database is waited for with exponential backoff.
-- tokio's timer and cancellation token appear as what a retry sees of them, one `Round` for each turn
-- of its loop.
pub mod Backoff
pub mod Retry
pub mod Cancelled
pub mod Service
pub mod Ended
pub mod Shutdown
pub mod Signals
use bipa_coding_challenge.Common.{
  ℕ, ◌+◌, ◌-◌, ◌%◌, ◌^◌, Bool, true, false, Option, none, some, Text, List, [], ◌∷◌, ltb,
  if◌then◌else◌, Result, ok, err,
}
use bipa_coding_challenge.Storage.{
  SqlxError, configuration, io, pool_timed_out, pool_closed, StorageError, database, migration,
  execute,
}
use bipa_coding_challenge.Storage.Connect.{Sqlx, connect, migrate}

-- in seconds
abbrev pub max_backoff : ℕ
max_backoff = 30

-- `a.min(b)`
abbrev pub min : ℕ → ℕ → ℕ
min a b = if ltb b a then b else a

-- `1u64.checked_shl(attempt)`
abbrev pub checked_shl_one : ℕ → Option ℕ
checked_shl_one attempt = if ltb attempt 64 then some (2 ^ attempt % 2 ^ 64) else none

abbrev pub unwrap_or_max : Option ℕ → ℕ
unwrap_or_max none = 2 ^ 64 - 1
unwrap_or_max (some n) = n

-- The delay in seconds; `attempt` is a `u32`.
unfoldable pub backoff_delay : ℕ → ℕ
backoff_delay attempt = min (unwrap_or_max (checked_shl_one attempt)) max_backoff

-- `attempt.saturating_add(1)`
abbrev pub next_attempt : ℕ → ℕ
next_attempt attempt = min (attempt + 1) (2 ^ 32 - 1)

-- One turn of the loop. Both `select!`s are biased: cancellation wins over what is ready.
pub data Round (World : Type 0) : Type 0 where
  -- the token is cancelled before the operation starts, or while it runs; the operation is then
  -- dropped, and leaves the world it has come to
  cancelled_before : Round World
  cancelled_during : World → Round World
  -- the operation ends; the token is cancelled, or not, during the delay if there is one
  ended : Bool → Round World

-- What a retry comes to: `none` while the rounds given have not ended it. `delays` are the sleeps it
-- started.
pub record Retried (World T E : Type 0) : Type 0 where
  pub result : Option (Result (Option T) E)
  pub delays : List ℕ
  pub world : World

module _ {World T E : Type 0} where
  abbrev pub after_delay : ℕ → Retried World T E → Retried World T E
  after_delay d rest = record { result = rest.result; delays = d ∷ rest.delays; world = rest.world }

  abbrev pub stop : Option (Result (Option T) E) → World → Retried World T E
  stop r w = record { result = r; delays = []; world = w }

  module _ (is_transient : E → Bool) (op : World → Result T E × World) where
    -- What the loop does with a result of the operation; `rest` are its further turns.
    abbrev pub settle : ℕ → Bool → Result T E × World → Retried World T E → Retried World T E
    settle attempt cancelled_asleep (ok value, w) rest = stop (some (ok (some value))) w
    settle attempt cancelled_asleep (err e, w) rest =
        if is_transient e
        then after_delay (backoff_delay attempt)
            (if cancelled_asleep then stop (some (ok none)) w else rest)
        else (stop (some (err e)) w)

    pub retry_from : ℕ → List (Round World) → World → Retried World T E
    retry_from attempt [] w = stop none w
    retry_from attempt (cancelled_before ∷ rounds) w = stop (some (ok none)) w
    retry_from attempt (cancelled_during w' ∷ rounds) w = stop (some (ok none)) w'
    retry_from attempt (ended asleep ∷ rounds) w =
        let rest = retry_from (next_attempt attempt) rounds (op w).1 in
        settle attempt asleep (op w) rest

    unfoldable pub retry : List (Round World) → World → Retried World T E
    unfolding retry_from
    retry rounds w = retry_from 0 rounds w

unfoldable pub is_transient_connect_error : StorageError → Bool
is_transient_connect_error (database (configuration _)) = false
is_transient_connect_error _ = true

unfoldable pub is_connection_error : SqlxError → Bool
is_connection_error (io _) = true
is_connection_error pool_timed_out = true
is_connection_error pool_closed = true
is_connection_error _ = false

unfoldable pub is_transient_migrate_error : StorageError → Bool
unfolding is_connection_error
is_transient_migrate_error (database e) = is_connection_error e
is_transient_migrate_error (migration (execute e)) = is_connection_error e
is_transient_migrate_error _ = false

module _ (x : Sqlx) where
  unfoldable pub connect_with_retry :
      Text → List (Round x.World) → x.World → Retried x.World x.Pool StorageError
  unfolding retry connect is_transient_connect_error
  connect_with_retry database_url rounds w =
      retry is_transient_connect_error (connect x database_url) rounds w

  unfoldable pub migrate_with_retry :
      x.Pool → List (Round x.World) → x.World → Retried x.World (Unit {0}) StorageError
  unfolding retry migrate is_transient_migrate_error
  migrate_with_retry pool rounds w = retry is_transient_migrate_error (migrate x pool) rounds w
