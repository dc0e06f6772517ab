-- ===== src/Tests/App.antt =====
-- Retries against a database server that refuses its first connections.
use bipa_coding_challenge.Common.{
  ℕ, ◌≡◌, ◌↔◌, refl, ◌⊎◌, true, false, Option, none, some, Result, ok, err, [], ◌∷◌, codes, Text,
}
use bipa_coding_challenge.Storage.{StorageError, io, database}
use bipa_coding_challenge.Storage.Connect.{connect}
use bipa_coding_challenge.App.{cancelled_before, ended, retry, is_transient_connect_error}
use bipa_coding_challenge.App.Retry.{
  cancels, calm, Fails, none_yet, once_more, retry-cases, retry-recovers,
}
use bipa_coding_challenge.App.Cancelled.{retry-cancels}
use bipa_coding_challenge.App.Signals.{
  interrupt, terminate, cancel_on_shutdown_signal, Came, cancel_on_shutdown_signal_iff,
}
use bipa_coding_challenge.Tests.Outside.{slow_sqlx}

abbrev url : Text
url = codes "postgres://localhost/bipa"

abbrev refused : StorageError
refused = database (io (codes "connection refused"))

two_refusals : Fails is_transient_connect_error (connect slow_sqlx url) 2 2 0
unfolding connect is_transient_connect_error
two_refusals = once_more 1 2 0 refused refl refl (once_more 0 1 0 refused refl refl (none_yet 0))

retry-recovers_example :
    retry is_transient_connect_error (connect slow_sqlx url) (calm 3) 2
    ≡ (record { result = some (ok (some url)); delays = 1 ∷ 2 ∷ []; world = 0 })
unfolding connect
retry-recovers_example =
    retry-recovers is_transient_connect_error (connect slow_sqlx url) 2 2 0 url two_refusals refl

abbrev stopped : Result (Option Text) StorageError
stopped = ok none

retry-cases_example :
    ((w' : ℕ) × (t : Text) × ((connect slow_sqlx url w').0 ≡ ok t) × (stopped ≡ ok (some t)))
    ⊎ ((w' : ℕ) × (e : StorageError) × ((connect slow_sqlx url w').0 ≡ err e)
        × (is_transient_connect_error e ≡ false)
        × (stopped ≡ err e))
    ⊎ ((cancels {World = ℕ} (ended false ∷ cancelled_before ∷ []) ≡ true) × (stopped ≡ ok none))
unfolding retry connect is_transient_connect_error
retry-cases_example =
    retry-cases is_transient_connect_error (connect slow_sqlx url)
      (ended false ∷ cancelled_before ∷ []) 2 stopped refl

retry-cancels_example :
    (v : Result (Option Text) StorageError) × ((retry is_transient_connect_error
        (connect slow_sqlx url)
        (ended false ∷ cancelled_before ∷ [])
        2).result
      ≡ some v)
retry-cancels_example =
    retry-cancels is_transient_connect_error (connect slow_sqlx url)
      (ended false ∷ cancelled_before ∷ []) 2 refl

abbrev no_handler : Result (Unit {0}) Text
no_handler = err (codes "no handler")

abbrev installed : Result (Unit {0}) Text
installed = ok tt

cancel_on_shutdown_signal_iff_example :
    (cancel_on_shutdown_signal no_handler installed (interrupt ∷ terminate ∷ []) ≡ true) ↔ (
      ((no_handler ≡ ok tt) × Came interrupt (interrupt ∷ terminate ∷ []))
      ⊎ ((installed ≡ ok tt) × Came terminate (interrupt ∷ terminate ∷ [])))
cancel_on_shutdown_signal_iff_example =
    cancel_on_shutdown_signal_iff no_handler installed (interrupt ∷ terminate ∷ [])
