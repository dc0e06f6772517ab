-- ===== src/App/Cancelled.antt =====
-- Shutdown ends a retry.
use bipa_coding_challenge.Common.{
  ℕ, ◌≡◌, refl, Bool, true, false, Bool-cases, inl, inr, Option, none, some, List, [], ◌∷◌, Result,
  ok, err,
}
use bipa_coding_challenge.App.{
  Round, cancelled_before, cancelled_during, ended, Retried, settle, next_attempt, retry_from,
  retry,
}
use bipa_coding_challenge.App.Retry.{cancels}

module _ {World T E : Type 0} (is_transient : E → Bool) (op : World → Result T E × World) where
  settle-some :
      (attempt : ℕ) (asleep : Bool) (done : Result T E × World) (rest : Retried World T E)
      → (asleep ≡ false → (v : Result (Option T) E) × (rest.result ≡ some v))
      → (v : Result (Option T) E) × ((settle is_transient op attempt asleep done rest).result
          ≡ some v)
  settle-some attempt asleep (ok value, w) rest h = (ok (some value), refl)
  settle-some attempt asleep (err e, w) rest h = elim (Bool-cases (is_transient e)) [
    | inl again ↦ elim (Bool-cases asleep) [
      | inl stopped ↦ (ok none, rw (again, stopped) refl)
      | inr awake ↦ let (v, same) = h awake in (v, rw (again, awake) same)
    ]
    | inr final ↦ (err e, rw final refl)
  ]

  retry_from-cancels :
      (attempt : ℕ) (rounds : List (Round World)) (w : World)
      → cancels rounds ≡ true
      → (v : Result (Option T) E) × ((retry_from is_transient op attempt rounds w).result ≡ some v)
  unfolding retry_from
  retry_from-cancels attempt [] w h = absurd (cc)
  retry_from-cancels attempt (cancelled_before ∷ rounds) w h = (ok none, refl)
  retry_from-cancels attempt (cancelled_during w' ∷ rounds) w h = (ok none, refl)
  retry_from-cancels attempt (ended asleep ∷ rounds) w h =
      settle-some attempt asleep (op w) _
        λ awake. retry_from-cancels (next_attempt attempt) rounds (op w).1 (cc (rw awake at h))

  -- Whatever the operation does, a retry ends by the round in which the token is cancelled, if not
  -- before: it never waits on.
  pub retry-cancels :
      (rounds : List (Round World)) (w : World)
      → cancels rounds ≡ true
      → (v : Result (Option T) E) × ((retry is_transient op rounds w).result ≡ some v)
  unfolding retry
  retry-cancels rounds w h = retry_from-cancels 0 rounds w h
