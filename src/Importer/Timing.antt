-- ===== src/Importer/Timing.antt =====
-- src/importer.rs, `run`: when the imports start. tokio's `Interval` is a parameter; instants and times
-- are in milliseconds.
use bipa_coding_challenge.Common.{ℕ, ◌+◌, ◌≤◌, ◌<◌, ◌≡◌, List, [], ◌∷◌}

pub data MissedTickBehavior : Type 0 where
  burst delay skip : MissedTickBehavior

pub record TokioTime : Type 1 where
  pub Interval : Type 0
  -- `tokio::time::interval(period)` at an instant
  pub interval : ℕ → ℕ → Interval
  pub set_missed_tick_behavior : MissedTickBehavior → Interval → Interval
  -- `tick().await` at an instant: the instant at which it completes
  pub tick : Interval → ℕ → ℕ × Interval

-- What tokio documents: the first tick completes at once; a tick that is awaited before its deadline
-- completes there, and one that is awaited later completes at once. The next deadline is a period
-- after the last one, but where the tick was missed by more than some slack and the behaviour is
-- `Delay` it is a period after the tick completed.
pub record TokioTimeLaws (t : TokioTime) : Type 0 where
  pub slack : ℕ
  pub period : t.Interval → ℕ
  pub deadline : t.Interval → ℕ
  pub behavior : t.Interval → MissedTickBehavior
  pub period-interval : (p now : ℕ) → period (t.interval p now) ≡ p
  pub deadline-interval : (p now : ℕ) → deadline (t.interval p now) ≡ now
  pub period-set :
      (b : MissedTickBehavior) (i : t.Interval) → period (t.set_missed_tick_behavior b i) ≡ period i
  pub deadline-set :
      (b : MissedTickBehavior) (i : t.Interval)
      → deadline (t.set_missed_tick_behavior b i) ≡ deadline i
  pub behavior-set :
      (b : MissedTickBehavior) (i : t.Interval) → behavior (t.set_missed_tick_behavior b i) ≡ b
  pub period-tick : (i : t.Interval) (now : ℕ) → period (t.tick i now).1 ≡ period i
  pub behavior-tick : (i : t.Interval) (now : ℕ) → behavior (t.tick i now).1 ≡ behavior i
  pub early : (i : t.Interval) (now : ℕ) → now ≤ deadline i → (t.tick i now).0 ≡ deadline i
  pub due : (i : t.Interval) (now : ℕ) → deadline i ≤ now → (t.tick i now).0 ≡ now
  pub deadline-on_time :
      (i : t.Interval) (now : ℕ)
      → now ≤ deadline i + slack
      → deadline (t.tick i now).1 ≡ deadline i + period i
  pub deadline-missed :
      (i : t.Interval) (now : ℕ)
      → deadline i + slack < now
      → behavior i ≡ delay
      → deadline (t.tick i now).1 ≡ now + period i

module _ (t : TokioTime) where
  -- The loop from an instant on: the import of each round starts when the tick completes, and the next
  -- tick is awaited when the import has ended; `durations` are the times that the imports take.
  unfoldable pub starts_from : t.Interval → ℕ → List ℕ → List ℕ
  starts_from ticker now [] = []
  starts_from ticker now (duration ∷ durations) =
      let ticked = t.tick ticker now in
      ticked.0 ∷ starts_from ticked.1 (ticked.0 + duration) durations

  -- The instants at which the imports of `run(interval, …)` start, if it is called at `now`.
  unfoldable pub starts : ℕ → ℕ → List ℕ → List ℕ
  unfolding starts_from
  starts interval now durations =
      starts_from (t.set_missed_tick_behavior delay (t.interval interval now)) now durations
