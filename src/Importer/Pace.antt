-- ===== src/Importer/Pace.antt =====
-- The pace of the imports: never overlapping, never in a burst, and regular while they are short.
use mathlib.Core.Path.{ap₂}
use native.Mathlib.Decide.{dec_le}
use bipa_coding_challenge.Common.{
  ℕ, zero, suc, ◌+◌, ◌≤◌, ◌<◌, ◌≡◌, refl, ap, ◌∙◌, List, [], ◌∷◌, length, All, arith,
}
use bipa_coding_challenge.Importer.Timing.{delay, TokioTime, TokioTimeLaws, starts_from, starts}

-- Of imports that take these times and start at these instants, each starts after the one before has
-- ended, and no earlier than a period less the slack after it has started.
abbrev pub Paced : ℕ → ℕ → List ℕ → List ℕ → Type 0
Paced period slack (d ∷ ds) (a ∷ b ∷ later) =
    (a + d ≤ b) × (a + period ≤ b + slack) × Paced period slack ds (b ∷ later)
Paced period slack _ _ = Unit

-- `n` instants, a period apart.
abbrev pub every : ℕ → ℕ → ℕ → List ℕ
every period now zero = []
every period now (suc n) = now ∷ every period (now + period) n

module _ (t : TokioTime) (laws : TokioTimeLaws t) where
  open laws use {
    slack, period, deadline, behavior, period-interval, deadline-interval, period-set, deadline-set,
    behavior-set, period-tick, behavior-tick, early, due, deadline-on_time, deadline-missed,
  }

  -- A tick completes between its deadline and the next one less a period.
  ticked :
      (i : t.Interval) (now : ℕ)
      → behavior i ≡ delay
      → (now ≤ (t.tick i now).0)
        × ((t.tick i now).0 + period i ≤ deadline (t.tick i now).1 + slack)
        × (deadline i ≤ (t.tick i now).0)
  ticked i now b = elim (dec_le now (deadline i)) [
    | yes le ↦ omega (arith, early i now le, deadline-on_time i now (omega arith))
    | no late ↦ elim (dec_le now (deadline i + slack)) [
      | yes le ↦ omega (arith, due i now (omega arith), deadline-on_time i now le)
      | no missed ↦ omega (arith, due i now (omega arith), deadline-missed i now (omega arith) b)
    ]
  ]

  starts_from-Paced :
      (p : ℕ) (i : t.Interval) (now : ℕ) (durations : List ℕ)
      → period i ≡ p
      → behavior i ≡ delay
      → Paced p slack durations (starts_from t i now durations)
  unfolding starts_from
  starts_from-Paced p i now [] e b = tt
  starts_from-Paced p i now (d ∷ []) e b = tt
  starts_from-Paced p i now (d ∷ d' ∷ durations) e b =
      let a = (t.tick i now).0 in
      let i' = (t.tick i now).1 in
      let b' : behavior i' ≡ delay = behavior-tick i now ∙ b in
      let first = ticked i now b in
      let second = ticked i' (a + d) b' in
      (
        second.0,
        omega (arith, first, second, e),
        starts_from-Paced p i' (a + d) (d' ∷ durations) (period-tick i now ∙ e) b',
      )

  -- Whatever times the imports take, none starts before the one before it has ended, and two starts
  -- are at least the interval apart, less the timer's slack: imports never come in a burst.
  pub starts-Paced :
      (interval now : ℕ) (durations : List ℕ)
      → Paced interval slack durations (starts t interval now durations)
  unfolding starts
  starts-Paced interval now durations =
      starts_from-Paced interval _ now durations
        (period-set delay (t.interval interval now) ∙ period-interval interval now)
        (behavior-set delay (t.interval interval now))

  starts_from-every :
      (p : ℕ) (i : t.Interval) (now : ℕ) (durations : List ℕ)
      → period i ≡ p
      → now ≤ deadline i
      → All (λ d. d ≤ p) durations
      → starts_from t i now durations ≡ every p (deadline i) (length durations)
  unfolding starts_from
  starts_from-every p i now [] e le h = refl
  starts_from-every p i now (d ∷ durations) e le (short, h) =
      let fires = early i now le in
      let later : deadline (t.tick i now).1 ≡ deadline i + p =
        deadline-on_time i now (omega arith) ∙ ap (λ q. deadline i + q) e in
      ap₂ ◌∷◌ fires (
        starts_from-every p (t.tick i now).1 ((t.tick i now).0 + d) durations
          (period-tick i now ∙ e) (omega (arith, fires, later)) h
        ∙ ap (λ at_time. every p at_time (length durations)) later)

  deadline-start :
      (interval now : ℕ)
      → deadline (t.set_missed_tick_behavior delay (t.interval interval now)) ≡ now
  deadline-start interval now =
      deadline-set delay (t.interval interval now) ∙ deadline-interval interval now

  -- If no import takes longer than the interval, then the first one starts at once and each further one
  -- exactly an interval after the start of the one before.
  pub starts-every :
      (interval now : ℕ) (durations : List ℕ)
      → All (λ d. d ≤ interval) durations
      → starts t interval now durations ≡ every interval now (length durations)
  unfolding starts
  starts-every interval now durations short =
      starts_from-every interval _ now durations
        (period-set delay (t.interval interval now) ∙ period-interval interval now)
        (omega (arith, deadline-start interval now)) short
      ∙ ap (λ at_time. every interval at_time (length durations)) (deadline-start interval now)

  starts_from-overrun :
      (p : ℕ) (i : t.Interval) (now d d' d'' : ℕ)
      → period i ≡ p
      → behavior i ≡ delay
      → deadline i ≡ now
      → p + slack < d
      → d' ≤ p
      → starts_from t i now (d ∷ d' ∷ d'' ∷ []) ≡ now ∷ (now + d) ∷ (now + d + p) ∷ []
  unfolding starts_from
  starts_from-overrun p i now d d' d'' e b at_now over short =
      let i1 = (t.tick i now).1 in
      let first : (t.tick i now).0 ≡ now = due i now (omega (arith, at_now)) in
      let next : deadline i1 ≡ now + p =
        deadline-on_time i now (omega (arith, at_now)) ∙ omega (arith, at_now, e) in
      let i2 = (t.tick i1 (now + d)).1 in
      let second : (t.tick i1 (now + d)).0 ≡ now + d = due i1 (now + d) (omega (arith, next)) in
      let full : deadline i2 ≡ now + d + p =
        deadline-missed i1 (now + d) (omega (arith, next)) (behavior-tick i now ∙ b)
        ∙ ap (λ q. now + d + q) (period-tick i now ∙ e) in
      let third : (t.tick i2 (now + d + d')).0 ≡ now + d + p =
        early i2 (now + d + d') (omega (arith, full)) ∙ full in
      rw (first, second, third)

  -- An import that overruns the interval by more than the timer's slack is followed by the next one at
  -- the very instant at which it ends; only from there does the loop wait for a full interval.
  pub starts-overrun :
      (interval now d d' d'' : ℕ)
      → interval + slack < d
      → d' ≤ interval
      → starts t interval now (d ∷ d' ∷ d'' ∷ []) ≡ now ∷ (now + d) ∷ (now + d + interval) ∷ []
  unfolding starts
  starts-overrun interval now d d' d'' over short =
      starts_from-overrun interval _ now d d' d''
        (period-set delay (t.interval interval now) ∙ period-interval interval now)
        (behavior-set delay (t.interval interval now)) (deadline-start interval now) over short
