-- ===== src/Tests/Timing.antt =====
-- The timer with a slack of 5 milliseconds, and imports of several lengths.
use bipa_coding_challenge.Common.{ℕ, ◌+◌, ◌-◌, ◌%◌, ◌≡◌, refl, [], ◌∷◌, ltb, if◌then◌else◌, arith}
use bipa_coding_challenge.Importer.Timing.{
  MissedTickBehavior, burst, delay, skip, TokioTime, TokioTimeLaws, starts,
}
use bipa_coding_challenge.Importer.Pace.{Paced, starts-Paced, starts-overrun}

pub record Ticker : Type 0 where
  pub period : ℕ
  pub deadline : ℕ
  pub behavior : MissedTickBehavior

abbrev pub missed : MissedTickBehavior → ℕ → ℕ → ℕ → ℕ
missed burst period deadline now = deadline + period
missed delay period deadline now = now + period
missed skip period deadline now = now + period - (now - deadline) % period

abbrev pub millis : TokioTime
millis = record {
  Interval = Ticker;
  interval = λ p now. record { period = p; deadline = now; behavior = burst };
  set_missed_tick_behavior = λ b i. record i { behavior = b };
  tick = λ i now. (
    if ltb now i.deadline then i.deadline else now,
    record i {
      deadline =
          if ltb (i.deadline + 5) now
          then missed i.behavior i.period i.deadline now
          else (i.deadline + i.period);
    },
  );
}

abbrev millis_laws : TokioTimeLaws millis
millis_laws = record {
  slack = 5;
  period = λ i. i.period;
  deadline = λ i. i.deadline;
  behavior = λ i. i.behavior;
  period-interval = λ p now. refl;
  deadline-interval = λ p now. refl;
  period-set = λ b i. refl;
  deadline-set = λ b i. refl;
  behavior-set = λ b i. refl;
  period-tick = λ i now. refl;
  behavior-tick = λ i now. refl;
  early = λ i now h. ground arith;
  due = λ i now h. ground arith;
  deadline-on_time = λ i now h. ground arith;
  deadline-missed = λ i now h b. ground arith;
}

starts-Paced_example :
    Paced 60_000 5
      (80_000 ∷ 1_000 ∷ 1_000 ∷ [])
      (starts millis 60_000 0 (80_000 ∷ 1_000 ∷ 1_000 ∷ []))
starts-Paced_example = starts-Paced millis millis_laws 60_000 0 (80_000 ∷ 1_000 ∷ 1_000 ∷ [])

starts-overrun_example :
    starts millis 60_000 0 (80_000 ∷ 1_000 ∷ 1_000 ∷ []) ≡ 0 ∷ 80_000 ∷ 140_000 ∷ []
starts-overrun_example =
    starts-overrun millis millis_laws 60_000 0 80_000 1_000 1_000 (omega arith) (omega arith)
