-- ===== src/App/Signals.antt =====
-- src/main.rs, `cancel_on_shutdown_signal`: which signals cancel the service's token. tokio's signal
-- listeners are arguments: whether each can be installed, and the signals that have come. The log
-- lines are left out.
use bipa_coding_challenge.Common.{
  ◌≡◌, ◌↔◌, refl, ◌⊎◌, inl, inr, Bool, true, false, ◌||◌, Bool-cases, Text, List, [], ◌∷◌, Result,
  ok, err,
}

pub data Signal : Type 0 where
  interrupt terminate : Signal

abbrev pub is_signal : Signal → Signal → Bool
is_signal interrupt interrupt = true
is_signal terminate terminate = true
is_signal _ _ = false

abbrev pub arrives : Signal → List Signal → Bool
arrives kind [] = false
arrives kind (signal ∷ signals) = is_signal kind signal || arrives kind signals

-- Whether one of the two futures has completed. If its listener cannot be installed then it waits for
-- ever.
abbrev pub wait_for : Signal → Result (Unit {0}) Text → List Signal → Bool
wait_for kind (ok installed) signals = arrives kind signals
wait_for kind (err m) signals = false

-- The `select!` of the two futures: whether the token is cancelled.
unfoldable pub cancel_on_shutdown_signal :
    Result (Unit {0}) Text → Result (Unit {0}) Text → List Signal → Bool
cancel_on_shutdown_signal ctrl_c sigterm signals =
    wait_for interrupt ctrl_c signals || wait_for terminate sigterm signals

-- The signal is among those that have come.
pub data Came (kind : Signal) : List Signal → Type 0 where
  now : {signals : List Signal} → Came kind (kind ∷ signals)
  later :
      {signals : List Signal} (signal : Signal) → Came kind signals → Came kind (signal ∷ signals)

arrives-Came :
    (kind : Signal) (signals : List Signal) → arrives kind signals ≡ true → Came kind signals
arrives-Came kind [] h = absurd (cc)
arrives-Came interrupt (interrupt ∷ signals) h = now
arrives-Came interrupt (terminate ∷ signals) h = later terminate (arrives-Came interrupt signals h)
arrives-Came terminate (terminate ∷ signals) h = now
arrives-Came terminate (interrupt ∷ signals) h = later interrupt (arrives-Came terminate signals h)

is_signal-same : (kind : Signal) → is_signal kind kind ≡ true
is_signal-same interrupt = refl
is_signal-same terminate = refl

Came-arrives :
    {kind : Signal} {signals : List Signal} → Came kind signals → arrives kind signals ≡ true
Came-arrives {kind} now = rw (is_signal-same kind) refl
Came-arrives {kind} (later signal came) = elim (Bool-cases (is_signal kind signal)) [
  | inl e ↦ rw e refl
  | inr e ↦ rw e (Came-arrives came)
]

wait_for_iff :
    (kind : Signal) (listener : Result (Unit {0}) Text) (signals : List Signal)
    → (wait_for kind listener signals ≡ true) ↔ ((listener ≡ ok tt) × Came kind signals)
wait_for_iff kind (ok installed) signals =
    (λ h. (refl, arrives-Came kind signals h), λ (_, came). Came-arrives came)
wait_for_iff kind (err m) signals = (λ h. absurd (cc), λ (e, _). absurd (cc))

-- The token is cancelled exactly when one of the two signals has come whose listener could be
-- installed: a listener that fails never stops the service, and never keeps the other from stopping it.
pub cancel_on_shutdown_signal_iff :
    (ctrl_c sigterm : Result (Unit {0}) Text) (signals : List Signal)
    → (cancel_on_shutdown_signal ctrl_c sigterm signals ≡ true)
      ↔ (((ctrl_c ≡ ok tt) × Came interrupt signals) ⊎ ((sigterm ≡ ok tt) × Came terminate signals))
unfolding cancel_on_shutdown_signal
cancel_on_shutdown_signal_iff ctrl_c sigterm signals =
    let first = wait_for_iff interrupt ctrl_c signals in
    let second = wait_for_iff terminate sigterm signals in
    (
      λ h. elim (Bool-cases (wait_for interrupt ctrl_c signals)) [
        | inl e ↦ inl (first.0 e)
        | inr e ↦ inr (second.0 (cc (rw e at h)))
      ],
      λ came. elim came [
        | inl c ↦ rw (first.1 c) refl
        | inr c ↦ elim (Bool-cases (wait_for interrupt ctrl_c signals)) [
          | inl e ↦ rw e refl
          | inr e ↦ rw e (second.1 c)
        ]
      ],
    )
