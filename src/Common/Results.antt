-- ===== src/Common/Results.antt =====
-- Rust's `Result`, the `?` operator as bind, and what a call or a task that may panic returns.
use Prim.Native.Nat.{ℕ}
use mathlib.Core.Path.{◌≡◌, refl}
use mathlib.Core.Logic.{◌⊎◌, inl, inr}
use mathlib.Core.Option.{Option, none, some}
use mathlib.Core.List.{List}

pub data Result {ℓ κ} (A : Type ℓ) (E : Type κ) : Type (ℓ ⊔ κ) where
  ok : A → Result A E
  err : E → Result A E

module _ {ℓ κ} {A : Type ℓ} {E : Type κ} where
  infixl 5 ◌>>=◌
  abbrev pub ◌>>=◌ {ν} : {B : Type ν} → Result A E → (A → Result B E) → Result B E
  ok value >>= next = next value
  err failure >>= next = err failure

  abbrev pub map_err {ν} : {F : Type ν} → (E → F) → Result A E → Result A F
  map_err f (ok a) = ok a
  map_err f (err e) = err (f e)

  abbrev pub ok_or : E → Option A → Result A E
  ok_or e none = err e
  ok_or e (some a) = ok a

  pub Result-cases : (r : Result A E) → ((a : A) × (r ≡ ok a)) ⊎ ((e : E) × (r ≡ err e))
  Result-cases (ok a) = inl (a, refl)
  Result-cases (err e) = inr (e, refl)

module _ {ℓ κ ν} {A : Type ℓ} {B : Type ν} {E : Type κ} where
  -- What a chain of two fallible steps came to says what each of them came to.
  pub >>=-eq-ok :
      (first : Result A E) (next : A → Result B E) {end_value : B}
      → (first >>= next) ≡ ok end_value
      → (mid : A) × (first ≡ ok mid) × (next mid ≡ ok end_value)
  >>=-eq-ok first next whole = elim (Result-cases first) [
    | inl (mid, e) ↦ (mid, e, cc (rw e at whole))
    | inr (x, e) ↦ absurd (cc (rw e at whole))
  ]

-- What a call of code that may panic comes to; a panic carries its message.
pub data Call {ℓ} (A : Type ℓ) : Type ℓ where
  returned : A → Call A
  panicked : List ℕ → Call A

-- The ways in which a fallible call can go.
pub Call-cases {ℓ κ} :
    {A : Type ℓ} {E : Type κ} (c : Call (Result A E))
    → ((a : A) × (c ≡ returned (ok a)))
      ⊎ ((e : E) × (c ≡ returned (err e)))
      ⊎ ((m : List ℕ) × (c ≡ panicked m))
Call-cases (returned (ok a)) = inl (a, refl)
Call-cases (returned (err e)) = inr (inl (e, refl))
Call-cases (panicked m) = inr (inr (m, refl))
