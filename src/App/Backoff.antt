-- ===== src/App/Backoff.antt =====
-- The delays of `backoff_delay`, for every attempt.
use bipa_coding_challenge.Common.{
  ℕ, zero, suc, ◌^◌, ◌≡◌, refl, ltb, Bool, true, ◌&&◌, ◌==◌, ◌<◌, ◌≤◌, inl, inr, if◌then◌else◌,
  le→ltb_false, Bool-cases, arith,
}
use bipa_coding_challenge.App.{backoff_delay}

-- 1, 2, 4, 8, 16, and 30 from then on.
abbrev pub doubling : ℕ → ℕ
doubling n = if ltb n 5 then 2 ^ n else 30

all_below : (ℕ → Bool) → ℕ → Bool
all_below p zero = true
all_below p (suc k) = p k && all_below p k

all_below-holds : (p : ℕ → Bool) (k n : ℕ) → all_below p k ≡ true → n < k → p n ≡ true
unfolding all_below
all_below-holds p zero n h lt = ground arith
all_below-holds p (suc k) n h lt = ground (arith, all_below-holds p k n)

agrees : ℕ → Bool
unfolding backoff_delay
agrees n = backoff_delay n == doubling n

table : all_below agrees 64 ≡ true
unfolding all_below agrees
table = refl

equal : (a b : ℕ) → a == b ≡ true → a ≡ b
equal a b h = ground arith

early : (n : ℕ) → n < 64 → backoff_delay n ≡ doubling n
unfolding agrees
early n lt = equal (backoff_delay n) (doubling n) (all_below-holds agrees 64 n table lt)

late : (n : ℕ) → 64 ≤ n → backoff_delay n ≡ doubling n
unfolding backoff_delay
late n le = rw (le→ltb_false n 64 le, le→ltb_false n 5 (omega arith)) refl

-- The delay before retry `n` is 2 ^ n seconds for the retries 0 to 4 and 30 seconds for every later
-- one: the shift never overflows into a shorter delay.
pub backoff_delay-doubling : (n : ℕ) → backoff_delay n ≡ doubling n
backoff_delay-doubling n = elim (Bool-cases (ltb n 64)) [
  | inl below ↦ early n (ground arith)
  | inr above ↦ late n (ground arith)
]
