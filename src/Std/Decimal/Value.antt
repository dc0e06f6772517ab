-- ===== src/Std/Decimal/Value.antt =====
-- What a decimal text stands for: the printed digits spell the number.
use bipa_coding_challenge.Common.{
  ℕ, zero, suc, ◌+◌, ◌-◌, ◌*◌, ◌/◌, ◌%◌, ◌≤◌, ◌<◌, ◌≡◌, refl, [], ◌∷◌, ◌++◌, Text, All, All-append,
  All-replicate, replicate, length, arith,
}
use bipa_coding_challenge.Std.Decimal.{decimal_from, decimal, pad_zeros}

abbrev pub IsDigit : ℕ → Type 0
IsDigit c = (b'0' ≤ c) × (c ≤ b'9')

-- The number that the digits spell behind `n`.
abbrev pub value : ℕ → Text → ℕ
value n [] = n
value n (c ∷ s) = value (n * 10 + (c - b'0')) s

pub value-append : (n : ℕ) (s t : Text) → value n (s ++ t) ≡ value (value n s) t
value-append n [] t = refl
value-append n (c ∷ s) t = value-append (n * 10 + (c - b'0')) s t

value-decimal_from : (f n : ℕ) → n < f → value 0 (decimal_from f n) ≡ n
unfolding decimal_from
value-decimal_from zero n h = elim h [ ]
value-decimal_from (suc f) n h = ground (
  arith,
  value-append 0 (decimal_from f (n / 10)) ((b'0' + n % 10) ∷ []),
  value-decimal_from f (n / 10),
)

pub value-decimal : (n : ℕ) → value 0 (decimal n) ≡ n
unfolding decimal
value-decimal n = value-decimal_from (suc n) n (omega arith)

decimal_from-All : (f n : ℕ) → All IsDigit (decimal_from f n)
unfolding decimal_from
decimal_from-All zero n = tt
decimal_from-All (suc f) n = ground (
  arith,
  All-append IsDigit (decimal_from f (n / 10)) ((b'0' + n % 10) ∷ []) (decimal_from-All f (n / 10)),
)

pub decimal-All : (n : ℕ) → All IsDigit (decimal n)
unfolding decimal
decimal-All n = decimal_from-All (suc n) n

pub value-replicate : (k : ℕ) → value 0 (replicate k b'0') ≡ 0
value-replicate zero = refl
value-replicate (suc k) = value-replicate k

pub value-pad_zeros : (w : ℕ) (s : Text) → value 0 (pad_zeros w s) ≡ value 0 s
unfolding pad_zeros
value-pad_zeros w s =
    ground (arith, value-append 0 (replicate (w - length s) b'0') s, value-replicate (w - length s))

pub pad_zeros-All : (w : ℕ) (s : Text) → All IsDigit s → All IsDigit (pad_zeros w s)
unfolding pad_zeros
pad_zeros-All w s h =
    All-append IsDigit (replicate (w - length s) b'0') s
      (All-replicate IsDigit (w - length s) b'0' (omega arith)) h
