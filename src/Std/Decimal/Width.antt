-- ===== src/Std/Decimal/Width.antt =====
-- How long a printed number is, and that it has no leading zero.
use native.Mathlib.Nat.{pow-suc}
use bipa_coding_challenge.Common.{
  ℕ, zero, suc, ◌+◌, ◌-◌, ◌/◌, ◌%◌, ◌^◌, ◌≤◌, ◌<◌, ◌≡◌, ◌≢◌, [], ◌∷◌, ◌++◌, Text, length,
  length-append, length-replicate, replicate, arith,
}
use bipa_coding_challenge.Std.Decimal.{decimal_from, decimal, pad_zeros}

pub length-decimal_from : (k f n : ℕ) → n < 10 ^ suc k → length (decimal_from f n) ≤ suc k
unfolding decimal_from
length-decimal_from k zero n h = omega arith
length-decimal_from zero (suc f) n h = ground arith
length-decimal_from (suc k) (suc f) n h = ground (
  arith,
  pow-suc 10 (suc k),
  length-append (decimal_from f (n / 10)) ((b'0' + n % 10) ∷ []),
  length-decimal_from k f (n / 10),
)

pub length-decimal : (k n : ℕ) → n < 10 ^ suc k → length (decimal n) ≤ suc k
unfolding decimal
length-decimal k n h = length-decimal_from k (suc n) n h

decimal_from-pos : (f n : ℕ) → n < f → 0 < length (decimal_from f n)
unfolding decimal_from
decimal_from-pos zero n h = elim h [ ]
decimal_from-pos (suc f) n h =
    ground (arith, length-append (decimal_from f (n / 10)) ((b'0' + n % 10) ∷ []))

pub decimal-pos : (n : ℕ) → 0 < length (decimal n)
unfolding decimal
decimal-pos n = decimal_from-pos (suc n) n (omega arith)

pub length-pad_zeros : (w : ℕ) (s : Text) → length s ≤ w → length (pad_zeros w s) ≡ w
unfolding pad_zeros
length-pad_zeros w s h = omega (
  arith,
  length-append (replicate (w - length s) b'0') s,
  length-replicate {A = ℕ} (w - length s) b'0',
)

-- The first character is there and is not a zero.
abbrev pub Leads : Text → Type 0
Leads [] = ⊥
Leads (c ∷ _) = c ≢ b'0'

Leads-append : (s t : Text) → Leads s → Leads (s ++ t)
Leads-append [] t h = absurd h
Leads-append (c ∷ s) t h = h

decimal_from-Leads : (f n : ℕ) → n < f → 0 < n → Leads (decimal_from f n)
unfolding decimal_from
decimal_from-Leads zero n h p = elim h [ ]
decimal_from-Leads (suc f) n h p = ground (
  arith,
  Leads-append (decimal_from f (n / 10)) ((b'0' + n % 10) ∷ []),
  decimal_from-Leads f (n / 10),
)

pub decimal-Leads : (n : ℕ) → 0 < n → Leads (decimal n)
unfolding decimal
decimal-Leads n p = decimal_from-Leads (suc n) n (omega arith) p
