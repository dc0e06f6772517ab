-- ===== src/Std/ParseInt/Laws.antt =====
-- `parse::<u64>` reads back what `Display` prints, and its results are in range.
use bipa_coding_challenge.Common.{
  ℕ, ◌+◌, ◌-◌, ◌*◌, ◌^◌, ◌≤◌, ◌<◌, ◌≡◌, refl, [], ◌∷◌, Text, All, ok, length, arith,
}
use bipa_coding_challenge.Std.Decimal.{decimal}
use bipa_coding_challenge.Std.Decimal.Value.{IsDigit, value, value-decimal, decimal-All}
use bipa_coding_challenge.Std.Decimal.Width.{decimal-pos}
use bipa_coding_challenge.Std.ParseInt.{scan_u64, parse_u64}

scan_u64-lt : (n : ℕ) (s : Text) (r : ℕ) → n < 2 ^ 64 → scan_u64 n s ≡ ok r → r < 2 ^ 64
unfolding scan_u64
scan_u64-lt n [] r h e = ground arith
scan_u64-lt n (c ∷ s) r h e = ground (arith, scan_u64-lt (n * 10 + (c - b'0')) s r)

pub parse_u64-lt : (s : Text) (r : ℕ) → parse_u64 s ≡ ok r → r < 2 ^ 64
unfolding parse_u64
parse_u64-lt [] r e = ground arith
parse_u64-lt (c ∷ []) r e = ground (arith, scan_u64-lt 0 (c ∷ []) r)
parse_u64-lt (c ∷ d ∷ s) r e = ground (arith, scan_u64-lt 0 (d ∷ s) r, scan_u64-lt 0 (c ∷ d ∷ s) r)

le-value : (n : ℕ) (s : Text) → n ≤ value n s
le-value n [] = omega arith
le-value n (c ∷ s) = omega (arith, le-value (n * 10 + (c - b'0')) s)

scan_u64-value :
    (n : ℕ) (s : Text) → All IsDigit s → value n s < 2 ^ 64 → scan_u64 n s ≡ ok (value n s)
unfolding scan_u64
scan_u64-value n [] _ h = refl
scan_u64-value n (c ∷ s) (d, ds) h =
    ground (arith, scan_u64-value (n * 10 + (c - b'0')) s ds h, le-value (n * 10 + (c - b'0')) s)

parse_u64-digits :
    (s : Text) → 0 < length s → All IsDigit s → value 0 s < 2 ^ 64 → parse_u64 s ≡ ok (value 0 s)
unfolding parse_u64
parse_u64-digits [] p _ h = elim p [ ]
parse_u64-digits (c ∷ []) _ ds h = ground (arith, scan_u64-value 0 (c ∷ []) ds h)
parse_u64-digits (c ∷ d ∷ s) _ ds h = ground (arith, scan_u64-value 0 (c ∷ d ∷ s) ds h)

pub parse_u64-decimal : (n : ℕ) → n < 2 ^ 64 → parse_u64 (decimal n) ≡ ok n
parse_u64-decimal n h =
    rw (value-decimal n) at
      (parse_u64-digits (decimal n) (decimal-pos n) (decimal-All n) (rw (value-decimal n) h))
