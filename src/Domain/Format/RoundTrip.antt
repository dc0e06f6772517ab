-- ===== src/Domain/Format/RoundTrip.antt =====
-- The printed amount has exactly one form, and stands for exactly the satoshis.
use native.Mathlib.Decide.{dec_lt}
use bipa_coding_challenge.Common.{
  ◌⊎◌, inl, inr, ℕ, ◌+◌, ◌-◌, ◌*◌, ◌/◌, ◌%◌, ◌≤◌, ◌<◌, ◌≡◌, refl, Option, none, some, [], ◌∷◌, ◌++◌,
  Text, codes, ◌==◌, if◌then◌else◌, length, All, arith, ◌∙◌,
}
use bipa_coding_challenge.Std.Decimal.{decimal, pad_zeros}
use bipa_coding_challenge.Std.Decimal.Value.{
  IsDigit, value, value-decimal, decimal-All, value-pad_zeros, pad_zeros-All,
}
use bipa_coding_challenge.Std.Decimal.Width.{
  Leads, decimal-Leads, decimal-pos, length-decimal, length-pad_zeros,
}
use bipa_coding_challenge.Domain.Format.{sats_per_btc, format_btc}

-- A reader that is independent of the printer: the amount before the point in BTC, and after it
-- exactly eight decimals; `none` for any other number of decimals.
pub read_decimals : ℕ → Text → Option ℕ
read_decimals whole frac =
    if length frac == 8 then some (whole * sats_per_btc + value 0 frac) else none

pub read_from : ℕ → Text → Option ℕ
read_from whole [] = none
read_from whole (c ∷ s) =
    let next = read_from (whole * 10 + (c - b'0')) s in
    if c == b'.' then read_decimals whole s else next

unfoldable pub read_btc : Text → Option ℕ
unfolding read_from read_decimals
read_btc s = read_from 0 s

read_from-digits :
    (s rest : Text) (n : ℕ)
    → All IsDigit s
    → read_from n (s ++ b'.' ∷ rest) ≡ read_decimals (value n s) rest
unfolding read_from
read_from-digits [] rest n _ = refl
read_from-digits (c ∷ s) rest n (d, ds) =
    ground (arith, read_from-digits s rest (n * 10 + (c - b'0')) ds)

decimals : ℕ → Text
decimals sats = pad_zeros 8 (decimal (sats % sats_per_btc))

length-decimals : (sats : ℕ) → length (decimals sats) ≡ 8
unfolding decimals
length-decimals sats = length-pad_zeros 8 _ (length-decimal 7 (sats % sats_per_btc) (omega arith))

value-decimals : (sats : ℕ) → value 0 (decimals sats) ≡ sats % sats_per_btc
unfolding decimals
value-decimals sats = value-pad_zeros 8 _ ∙ value-decimal (sats % sats_per_btc)

read_decimals-decimals :
    (sats : ℕ) → read_decimals (sats / sats_per_btc) (decimals sats) ≡ some sats
unfolding read_decimals
read_decimals-decimals sats = ground (arith, length-decimals sats, value-decimals sats)

-- For every number of satoshis, of any size, an independent reader of BTC amounts with eight
-- decimals reads the formatted capacity back as exactly that number.
pub read_btc-format_btc : (sats : ℕ) → read_btc (format_btc sats) ≡ some sats
unfolding read_btc format_btc decimals
read_btc-format_btc sats =
    read_from-digits (decimal (sats / sats_per_btc)) (decimals sats) 0
      (decimal-All (sats / sats_per_btc))
    ∙ rw (value-decimal (sats / sats_per_btc)) (read_decimals-decimals sats)

-- The form of an amount: digits with no needless zero in front, a point, and eight digits.
pub record IsAmount (sats : ℕ) (s : Text) : Type 0 where
  pub whole : Text
  pub frac : Text
  pub split : s ≡ whole ++ b'.' ∷ frac
  pub whole_digits : All IsDigit whole
  pub frac_digits : All IsDigit frac
  pub eight : length frac ≡ 8
  pub some_digit : 0 < length whole
  pub no_padding :
      ((sats < sats_per_btc) × (whole ≡ codes "0")) ⊎ ((sats_per_btc ≤ sats) × Leads whole)

below_one : (n : ℕ) → n ≡ 0 → decimal n ≡ codes "0"
unfolding decimal
below_one n h = rw h

-- Every formatted capacity is a non-empty run of digits, a point and exactly eight digits; the run
-- before the point is "0" below one BTC, and has no leading zero from one BTC on.
pub format_btc-IsAmount : (sats : ℕ) → IsAmount sats (format_btc sats)
unfolding format_btc decimals
format_btc-IsAmount sats = record {
  whole = decimal (sats / sats_per_btc);
  frac = decimals sats;
  split = refl;
  whole_digits = decimal-All (sats / sats_per_btc);
  frac_digits = pad_zeros-All 8 _ (decimal-All (sats % sats_per_btc));
  eight = length-decimals sats;
  some_digit = decimal-pos (sats / sats_per_btc);
  no_padding = elim (dec_lt sats sats_per_btc) [
    | yes h ↦ inl (h, below_one (sats / sats_per_btc) (omega arith))
    | no h ↦ inr (omega arith, decimal-Leads (sats / sats_per_btc) (omega arith))
  ];
}
