-- ===== src/Std/Decimal.antt =====
-- `Display` of `u64` (format!("{}", n)), and its zero padding (format!("{:08}", n)).
pub mod Value
pub mod Width
use bipa_coding_challenge.Common.{
  ℕ, zero, suc, ◌+◌, ◌-◌, ◌/◌, ◌%◌, ◌≡◌, refl, [], ◌∷◌, ◌++◌, Text, codes, ltb, if◌then◌else◌,
  length, replicate,
}

-- The decimal digits of `n`, on fuel: one round for each digit.
pub decimal_from : ℕ → ℕ → Text
decimal_from zero n = []
decimal_from (suc f) n =
    let longer = decimal_from f (n / 10) ++ (b'0' + n % 10) ∷ [] in
    if ltb n 10 then (b'0' + n) ∷ [] else longer

-- `n + 1` rounds are always enough, since each round divides `n` by ten.
unfoldable pub decimal : ℕ → Text
unfolding decimal_from
decimal n = decimal_from (suc n) n

unfoldable pub pad_zeros : ℕ → Text → Text
pad_zeros width s = replicate (width - length s) b'0' ++ s

decimal-max : decimal 18446744073709551615 ≡ codes "18446744073709551615"
unfolding decimal
decimal-max = refl

pad_zeros-one : pad_zeros 8 (decimal 1) ≡ codes "00000001"
unfolding pad_zeros decimal
pad_zeros-one = refl
