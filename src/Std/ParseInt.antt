-- ===== src/Std/ParseInt.antt =====
-- `str::parse::<u64>()`: an optional plus sign and digits, with the ways in which it fails.
pub mod Laws
use bipa_coding_challenge.Common.{
  ℕ, ◌+◌, ◌-◌, ◌*◌, ◌^◌, ◌≡◌, refl, ◌||◌, [], ◌∷◌, Text, codes, ltb, ◌==◌, if◌then◌else◌, Result,
  ok, err,
}

pub data ParseIntError : Type 0 where
  empty invalid_digit pos_overflow : ParseIntError

-- One round for each character: the digit is tested before the overflow.
pub scan_u64 : ℕ → Text → Result ℕ ParseIntError
scan_u64 n [] = ok n
scan_u64 n (c ∷ s) =
    let rest = scan_u64 (n * 10 + (c - b'0')) s in
    if ltb c b'0' || ltb b'9' c
    then err invalid_digit
    else if ltb (n * 10 + (c - b'0')) (2 ^ 64)
    then rest
    else err pos_overflow

-- A plus sign alone is an invalid digit, and a minus sign always is.
unfoldable pub parse_u64 : Text → Result ℕ ParseIntError
unfolding scan_u64
parse_u64 [] = err empty
parse_u64 (c ∷ []) = if c == b'+' then err invalid_digit else scan_u64 0 (c ∷ [])
parse_u64 (c ∷ d ∷ s) = if c == b'+' then scan_u64 0 (d ∷ s) else scan_u64 0 (c ∷ d ∷ s)

parse_u64-tests :
    (parse_u64 (codes "+60") ≡ ok 60)
    × (parse_u64 (codes "-1") ≡ err invalid_digit)
    × (parse_u64 (codes "+") ≡ err invalid_digit)
    × (parse_u64 (codes "18446744073709551616") ≡ err pos_overflow)
unfolding parse_u64
parse_u64-tests = (refl, refl, refl, refl)
