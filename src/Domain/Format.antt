-- ===== src/Domain/Format.antt =====
-- src/domain/format.rs, the capacity: satoshis as a BTC amount with 8 decimals.
pub mod RoundTrip
use bipa_coding_challenge.Common.{ℕ, ◌/◌, ◌%◌, ◌≡◌, refl, ◌∷◌, ◌++◌, Text, codes}
use bipa_coding_challenge.Std.Decimal.{decimal, pad_zeros}

abbrev pub sats_per_btc : ℕ
sats_per_btc = 100_000_000

-- format!("{}.{:08}", sats / SATS_PER_BTC, sats % SATS_PER_BTC)
unfoldable pub format_btc : ℕ → Text
unfolding decimal pad_zeros
format_btc sats =
    decimal (sats / sats_per_btc) ++ b'.' ∷ pad_zeros 8 (decimal (sats % sats_per_btc))

format_btc-tests :
    (format_btc 36_010_516_297 ≡ codes "360.10516297")
    × (format_btc 550_000 ≡ codes "0.00550000")
    × (format_btc 18446744073709551615 ≡ codes "184467440737.09551615")
unfolding format_btc
format_btc-tests = (refl, refl, refl)
