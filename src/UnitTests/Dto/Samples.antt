-- ===== src/UnitTests/Dto/Samples.antt =====
-- The JSON records of the unit tests of src/source/dto.rs.
use Prim.Native.String.{String}
use bipa_coding_challenge.Common.{◌-◌, ◌^◌, Text, List, [], ◌∷◌, codes}
use bipa_coding_challenge.Common.Int.{ℤ, pos, negsuc}
use bipa_coding_challenge.UnitTests.Dto.Trees.{Tree, null, number, text, object, members, texts}

abbrev pub acinq_key : Text
acinq_key = codes "03864ef025fde8fb587d989186ce6a4a186895ee44a926bfc370e2c366597a3f8f"

abbrev pub wos_key : Text
wos_key = codes "035e4ff418fc8b5554c5d9eea66396c227bd429a3251c8cbc711002ba215bfc226"

-- The two records of the example from the challenge statement.
abbrev pub acinq_record : Tree
acinq_record = object (
    members (
      (codes "publicKey", text acinq_key)
      ∷ (codes "alias", text (codes "ACINQ"))
      ∷ (codes "channels", number (pos 2908))
      ∷ (codes "capacity", number (pos 36_010_516_297))
      ∷ (codes "firstSeen", number (pos 1_522_941_222))
      ∷ (codes "updatedAt", number (pos 1_661_274_935))
      ∷ (codes "city", null)
      ∷ (
        codes "country",
        texts (
            (codes "de", codes "Vereinigte Staaten")
            ∷ (codes "en", codes "United States")
            ∷ (codes "es", codes "Estados Unidos")
            ∷ (codes "fr", codes "États Unis")
            ∷ (codes "ja", codes "アメリカ")
            ∷ (codes "pt-BR", codes "EUA")
            ∷ (codes "ru", codes "США")
            ∷ (codes "zh-CN", codes "美国")
            ∷ []),
      )
      ∷ []))

abbrev pub wos_record : Tree
wos_record = object (
    members (
      (codes "publicKey", text wos_key)
      ∷ (codes "alias", text (codes "WalletOfSatoshi.com"))
      ∷ (codes "channels", number (pos 2772))
      ∷ (codes "capacity", number (pos 15_464_503_162))
      ∷ (codes "firstSeen", number (pos 1_601_429_940))
      ∷ (codes "updatedAt", number (pos 1_661_812_116))
      ∷ (
        codes "city",
        texts (
            (codes "de", codes "Vancouver")
            ∷ (codes "en", codes "Vancouver")
            ∷ (codes "es", codes "Vancouver")
            ∷ (codes "fr", codes "Vancouver")
            ∷ (codes "ja", codes "バンクーバー市")
            ∷ (codes "pt-BR", codes "Vancôver")
            ∷ (codes "ru", codes "Ванкувер")
            ∷ []),
      )
      ∷ (
        codes "country",
        texts (
            (codes "de", codes "Kanada")
            ∷ (codes "en", codes "Canada")
            ∷ (codes "es", codes "Canadá")
            ∷ (codes "fr", codes "Canada")
            ∷ (codes "ja", codes "カナダ")
            ∷ (codes "pt-BR", codes "Canadá")
            ∷ (codes "ru", codes "Канада")
            ∷ (codes "zh-CN", codes "加拿大")
            ∷ []),
      )
      ∷ []))

abbrev pub challenge_example : List Tree
challenge_example = acinq_record ∷ wos_record ∷ []

-- A record of the test that skips records.
abbrev pub sample : String → String → ℤ → ℤ → Tree
sample key alias capacity first_seen = object (
    members (
      (codes "publicKey", text (codes key))
      ∷ (codes "alias", text (codes alias))
      ∷ (codes "capacity", number capacity)
      ∷ (codes "firstSeen", number first_seen)
      ∷ []))

abbrev pub mixed_records : List Tree
mixed_records =
    sample "a" "ok-1" (pos 1) (pos 0)
    ∷ sample "b" "negative" (negsuc 4) (pos 0)
    ∷ object (
        members (
          (codes "publicKey", text (codes "c"))
          ∷ (codes "alias", text (codes "missing capacity"))
          ∷ (codes "firstSeen", number (pos 0))
          ∷ []))
    ∷ sample "d" "ok-2" (pos 2) (pos 0)
    ∷ sample "" "empty key" (pos 3) (pos 0)
    ∷ sample "f" "bad ts" (pos 4) (pos (2 ^ 63 - 1))
    ∷ text (codes "not an object")
    ∷ sample "g" "ok-3" (pos 5) (pos 0)
    ∷ []
