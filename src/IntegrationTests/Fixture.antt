-- ===== src/IntegrationTests/Fixture.antt =====
-- tests/fixtures/mempool_rankings.json, as `include_str!` hands it to the tests, and what the tests know
-- of it.
use Prim.Native.String.{String}
use bipa_coding_challenge.Common.{Text, List, [], ◌∷◌, ◌++◌, codes}

-- A text by its lines.
abbrev file : List String → Text
file [] = []
file (line ∷ more) = codes line ++ b'\n' ∷ file more

abbrev lines : List String
lines =
    "[" ∷ "  {"
    ∷ "    \"publicKey\": \"03864ef025fde8fb587d989186ce6a4a186895ee44a926bfc370e2c366597a3f8f\","
    ∷ "    \"alias\": \"ACINQ\"," ∷ "    \"channels\": 1836," ∷ "    \"capacity\": 36101511053,"
    ∷ "    \"firstSeen\": 1522941222," ∷ "    \"updatedAt\": 1788077266," ∷ "    \"city\": null,"
    ∷ "    \"country\": {" ∷ "      \"de\": \"Vereinigte Staaten\","
    ∷ "      \"en\": \"United States\"," ∷ "      \"es\": \"Estados Unidos\","
    ∷ "      \"fr\": \"États Unis\"," ∷ "      \"ja\": \"アメリカ\"," ∷ "      \"pt-BR\": \"EUA\","
    ∷ "      \"ru\": \"США\"," ∷ "      \"zh-CN\": \"美国\"" ∷ "    }," ∷ "    \"iso_code\": \"US\","
    ∷ "    \"subdivision\": null" ∷ "  }," ∷ "  {"
    ∷ "    \"publicKey\": \"0217890e3aad8d35bc054f43acc00084b25229ecff0ab68debd82883ad65ee8266\","
    ∷ "    \"alias\": \"1ML.com node ALPHA\"," ∷ "    \"channels\": 1683,"
    ∷ "    \"capacity\": 768315362," ∷ "    \"firstSeen\": 1529506821,"
    ∷ "    \"updatedAt\": 1788076520," ∷ "    \"city\": {" ∷ "      \"de\": \"New York City\","
    ∷ "      \"en\": \"New York\"," ∷ "      \"es\": \"Nueva York\","
    ∷ "      \"fr\": \"New York\"," ∷ "      \"ja\": \"ニューヨーク\","
    ∷ "      \"pt-BR\": \"Nova Iorque\"," ∷ "      \"ru\": \"Нью-Йорк\"" ∷ "    },"
    ∷ "    \"country\": {" ∷ "      \"de\": \"Vereinigte Staaten\","
    ∷ "      \"en\": \"United States\"," ∷ "      \"es\": \"Estados Unidos\","
    ∷ "      \"fr\": \"États Unis\"," ∷ "      \"ja\": \"アメリカ\"," ∷ "      \"pt-BR\": \"EUA\","
    ∷ "      \"ru\": \"США\"," ∷ "      \"zh-CN\": \"美国\"" ∷ "    }," ∷ "    \"iso_code\": \"US\","
    ∷ "    \"subdivision\": \"{\\\"de\\\":\\\"New York\\\",\\\"en\\\":\\\"New York\\\",\\\"es\\\":\\\"Nueva York\\\",\\\"fr\\\":\\\"New York\\\",\\\"ja\\\":\\\"ニューヨーク州\\\",\\\"pt-BR\\\":\\\"Nova Iorque\\\",\\\"ru\\\":\\\"Нью-Йорк\\\",\\\"zh-CN\\\":\\\"纽约州\\\"}\""
    ∷ "  }," ∷ "  {"
    ∷ "    \"publicKey\": \"0242a4ae0c5bef18048fbecf995094b74bfb0f7391418d71ed394784373f41e4f3\","
    ∷ "    \"alias\": \"CoinGate\"," ∷ "    \"channels\": 1315," ∷ "    \"capacity\": 1749177700,"
    ∷ "    \"firstSeen\": 1528159480," ∷ "    \"updatedAt\": 1788077190," ∷ "    \"city\": {"
    ∷ "      \"de\": \"Frankfurt am Main\"," ∷ "      \"en\": \"Frankfurt am Main\","
    ∷ "      \"es\": \"Francfort\"," ∷ "      \"fr\": \"Francfort-sur-le-Main\","
    ∷ "      \"ja\": \"フランクフルト・アム・マイン\"," ∷ "      \"pt-BR\": \"Frankfurt am Main\","
    ∷ "      \"ru\": \"Франкфурт\"," ∷ "      \"zh-CN\": \"法兰克福\"" ∷ "    }," ∷ "    \"country\": {"
    ∷ "      \"de\": \"Deutschland\"," ∷ "      \"en\": \"Germany\","
    ∷ "      \"es\": \"Alemania\"," ∷ "      \"fr\": \"Allemagne\"," ∷ "      \"ja\": \"ドイツ連邦共和国\","
    ∷ "      \"pt-BR\": \"Alemanha\"," ∷ "      \"ru\": \"Германия\"," ∷ "      \"zh-CN\": \"德国\""
    ∷ "    }," ∷ "    \"iso_code\": \"DE\","
    ∷ "    \"subdivision\": \"{\\\"de\\\":\\\"Hessen\\\",\\\"en\\\":\\\"Hesse\\\",\\\"es\\\":\\\"Hessen\\\",\\\"fr\\\":\\\"Hesse\\\",\\\"ru\\\":\\\"Гессен\\\"}\""
    ∷ "  }," ∷ "  {"
    ∷ "    \"publicKey\": \"035b1ff29e8db1ba8f2a4f4f95db239b54069cb949b8cde329418e2a83da4f1b30\","
    ∷ "    \"alias\": \"DiamondHands💎🙌\"," ∷ "    \"channels\": 327,"
    ∷ "    \"capacity\": 1655780892," ∷ "    \"firstSeen\": 1617669406,"
    ∷ "    \"updatedAt\": 1732946532," ∷ "    \"city\": null," ∷ "    \"country\": {"
    ∷ "      \"de\": \"Litauen\"," ∷ "      \"en\": \"Lithuania\"," ∷ "      \"es\": \"Lituania\","
    ∷ "      \"fr\": \"Lituanie\"," ∷ "      \"ja\": \"リトアニア共和国\","
    ∷ "      \"pt-BR\": \"Lituânia\"," ∷ "      \"ru\": \"Литва\"," ∷ "      \"zh-CN\": \"立陶宛\""
    ∷ "    }," ∷ "    \"iso_code\": \"LT\"," ∷ "    \"subdivision\": null" ∷ "  }," ∷ "  {"
    ∷ "    \"publicKey\": \"02f6155b106a9f92a13738833ec7e25da58fab1fdef3ac085571c3984bb277d547\","
    ∷ "    \"alias\": \"VIVA\"," ∷ "    \"channels\": 204," ∷ "    \"capacity\": 1925958949,"
    ∷ "    \"firstSeen\": 1583255167," ∷ "    \"updatedAt\": 1788077198," ∷ "    \"city\": null,"
    ∷ "    \"country\": null," ∷ "    \"iso_code\": null," ∷ "    \"subdivision\": null" ∷ "  }"
    ∷ "]" ∷ []

abbrev pub fixture : Text
fixture = file lines

abbrev pub fixture_aliases : List Text
fixture_aliases =
    codes "ACINQ"
    ∷ codes "1ML.com node ALPHA"
    ∷ codes "CoinGate"
    ∷ codes "DiamondHands💎🙌"
    ∷ codes "VIVA"
    ∷ []

abbrev pub acinq_key : Text
acinq_key = codes "03864ef025fde8fb587d989186ce6a4a186895ee44a926bfc370e2c366597a3f8f"
