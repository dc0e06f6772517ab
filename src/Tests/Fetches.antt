-- ===== src/Tests/Fetches.antt =====
-- A client, answers of the network, and the records that they deliver.
use bipa_coding_challenge.Common.{ℕ, refl, List, [], ◌∷◌, codes, ok, arith}
use bipa_coding_challenge.Source.Mempool.{Response, MempoolClient}
use bipa_coding_challenge.Source.Mempool.Fetch.{Delivers}
use bipa_coding_challenge.Tests.Outside.{seconds_chrono, bytes_json, byte_record, scripted_reqwest}

abbrev pub client : MempoolClient scripted_reqwest
client = record { http = (codes "bipa-nodes/0.1.0", 10); url = codes "https://mempool.space" }

-- Three records: the second one is malformed.
abbrev pub body : List ℕ
body = b'[' ∷ 7 ∷ 0 ∷ 9 ∷ []

abbrev pub good : Response
good = record { code = 200; bytes = ok body }

abbrev pub bad : Response
bad = record { code = 503; bytes = ok [] }

abbrev pub records : List bytes_json.Value
records = byte_record 7 ∷ byte_record 0 ∷ byte_record 9 ∷ []

pub delivers : Delivers scripted_reqwest seconds_chrono bytes_json client (ok good ∷ []) records
delivers = record {
  response = good;
  body = body;
  sent = refl;
  success = (omega arith, omega arith);
  read = refl;
  decoded = refl;
}

-- One key in two records.
abbrev pub doubled : Response
doubled = record { code = 200; bytes = ok (b'[' ∷ 7 ∷ 7 ∷ []) }

abbrev pub doubled_records : List bytes_json.Value
doubled_records = byte_record 7 ∷ byte_record 7 ∷ []

pub doubled-Delivers :
    Delivers scripted_reqwest seconds_chrono bytes_json client (ok doubled ∷ []) doubled_records
doubled-Delivers = record {
  response = doubled;
  body = b'[' ∷ 7 ∷ 7 ∷ [];
  sent = refl;
  success = (omega arith, omega arith);
  read = refl;
  decoded = refl;
}
